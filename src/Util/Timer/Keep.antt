-- ===== src/Util/Timer/Keep.antt =====
-- What a tick keeps, and what the operations do to the map.
use hpserver.Prelude.{
  some, ==_iff, ℕ, zero, suc, ◌+◌, ◌%◌, ◌^◌, ◌≡◌, ◌∙◌, refl, ap, subst, arith, false, ltb, ◌==◌,
  none, List, [], ◌∷◌, if◌then◌else◌, Bool-cases, Option-cases, inl, inr, length, Ensures, pos,
}
use hpserver.Util.Timer.{
  Node, Entry, Timer, find, erase, discard_stale_top, fire_top, tick_rounds, tick,
  maybe_compact_heap, add, adjust, remove, schedule, next_version, after,
}
use hpserver.Util.Timer.Entries.{Distinct, find-assign, find-erase}

module _ {C : Type 0} where
  maybe_compact_heap-entries : (t : Timer C) → (maybe_compact_heap t).entries ≡ t.entries
  unfolding maybe_compact_heap
  maybe_compact_heap-entries t = ground arith

  pub find-remove :
      (id j : ℕ) (t : Timer C)
      → Distinct t.entries
      → find j (remove id t).entries ≡ (if id == j then none else find j t.entries)
  unfolding remove
  find-remove id j t d =
      ap (find j) (maybe_compact_heap-entries (record t { entries = erase id t.entries }))
      ∙ find-erase id j t.entries d

  pub find-add :
      (id timeout_ms : ℕ) (callback : C) (now j : ℕ) (t : Timer C)
      → id == j ≡ false
      → find j (add (pos id) timeout_ms callback now t).entries ≡ find j t.entries
  unfolding add
  find-add id timeout_ms callback now j t e =
      let version = next_version (find id t.entries) in
      let x : Entry C = record {
        expires_at = after now timeout_ms;
        callback = callback;
        version = version;
      } in
      ap (find j)
        (maybe_compact_heap-entries (schedule id (after now timeout_ms) callback version t))
      ∙ find-assign id j x t.entries
      ∙ rw e refl

  -- The entry that an `add` makes, and the one that an `adjust` leaves.
  pub find-add_self :
      (id timeout_ms : ℕ) (callback : C) (now : ℕ) (t : Timer C)
      → (e : Entry C) × (find id (add (pos id) timeout_ms callback now t).entries ≡ some e)
        × (e.callback ≡ callback)
  unfolding add
  find-add_self id timeout_ms callback now t =
      let version = next_version (find id t.entries) in
      let x : Entry C = record {
        expires_at = after now timeout_ms;
        callback = callback;
        version = version;
      } in
      (
        x,
        ap (find id)
              (maybe_compact_heap-entries (schedule id (after now timeout_ms) callback version t))
            ∙ find-assign id id x t.entries
            ∙ rw ((==_iff id id).1 refl) refl,
        refl,
      )

  pub find-adjust_self :
      (id timeout_ms now : ℕ) (t : Timer C) (e : Entry C)
      → find id t.entries ≡ some e
      → (f : Entry C) × (find id (adjust id timeout_ms now t).entries ≡ some f)
        × (f.callback ≡ e.callback)
  unfolding adjust
  find-adjust_self id timeout_ms now t e h =
      let version = (e.version + 1) % 2 ^ 64 in
      let x : Entry C = record {
        expires_at = after now timeout_ms;
        callback = e.callback;
        version = version;
      } in
      (
        x,
        rw (h, adjust)
            (ap (find id) (
                maybe_compact_heap-entries
                  (schedule id (after now timeout_ms) e.callback version t))
              ∙ find-assign id id x t.entries
              ∙ rw ((==_iff id id).1 refl) refl),
        refl,
      )

  pub find-adjust :
      (id timeout_ms now j : ℕ) (t : Timer C)
      → id == j ≡ false
      → find j (adjust id timeout_ms now t).entries ≡ find j t.entries
  unfolding adjust
  find-adjust id timeout_ms now j t e = elim (Option-cases (find id t.entries)) [
    | inl f ↦ rw (f, adjust) refl
    | inr (g, f) ↦
        let version = (g.version + 1) % 2 ^ 64 in
        let x : Entry C = record {
          expires_at = after now timeout_ms;
          callback = g.callback;
          version = version;
        } in
        rw (f, adjust)
          (ap (find j)
              (maybe_compact_heap-entries (schedule id (after now timeout_ms) g.callback version t))
            ∙ find-assign id j x t.entries
            ∙ rw e refl)
  ]

  -- A row of properties of the timer and the state that a tick keeps.
  module _ {S : Type 0} (call : C → Timer C × S → Timer C × S) (clock : ℕ → ℕ)
      (Q : Timer C → S → Type 0) where
    abbrev pub Keeps : Type 0
    Keeps =
        ((t : Timer C) (s : S) → Q t s → Q (discard_stale_top t) s)
        × ((n : Node) (h : List Node) (entries : List (ℕ × Entry C)) (s : S)
            → find n.id entries ≡ none
            → Q (record { heap = n ∷ h; entries = entries }) s
            → Q (record { heap = h; entries = entries }) s)
        × ((n : Node) (h : List Node) (entries : List (ℕ × Entry C)) (e : Entry C) (s : S)
            → find n.id entries ≡ some e
            → Q (record { heap = n ∷ h; entries = entries }) s
            → let r = call e.callback (record { heap = h; entries = erase n.id entries }, s) in
              Q r.0 r.1)

    fire_top-Q :
        Keeps
        → (i : ℕ) (h : List Node) (entries : List (ℕ × Entry C)) (s : S)
        → Q (record { heap = h; entries = entries }) s
        → Ensures
            (λ (r : Timer C × S). Q r.0 r.1)
            (fire_top call clock i h (record { heap = h; entries = entries }) s)
    fire_top-Q m i [] entries s q = tt
    fire_top-Q m i (n ∷ h) entries s q = elim (Bool-cases (ltb (clock i) n.expires_at)) [
      | inl b ↦ rw b tt
      | inr b ↦ elim (Option-cases (find n.id entries)) [
        | inl f ↦ rw (b, f) (m.1 n h entries s f q)
        | inr (e, f) ↦ rw (b, f) (m.2 n h entries e s f q)
      ]
    ]

    tick_rounds-Q :
        Keeps
        → (fuel i : ℕ) (t : Timer C) (s : S) → Q t s
        → Ensures (λ (r : Timer C × S). Q r.0 r.1) (tick_rounds call clock fuel i t s)
    unfolding tick_rounds
    tick_rounds-Q m zero i t s q = tt
    tick_rounds-Q m (suc fuel) i t s q =
        let u = discard_stale_top t in
        let w = m.0 t s q in
        let k = fire_top-Q m i u.heap u.entries s w in
        elim (Option-cases (fire_top call clock i u.heap u s)) [
          | inl e ↦ rw (e, tick_rounds) w
          | inr (r, e) ↦
              let g : Q r.0 r.1 = subst (Ensures (λ (r : Timer C × S). Q r.0 r.1)) e k in
              rw (e, tick_rounds) (tick_rounds-Q m fuel (i + 1) r.0 r.1 g)
        ]

    pub tick-Q :
        Keeps
        → (t : Timer C) (s : S) → Q t s
        → Ensures (λ (r : Timer C × S). Q r.0 r.1) (tick call clock t s)
    unfolding tick
    tick-Q m t s q = tick_rounds-Q m (suc (length t.heap)) 0 t s q
