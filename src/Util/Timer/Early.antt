-- ===== src/Util/Timer/Early.antt =====
-- What `tick` leaves alone, and the size of the heap.
use hpserver.Prelude.{
  ℕ, zero, suc, ◌+◌, ◌*◌, ◌≤◌, ◌<◌, ◌≡◌, ◌≢◌, ◌∙◌, refl, ap, subst, arith, true, false, ltb, ◌==◌,
  ==_iff, some, List, [], ◌∷◌, Bool-cases, Option-cases, ◌⊎◌, inl, inr, length, Ensures, pos,
}
use hpserver.Util.Timer.{
  Node, Entry, Timer, find, push, erase, node_of, is_current, rebuild, drop_stale,
  discard_stale_top, fire_top, tick_rounds, tick, maybe_compact_heap, add, remove, schedule, after,
  next_version, compact_min_heap_size, compact_ratio_threshold,
}
use hpserver.Util.Timer.Entries.{find-erase}
use hpserver.Util.Timer.Heap.{length-drop_stale}
use hpserver.Util.Timer.Live.{IsValid, discard_stale_top-IsValid, skip-IsValid, pop-IsValid}

length-push : (n : Node) (h : List Node) → length (push n h) ≡ suc (length h)
unfolding push
length-push n [] = refl
length-push n (m ∷ h) = ground (arith, length-push n h)

module _ {C : Type 0} where
  -- The first node that is not stale is current.
  AreCurrent : List Node → List (ℕ × Entry C) → Type 0
  AreCurrent [] entries = Unit
  AreCurrent (n ∷ h) entries = is_current n (find n.id entries) ≡ true

  drop_stale-AreCurrent :
      (entries : List (ℕ × Entry C)) (h : List Node) → AreCurrent (drop_stale entries h) entries
  unfolding AreCurrent drop_stale
  drop_stale-AreCurrent entries [] = tt
  drop_stale-AreCurrent entries (n ∷ h) = elim (Bool-cases (is_current n (find n.id entries))) [
    | inl c ↦ rw c c
    | inr c ↦ rw c (drop_stale-AreCurrent entries h)
  ]

  -- The callback is not among those called.
  abbrev pub IsUncalled : C → List C → Type 0
  IsUncalled c [] = Unit
  IsUncalled c (d ∷ ds) = (d ≢ c) × IsUncalled c ds

  module _ (id : ℕ) (e : Entry C) where
    -- No other entry has the callback of this one.
    abbrev pub IsOwn : List (ℕ × Entry C) → Type 0
    IsOwn entries =
        (k : ℕ) (g : Entry C) → find k entries ≡ some g → k == id ≡ false → g.callback ≢ e.callback

    -- The entry is there, in a timer that is well formed.
    abbrev pub IsThere : Timer C → Type 0
    IsThere t = IsValid t × (find id t.entries ≡ some e) × IsOwn t.entries

    IsOwn-erase : (n : ℕ) (t : Timer C) → IsValid t → IsOwn t.entries → IsOwn (erase n t.entries)
    IsOwn-erase n t v own k g f d = own k g (ground (arith, f, find-erase n k t.entries v.1)) d

    module _ {S : Type 0} (call : C → Timer C × S → Timer C × S) (clock : ℕ → ℕ) where
      -- What the other callbacks do to the timer: they leave the entry and its timer as above, and
      -- add no more nodes than are gone.
      abbrev pub Spares : Type 0
      Spares =
          (c : C) (t : Timer C) (s : S)
          → c ≢ e.callback
          → IsThere t
          → IsThere (call c (t, s)).0 × (length (call c (t, s)).0.heap ≤ length t.heap)

      -- A callback is run, and noted.
      abbrev pub noted : C → Timer C × (S × List C) → Timer C × (S × List C)
      noted c (t, (s, called)) = let (t', s') = call c (t, s) in (t', (s', c ∷ called))

      abbrev Stays : Timer C × (S × List C) → Type 0
      Stays (t, (s, called)) = IsThere t × IsUncalled e.callback called

      -- A round leaves the entry, and takes a node off.
      abbrev Goes : Timer C → Timer C × (S × List C) → Type 0
      Goes t r = Stays r × (length r.0.heap < length t.heap)

      fire_top-Goes :
          Spares
          → ((i : ℕ) → clock i < e.expires_at)
          → (i : ℕ) (h : List Node) (entries : List (ℕ × Entry C)) (s : S) (called : List C)
          → IsThere (record { heap = h; entries = entries })
          → AreCurrent h entries
          → IsUncalled e.callback called
          → Ensures
              (Goes (record { heap = h; entries = entries }))
              (fire_top noted clock i h (record { heap = h; entries = entries }) (s, called))
      unfolding AreCurrent
      fire_top-Goes m l i [] entries s called w c u = tt
      fire_top-Goes m l i (n ∷ h) entries s called (v, f, own) c u =
          elim (Bool-cases (ltb (clock i) n.expires_at)) [
            | inl b ↦ rw b tt
            | inr b ↦ elim (Option-cases (find n.id entries)) [
              | inl q ↦ rw (b, q) (((skip-IsValid n h entries q v, f, own), u), omega arith)
              | inr (g, q) ↦
                  let t : Timer C = record { heap = h; entries = erase n.id entries } in
                  let whole : Timer C = record { heap = n ∷ h; entries = entries } in
                  let other : n.id == id ≡ false = ground (
                    arith,
                    b,
                    q,
                    c,
                    f,
                    l i,
                    ==_iff n.id id,
                    ap (λ k. find k entries),
                    ==_iff g.expires_at n.expires_at,
                  ) in
                  let differs = own n.id g q other in
                  let k = m g.callback t s differs (
                    pop-IsValid n h entries v,
                    find-erase n.id id entries v.1 ∙ rw other f,
                    IsOwn-erase n.id whole v own,
                  ) in
                  rw (b, q) ((k.0, (differs, u)), omega (arith, k.1))
            ]
          ]

      tick_rounds-Stays :
          Spares
          → ((i : ℕ) → clock i < e.expires_at)
          → (fuel i : ℕ) (t : Timer C) (s : S) (called : List C) → IsThere t
          → IsUncalled e.callback called
          → length t.heap < fuel
          → (r : Timer C × (S × List C)) × (tick_rounds noted clock fuel i t (s, called) ≡ some r)
            × Stays r
      unfolding tick_rounds discard_stale_top
      tick_rounds-Stays m l zero i t s called w u k = absurd (omega (arith, k))
      tick_rounds-Stays m l (suc fuel) i t s called (v, f, own) u k =
          let t' = discard_stale_top t in
          let w : IsThere t' = (discard_stale_top-IsValid t v, f, own) in
          let g =
            fire_top-Goes m l i t'.heap t'.entries s called w
              (drop_stale-AreCurrent t.entries t.heap) u in
          elim (Option-cases (fire_top noted clock i t'.heap t' (s, called))) [
            | inl q ↦ rw (q, tick_rounds) ((t', (s, called)), refl, (w, u))
            | inr (r, q) ↦
                let j : Goes t' r = subst (Ensures (Goes t')) q g in
                rw (q, tick_rounds)
                  (tick_rounds-Stays m l fuel (i + 1) r.0 r.1.0 r.1.1 j.0.0 j.0.1
                    (omega (arith, k, j.1, length-drop_stale t.entries t.heap)))
          ]

      -- An entry of a well-formed timer that expires after each reading of the clock, and whose callback
      -- no other entry has: a tick ends, the entry is still in the timer, and its callback is not among
      -- those that the tick has run. This takes that each of the other callbacks keeps the timer well
      -- formed with the entry in it, gives no other entry that callback, and adds no more nodes to the
      -- heap than are gone.
      pub tick-Stays :
          Spares
          → ((i : ℕ) → clock i < e.expires_at)
          → (t : Timer C) (s : S) → IsThere t
          → (r : Timer C × (S × List C)) × (tick noted clock t (s, []) ≡ some r)
            × (find id r.0.entries ≡ some e)
            × IsUncalled e.callback r.1.1
      unfolding tick
      tick-Stays m l t s w =
          let (r, q, stays) =
            tick_rounds-Stays m l (suc (length t.heap)) 0 t s [] w tt (omega arith) in
          (r, q, stays.0.1, stays.1)

  length-rebuild : (entries : List (ℕ × Entry C)) → length (rebuild entries) ≡ length entries
  unfolding rebuild
  length-rebuild [] = refl
  length-rebuild ((id, e) ∷ entries) =
      length-push (node_of id e) (rebuild entries) ∙ ap suc (length-rebuild entries)

  maybe_compact_heap-length :
      (t : Timer C)
      → (length (maybe_compact_heap t).heap ≤ length t.heap)
        × ((length (maybe_compact_heap t).heap < compact_min_heap_size)
            ⊎ (length (maybe_compact_heap t).heap
                ≤ length (maybe_compact_heap t).entries * compact_ratio_threshold))
  unfolding maybe_compact_heap
  maybe_compact_heap-length t = ground (arith, length-rebuild t.entries)

  pub remove-length : (id : ℕ) (t : Timer C) → length (remove id t).heap ≤ length t.heap
  unfolding remove
  remove-length id t = (maybe_compact_heap-length (record t { entries = erase id t.entries })).0

  -- No heap of stale nodes: fewer than 4096 nodes, or at most four for each entry.
  abbrev pub IsCompact : Timer C → Type 0
  IsCompact t =
      (length t.heap < compact_min_heap_size)
      ⊎ (length t.heap ≤ length t.entries * compact_ratio_threshold)

  -- After `add`, for an id from 0 on, and after `remove`, the heap has fewer than 4096 nodes or at most
  -- four for each entry, whatever it had before.
  pub add-remove-IsCompact :
      (id timeout_ms : ℕ) (callback : C) (now : ℕ) (t : Timer C)
      → IsCompact (add (pos id) timeout_ms callback now t) × IsCompact (remove id t)
  unfolding add remove
  add-remove-IsCompact id timeout_ms callback now t = (
    (maybe_compact_heap-length
        (schedule id (after now timeout_ms) callback (next_version (find id t.entries)) t)).1,
    (maybe_compact_heap-length (record t { entries = erase id t.entries })).1,
  )
