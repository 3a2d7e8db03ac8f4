-- ===== src/Util/Timer/Tick.antt =====
-- `tick`: what is left when it has run.
use hpserver.Prelude.{
  ℕ, zero, suc, ◌+◌, ◌≤◌, ◌<◌, ◌≡◌, refl, ap, subst, arith, ltb, Option, none, some, List, [], ◌∷◌,
  Bool-cases, Option-cases, inl, inr, length,
}
use hpserver.Util.Timer.{
  Node, Entry, Timer, find, erase, node_of, discard_stale_top, fire_top, tick_rounds, tick,
}
use hpserver.Util.Timer.Heap.{IsSorted, AreFrom-Has, length-drop_stale}
use hpserver.Util.Timer.Live.{
  IsCovered, IsValid, discard_stale_top-IsValid, skip-IsValid, pop-IsValid,
}

module _ {C : Type 0} where
  -- Each entry expires later than `time`.
  abbrev pub AreAfter : ℕ → Timer C → Type 0
  AreAfter time t = (id : ℕ) (e : Entry C) → find id t.entries ≡ some e → time < e.expires_at

  AreFrom_AreAfter :
      (time : ℕ) (n : Node) (h : List Node) (entries : List (ℕ × Entry C))
      → time < n.expires_at
      → IsSorted (n ∷ h)
      → IsCovered (n ∷ h) entries
      → AreAfter time (record { heap = n ∷ h; entries = entries })
  AreFrom_AreAfter time n h entries l s c id e f = elim (c id e f) [
    | inl q ↦ ground (arith, l, ap (λ (m : Node). m.expires_at) q)
    | inr k ↦ omega (arith, l, AreFrom-Has n.expires_at (node_of id e) h s.0 k)
  ]

  module _ {S : Type 0} (call : C → Timer C × S → Timer C × S) (clock : ℕ → ℕ) where
    -- What a callback may do to the timer: it keeps it well formed, and adds no more nodes than are
    -- gone.
    abbrev pub IsMild : Type 0
    IsMild =
        (c : C) (t : Timer C) (s : S)
        → IsValid t
        → IsValid (call c (t, s)).0 × (length (call c (t, s)).0.heap ≤ length t.heap)

    abbrev Settled : Option (Timer C × S) → Type 0
    Settled o = (r : Timer C × S) × (o ≡ some r) × IsValid r.0 × AreAfter (clock 0) r.0

    -- A round takes a node off, or it is the last one.
    Fires : ℕ → Timer C → Option (Timer C × S) → Type 0
    Fires i t none = AreAfter (clock i) t
    Fires i t (some (t', s')) = IsValid t' × (length t'.heap < length t.heap)

    fire_top-Fires :
        IsMild
        → (i : ℕ) (h : List Node) (entries : List (ℕ × Entry C)) (s : S)
        → IsValid (record { heap = h; entries = entries })
        → Fires i
            (record { heap = h; entries = entries })
            (fire_top call clock i h (record { heap = h; entries = entries }) s)
    unfolding Fires
    fire_top-Fires m i [] entries s v = λ id e f. elim (v.2 id e f) [ ]
    fire_top-Fires m i (n ∷ h) entries s v = elim (Bool-cases (ltb (clock i) n.expires_at)) [
      | inl b ↦ rw b (AreFrom_AreAfter (clock i) n h entries (ground (arith, b)) v.0 v.2)
      | inr b ↦ elim (Option-cases (find n.id entries)) [
        | inl q ↦ rw (b, q) (skip-IsValid n h entries q v, omega arith)
        | inr (e, q) ↦
            rw (b, q)
              (let t : Timer C = record { heap = h; entries = erase n.id entries } in
                let k = m e.callback t s (pop-IsValid n h entries v) in (k.0, omega (arith, k.1)))
      ]
    ]

    tick_rounds-Settled :
        IsMild
        → ((i : ℕ) → clock 0 ≤ clock i)
        → (fuel i : ℕ) (t : Timer C) (s : S) → IsValid t
        → length t.heap < fuel
        → Settled (tick_rounds call clock fuel i t s)
    unfolding tick_rounds Fires discard_stale_top
    tick_rounds-Settled m up zero i t s v l = absurd (omega (arith, l))
    tick_rounds-Settled m up (suc fuel) i t s v l =
        let u = discard_stale_top t in
        let w = discard_stale_top-IsValid t v in
        let f = fire_top-Fires m i u.heap u.entries s w in
        elim (Option-cases (fire_top call clock i u.heap u s)) [
          | inl q ↦
              let g : Fires i u none = subst (Fires i u) q f in
              rw (q, tick_rounds) ((u, s), refl, w, (λ id e k. omega (arith, up i, g id e k)))
          | inr (r, q) ↦
              let g : Fires i u (some r) = subst (Fires i u) q f in
              rw (q, tick_rounds)
                (tick_rounds-Settled m up fuel (i + 1) r.0 r.1 g.0
                  (omega (arith, l, g.1, length-drop_stale t.entries t.heap)))
        ]

    -- A tick ends, if no callback adds more nodes to the heap than are gone and each keeps the timer
    -- well formed, and if the clock never reads less than at first. It leaves the timer well formed,
    -- and each entry that is left expires after the first reading of the clock: all that was due
    -- has been taken out.
    pub tick-Settled :
        IsMild
        → ((i : ℕ) → clock 0 ≤ clock i)
        → (t : Timer C) (s : S) → IsValid t
        → (r : Timer C × S) × (tick call clock t s ≡ some r) × IsValid r.0 × AreAfter (clock 0) r.0
    unfolding tick
    tick-Settled m up t s v = tick_rounds-Settled m up (suc (length t.heap)) 0 t s v (omega arith)
