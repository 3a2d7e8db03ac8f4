-- ===== src/Util/Timer/Live.antt =====
-- `add`, `adjust`, `remove` and the compaction of the heap.
use hpserver.Prelude.{
  ℕ, ◌+◌, ◌*◌, ◌%◌, ◌^◌, ◌≡◌, ◌∙◌, sym, ap, arith, ltb, leb, ◌==◌, ==_iff, none, some, List, [],
  ◌∷◌, Bool-cases, Option-cases, inl, inr, length, ℤ, pos, negsuc,
}
use hpserver.Util.Timer.{
  Node, Entry, Timer, find, push, erase, assign, node_of, schedule, maybe_compact_heap,
  compact_min_heap_size, compact_ratio_threshold, add, adjust, remove, discard_stale_top,
  next_version, after,
}
use hpserver.Util.Timer.Heap.{
  IsSorted, Has, push-IsSorted, Has-push_self, Has-push, rebuild-IsSorted, Has-rebuild,
  drop_stale-IsSorted, Has-drop_stale,
}
use hpserver.Util.Timer.Entries.{Distinct, find-assign, find-erase, assign-Distinct, erase-Distinct}

module _ {C : Type 0} where
  -- Each entry has its node in the heap.
  abbrev pub IsCovered : List Node → List (ℕ × Entry C) → Type 0
  IsCovered h entries = (id : ℕ) (e : Entry C) → find id entries ≡ some e → Has (node_of id e) h

  abbrev pub IsValid : Timer C → Type 0
  IsValid t = IsSorted t.heap × Distinct t.entries × IsCovered t.heap t.entries

  empty_IsCovered :
      (h : List Node) (entries : List (ℕ × Entry C)) → length entries ≡ 0 → IsCovered h entries
  unfolding find
  empty_IsCovered h [] l = λ id e f. absurd (ground (arith, f))
  empty_IsCovered h (x ∷ entries) l = absurd (omega (arith, l))

  pub maybe_compact_heap-IsValid : (t : Timer C) → IsValid t → IsValid (maybe_compact_heap t)
  unfolding maybe_compact_heap
  maybe_compact_heap-IsValid t v = elim (Bool-cases (ltb (length t.heap) compact_min_heap_size)) [
    | inl a ↦ rw a v
    | inr a ↦ elim (Bool-cases (length t.entries == 0)) [
      | inl b ↦
          rw (a, b) (tt, v.1, empty_IsCovered [] t.entries ((==_iff (length t.entries) 0).0 b))
      | inr b ↦
          elim (Bool-cases (leb (length t.heap) (length t.entries * compact_ratio_threshold))) [
            | inl c ↦ rw (a, b, c) v
            | inr c ↦ rw (a, b, c) (rebuild-IsSorted t.entries, v.1, Has-rebuild t.entries)
          ]
    ]
  ]

  erase-IsCovered :
      (h : List Node) (id : ℕ) (entries : List (ℕ × Entry C))
      → Distinct entries
      → IsCovered h entries
      → IsCovered h (erase id entries)
  erase-IsCovered h id entries d c j e f = c j e (ground (arith, f, find-erase id j entries d))

  assign-IsCovered :
      (h : List Node) (id : ℕ) (e : Entry C) (entries : List (ℕ × Entry C))
      → IsCovered h entries
      → IsCovered (push (node_of id e) h) (assign id e entries)
  assign-IsCovered h id e entries c j g f = elim (Bool-cases (id == j)) [
    | inl q ↦
        let same : node_of j g ≡ node_of id e =
          ground (arith, q, f, ==_iff id j, find-assign id j e entries) in
        rw same (Has-push_self (node_of id e) h)
    | inr q ↦
        Has-push (node_of j g) (node_of id e) h
          (c j g (sym (rw q at (find-assign id j e entries)) ∙ f))
  ]

  schedule-IsValid :
      (id expire : ℕ) (callback : C) (version : ℕ) (t : Timer C)
      → IsValid t
      → IsValid (schedule id expire callback version t)
  schedule-IsValid id expire callback version t v =
      let e : Entry C = record { expires_at = expire; callback = callback; version = version } in
      (
        push-IsSorted (node_of id e) t.heap v.0,
        assign-Distinct id e t.entries v.1,
        assign-IsCovered t.heap id e t.entries v.2,
      )

  pub add-IsValid :
      (id : ℤ) (timeout_ms : ℕ) (callback : C) (now : ℕ) (t : Timer C)
      → IsValid t
      → IsValid (add id timeout_ms callback now t)
  unfolding add
  add-IsValid (negsuc n) timeout_ms callback now t v = v
  add-IsValid (pos id) timeout_ms callback now t v =
      let version = next_version (find id t.entries) in
      maybe_compact_heap-IsValid (schedule id (after now timeout_ms) callback version t)
        (schedule-IsValid id (after now timeout_ms) callback version t v)

  pub adjust-IsValid :
      (id timeout_ms now : ℕ) (t : Timer C) → IsValid t → IsValid (adjust id timeout_ms now t)
  unfolding adjust
  adjust-IsValid id timeout_ms now t v = elim (Option-cases (find id t.entries)) [
    | inl n ↦ rw (n, adjust) v
    | inr (e, q) ↦
        rw (q, adjust)
          (maybe_compact_heap-IsValid
            (schedule id (after now timeout_ms) e.callback ((e.version + 1) % 2 ^ 64) t)
            (schedule-IsValid id (after now timeout_ms) e.callback ((e.version + 1) % 2 ^ 64) t v))
  ]

  pub erase-IsValid :
      (id : ℕ) (t : Timer C) → IsValid t → IsValid (record t { entries = erase id t.entries })
  erase-IsValid id t v =
      (v.0, erase-Distinct id t.entries v.1, erase-IsCovered t.heap id t.entries v.1 v.2)

  pub remove-IsValid : (id : ℕ) (t : Timer C) → IsValid t → IsValid (remove id t)
  unfolding remove
  remove-IsValid id t v =
      maybe_compact_heap-IsValid (record t { entries = erase id t.entries }) (erase-IsValid id t v)

  pub discard_stale_top-IsValid : (t : Timer C) → IsValid t → IsValid (discard_stale_top t)
  unfolding discard_stale_top
  discard_stale_top-IsValid t v = (
    drop_stale-IsSorted t.entries t.heap v.0,
    v.1,
    (λ id e f. Has-drop_stale t.entries t.heap id e f (v.2 id e f)),
  )

  -- A node without an entry goes.
  pub skip-IsValid :
      (n : Node) (h : List Node) (entries : List (ℕ × Entry C))
      → find n.id entries ≡ none
      → IsValid (record { heap = n ∷ h; entries = entries })
      → IsValid (record { heap = h; entries = entries })
  skip-IsValid n h entries q v = (
    v.0.1,
    v.1,
    (λ id e f. elim (v.2 id e f) [
      | inl k ↦ absurd (ground (arith, q, f, ap (λ (m : Node). find m.id entries) k))
      | inr k ↦ k
    ]),
  )

  -- The first node goes, and so does its entry.
  pub pop-IsValid :
      (n : Node) (h : List Node) (entries : List (ℕ × Entry C))
      → IsValid (record { heap = n ∷ h; entries = entries })
      → IsValid (record { heap = h; entries = erase n.id entries })
  pop-IsValid n h entries v = (
    v.0.1,
    erase-Distinct n.id entries v.1,
    (λ id e f. elim (Bool-cases (n.id == id)) [
      | inl q ↦ absurd (ground (arith, q, f, find-erase n.id id entries v.1))
      | inr q ↦ elim (v.2 id e (sym (rw q at (find-erase n.id id entries v.1)) ∙ f)) [
        | inl k ↦ absurd (ground (arith, q, ap (λ (m : Node). m.id) k, ==_iff n.id id))
        | inr k ↦ k
      ]
    ]),
  )

  -- `add`, `adjust` and `remove` keep the timer well formed: the heap is in the order of expiry, an id
  -- has one entry, and each entry has its node in the heap.
  pub operations-IsValid :
      (id timeout_ms : ℕ) (callback : C) (now : ℕ) (t : Timer C)
      → IsValid t
      → IsValid (add (pos id) timeout_ms callback now t)
        × IsValid (adjust id timeout_ms now t)
        × IsValid (remove id t)
  operations-IsValid id timeout_ms callback now t v = (
    add-IsValid (pos id) timeout_ms callback now t v,
    adjust-IsValid id timeout_ms now t v,
    remove-IsValid id t v,
  )
