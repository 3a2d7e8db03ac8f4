-- ===== src/Util/ThreadsafeQueue/Refine.antt =====
-- The nodes behave as a list.
use hpserver.Prelude.{
  ℕ, ◌≡◌, ◌∙◌, refl, sym, ap, subst, arith, Bool, true, false, ◌==◌, ==_iff, none, some, List, [],
  ◌∷◌, ◌++◌, Bool-cases, inl, inr,
}
use mathlib.Core.List.{append_assoc, append-nil}
use hpserver.Util.ThreadsafeQueue.{
  ThreadsafeQueue, threadsafe_queue, is_empty, try_pop_from, push_all, Call, pushes, tests, pops,
  Answer, done, emptiness, popped, pop_between, run_call, run_calls,
}
use hpserver.Util.ThreadsafeQueue.Chain.{
  Holds, values, push-Holds, pop_head-Holds, head-tail, threadsafe_queue-Holds,
}

module _ {T : Type 0} where
  abbrev pub is_nil : List T → Bool
  is_nil [] = true
  is_nil (x ∷ xs) = false

  -- The queue as a list. A pop takes what the list has before the pushes that run meanwhile.
  abbrev pub list_call : Call T → List T → Answer T × List T
  list_call (pushes val) xs = (done, xs ++ (val ∷ []))
  list_call tests xs = (emptiness (is_nil xs), xs)
  list_call (pops vals) [] = (popped none, vals)
  list_call (pops vals) (x ∷ xs) = (popped (some x), xs ++ vals)

  abbrev pub list_calls : List (Call T) → List T → List (Answer T)
  list_calls [] xs = []
  list_calls (c ∷ calls) xs = (list_call c xs).0 ∷ list_calls calls (list_call c xs).1

  values-append : (xs ys : List (ℕ × T)) → values (xs ++ ys) ≡ values xs ++ values ys
  values-append [] ys = refl
  values-append ((a, v) ∷ xs) ys = ap (λ vs. v ∷ vs) (values-append xs ys)

  push_all-Holds :
      (vals : List T) (q : ThreadsafeQueue T) (cells : List (ℕ × T))
      → Holds q cells
      → (q' : ThreadsafeQueue T) × (more : List (ℕ × T)) × (push_all vals q ≡ some q')
        × (q'.head ≡ q.head)
        × Holds q' (cells ++ more)
        × (values more ≡ vals)
  unfolding push_all
  push_all-Holds [] q cells h =
      (q, [], refl, refl, subst (Holds q) (sym (append-nil cells)) h, refl)
  push_all-Holds (val ∷ vals) q cells h =
      let (p, e, k, g) = push-Holds val q cells h in
      let (r, more, f, l, i, v) = push_all-Holds vals p (cells ++ ((q.tail, val) ∷ [])) g in
      (
        r,
        (q.tail, val) ∷ more,
        rw (e, push_all) f,
        l ∙ k,
        subst (Holds r) (append_assoc cells ((q.tail, val) ∷ []) more) i,
        ap (λ vs. val ∷ vs) v,
      )

  -- A call gives the answer of the list, and leaves the nodes of what the list then has.
  abbrev Refines : Call T → List T → ThreadsafeQueue T → Type 0
  Refines c xs q =
      (q' : ThreadsafeQueue T) × (cells : List (ℕ × T)) × (run_call c q
        ≡ some ((list_call c xs).0, q'))
      × Holds q' cells
      × (values cells ≡ (list_call c xs).1)

  pops-Refines :
      (vals : List T) (q : ThreadsafeQueue T) (cells : List (ℕ × T))
      → Holds q cells
      → Refines (pops vals) (values cells) q
  unfolding run_call try_pop_from
  pops-Refines vals q [] h =
      let (p, more, e, k, g, v) = push_all-Holds vals q [] h in
      let same : p.head == q.tail ≡ true = (==_iff p.head q.tail).1 (k ∙ h.chain) in
      (p, more, rw (e, run_call, pop_between, same) refl, g, v)
  pops-Refines vals q ((a, x) ∷ cells) h =
      let (p, more, e, k, g, v) = push_all-Holds vals q ((a, x) ∷ cells) h in
      let (r, f, i) = pop_head-Holds a x p (cells ++ more) g in
      let apart : p.head == q.tail ≡ false = elim (Bool-cases (p.head == q.tail)) [
        | inl s ↦
            absurd (ground (arith, head-tail q ((a, x) ∷ cells) q.tail h h.ending (rw k at s)))
        | inr s ↦ s
      ] in
      (
        r,
        cells ++ more,
        rw (e, run_call, pop_between, apart, f) refl,
        i,
        values-append cells more ∙ ap (λ vs. values cells ++ vs) v,
      )

  tests-Refines :
      (q : ThreadsafeQueue T) (cells : List (ℕ × T))
      → Holds q cells
      → is_empty q ≡ is_nil (values cells)
  tests-Refines q [] h = (==_iff q.head q.tail).1 h.chain
  tests-Refines q (c ∷ cells) h = elim (Bool-cases (q.head == q.tail)) [
    | inl s ↦ absurd (ground (arith, head-tail q (c ∷ cells) q.tail h h.ending s))
    | inr s ↦ s
  ]

  run_call-Refines :
      (c : Call T) (q : ThreadsafeQueue T) (cells : List (ℕ × T))
      → Holds q cells
      → Refines c (values cells) q
  unfolding run_call
  run_call-Refines (pushes val) q cells h =
      let (p, e, k, g) = push-Holds val q cells h in
      (
        p,
        cells ++ ((q.tail, val) ∷ []),
        rw (e, run_call) refl,
        g,
        values-append cells ((q.tail, val) ∷ []),
      )
  run_call-Refines tests q cells h =
      (q, cells, ap (λ b. some (emptiness b, q)) (tests-Refines q cells h), h, refl)
  run_call-Refines (pops vals) q cells h = pops-Refines vals q cells h

  run_calls-from :
      (calls : List (Call T)) (q : ThreadsafeQueue T) (cells : List (ℕ × T))
      → Holds q cells
      → run_calls calls q ≡ some (list_calls calls (values cells))
  unfolding run_calls
  run_calls-from [] q cells h = refl
  run_calls-from (c ∷ calls) q cells h =
      let (p, more, e, g, v) = run_call-Refines c q cells h in
      rw (e, run_calls, run_calls-from calls p more g, v) refl

  -- A new queue goes through any calls without a read or a write at an address that holds no node, and
  -- answers each of them as a list would, to whose end the pushes go and from whose front the pops
  -- take. A pop during which others push takes what was in the queue before them.
  pub run_calls-list_calls :
      (calls : List (Call T)) → run_calls calls threadsafe_queue ≡ some (list_calls calls [])
  run_calls-list_calls calls = run_calls-from calls threadsafe_queue [] threadsafe_queue-Holds
