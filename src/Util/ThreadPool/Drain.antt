-- ===== src/Util/ThreadPool/Drain.antt =====
-- `stop(true)` runs all that has been accepted.
use hpserver.Prelude.{
  ℕ, zero, suc, ◌<◌, ◌≡◌, ◌∙◌, refl, sym, ap, subst, arith, Bool, true, false, ◌||◌, List, [], ◌∷◌,
  ◌++◌, Bool-cases, inl, inr, ◌⊎◌, length, length-append,
}
use hpserver.Util.ThreadPool.{
  Producer, free, admitted, enqueued, ThreadPool, Worker, looking, counting, zeroing, running,
  checking, waiting, exited, Stopper, idle, flagging, clearing, clear_counting, clear_zeroing,
  joining, stopped, produce_at, work, stop, clear_one, stop_step, has_exited, all_exited, System,
  Step, push_step, try_push_step, produce_step, work_step, stop_call, stop_goes_on, Reachable,
  start, step, threads, is_free,
}
use hpserver.Util.ThreadPool.Order.{
  Admits, push-Admits, try_push-Admits, total, held, all_held, total-append, Reachable-IsKept,
}
use hpserver.Util.ThreadPool.Leaving.{
  IsAt, IsAt-imp, IsQuiet, any_exited, Graceful, After, work-After, any_exited-append,
  all_exited-append, work-exited,
}
use hpserver.Util.ThreadPool.Stopped.{
  work-is_stopped, produce-is_stopped, admitted-is_stopped, stop-is_stopped, stop_step-is_stopped,
}

module _ {T : Type 0} where
  -- Unless `stop(false)` has been called.
  Kept : System T → Type 0
  Kept s =
      (s.pool.is_stopped ≡ true)
      ⊎ Graceful s.stopper s.pool (any_exited s.workers) (all_exited s.workers)

  admitted-Graceful :
      (task : T) (p q : ThreadPool T) (st : Stopper) (any joined : Bool)
      → Admits task p q
      → Graceful st p any joined
      → Graceful st q any joined
  unfolding Graceful
  admitted-Graceful task p q st any joined m (f, d, inl e, k) =
      subst (λ q. Graceful st q any joined) (sym m.after) (f, d, inl e, k)
  admitted-Graceful task p q st any joined m (f, d, inr e, k) =
      absurd (ground (arith, m.going, e.0))

  produce-Graceful :
      (x : Producer T) (p : ThreadPool T) (st : Stopper) (any joined : Bool)
      → x ≡ p.producer
      → Graceful st p any joined
      → Graceful st (produce_at x p) any joined
  unfolding Graceful
  produce-Graceful free p st any joined q g = g
  produce-Graceful (admitted t) p st any joined q (f, d, inl e, k) = (f, d, inl e, k)
  produce-Graceful (admitted t) p st any joined q (f, d, inr e, k) =
      absurd (ground (arith, ap is_free q, e.2))
  produce-Graceful enqueued p st any joined q (f, d, inl e, k) = (f, d, inl e, k)
  produce-Graceful enqueued p st any joined q (f, d, inr e, k) =
      absurd (ground (arith, ap is_free q, e.2))

  any_exited-others :
      (before : List (Worker T)) (w : Worker T) (after : List (Worker T))
      → any_exited (before ++ (w ∷ after))
        ≡ ((any_exited before || any_exited after) || has_exited w)
  any_exited-others before w after = ground (arith, any_exited-append before (w ∷ after))

  work-Kept :
      (before : List (Worker T)) (w : Worker T) (after : List (Worker T)) (p : ThreadPool T)
      (st : Stopper)
      → Graceful st p (any_exited (before ++ (w ∷ after))) (all_exited (before ++ (w ∷ after)))
      → let r = work w p in
        Graceful st r.1
          (any_exited (before ++ (r.0 ∷ after)))
          (all_exited (before ++ (r.0 ∷ after)))
  unfolding Graceful After
  work-Kept before w after p st (f, d, e, k) =
      let r = work w p in
      let others = any_exited before || any_exited after in
      let a =
        work-After others w p f d
          (subst (λ b. (b ≡ false) ⊎ IsQuiet p) (any_exited-others before w after) e) in
      (
        a.0,
        a.1,
        subst (λ b. (b ≡ false) ⊎ IsQuiet r.1) (sym (any_exited-others before r.0 after)) a.2,
        IsAt-imp st (all_exited (before ++ (w ∷ after))) (all_exited (before ++ (r.0 ∷ after)))
            (λ l. ground (
              arith,
              l,
              all_exited-append before (w ∷ after),
              all_exited-append before (r.0 ∷ after),
              work-exited w p,
            ))
            k,
      )

  stop-Kept :
      (b : Bool) (p : ThreadPool T) (ws : List (Worker T))
      → Graceful idle p (any_exited ws) (all_exited ws)
      → Kept (record { pool = (stop b p).1; workers = ws; stopper = (stop b p).0 })
  unfolding Graceful Kept IsAt
  stop-Kept true p ws (f, d, e, k) = elim (Bool-cases (p.is_done || p.is_stopped)) [
    | inl q ↦ rw q (inr (f, d, e, tt))
    | inr q ↦ rw q (inr (f, d, elim e [ inl a ↦ inl a | inr a ↦ inr (refl, a.1, a.2) ], tt))
  ]
  stop-Kept false p ws (f, d, e, k) = elim (Bool-cases p.is_stopped) [
    | inl q ↦ rw q (inl refl)
    | inr q ↦ rw q (inl refl)
  ]

  all_any : (ws : List (Worker T)) → 0 < length ws → all_exited ws ≡ true → any_exited ws ≡ true
  all_any [] l a = absurd (omega (arith, l))
  all_any (w ∷ ws) l a = ground (arith, a)

  emptied :
      (ws : List (Worker T)) (p : ThreadPool T)
      → 0 < length ws
      → all_exited ws ≡ true
      → (any_exited ws ≡ false) ⊎ IsQuiet p
      → p.task_queue ≡ []
  emptied ws p l a (inl n) = absurd (ground (arith, n, all_any ws l a))
  emptied ws p l a (inr q) = q.1

  clear-Kept :
      (ws : List (Worker T)) (queue : List T) (p : ThreadPool T)
      → queue ≡ []
      → p.stop_flags ≡ false
      → p.dropped ≡ []
      → (any_exited ws ≡ false) ⊎ IsQuiet p
      → all_exited ws ≡ true
      → let r = clear_one true queue p in Graceful r.0 r.1 (any_exited ws) (all_exited ws)
  unfolding Graceful IsAt
  clear-Kept ws [] p n f d e k = (f, d, e, k)
  clear-Kept ws (t ∷ ts) p n f d e k = absurd (ground (arith, n))

  -- With at least one worker.
  stop_step-Kept :
      (ws : List (Worker T)) (st : Stopper) (p : ThreadPool T)
      → 0 < length ws
      → Graceful st p (any_exited ws) (all_exited ws)
      → Graceful (stop_step ws st p).0 (stop_step ws st p).1 (any_exited ws) (all_exited ws)
  unfolding Graceful stop_step IsAt
  stop_step-Kept ws idle p l g = g
  stop_step-Kept ws flagging p l (f, d, e, k) = elim k [ ]
  stop_step-Kept ws (clearing true) p l (f, d, e, k) =
      clear-Kept ws p.task_queue p (emptied ws p l k e) f d e k
  stop_step-Kept ws (clearing false) p l (f, d, e, k) = elim k [ ]
  stop_step-Kept ws (clear_counting b) p l (f, d, e, k) = elim k [ ]
  stop_step-Kept ws (clear_zeroing b) p l (f, d, e, k) = elim k [ ]
  stop_step-Kept ws joining p l (f, d, e, k) = elim (Bool-cases (all_exited ws)) [
    | inl a ↦ rw a (f, d, e, refl)
    | inr a ↦ rw a (f, d, e, tt)
  ]
  stop_step-Kept ws stopped p l g = g

  Step-Kept : (s s' : System T) → Step s s' → 0 < length s.workers → Kept s → Kept s'
  unfolding Kept
  Step-Kept _ _ (push_step task p q ws st e) l (inl b) =
      inl (admitted-is_stopped task p q (push-Admits task p q e) ∙ b)
  Step-Kept _ _ (push_step task p q ws st e) l (inr g) =
      inr (admitted-Graceful task p q st (any_exited ws) (all_exited ws) (push-Admits task p q e) g)
  Step-Kept _ _ (try_push_step task p q ws st e) l (inl b) =
      inl (admitted-is_stopped task p q (try_push-Admits task p q e) ∙ b)
  Step-Kept _ _ (try_push_step task p q ws st e) l (inr g) =
      inr (
        admitted-Graceful task p q st (any_exited ws) (all_exited ws) (try_push-Admits task p q e)
          g)
  Step-Kept _ _ (produce_step p ws st) l (inl b) = inl (produce-is_stopped p.producer p ∙ b)
  Step-Kept _ _ (produce_step p ws st) l (inr g) =
      inr (produce-Graceful p.producer p st (any_exited ws) (all_exited ws) refl g)
  Step-Kept _ _ (work_step p before w after st) l (inl b) = inl (work-is_stopped w p ∙ b)
  Step-Kept _ _ (work_step p before w after st) l (inr g) = inr (work-Kept before w after p st g)
  Step-Kept _ _ (stop_call c p ws) l (inl b) = inl (stop-is_stopped c p b)
  Step-Kept _ _ (stop_call c p ws) l (inr g) = stop-Kept c p ws g
  Step-Kept _ _ (stop_goes_on p ws st) l (inl b) = inl (stop_step-is_stopped ws st p ∙ b)
  Step-Kept _ _ (stop_goes_on p ws st) l (inr g) = inr (stop_step-Kept ws st p l g)

  Step-length : (s s' : System T) → Step s s' → length s'.workers ≡ length s.workers
  Step-length _ _ (push_step task p q ws st e) = refl
  Step-length _ _ (try_push_step task p q ws st e) = refl
  Step-length _ _ (produce_step p ws st) = refl
  Step-length _ _ (work_step p before w after st) =
      omega (arith, length-append before (w ∷ after), length-append before ((work w p).0 ∷ after))
  Step-length _ _ (stop_call c p ws) = refl
  Step-length _ _ (stop_goes_on p ws st) = refl

  threads_start :
      (n : ℕ) (ws : List (Worker T)) → ws ≡ threads n → (length ws ≡ n) × (any_exited ws ≡ false)
  threads_start zero ws e = rw e (refl, refl)
  threads_start (suc n) ws e =
      let k = threads_start n (threads n) refl in rw e (omega (arith, k.0), k.1)

  Reachable-Kept :
      (thread_count max_queue_size : ℕ) (s : System T)
      → 0 < thread_count
      → Reachable thread_count max_queue_size s
      → (length s.workers ≡ thread_count) × Kept s
  unfolding Kept Graceful IsAt
  Reachable-Kept n m _ l start =
      let k = threads_start n (threads n) refl in (k.0, inr (refl, refl, inl k.1, tt))
  Reachable-Kept n m _ l (step s s' r t) =
      let k = Reachable-Kept n m s l r in
      (Step-length s s' t ∙ k.0, Step-Kept s s' t (omega (arith, l, k.0)) k.1)

  one_exited : (f : T → ℕ) (w : Worker T) → has_exited w ≡ true → held f w ≡ 0
  one_exited f looking e = refl
  one_exited f (counting t) e = absurd (ground (arith, e))
  one_exited f (zeroing t) e = absurd (ground (arith, e))
  one_exited f (running t) e = absurd (ground (arith, e))
  one_exited f checking e = refl
  one_exited f waiting e = refl
  one_exited f exited e = refl

  exited_held : (f : T → ℕ) (ws : List (Worker T)) → all_exited ws ≡ true → all_held f ws ≡ 0
  exited_held f [] e = refl
  exited_held f (w ∷ ws) e =
      omega (arith, exited_held f ws (ground (arith, e)), one_exited f w (ground (arith, e)))

  -- When `stop(true)` has returned, in a pool with at least one worker on which `stop(false)` has not
  -- been called, every accepted task has been run, just once, whatever the threads have done and in
  -- whatever order: the queue is empty, nothing has been dropped, and whatever number `f` gives to each
  -- task, the sum over the tasks that have been run is that over the accepted ones.
  pub stopped_executes :
      (f : T → ℕ) (thread_count max_queue_size : ℕ) (s : System T)
      → 0 < thread_count
      → Reachable thread_count max_queue_size s
      → s.stopper ≡ stopped
      → s.pool.is_stopped ≡ false
      → (s.pool.task_queue ≡ [])
        × (s.pool.dropped ≡ [])
        × (total f s.pool.executed ≡ total f s.pool.accepted)
  unfolding Kept Graceful IsAt
  stopped_executes f n m s l r e b =
      let k = Reachable-Kept n m s l r in
      let c = Reachable-IsKept f n m s r in
      elim k.1 [
        | inl a ↦ absurd (ground (arith, a, b))
        | inr g ↦
            let done : all_exited s.workers ≡ true =
              subst (λ st. IsAt st (all_exited s.workers)) e g.3 in
            let empty = emptied s.workers s.pool (omega (arith, l, k.0)) done g.2 in
            (
              empty,
              g.1,
              omega (
                arith,
                c.1,
                exited_held f s.workers done,
                ap (total f) g.1,
                ap (total f) c.0,
                ap (total f) empty,
                total-append f s.pool.taken s.pool.task_queue,
              ),
            )
      ]
