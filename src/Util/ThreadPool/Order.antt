-- ===== src/Util/ThreadPool/Order.antt =====
-- No task is lost, doubled or overtaken in the queue.
use hpserver.Prelude.{
  ℕ, zero, suc, ◌+◌, ◌≡◌, ◌∙◌, refl, sym, ap, subst, arith, Bool, true, false, ◌||◌, ◌==◌, ltb, leb,
  List, [], ◌∷◌, ◌++◌, if◌then◌else◌, Bool-cases, inl, inr, ◌⊎◌,
}
use mathlib.Core.List.{append_assoc}
use hpserver.Util.ThreadPool.{
  Producer, free, admitted, enqueued, ThreadPool, Worker, looking, counting, zeroing, running,
  checking, waiting, exited, Stopper, idle, flagging, clearing, clear_counting, clear_zeroing,
  joining, stopped, Pushed, blocked, thrown, passed, push, try_push, produce_at, try_pop, work,
  stop, clear_one, stop_step, System, Step, push_step, try_push_step, produce_step, work_step,
  stop_call, stop_goes_on, Reachable, start, step, threads, is_free,
}

-- What a passed push has done.
pub record Admits {T : Type 0} (task : T) (p q : ThreadPool T) : Type 0 where
  pub before : p.producer ≡ free
  pub after : q ≡ record p { producer = admitted task }
  pub going : (p.is_stopped || p.is_done) ≡ false
  pub within : ltb p.queued_task_count p.max_queue_size ≡ true

module _ {T : Type 0} where
  pool_of : ThreadPool T → Pushed T → ThreadPool T
  pool_of p blocked = p
  pool_of p thrown = p
  pool_of p (passed q) = q

  passed_inj : (p q : ThreadPool T) → passed p ≡ passed q → q ≡ p
  unfolding pool_of
  passed_inj p q e = sym (ap (pool_of p) e)

  Producer-cases : (x : Producer T) → (x ≡ free) ⊎ ((t : T) × (x ≡ admitted t)) ⊎ (x ≡ enqueued)
  Producer-cases free = inl refl
  Producer-cases (admitted t) = inr (inl (t, refl))
  Producer-cases enqueued = inr (inr refl)

  admit :
      (task : T) (p q : ThreadPool T)
      → p.producer ≡ free
      → (p.is_stopped || p.is_done) ≡ false
      → ltb p.queued_task_count p.max_queue_size ≡ true
      → passed (record p { producer = admitted task }) ≡ passed q
      → Admits task p q
  admit task p q f g l e = record {
    before = f;
    after = passed_inj (record p { producer = admitted task }) q e;
    going = g;
    within = l;
  }

  pub push-Admits : (task : T) (p q : ThreadPool T) → push task p ≡ passed q → Admits task p q
  unfolding push
  push-Admits task p q e = elim (Producer-cases p.producer) [
    | inl f ↦ elim (Bool-cases (p.is_stopped || p.is_done)) [
      | inl g ↦ absurd (ground (arith, rw (push, f, g) at e))
      | inr g ↦ elim (Bool-cases (ltb p.queued_task_count p.max_queue_size)) [
        | inl l ↦ admit task p q f g l (rw (push, f, g, l) at e)
        | inr l ↦ absurd (ground (arith, rw (push, f, g, l) at e))
      ]
    ]
    | inr (inl (t, f)) ↦ absurd (ground (arith, rw (push, f) at e))
    | inr (inr f) ↦ absurd (ground (arith, rw (push, f) at e))
  ]

  pub try_push-Admits :
      (task : T) (p q : ThreadPool T) → try_push task p ≡ passed q → Admits task p q
  unfolding try_push
  try_push-Admits task p q e = elim (Producer-cases p.producer) [
    | inl f ↦ elim (Bool-cases (p.is_stopped || p.is_done)) [
      | inl g ↦ elim (Bool-cases (leb p.max_queue_size p.queued_task_count)) [
        | inl l ↦ absurd (ground (arith, rw (try_push, f, l) at e))
        | inr l ↦ absurd (ground (arith, rw (try_push, f, l, g) at e))
      ]
      | inr g ↦ elim (Bool-cases (leb p.max_queue_size p.queued_task_count)) [
        | inl l ↦ absurd (ground (arith, rw (try_push, f, l) at e))
        | inr l ↦ admit task p q f g (ground (arith, l)) (rw (try_push, f, l, g) at e)
      ]
    ]
    | inr (inl (t, f)) ↦ absurd (ground (arith, rw (try_push, f) at e))
    | inr (inr f) ↦ absurd (ground (arith, rw (try_push, f) at e))
  ]

  -- The sum of a number for each task.
  abbrev pub total : (T → ℕ) → List T → ℕ
  total f [] = 0
  total f (t ∷ ts) = f t + total f ts

  pub total-append : (f : T → ℕ) (xs ys : List T) → total f (xs ++ ys) ≡ total f xs + total f ys
  total-append f [] ys = omega arith
  total-append f (t ∷ ts) ys = omega (arith, total-append f ts ys)

  -- A task that a worker has taken and not yet run.
  abbrev pub held : (T → ℕ) → Worker T → ℕ
  held f looking = 0
  held f (counting t) = f t
  held f (zeroing t) = f t
  held f (running t) = f t
  held f checking = 0
  held f waiting = 0
  held f exited = 0

  abbrev pub all_held : (T → ℕ) → List (Worker T) → ℕ
  all_held f [] = 0
  all_held f (w ∷ ws) = held f w + all_held f ws

  all_held-append :
      (f : T → ℕ) (xs ys : List (Worker T)) → all_held f (xs ++ ys) ≡ all_held f xs + all_held f ys
  all_held-append f [] ys = omega arith
  all_held-append f (w ∷ ws) ys = omega (arith, all_held-append f ws ys)

  -- The tasks are taken in the order in which they have been accepted, and the others stand in the queue.
  abbrev pub IsOrdered : ThreadPool T → Type 0
  IsOrdered p = p.taken ++ p.task_queue ≡ p.accepted

  -- A task that has been taken has been run or dropped, or a worker holds it: just once.
  abbrev pub Accounts : (T → ℕ) → ThreadPool T → ℕ → Type 0
  Accounts f p n = total f p.taken ≡ total f p.executed + total f p.dropped + n

  abbrev pub IsKept : (T → ℕ) → System T → Type 0
  IsKept f s = IsOrdered s.pool × Accounts f s.pool (all_held f s.workers)

  pop_order :
      (taken : List T) (task : T) (queue : List T)
      → (taken ++ (task ∷ [])) ++ queue ≡ taken ++ (task ∷ queue)
  pop_order taken task queue = append_assoc taken (task ∷ []) queue

  Kept : (T → ℕ) → ℕ → Worker T × ThreadPool T → Type 0
  Kept f n (w, p) = IsOrdered p × Accounts f p (n + held f w)

  try_pop-Kept :
      (f : T → ℕ) (n : ℕ) (queue : List T) (w : Worker T) (p : ThreadPool T)
      → queue ≡ p.task_queue
      → held f w ≡ 0
      → IsOrdered p
      → Accounts f p n
      → Kept f n (try_pop queue w p)
  unfolding Kept
  try_pop-Kept f n [] w p q z o a = (o, omega (arith, z, a))
  try_pop-Kept f n (task ∷ queue) w p q z o a = (
    pop_order p.taken task queue ∙ ap (λ xs. p.taken ++ xs) q ∙ o,
    omega (arith, a, total-append f p.taken (task ∷ [])),
  )

  if_held :
      (f : T → ℕ) (b : Bool) (x y : Worker T) (n : ℕ)
      → held f x ≡ n
      → held f y ≡ n
      → held f (if b then x else y) ≡ n
  if_held f true x y n p q = p
  if_held f false x y n p q = q

  work-Kept :
      (f : T → ℕ) (n : ℕ) (w : Worker T) (p : ThreadPool T)
      → IsOrdered p
      → Accounts f p (n + held f w)
      → Kept f n (work w p)
  unfolding work Kept
  work-Kept f n looking p o a =
      try_pop-Kept f n p.task_queue waiting p refl refl o (omega (arith, a))
  work-Kept f n (counting t) p o a = (
    o,
    omega (arith, a, if_held f (p.queued_task_count == 0) (zeroing t) (running t) (f t) refl refl),
  )
  work-Kept f n (zeroing t) p o a = (o, a)
  work-Kept f n (running t) p o a = (o, omega (arith, a, total-append f p.executed (t ∷ [])))
  work-Kept f n checking p o a =
      (o, omega (arith, a, if_held f p.stop_flags exited looking 0 refl refl))
  work-Kept f n waiting p o a = elim (Bool-cases (is_free p.producer)) [
    | inl b ↦ rw b (
        try_pop-Kept f n p.task_queue (if p.is_done || p.stop_flags then exited else waiting) p refl
          (if_held f (p.is_done || p.stop_flags) exited waiting 0 refl refl) o (omega (arith, a)))
    | inr b ↦ rw b (o, a)
  ]
  work-Kept f n exited p o a = (o, a)

  produce-IsOrdered : (x : Producer T) (p : ThreadPool T) → IsOrdered p → IsOrdered (produce_at x p)
  produce-IsOrdered free p o = o
  produce-IsOrdered (admitted task) p o =
      sym (append_assoc p.taken p.task_queue (task ∷ [])) ∙ ap (λ xs. xs ++ (task ∷ [])) o
  produce-IsOrdered enqueued p o = o

  produce-Accounts :
      (f : T → ℕ) (n : ℕ) (x : Producer T) (p : ThreadPool T)
      → Accounts f p n
      → Accounts f (produce_at x p) n
  produce-Accounts f n free p a = a
  produce-Accounts f n (admitted task) p a = a
  produce-Accounts f n enqueued p a = a

  Stays : (T → ℕ) → ℕ → Stopper × ThreadPool T → Type 0
  Stays f n (st, p) = IsOrdered p × Accounts f p n

  stop-Stays :
      (f : T → ℕ) (n : ℕ) (b : Bool) (p : ThreadPool T)
      → IsOrdered p
      → Accounts f p n
      → Stays f n (stop b p)
  unfolding Stays
  stop-Stays f n true p o a = elim (Bool-cases (p.is_done || p.is_stopped)) [
    | inl e ↦ rw e (o, a)
    | inr e ↦ rw e (o, a)
  ]
  stop-Stays f n false p o a = elim (Bool-cases p.is_stopped) [
    | inl e ↦ rw e (o, a)
    | inr e ↦ rw e (o, a)
  ]

  clear_one-Stays :
      (f : T → ℕ) (n : ℕ) (joined : Bool) (queue : List T) (p : ThreadPool T)
      → queue ≡ p.task_queue
      → IsOrdered p
      → Accounts f p n
      → Stays f n (clear_one joined queue p)
  unfolding Stays
  clear_one-Stays f n joined [] p q o a = (o, a)
  clear_one-Stays f n joined (task ∷ queue) p q o a = (
    pop_order p.taken task queue ∙ ap (λ xs. p.taken ++ xs) q ∙ o,
    omega (arith, a, total-append f p.taken (task ∷ []), total-append f p.dropped (task ∷ [])),
  )

  stop_step-Stays :
      (f : T → ℕ) (n : ℕ) (ws : List (Worker T)) (st : Stopper) (p : ThreadPool T)
      → IsOrdered p
      → Accounts f p n
      → Stays f n (stop_step ws st p)
  unfolding stop_step Stays
  stop_step-Stays f n ws idle p o a = (o, a)
  stop_step-Stays f n ws flagging p o a = (o, a)
  stop_step-Stays f n ws (clearing joined) p o a =
      clear_one-Stays f n joined p.task_queue p refl o a
  stop_step-Stays f n ws (clear_counting joined) p o a = (o, a)
  stop_step-Stays f n ws (clear_zeroing joined) p o a = (o, a)
  stop_step-Stays f n ws joining p o a = (o, a)
  stop_step-Stays f n ws stopped p o a = (o, a)

  admitted-IsKept :
      (f : T → ℕ) (n : ℕ) (task : T) (p q : ThreadPool T)
      → Admits task p q
      → IsOrdered p × Accounts f p n
      → IsOrdered q × Accounts f q n
  admitted-IsKept f n task p q m k = subst (λ q. IsOrdered q × Accounts f q n) (sym m.after) k

  Step-IsKept : (f : T → ℕ) (s s' : System T) → Step s s' → IsKept f s → IsKept f s'
  unfolding Kept Stays
  Step-IsKept f _ _ (push_step task p q ws st e) k =
      admitted-IsKept f (all_held f ws) task p q (push-Admits task p q e) k
  Step-IsKept f _ _ (try_push_step task p q ws st e) k =
      admitted-IsKept f (all_held f ws) task p q (try_push-Admits task p q e) k
  Step-IsKept f _ _ (produce_step p ws st) k =
      (produce-IsOrdered p.producer p k.0, produce-Accounts f (all_held f ws) p.producer p k.1)
  Step-IsKept f _ _ (work_step p before w after st) k =
      let n = all_held f before + all_held f after in
      let r = work-Kept f n w p k.0 (omega (arith, k.1, all_held-append f before (w ∷ after))) in
      (r.0, omega (arith, r.1, all_held-append f before ((work w p).0 ∷ after)))
  Step-IsKept f _ _ (stop_call b p ws) k = stop-Stays f (all_held f ws) b p k.0 k.1
  Step-IsKept f _ _ (stop_goes_on p ws st) k = stop_step-Stays f (all_held f ws) ws st p k.0 k.1

  idle_threads : (f : T → ℕ) (n : ℕ) → all_held f (threads n) ≡ 0
  idle_threads f zero = refl
  idle_threads f (suc n) = omega (arith, idle_threads f n)

  -- In any interleaving of pushes, of workers and of `stop`: the tasks that have been taken from the
  -- queue, in their order, and then those in the queue are the accepted ones, in their order. Whatever
  -- number `f` gives to each task, the sum over the tasks that have been taken is that over those
  -- that have been run or dropped and those that workers hold: each is in just one of the three.
  pub Reachable-IsKept :
      (f : T → ℕ) (thread_count max_queue_size : ℕ) (s : System T)
      → Reachable thread_count max_queue_size s
      → IsKept f s
  Reachable-IsKept f n m _ start = (refl, omega (arith, idle_threads f n))
  Reachable-IsKept f n m _ (step s s' r t) = Step-IsKept f s s' t (Reachable-IsKept f n m s r)
