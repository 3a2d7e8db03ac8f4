-- ===== src/Util/ThreadPool/Stopped.antt =====
-- A pool on which `stop(false)` has been called stays stopped.
use hpserver.Prelude.{
  ◌≡◌, refl, ap, arith, Bool, true, false, ◌||◌, List, [], ◌∷◌, if◌then◌else◌, Bool-cases, inl, inr,
}
use hpserver.Util.ThreadPool.{
  Producer, free, admitted, enqueued, ThreadPool, Worker, looking, counting, zeroing, running,
  checking, waiting, exited, Stopper, idle, flagging, clearing, clear_counting, clear_zeroing,
  joining, stopped, produce_at, try_pop, work, stop, clear_one, stop_step, is_free,
}
use hpserver.Util.ThreadPool.Order.{Admits}

module _ {T : Type 0} where
  try_pop-is_stopped :
      (queue : List T) (w : Worker T) (p : ThreadPool T)
      → (try_pop queue w p).1.is_stopped ≡ p.is_stopped
  try_pop-is_stopped [] w p = refl
  try_pop-is_stopped (t ∷ ts) w p = refl

  pub work-is_stopped : (w : Worker T) (p : ThreadPool T) → (work w p).1.is_stopped ≡ p.is_stopped
  unfolding work
  work-is_stopped looking p = try_pop-is_stopped p.task_queue waiting p
  work-is_stopped (counting t) p = refl
  work-is_stopped (zeroing t) p = refl
  work-is_stopped (running t) p = refl
  work-is_stopped checking p = refl
  work-is_stopped waiting p = elim (Bool-cases (is_free p.producer)) [
    | inl b ↦
        rw b (
          try_pop-is_stopped p.task_queue (if p.is_done || p.stop_flags then exited else waiting) p)
    | inr b ↦ rw b refl
  ]
  work-is_stopped exited p = refl

  pub produce-is_stopped :
      (x : Producer T) (p : ThreadPool T) → (produce_at x p).is_stopped ≡ p.is_stopped
  produce-is_stopped free p = refl
  produce-is_stopped (admitted t) p = refl
  produce-is_stopped enqueued p = refl

  pub admitted-is_stopped :
      (task : T) (p q : ThreadPool T) → Admits task p q → q.is_stopped ≡ p.is_stopped
  admitted-is_stopped task p q m = ap (λ (r : ThreadPool T). r.is_stopped) m.after

  pub stop-is_stopped :
      (b : Bool) (p : ThreadPool T) → p.is_stopped ≡ true → (stop b p).1.is_stopped ≡ true
  stop-is_stopped true p e = elim (Bool-cases (p.is_done || p.is_stopped)) [
    | inl q ↦ ground (arith, q, e)
    | inr q ↦ ground (arith, q, e)
  ]
  stop-is_stopped false p e = rw e refl

  clear_one-is_stopped :
      (joined : Bool) (queue : List T) (p : ThreadPool T)
      → (clear_one joined queue p).1.is_stopped ≡ p.is_stopped
  clear_one-is_stopped joined [] p = refl
  clear_one-is_stopped joined (t ∷ ts) p = refl

  pub stop_step-is_stopped :
      (ws : List (Worker T)) (st : Stopper) (p : ThreadPool T)
      → (stop_step ws st p).1.is_stopped ≡ p.is_stopped
  unfolding stop_step
  stop_step-is_stopped ws idle p = refl
  stop_step-is_stopped ws flagging p = refl
  stop_step-is_stopped ws (clearing joined) p = clear_one-is_stopped joined p.task_queue p
  stop_step-is_stopped ws (clear_counting joined) p = refl
  stop_step-is_stopped ws (clear_zeroing joined) p = refl
  stop_step-is_stopped ws joining p = refl
  stop_step-is_stopped ws stopped p = refl
