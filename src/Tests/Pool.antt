-- ===== src/Tests/Pool.antt =====
-- Tests of the pool of threads: one worker runs two tasks, and `stop(true)` waits for them.
use hpserver.Prelude.{ℕ, zero, suc, ◌+◌, ◌≡◌, refl, arith, true, [], ◌∷◌, ◌++◌}
use hpserver.Util.ThreadPool.{
  admitted, ThreadPool, Worker, looking, exited, Stopper, idle, joining, clearing, stopped, push,
  produce, work, stop, stop_step, System, push_step, produce_step, work_step, stop_call,
  stop_goes_on, Reachable, start, step, thread_pool,
}
use hpserver.Util.ThreadPool.Order as Order
use hpserver.Util.ThreadPool.Order.{total, all_held}
use hpserver.Util.ThreadPool.Drain as Drain

abbrev system : ThreadPool ℕ → Worker ℕ → Stopper → System ℕ
system p w st = record { pool = p; workers = w ∷ []; stopper = st }

abbrev works : ThreadPool ℕ → Worker ℕ → Stopper → System ℕ
works p w st = system (work w p).1 (work w p).0 st

works_step :
    (p : ThreadPool ℕ) (w : Worker ℕ) (st : Stopper)
    → Reachable 1 4 (system p w st)
    → Reachable 1 4 (works p w st)
works_step p w st r = step (system p w st) (works p w st) r (work_step p [] w [] st)

abbrev begin : ThreadPool ℕ
begin = thread_pool 4

abbrev pushed : ThreadPool ℕ
pushed = record begin { producer = admitted 7 }

pushed_step : Reachable 1 4 (system pushed looking idle)
unfolding push
pushed_step =
    step (system begin looking idle) (system pushed looking idle) start
      (push_step 7 begin pushed (looking ∷ []) idle refl)

produces_step :
    (p : ThreadPool ℕ) (w : Worker ℕ) (st : Stopper)
    → Reachable 1 4 (system p w st)
    → Reachable 1 4 (system (produce p) w st)
produces_step p w st r =
    step (system p w st) (system (produce p) w st) r (produce_step p (w ∷ []) st)

stops_step :
    (p : ThreadPool ℕ) (w : Worker ℕ) (st : Stopper)
    → Reachable 1 4 (system p w st)
    → Reachable 1 4 (system (stop_step (w ∷ []) st p).1 w (stop_step (w ∷ []) st p).0)
stops_step p w st r =
    step (system p w st) (system (stop_step (w ∷ []) st p).1 w (stop_step (w ∷ []) st p).0) r
      (stop_goes_on p (w ∷ []) st)

abbrev queued : ThreadPool ℕ
queued = produce (produce pushed)

queued-Reachable : Reachable 1 4 (system queued looking idle)
queued-Reachable =
    produces_step (produce pushed) looking idle (produces_step pushed looking idle pushed_step)

-- The worker looks for a task, counts, runs it, tests its flag, and looks again.
abbrev working : ℕ → Worker ℕ × ThreadPool ℕ
working zero = (looking, queued)
working (suc n) = work (working n).0 (working n).1

working-Reachable : (n : ℕ) → Reachable 1 4 (system (working n).1 (working n).0 idle)
working-Reachable zero = queued-Reachable
working-Reachable (suc n) = works_step (working n).1 (working n).0 idle (working-Reachable n)

abbrev done : ThreadPool ℕ
done = (stop true (working 5).1).1

done-Reachable : Reachable 1 4 (system done (working 5).0 (stop true (working 5).1).0)
done-Reachable =
    step (system (working 5).1 (working 5).0 idle)
      (system done (working 5).0 (stop true (working 5).1).0) (working-Reachable 5)
      (stop_call true (working 5).1 ((working 5).0 ∷ []))

abbrev final : System ℕ
final = record {
  pool = record begin { is_done = true; accepted = 7 ∷ []; taken = 7 ∷ []; executed = 7 ∷ [] };
  workers = exited ∷ [];
  stopper = stopped;
}

final-Reachable : Reachable 1 4 final
unfolding work stop_step
final-Reachable =
    let left = works_step done (working 5).0 (stop true (working 5).1).0 done-Reachable in
    let r = work (working 5).0 done in
    let a = stops_step r.1 r.0 joining left in
    stops_step (stop_step (r.0 ∷ []) joining r.1).1 r.0 (clearing true) a

abbrev id : ℕ → ℕ
id n = n

Reachable-IsKept_example :
    (final.pool.taken ++ final.pool.task_queue ≡ final.pool.accepted)
    × (total id final.pool.taken
        ≡ total id final.pool.executed + total id final.pool.dropped + all_held id final.workers)
Reachable-IsKept_example = Order.Reachable-IsKept id 1 4 final final-Reachable

stopped_executes_example :
    (final.pool.task_queue ≡ [])
    × (final.pool.dropped ≡ [])
    × (total id final.pool.executed ≡ total id final.pool.accepted)
stopped_executes_example =
    Drain.stopped_executes id 1 4 final (omega arith) final-Reachable refl refl
