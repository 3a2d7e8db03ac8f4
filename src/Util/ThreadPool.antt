-- ===== src/Util/ThreadPool.antt =====
-- src/util/thread_pool.h and threadsafe_queue.h, whose queue is a list. A step is one access to what
-- the threads share: a pop or a push of the queue, which its own mutexes make one step, or a load or a
-- store of an atomic. `mtx` is held by the thread in `push` or `try_push` that `producer` describes;
-- a waiting worker tests its condition while it is free. A condition may be tested at any time.
-- The last four fields of `ThreadPool` note what has happened. `T` is what a task is.
pub mod Order
pub mod Leaving
pub mod Stopped
pub mod Drain
use hpserver.Prelude.{
  ℕ, zero, suc, ◌+◌, ◌-◌, ◌%◌, ◌^◌, ◌≡◌, Bool, true, false, not, ◌&&◌, ◌||◌, ◌==◌, ltb, leb, Option,
  none, some, List, [], ◌∷◌, ◌++◌, if◌then◌else◌,
}

-- In `push` or `try_push`, with `mtx`: behind the tests, and between the push and its count.
pub data Producer (T : Type 0) : Type 0 where
  free : Producer T
  admitted : T → Producer T
  enqueued : Producer T

pub record ThreadPool (T : Type 0) : Type 0 where
  pub max_queue_size : ℕ
  pub task_queue : List T
  pub queued_task_count : ℕ
  pub is_stopped : Bool
  pub is_done : Bool
  pub stop_flags : Bool
  pub producer : Producer T
  pub accepted : List T
  pub taken : List T
  pub executed : List T
  pub dropped : List T

-- Where a worker stands: before `try_pop`, in the two steps of `on_task_dequeued`, before the call of
-- the task, before the test of its flag, in `cv.wait`, or at its end.
pub data Worker (T : Type 0) : Type 0 where
  looking : Worker T
  counting : T → Worker T
  zeroing : T → Worker T
  running : T → Worker T
  checking : Worker T
  waiting : Worker T
  exited : Worker T

-- Where `stop` stands: before the flags, in `clear_queue`, in the `join`s, or at its end. The second
-- `clear_queue` is the one behind the `join`s.
pub data Stopper : Type 0 where
  idle : Stopper
  flagging : Stopper
  clearing : (joined : Bool) → Stopper
  clear_counting : (joined : Bool) → Stopper
  clear_zeroing : (joined : Bool) → Stopper
  joining : Stopper
  stopped : Stopper

-- What a `push` meets.
pub data Pushed (T : Type 0) : Type 0 where
  blocked : Pushed T
  thrown : Pushed T
  passed : ThreadPool T → Pushed T

module _ {T : Type 0} where
  abbrev pub thread_pool : ℕ → ThreadPool T
  thread_pool max_queue_size = record {
    max_queue_size = if max_queue_size == 0 then 1 else max_queue_size;
    task_queue = [];
    queued_task_count = 0;
    is_stopped = false;
    is_done = false;
    stop_flags = false;
    producer = free;
    accepted = [];
    taken = [];
    executed = [];
    dropped = [];
  }

  -- Up to the push of the queue.
  unfoldable pub push : T → ThreadPool T → Pushed T
  push task p = elim p.producer [
    | free ↦
        if not (ltb p.queued_task_count p.max_queue_size || p.is_stopped || p.is_done)
        then blocked
        else if p.is_stopped || p.is_done
        then thrown
        else passed (record p { producer = admitted task })
    | admitted t ↦ blocked
    | enqueued ↦ blocked
  ]

  unfoldable pub try_push : T → ThreadPool T → Pushed T
  try_push task p = elim p.producer [
    | free ↦
        if leb p.max_queue_size p.queued_task_count || p.is_stopped || p.is_done
        then thrown
        else passed (record p { producer = admitted task })
    | admitted t ↦ blocked
    | enqueued ↦ blocked
  ]

  -- The rest of either, up to the release of `mtx`.
  abbrev pub produce_at : Producer T → ThreadPool T → ThreadPool T
  produce_at free p = p
  produce_at (admitted task) p = record p {
    task_queue = p.task_queue ++ (task ∷ []);
    accepted = p.accepted ++ (task ∷ []);
    producer = enqueued;
  }
  produce_at enqueued p = record p {
    queued_task_count = (p.queued_task_count + 1) % 2 ^ 64;
    producer = free;
  }

  abbrev pub produce : ThreadPool T → ThreadPool T
  produce p = produce_at p.producer p

  -- `fetch_sub`
  abbrev pub count_down : ThreadPool T → ThreadPool T
  count_down p = record p { queued_task_count = (p.queued_task_count + (2 ^ 64 - 1)) % 2 ^ 64 }

  abbrev pub count_zero : ThreadPool T → ThreadPool T
  count_zero p = record p { queued_task_count = 0 }

  -- A `try_pop` of a worker; `w` is what follows if the queue is empty.
  abbrev pub try_pop : List T → Worker T → ThreadPool T → Worker T × ThreadPool T
  try_pop [] w p = (w, p)
  try_pop (task ∷ queue) w p =
      (counting task, record p { task_queue = queue; taken = p.taken ++ (task ∷ []) })

  abbrev pub is_free : Producer T → Bool
  is_free free = true
  is_free (admitted t) = false
  is_free enqueued = false

  -- A step of a thread of `set_thread`.
  unfoldable pub work : Worker T → ThreadPool T → Worker T × ThreadPool T
  work looking p = try_pop p.task_queue waiting p
  work (counting task) p =
      (if p.queued_task_count == 0 then zeroing task else running task, count_down p)
  work (zeroing task) p = (running task, count_zero p)
  work (running task) p = (checking, record p { executed = p.executed ++ (task ∷ []) })
  work checking p = (if p.stop_flags then exited else looking, p)
  work waiting p =
      if is_free p.producer
      then try_pop p.task_queue (if p.is_done || p.stop_flags then exited else waiting) p
      else (waiting, p)
  work exited p = (exited, p)

  -- `on_task_dequeued` by a thread alone.
  abbrev pub on_task_dequeued : ThreadPool T → ThreadPool T
  on_task_dequeued p = if p.queued_task_count == 0 then count_zero (count_down p) else count_down p

  -- `pop_task` by a thread alone. No part of the program calls it.
  abbrev pub pop_task : ThreadPool T → ThreadPool T × Option T
  pop_task p = elim p.task_queue [
    | [] ↦ (p, none)
    | task ∷ queue ↦ (
      on_task_dequeued (record p { task_queue = queue; taken = p.taken ++ (task ∷ []) }),
      some task,
    )
  ]

  -- `stop`, up to its first store.
  abbrev pub stop : Bool → ThreadPool T → Stopper × ThreadPool T
  stop wait_for_tasks p =
      if wait_for_tasks
      then if p.is_done || p.is_stopped then (idle, p) else (joining, record p { is_done = true })
      else if p.is_stopped
      then (idle, p)
      else (flagging, record p { is_stopped = true })

  -- `~thread_pool`, up to the first store of its `stop(false)`.
  abbrev pub destroy : ThreadPool T → Stopper × ThreadPool T
  destroy p = stop false p

  abbrev pub clear_one : Bool → List T → ThreadPool T → Stopper × ThreadPool T
  clear_one joined [] p = (if joined then stopped else joining, p)
  clear_one joined (task ∷ queue) p = (
    clear_counting joined,
    record p {
      task_queue = queue;
      taken = p.taken ++ (task ∷ []);
      dropped = p.dropped ++ (task ∷ []);
    },
  )

  abbrev pub has_exited : Worker T → Bool
  has_exited exited = true
  has_exited looking = false
  has_exited (counting t) = false
  has_exited (zeroing t) = false
  has_exited (running t) = false
  has_exited checking = false
  has_exited waiting = false

  abbrev pub all_exited : List (Worker T) → Bool
  all_exited [] = true
  all_exited (w ∷ ws) = has_exited w && all_exited ws

  -- A further step of `stop`. The store of each flag is one step with those of the others.
  unfoldable pub stop_step : List (Worker T) → Stopper → ThreadPool T → Stopper × ThreadPool T
  stop_step ws idle p = (idle, p)
  stop_step ws flagging p = (clearing false, record p { stop_flags = true })
  stop_step ws (clearing joined) p = clear_one joined p.task_queue p
  stop_step ws (clear_counting joined) p =
      (if p.queued_task_count == 0 then clear_zeroing joined else clearing joined, count_down p)
  stop_step ws (clear_zeroing joined) p = (clearing joined, count_zero p)
  stop_step ws joining p = (if all_exited ws then clearing true else joining, p)
  stop_step ws stopped p = (stopped, p)

pub record System (T : Type 0) : Type 0 where
  pub pool : ThreadPool T
  pub workers : List (Worker T)
  pub stopper : Stopper

-- A step of one of the threads.
pub data Step {T : Type 0} : System T → System T → Type 0 where
  push_step :
      (task : T) (p q : ThreadPool T) (ws : List (Worker T)) (st : Stopper)
      → push task p ≡ passed q
      → Step
          (record { pool = p; workers = ws; stopper = st })
          (record { pool = q; workers = ws; stopper = st })
  try_push_step :
      (task : T) (p q : ThreadPool T) (ws : List (Worker T)) (st : Stopper)
      → try_push task p ≡ passed q
      → Step
          (record { pool = p; workers = ws; stopper = st })
          (record { pool = q; workers = ws; stopper = st })
  produce_step :
      (p : ThreadPool T) (ws : List (Worker T)) (st : Stopper)
      → Step
          (record { pool = p; workers = ws; stopper = st })
          (record { pool = produce p; workers = ws; stopper = st })
  work_step :
      (p : ThreadPool T) (before : List (Worker T)) (w : Worker T) (after : List (Worker T))
      (st : Stopper)
      → Step
          (record { pool = p; workers = before ++ (w ∷ after); stopper = st })
          (record { pool = (work w p).1; workers = before ++ ((work w p).0 ∷ after); stopper = st })
  stop_call :
      (wait_for_tasks : Bool) (p : ThreadPool T) (ws : List (Worker T))
      → Step
          (record { pool = p; workers = ws; stopper = idle })
          (record {
            pool = (stop wait_for_tasks p).1;
            workers = ws;
            stopper = (stop wait_for_tasks p).0;
          })
  stop_goes_on :
      (p : ThreadPool T) (ws : List (Worker T)) (st : Stopper)
      → Step
          (record { pool = p; workers = ws; stopper = st })
          (record { pool = (stop_step ws st p).1; workers = ws; stopper = (stop_step ws st p).0 })

abbrev pub threads : {T : Type 0} → ℕ → List (Worker T)
threads zero = []
threads (suc n) = looking ∷ threads n

-- What the pool comes to from its start with `thread_count` workers.
pub data Reachable {T : Type 0} (thread_count max_queue_size : ℕ) : System T → Type 0 where
  start :
      Reachable thread_count max_queue_size (record {
        pool = thread_pool max_queue_size;
        workers = threads thread_count;
        stopper = idle;
      })
  step :
      (s s' : System T)
      → Reachable thread_count max_queue_size s
      → Step s s'
      → Reachable thread_count max_queue_size s'
