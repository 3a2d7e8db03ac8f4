-- ===== src/Util/ThreadsafeQueue.antt =====
-- src/util/threadsafe_queue.h. Nodes stand at addresses, and `new` gives an address that it has not
-- given before. What runs under `tail_mtx` is one step. A pop holds `head_mtx` from its reading of the
-- tail to its end, and meanwhile only pushes can run. `none` is a read or a write at an address that
-- holds no node, or through an empty pointer.
pub mod Chain
pub mod Refine
use hpserver.Prelude.{
  ℕ, suc, ◌+◌, Bool, true, false, ◌==◌, Option, none, some, List, [], ◌∷◌, if◌then◌else◌,
}

pub record Node {ℓ} (T : Type ℓ) : Type ℓ where
  pub data_ : Option T
  pub next : Option ℕ

pub record ThreadsafeQueue {ℓ} (T : Type ℓ) : Type ℓ where
  pub nodes : ℕ → Option (Node T)
  pub fresh : ℕ
  pub head : ℕ
  pub tail : ℕ

module _ {ℓ} {T : Type ℓ} where
  -- A write at an address; `none` frees it.
  unfoldable pub write : (ℕ → Option (Node T)) → ℕ → Option (Node T) → ℕ → Option (Node T)
  write nodes p n a = if a == p then n else nodes a

  abbrev pub empty_node : Node T
  empty_node = record { data_ = none; next = none }

  unfoldable pub threadsafe_queue : ThreadsafeQueue T
  unfolding write
  threadsafe_queue = record {
    nodes = write (λ a. none) 0 (some empty_node);
    fresh = 1;
    head = 0;
    tail = 0;
  }

  -- With the node of the tail.
  abbrev pub push_at : T → Option (Node T) → ThreadsafeQueue T → Option (ThreadsafeQueue T)
  push_at val none q = none
  push_at val (some n) q = some (record {
    nodes =
        write (write q.nodes q.fresh (some empty_node)) q.tail
          (some (record { data_ = some val; next = some q.fresh }));
    fresh = suc q.fresh;
    head = q.head;
    tail = q.fresh;
  })

  unfoldable pub push : T → ThreadsafeQueue T → Option (ThreadsafeQueue T)
  push val q = push_at val (q.nodes q.tail) q

  abbrev pub get_tail : ThreadsafeQueue T → ℕ
  get_tail q = q.tail

  abbrev pub is_empty : ThreadsafeQueue T → Bool
  is_empty q = q.head == get_tail q

  -- `res = std::move(*head->data)`, and `pop_head`, whose node is freed with the result.
  abbrev pub pop_head : Option (Node T) → ThreadsafeQueue T → Option (Option T × ThreadsafeQueue T)
  pop_head none q = none
  pop_head (some n) q = elim n.data_ [
    | none ↦ none
    | some val ↦ elim n.next [
      | none ↦ none
      | some next ↦ some (some val, record q { nodes = write q.nodes q.head none; head = next })
    ]
  ]

  -- The rest of `try_pop_head`, when `tail` has been read.
  unfoldable pub try_pop_from : ℕ → ThreadsafeQueue T → Option (Option T × ThreadsafeQueue T)
  try_pop_from tail q = if q.head == tail then some (none, q) else pop_head (q.nodes q.head) q

  abbrev pub try_pop : ThreadsafeQueue T → Option (Option T × ThreadsafeQueue T)
  try_pop q = try_pop_from (get_tail q) q

  unfoldable pub push_all : List T → ThreadsafeQueue T → Option (ThreadsafeQueue T)
  push_all [] q = some q
  push_all (val ∷ vals) q = elim (push val q) [ none ↦ none | some q' ↦ push_all vals q' ]

  -- `wait_pop`, once its wait has ended: it waits while the queue is empty.
  abbrev pub wait_pop : ThreadsafeQueue T → Option (Option T × ThreadsafeQueue T)
  wait_pop q = if is_empty q then some (none, q) else pop_head (q.nodes q.head) q

-- What the threads do: a push; a test; a pop, with the pushes of other threads behind its reading of
-- the tail.
pub data Call {ℓ} (T : Type ℓ) : Type ℓ where
  pushes : T → Call T
  tests : Call T
  pops : List T → Call T

-- What a call returns.
pub data Answer {ℓ} (T : Type ℓ) : Type ℓ where
  done : Answer T
  emptiness : Bool → Answer T
  popped : Option T → Answer T

module _ {ℓ} {T : Type ℓ} where
  abbrev pub pop_between : ℕ → Option (ThreadsafeQueue T) → Option (Answer T × ThreadsafeQueue T)
  pop_between tail none = none
  pop_between tail (some q) = elim (try_pop_from tail q) [
    | none ↦ none
    | some (res, q') ↦ some (popped res, q')
  ]

  unfoldable pub run_call : Call T → ThreadsafeQueue T → Option (Answer T × ThreadsafeQueue T)
  run_call (pushes val) q = elim (push val q) [ none ↦ none | some q' ↦ some (done, q') ]
  run_call tests q = some (emptiness (is_empty q), q)
  run_call (pops vals) q = pop_between (get_tail q) (push_all vals q)

  unfoldable pub run_calls : List (Call T) → ThreadsafeQueue T → Option (List (Answer T))
  run_calls [] q = some []
  run_calls (c ∷ calls) q = elim (run_call c q) [
    | none ↦ none
    | some (a, q') ↦ elim (run_calls calls q') [ none ↦ none | some answers ↦ some (a ∷ answers) ]
  ]
