-- ===== src/Util/RingBuffer.antt =====
-- src/util/ring_buffer.h. One slot of the storage stays free, so `head == tail` means empty. An
-- operation here runs under its mutex as one step. `blank` is the value-initialised `T` of a
-- new `std::vector<T>`.
pub mod Refine
use hpserver.Prelude.{
  ℕ, ◌+◌, ◌-◌, ◌%◌, Bool, true, false, Option, none, some, List, ◌==◌, leb, if◌then◌else◌, length,
  get_or, set, replicate,
}

pub record RingBuffer {ℓ} (T : Type ℓ) : Type ℓ where
  pub capacity : ℕ
  pub slots : List T
  pub head : ℕ
  pub tail : ℕ

module _ {ℓ} {T : Type ℓ} (blank : T) where
  unfoldable pub ring_buffer : ℕ → RingBuffer T
  ring_buffer capacity = record {
    capacity = capacity;
    slots = replicate (capacity + 1) blank;
    head = 0;
    tail = 0;
  }

  -- The two overloads of `push` differ in how the item is moved.
  unfoldable pub push : RingBuffer T → T → RingBuffer T × Bool
  push r item =
      let next_tail = (r.tail + 1) % length r.slots in
      if next_tail == r.head
      then (r, false)
      else (record r { slots = set r.slots r.tail item; tail = next_tail }, true)

  pub pop : RingBuffer T → RingBuffer T × Option T
  pop r =
      if r.head == r.tail
      then (r, none)
      else (record r { head = (r.head + 1) % length r.slots }, some (get_or r.slots r.head blank))

  unfoldable pub is_empty : RingBuffer T → Bool
  is_empty r = r.head == r.tail

  pub size : RingBuffer T → ℕ
  size r = if leb r.head r.tail then r.tail - r.head else length r.slots - (r.head - r.tail)
