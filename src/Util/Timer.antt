-- ===== src/Util/Timer.antt =====
-- src/util/timer.h. `std::priority_queue` gives a node that expires first: the heap is the list of its
-- nodes in that order, with the order of equal ones left to `push`, as the library leaves it. The
-- `unordered_map` is an association list. Times are readings of the steady clock in nanoseconds,
-- and `now` is the reading of a call; a timeout is not negative. `C` is what a callback is.
pub mod Heap
pub mod Entries
pub mod Live
pub mod Tick
pub mod Early
pub mod Keep
use hpserver.Prelude.{
  ℕ, zero, suc, ◌+◌, ◌-◌, ◌*◌, ◌/◌, ◌%◌, ◌^◌, Bool, true, false, not, ◌&&◌, ◌||◌, ◌==◌, ltb, leb,
  Option, none, some, List, [], ◌∷◌, if◌then◌else◌, length, ℤ, pos, negsuc,
}

pub record Node : Type 0 where
  pub id : ℕ
  pub expires_at : ℕ
  pub version : ℕ

pub record Entry (C : Type 0) : Type 0 where
  pub expires_at : ℕ
  pub callback : C
  pub version : ℕ

pub record Timer (C : Type 0) : Type 0 where
  pub heap : List Node
  pub entries : List (ℕ × Entry C)

abbrev pub compact_min_heap_size : ℕ
compact_min_heap_size = 4096

abbrev pub compact_ratio_threshold : ℕ
compact_ratio_threshold = 4

-- `heap_.push`
unfoldable pub push : Node → List Node → List Node
push n [] = n ∷ []
push n (m ∷ h) = if ltb n.expires_at m.expires_at then n ∷ m ∷ h else m ∷ push n h

-- 10^6 nanoseconds are a millisecond.
abbrev pub after : ℕ → ℕ → ℕ
after now timeout_ms = now + timeout_ms * 1000000

-- The number of milliseconds up to the first expiry; -1 if there is none.
abbrev pub timeout_of : ℕ → List Node → ℤ
timeout_of now [] = negsuc 0
timeout_of now (n ∷ h) = pos ((n.expires_at - now) / 1000000)

module _ {C : Type 0} where
  -- `entries_.find`
  unfoldable pub find : ℕ → List (ℕ × Entry C) → Option (Entry C)
  find id [] = none
  find id ((j, e) ∷ entries) = if j == id then some e else find id entries

  -- `entries_.erase`
  unfoldable pub erase : ℕ → List (ℕ × Entry C) → List (ℕ × Entry C)
  erase id [] = []
  erase id ((j, e) ∷ entries) = if j == id then entries else (j, e) ∷ erase id entries

  -- A write through `entries_[id]`.
  unfoldable pub assign : ℕ → Entry C → List (ℕ × Entry C) → List (ℕ × Entry C)
  assign id e [] = (id, e) ∷ []
  assign id e ((j, f) ∷ entries) =
      if j == id then (id, e) ∷ entries else (j, f) ∷ assign id e entries

  abbrev pub timer : Timer C
  timer = record { heap = []; entries = [] }

  abbrev pub node_of : ℕ → Entry C → Node
  node_of id e = record { id = id; expires_at = e.expires_at; version = e.version }

  pub rebuild : List (ℕ × Entry C) → List Node
  unfolding push
  rebuild [] = []
  rebuild ((id, e) ∷ entries) = push (node_of id e) (rebuild entries)

  unfoldable pub maybe_compact_heap : Timer C → Timer C
  unfolding rebuild
  maybe_compact_heap t =
      if ltb (length t.heap) compact_min_heap_size
      then t
      else if length t.entries == 0
      then record t { heap = [] }
      else if leb (length t.heap) (length t.entries * compact_ratio_threshold)
      then t
      else record t { heap = rebuild t.entries }

  abbrev pub next_version : Option (Entry C) → ℕ
  next_version none = 1
  next_version (some e) = (e.version + 1) % 2 ^ 64

  -- An entry of this version, in the map and in the heap.
  abbrev pub schedule : ℕ → ℕ → C → ℕ → Timer C → Timer C
  schedule id expire callback version t =
      let e : Entry C = record { expires_at = expire; callback = callback; version = version } in
      record { heap = push (node_of id e) t.heap; entries = assign id e t.entries }

  unfoldable pub add : ℤ → ℕ → C → ℕ → Timer C → Timer C
  unfolding maybe_compact_heap
  add (negsuc n) timeout_ms callback now t = t
  add (pos id) timeout_ms callback now t =
      maybe_compact_heap
        (schedule id (after now timeout_ms) callback (next_version (find id t.entries)) t)

  unfoldable pub adjust : ℕ → ℕ → ℕ → Timer C → Timer C
  unfolding maybe_compact_heap
  adjust id timeout_ms now t = elim (find id t.entries) [
    | none ↦ t
    | some e ↦
        maybe_compact_heap
          (schedule id (after now timeout_ms) e.callback ((e.version + 1) % 2 ^ 64) t)
  ]

  unfoldable pub remove : ℕ → Timer C → Timer C
  unfolding maybe_compact_heap
  remove id t = maybe_compact_heap (record t { entries = erase id t.entries })

  abbrev pub is_current : Node → Option (Entry C) → Bool
  is_current n none = false
  is_current n (some e) = e.version == n.version && e.expires_at == n.expires_at

  -- The loop of `discard_stale_top`, over the heap.
  unfoldable pub drop_stale : List (ℕ × Entry C) → List Node → List Node
  drop_stale entries [] = []
  drop_stale entries (n ∷ h) =
      if is_current n (find n.id entries) then n ∷ h else drop_stale entries h

  unfoldable pub discard_stale_top : Timer C → Timer C
  unfolding drop_stale
  discard_stale_top t = record t { heap = drop_stale t.entries t.heap }

  -- `call` is what a callback does to the timer and to the rest of the state. `clock i` is the reading
  -- of the round `i`. A round without an end takes a node off the heap, and `none` means that the
  -- fuel ran out.
  module _ {S : Type 0} (call : C → Timer C × S → Timer C × S) (clock : ℕ → ℕ) where
    -- One round behind `discard_stale_top`: `none` ends the loop.
    abbrev pub fire_top : ℕ → List Node → Timer C → S → Option (Timer C × S)
    fire_top i [] t s = none
    fire_top i (n ∷ h) t s =
        if ltb (clock i) n.expires_at then none else elim (find n.id t.entries) [
          | none ↦ some (record t { heap = h }, s)
          | some e ↦ some (call e.callback (record { heap = h; entries = erase n.id t.entries }, s))
        ]

    unfoldable pub tick_rounds : ℕ → ℕ → Timer C → S → Option (Timer C × S)
    tick_rounds zero i t s = none
    tick_rounds (suc fuel) i t s =
        let u = discard_stale_top t in
        elim (fire_top i u.heap u s) [
          | none ↦ some (u, s)
          | some (t', s') ↦ tick_rounds fuel (i + 1) t' s'
        ]

    unfoldable pub tick : Timer C → S → Option (Timer C × S)
    unfolding tick_rounds
    tick t s = tick_rounds (suc (length t.heap)) 0 t s

    -- `now` is the reading after the tick.
    abbrev pub get_next_timeout_ms : ℕ → Timer C → S → Option (Timer C × S × ℤ)
    get_next_timeout_ms now t s = elim (tick t s) [
      | none ↦ none
      | some (t', s') ↦ let u = discard_stale_top t' in some (u, s', timeout_of now u.heap)
    ]

  unfoldable pub contains : ℕ → Timer C → Bool
  contains id t = elim (find id t.entries) [ none ↦ false | some e ↦ true ]

  abbrev pub size : Timer C → ℕ
  size t = length t.entries
