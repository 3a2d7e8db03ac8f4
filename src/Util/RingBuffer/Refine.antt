-- ===== src/Util/RingBuffer/Refine.antt =====
-- A ring buffer behaves as the bounded queue of the items that it holds.
use hpserver.Prelude.{
  ℕ, zero, suc, ◌+◌, ◌-◌, ◌%◌, ◌≤◌, ◌<◌, ◌≡◌, ◌≢◌, refl, sym, ap, ◌∙◌, inl, inr, true, false, none,
  some, List, [], ◌∷◌, ◌++◌, ◌==◌, ==_iff, ◌↔◌, leb, if◌then◌else◌, length, get_or, set, length-set,
  length-replicate, arith, Bool-cases,
}
use mathlib.Core.Path.{ap₂}
use hpserver.Prelude.{Option, not}
use native.Mathlib.Nat.{mod-lt, mod-eq_of_lt, mod_self}
use native.Mathlib.Decide.{ℕ_discrete}
use hpserver.Util.RingBuffer.{RingBuffer, ring_buffer, push, pop, size, is_empty}

-- `(i + 1) % n` at an index of the storage.
next_index : (i n : ℕ) → i < n → (i + 1) % n ≡ (if i + 1 == n then 0 else i + 1)
next_index i n h = elim (Bool-cases (i + 1 == n)) [
  | inl e ↦ let p : n ≡ i + 1 = ground (arith, e) in rw (e, p) (mod_self (i + 1))
  | inr e ↦ rw (e, if◌then◌else◌) (mod-eq_of_lt (ground (arith, e)))
]

-- How many steps lead from slot `h` to slot `t`.
abbrev span : ℕ → ℕ → ℕ → ℕ
span n h t = if leb h t then t - h else n - (h - t)

-- One step on from `h` is one step nearer to `t`.
span_next : (n h t : ℕ) → h < n → t < n → h ≢ t → span n h t ≡ suc (span n ((h + 1) % n) t)
span_next n h t p q ne = rw (next_index h n p) (ground arith)

-- One step on from `t` is one step further from `h`.
span_grow :
    (n h t : ℕ) → h < n → t < n → (t + 1) % n ≢ h → span n h ((t + 1) % n) ≡ suc (span n h t)
span_grow n h t p q ne =
    let e : (t + 1) % n ≡ (if t + 1 == n then 0 else t + 1) = next_index t n q in
    let ne' : (if t + 1 == n then 0 else t + 1) ≢ h = rw e at ne in rw e (ground (arith, ne'))

span_self : (n h t : ℕ) → h ≡ t → span n h t ≡ 0
span_self n h t e = ground (arith, e)

span_zero : (n h t : ℕ) → h < n → t < n → span n h t ≡ 0 → h ≡ t
span_zero n h t p q e = ground arith

pub ==-false : (a b : ℕ) → a ≢ b → (a == b) ≡ false
==-false a b ne = ground arith

-- The next slot is the head just when all slots but one are taken.
span_full : (n h t : ℕ) → h < n → t < n → ((t + 1) % n ≡ h) ↔ (suc (span n h t) ≡ n)
span_full n h t p q = rw (next_index t n q) (λ e. ground arith, λ e. ground arith)

module _ {ℓ} {T : Type ℓ} (blank : T) where
  -- The `k` items from slot `h` on, going round at `n`.
  abbrev pub window : ℕ → List T → ℕ → ℕ → List T
  window n slots h zero = []
  window n slots h (suc k) = get_or slots h blank ∷ window n slots ((h + 1) % n) k

  get_or-set_self : (xs : List T) (i : ℕ) (v : T) → i < length xs → get_or (set xs i v) i blank ≡ v
  get_or-set_self [] i v h = absurd (omega arith)
  get_or-set_self (x ∷ xs) zero v h = refl
  get_or-set_self (x ∷ xs) (suc i) v h = get_or-set_self xs i v (omega arith)

  get_or-set_ne :
      (xs : List T) (i j : ℕ) (v : T) → i ≢ j → get_or (set xs i v) j blank ≡ get_or xs j blank
  get_or-set_ne [] i j v ne = refl
  get_or-set_ne (x ∷ xs) zero zero v ne = absurd (ne refl)
  get_or-set_ne (x ∷ xs) zero (suc j) v ne = refl
  get_or-set_ne (x ∷ xs) (suc i) zero v ne = refl
  get_or-set_ne (x ∷ xs) (suc i) (suc j) v ne = get_or-set_ne xs i j v (λ e. ne (ap suc e))

  -- A write at `t` is not seen by a window that ends before `t`.
  window-set :
      (n : ℕ) (xs : List T) (h t k : ℕ) (v : T)
      → h < n
      → t < n
      → k ≤ span n h t
      → window n (set xs t v) h k ≡ window n xs h k
  window-set n xs h t zero v p q le = refl
  window-set n xs h t (suc k) v p q le =
      let ne : h ≢ t = λ e. absurd (ground (arith, e)) in
      ap₂ ◌∷◌ (get_or-set_ne xs t h v (λ e. ne (sym e))) (
        window-set n xs ((h + 1) % n) t k v (mod-lt (h + 1) (omega arith)) q
          (omega (arith, span_next n h t p q ne)))

  -- A window that reaches `t` has the item of slot `t` at its end.
  window_snoc :
      (n : ℕ) (xs : List T) (h t k : ℕ)
      → h < n
      → t < n
      → k ≡ span n h t
      → window n xs h (suc k) ≡ window n xs h k ++ get_or xs t blank ∷ []
  window_snoc n xs h t zero p q e = rw (span_zero n h t p q (sym e))
  window_snoc n xs h t (suc k) p q e =
      let ne : h ≢ t = λ same. absurd (ground (arith, same)) in
      ap (◌∷◌ (get_or xs h blank)) (
        window_snoc n xs ((h + 1) % n) t k (mod-lt (h + 1) (omega arith)) q
          (omega (arith, span_next n h t p q ne)))

  length-window : (n : ℕ) (xs : List T) (h k : ℕ) → length (window n xs h k) ≡ k
  length-window n xs h zero = refl
  length-window n xs h (suc k) = ap suc (length-window n xs ((h + 1) % n) k)

  -- The storage has `capacity + 1` slots, and both indices lie in it.
  pub record IsValid (r : RingBuffer T) : Type 0 where
    pub storage : length r.slots ≡ r.capacity + 1
    pub head_in : r.head < length r.slots
    pub tail_in : r.tail < length r.slots

  -- What a ring buffer holds, oldest first.
  abbrev pub contents : RingBuffer T → List T
  contents r = window (length r.slots) r.slots r.head (span (length r.slots) r.head r.tail)

  pub ring_buffer-IsValid : (capacity : ℕ) → IsValid (ring_buffer blank capacity)
  unfolding ring_buffer
  ring_buffer-IsValid capacity = omega (arith, length-replicate (capacity + 1) blank)

  -- The queue's own `pop`.
  abbrev pub first : List T → Option T
  first [] = none
  first (x ∷ xs) = some x

  abbrev pub rest : List T → List T
  rest [] = []
  rest (x ∷ xs) = xs

  length_zero : (xs : List T) → length xs ≡ 0 → xs ≡ []
  length_zero [] e = refl
  length_zero (x ∷ xs) e = absurd (omega arith)

  empty_test : (r : RingBuffer T) → IsValid r → (r.head == r.tail) ≡ (length (contents r) == 0)
  empty_test r v = elim (ℕ_discrete r.head r.tail) [
    | yes e ↦
        rw ((==_iff _ _).1 e)
          (sym ((==_iff _ _).1 (omega (arith, len, span_self n r.head r.tail e))))
    | no ne ↦
        let step = span_next n r.head r.tail v.head_in v.tail_in ne in
        rw (==-false _ _ ne) (sym (==-false _ _ (λ e. absurd (omega (arith, e, len, step)))))
  ]
    where
      n : ℕ
      n = length r.slots

      len : length (contents r) ≡ span n r.head r.tail
      len = length-window n r.slots r.head (span n r.head r.tail)

  -- A new buffer holds nothing.
  pub ring_buffer-contents : (capacity : ℕ) → contents (ring_buffer blank capacity) ≡ []
  unfolding ring_buffer
  ring_buffer-contents capacity =
      let r = ring_buffer blank capacity in
      length_zero (contents r) (
        omega (
          arith,
          length-window (length r.slots) r.slots 0 (span (length r.slots) 0 0),
          span_self (length r.slots) 0 0 refl,
        ))

  -- In a valid buffer `size` counts the contents, which never exceed the capacity, and `empty` says
  -- that there are none.
  pub size-contents :
      (r : RingBuffer T)
      → IsValid r
      → (size blank r ≡ length (contents r))
        × (length (contents r) ≤ r.capacity)
        × (is_empty blank r ≡ (length (contents r) == 0))
  unfolding size is_empty
  size-contents r v =
      let n : ℕ = length r.slots in
      let len = length-window n r.slots r.head (span n r.head r.tail) in
      (sym len, ground (arith, len), empty_test r v)

  push-full :
      (r : RingBuffer T) (x : T)
      → (r.tail + 1) % length r.slots ≡ r.head
      → push blank r x ≡ (r, false)
  unfolding push
  push-full r x e = rw ((==_iff _ _).1 e)

  push-room :
      (r : RingBuffer T) (x : T)
      → (r.tail + 1) % length r.slots ≢ r.head
      → push blank r x
        ≡ (record r { slots = set r.slots r.tail x; tail = (r.tail + 1) % length r.slots }, true)
  unfolding push
  push-room r x ne = rw (==-false _ _ ne)

  -- What `push` makes of a buffer with room.
  abbrev pushed : RingBuffer T → T → RingBuffer T
  pushed r x = record r { slots = set r.slots r.tail x; tail = (r.tail + 1) % length r.slots }

  contents-room :
      (r : RingBuffer T) (x : T)
      → IsValid r
      → (r.tail + 1) % length r.slots ≢ r.head
      → contents (pushed r x) ≡ contents r ++ x ∷ []
  contents-room r x v ne =
      let n : ℕ = length r.slots in
      let k : ℕ = span n r.head r.tail in
      let same : length (set r.slots r.tail x) ≡ n = length-set r.slots r.tail x in
      let last : get_or (set r.slots r.tail x) r.tail blank ≡ x =
        get_or-set_self r.slots r.tail x v.tail_in in
      rw (same, span_grow n r.head r.tail v.head_in v.tail_in ne)
        (window_snoc n (set r.slots r.tail x) r.head r.tail k v.head_in v.tail_in refl
          ∙ ap₂ (λ xs y. xs ++ y ∷ [])
              (window-set n r.slots r.head r.tail k x v.head_in v.tail_in (omega arith)) last)

  room-IsValid : (r : RingBuffer T) (x : T) → IsValid r → IsValid (pushed r x)
  room-IsValid r x v = omega (
    arith,
    length-set r.slots r.tail x,
    v.storage,
    v.head_in,
    mod-lt (r.tail + 1) {m = length r.slots} (omega arith),
  )

  -- A valid buffer refuses an item, with no change, just when it holds `capacity` items. Otherwise
  -- the item goes to the end of the contents. The buffer stays valid.
  pub push_refines :
      (r : RingBuffer T) (x : T)
      → IsValid r
      → ((push blank r x).1 ≡ not (length (contents r) == r.capacity))
        × (contents (push blank r x).0
            ≡ (if length (contents r) == r.capacity then contents r else contents r ++ x ∷ []))
        × IsValid (push blank r x).0
  push_refines r x v = elim (ℕ_discrete ((r.tail + 1) % n) r.head) [
    | yes e ↦
        let full = (span_full n r.head r.tail v.head_in v.tail_in).0 e in
        let test : (length (contents r) == r.capacity) ≡ true =
          (==_iff _ _).1 (omega (arith, full, len)) in
        rw (push-full r x e, test) (refl, refl, v)
    | no ne ↦
        let test : (length (contents r) == r.capacity) ≡ false =
          ==-false _ _
            (λ e. ne ((span_full n r.head r.tail v.head_in v.tail_in).1 (omega (arith, e, len)))) in
        rw (push-room r x ne, test) (refl, contents-room r x v ne, room-IsValid r x v)
  ]
    where
      n : ℕ
      n = length r.slots

      len : length (contents r) ≡ span n r.head r.tail
      len = length-window n r.slots r.head (span n r.head r.tail)

  -- A valid buffer that is empty gives nothing and stays so; any other gives its oldest item and
  -- keeps the rest. The buffer stays valid.
  pub pop_refines :
      (r : RingBuffer T)
      → IsValid r
      → ((pop blank r).1 ≡ first (contents r))
        × (contents (pop blank r).0 ≡ rest (contents r))
        × IsValid (pop blank r).0
  pop_refines r v = elim (ℕ_discrete r.head r.tail) [
    | yes e ↦
        let nothing : pop blank r ≡ (r, none) = unfold pop in rw ((==_iff _ _).1 e) in
        let none_left : contents r ≡ [] =
          length_zero (contents r) (omega (arith, len, span_self n r.head r.tail e)) in
        rw (nothing, none_left) (refl, refl, v)
    | no ne ↦
        let taken : pop blank r
            ≡ (record r { head = (r.head + 1) % n }, some (get_or r.slots r.head blank)) =
          unfold pop in rw (==-false _ _ ne) in
        let step = span_next n r.head r.tail v.head_in v.tail_in ne in
        let front : contents r
            ≡ get_or r.slots r.head blank
              ∷ window n r.slots ((r.head + 1) % n) (span n ((r.head + 1) % n) r.tail) =
          ap (window n r.slots r.head) step in
        (
          ap (λ s. s.1) taken ∙ sym (ap first front),
          ap (λ s. contents s.0) taken ∙ sym (ap rest front),
          rw taken (record {
            storage = v.storage;
            head_in = mod-lt (r.head + 1) (omega arith);
            tail_in = v.tail_in;
          }),
        )
  ]
    where
      n : ℕ
      n = length r.slots

      len : length (contents r) ≡ span n r.head r.tail
      len = length-window n r.slots r.head (span n r.head r.tail)
