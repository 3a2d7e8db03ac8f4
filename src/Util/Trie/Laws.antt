-- ===== src/Util/Trie/Laws.antt =====
-- The trie is a finite map on 32-bit keys.
use hpserver.Prelude.{
  ℕ, zero, suc, ◌+◌, ◌*◌, ◌/◌, ◌%◌, ◌^◌, ◌<◌, ◌≡◌, refl, ap, ◌⊎◌, inl, inr, Bool, true, ◌&&◌, none,
  some, ◌==◌, ==_iff, if◌then◌else◌, arith, Bool-cases,
}
use native.Mathlib.Nat.{mod-add-div, div-div-eq-div-mul, pow-suc}
use hpserver.Util.Trie.{
  Child, null, owns, Node, node, bit, empty, child, with_child, or_make, search_from, search,
  insert_from, insert, remove_from, remove, has_value,
}

-- Two keys agree in their lowest `i` bits.
agree : ℕ → ℕ → ℕ → Bool
agree zero k j = true
agree (suc i) k j = (bit k i == bit j i) && agree i k j

mod_split : (x m : ℕ) → x % (m * 2) ≡ x % m + m * (x / m % 2)
mod_split x m = omega (
  arith,
  mod-add-div x (m * 2),
  mod-add-div x m,
  ap (λ t. m * t) (div-div-eq-div-mul x m 2),
  ap (λ t. m * t) (mod-add-div (x / m) 2),
)

agree-low : (i k j : ℕ) → agree i k j ≡ true → k % 2 ^ i ≡ j % 2 ^ i
unfolding agree
agree-low zero k j h = omega arith
agree-low (suc i) k j h =
    let e : bit k i ≡ bit j i = ground arith in
    let ih : k % 2 ^ i ≡ j % 2 ^ i = agree-low i k j (ground arith) in
    rw pow-suc (omega (arith, mod_split k (2 ^ i), mod_split j (2 ^ i), ap (λ t. 2 ^ i * t) e))

agree_self : (i k : ℕ) → agree i k k ≡ true
unfolding agree
agree_self zero k = refl
agree_self (suc i) k = ground (arith, agree_self i k)

agree_keys : (k j : ℕ) → k < 2 ^ 32 → j < 2 ^ 32 → agree 32 k j ≡ (k == j)
agree_keys k j hk hj = elim (Bool-cases (agree 32 k j)) [
  | inl e ↦ let low : k % 2 ^ 32 ≡ j % 2 ^ 32 = agree-low 32 k j e in rw e (ground arith)
  | inr e ↦ elim (Bool-cases (k == j)) [
    | inl same ↦ let p : k ≡ j = (==_iff k j).0 same in absurd (ground (arith, agree_self 32 j))
    | inr other ↦ rw (e, other)
  ]
]

module _ {ℓ} {A : Type ℓ} where
  Child-cases : (c : Child A) → (c ≡ null) ⊎ ((n : Node A) × (c ≡ owns n))
  Child-cases null = inl refl
  Child-cases (owns n) = inr (n, refl)

  search_from-empty : (i j : ℕ) → search_from i j (empty {A = A}) ≡ none
  unfolding search_from
  search_from-empty zero j = refl
  search_from-empty (suc i) j = ground arith

  child-with_child :
      (n : Node A) (b c : ℕ) (t : Child A)
      → b < 2
      → c < 2
      → child (with_child n b t) c ≡ (if b == c then t else child n c)
  child-with_child (node l r v) zero zero t hb hc = refl
  child-with_child (node l r v) zero (suc zero) t hb hc = refl
  child-with_child (node l r v) (suc zero) zero t hb hc = refl
  child-with_child (node l r v) (suc zero) (suc zero) t hb hc = refl
  child-with_child n (suc (suc b)) c t hb hc = absurd (omega arith)
  child-with_child n b (suc (suc c)) t hb hc = absurd (omega arith)

  search_from-insert_from :
      (i k j : ℕ) (v : A) (n : Node A)
      → search_from i j (insert_from i k v n) ≡ (if agree i k j then some v else search_from i j n)
  unfolding search_from insert_from agree
  search_from-insert_from zero k j v (node l r w) = refl
  search_from-insert_from (suc i) k j v n = ground (
    arith,
    search_from-insert_from i k j v (or_make (child n (bit k i))),
    child-with_child n (bit k i) (bit j i) (owns (insert_from i k v (or_make (child n (bit k i))))),
    search_from-empty i j,
  )

  search_from-remove_from :
      (i k j : ℕ) (n : Node A)
      → search_from i j (remove_from i k n).0 ≡ (if agree i k j then none else search_from i j n)
  unfolding search_from remove_from agree
  search_from-remove_from zero k j (node l r w) = refl
  search_from-remove_from (suc i) k j n = elim (Child-cases (child n (bit k i))) [
    | inl e ↦ ground arith
    | inr (c, e) ↦ ground (
      arith,
      search_from-remove_from i k j c,
      child-with_child n (bit k i) (bit j i) (owns (remove_from i k c).0),
    )
  ]

  remove_from-found : (i k : ℕ) (n : Node A) → (remove_from i k n).1 ≡ has_value (search_from i k n)
  unfolding search_from remove_from
  remove_from-found zero k n = refl
  remove_from-found (suc i) k n = elim (Child-cases (child n (bit k i))) [
    | inl e ↦ ground arith
    | inr (c, e) ↦ ground (arith, remove_from-found i k c)
  ]

  -- A new trie holds no key.
  pub search-empty : (j : ℕ) → search (empty {A = A}) j ≡ none
  unfolding search
  search-empty j = search_from-empty 32 j

  -- After an insertion a 32-bit key holds the new value, and every other 32-bit key what it held.
  pub search-insert :
      (t : Node A) (k j : ℕ) (v : A)
      → k < 2 ^ 32
      → j < 2 ^ 32
      → search (insert t k v) j ≡ (if k == j then some v else search t j)
  unfolding search insert
  search-insert t k j v hk hj = rw (search_from-insert_from, agree_keys k j hk hj)

  -- A removal takes a 32-bit key out and leaves every other 32-bit key alone, and it returns whether
  -- the key was there.
  search-remove :
      (t : Node A) (k j : ℕ)
      → k < 2 ^ 32
      → j < 2 ^ 32
      → (search (remove t k).0 j ≡ (if k == j then none else search t j))
        × ((remove t k).1 ≡ has_value (search t k))
  unfolding search remove
  search-remove t k j hk hj =
      (rw (search_from-remove_from, agree_keys k j hk hj), remove_from-found 32 k t)
