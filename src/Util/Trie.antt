-- ===== src/Util/Trie.antt =====
-- src/util/bitwise_trie.h: a binary trie over the 32 bits of a key, highest bit first. A
-- `unique_ptr<node>` is a `Child`, and the root is a node that is never null. The counter of
-- a loop here is the number of bits left, `i + 1` in the source.
pub mod Laws
use hpserver.Prelude.{
  ℕ, zero, suc, ◌/◌, ◌%◌, ◌^◌, Bool, true, false, Option, none, some, ◌==◌, if◌then◌else◌,
}

mutual
  pub data Child {ℓ} (A : Type ℓ) : Type ℓ where
    null : Child A
    owns : Node A → Child A

  pub data Node {ℓ} (A : Type ℓ) : Type ℓ where
    node : Child A → Child A → Option A → Node A

-- `(key >> i) & 1`
abbrev pub bit : ℕ → ℕ → ℕ
bit key i = key / 2 ^ i % 2

module _ {ℓ} {A : Type ℓ} where
  -- `std::make_unique<node>()`, also the root of a new trie.
  abbrev pub empty : Node A
  empty = node null null none

  abbrev pub value : Node A → Option A
  value (node l r v) = v

  abbrev pub with_value : Node A → Option A → Node A
  with_value (node l r _) v = node l r v

  -- `children[bit]`, as a read and as a write.
  abbrev pub child : Node A → ℕ → Child A
  child (node l r v) b = if b == 0 then l else r

  abbrev pub with_child : Node A → ℕ → Child A → Node A
  with_child (node l r v) b c = if b == 0 then node c r v else node l c v

  -- A missing child is made on the way.
  abbrev pub or_make : Child A → Node A
  or_make null = empty
  or_make (owns n) = n

  search_from : ℕ → ℕ → Node A → Option A
  search_from zero key n = value n
  search_from (suc i) key n = elim (child n (bit key i)) [
    | null ↦ none
    | owns c ↦ search_from i key c
  ]

  unfoldable pub search : Node A → ℕ → Option A
  unfolding search_from
  search root key = search_from 32 key root

  insert_from : ℕ → ℕ → A → Node A → Node A
  insert_from zero key v n = with_value n (some v)
  insert_from (suc i) key v n =
      with_child n (bit key i) (owns (insert_from i key v (or_make (child n (bit key i)))))

  unfoldable pub insert : Node A → ℕ → A → Node A
  unfolding insert_from
  insert root key v = insert_from 32 key v root

  abbrev pub has_value : Option A → Bool
  has_value none = false
  has_value (some v) = true

  -- The trie after the call, and what the call returns.
  remove_from : ℕ → ℕ → Node A → Node A × Bool
  remove_from zero key n = (with_value n none, has_value (value n))
  remove_from (suc i) key n = elim (child n (bit key i)) [
    | null ↦ (n, false)
    | owns c ↦
        let (c', existed) = remove_from i key c in (with_child n (bit key i) (owns c'), existed)
  ]

  unfoldable pub remove : Node A → ℕ → Node A × Bool
  unfolding remove_from
  remove root key = remove_from 32 key root
