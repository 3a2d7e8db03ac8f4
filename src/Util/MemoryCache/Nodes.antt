-- ===== src/Util/MemoryCache/Nodes.antt =====
-- `struct node` and the `std::list` of nodes: by address, as the map's iterators find them, and by
-- key, as a reader of the cache does.
use hpserver.Prelude.{
  ℕ, suc, ◌+◌, ◌<◌, ◌≡◌, refl, sym, ap, subst, inl, inr, Option, none, some, List, [], ◌∷◌, ◌==◌,
  if◌then◌else◌, Eq, arith, Bool-cases, length, ◌≤◌,
}

pub record Node (K V : Type 0) : Type 0 where
  pub address : ℕ
  pub key : K
  pub value : V
  pub weight : ℕ

module _ {K V : Type 0} where
  abbrev pub entry_at : ℕ → List (Node K V) → Option (Node K V)
  entry_at a [] = none
  entry_at a (n ∷ l) = if n.address == a then some n else entry_at a l

  abbrev pub remove_at : ℕ → List (Node K V) → List (Node K V)
  remove_at a [] = []
  remove_at a (n ∷ l) = if n.address == a then l else n ∷ remove_at a l

  abbrev pub back : List (Node K V) → Option (Node K V)
  back [] = none
  back (n ∷ []) = some n
  back (n ∷ m ∷ l) = back (m ∷ l)

  abbrev pub pop_back : List (Node K V) → List (Node K V)
  pop_back [] = []
  pop_back (n ∷ []) = []
  pop_back (n ∷ m ∷ l) = n ∷ pop_back (m ∷ l)

  -- The sum of the weights.
  abbrev pub weight_of : List (Node K V) → ℕ
  weight_of [] = 0
  weight_of (n ∷ l) = n.weight + weight_of l

  -- Addresses handed out so far.
  abbrev pub Below : ℕ → List (Node K V) → Type 0
  Below b [] = Unit
  Below b (n ∷ l) = (n.address < b) × Below b l

module _ {K V : Type 0} ⦃e : Eq K⦄ where
  abbrev pub find_key : K → List (Node K V) → Option (Node K V)
  find_key k [] = none
  find_key k (n ∷ l) = if e.beq n.key k then some n else find_key k l

  abbrev pub remove_key : K → List (Node K V) → List (Node K V)
  remove_key k [] = []
  remove_key k (n ∷ l) = if e.beq n.key k then l else n ∷ remove_key k l

  -- No key and no address stands twice.
  abbrev pub Distinct : List (Node K V) → Type 0
  Distinct [] = Unit
  Distinct (n ∷ l) = (find_key n.key l ≡ none) × (entry_at n.address l ≡ none) × Distinct l

  -- The map's iterator leads to the entry of its key.
  pub find_key-entry_at :
      (k : K) (l : List (Node K V)) (n : Node K V)
      → Distinct l
      → find_key k l ≡ some n
      → (entry_at n.address l ≡ some n) × (remove_at n.address l ≡ remove_key k l) × (n.key ≡ k)
  find_key-entry_at k [] n d h = cc
  find_key-entry_at k (x ∷ l) n d h = elim (Bool-cases (e.beq x.key k)) [
    | inl same ↦ ground (arith, same, e.beq_iff x.key k)
    | inr other ↦ ground (arith, other, find_key-entry_at k l n d.2)
  ]

  pub find_key_key :
      (k : K) (l : List (Node K V)) (n : Node K V) → find_key k l ≡ some n → n.key ≡ k
  find_key_key k [] n h = cc
  find_key_key k (x ∷ l) n h = ground (arith, e.beq_iff x.key k, find_key_key k l n)

  pub find_key_own :
      (k : K) (l : List (Node K V)) (n : Node K V)
      → find_key k l ≡ some n
      → find_key n.key l ≡ some n
  find_key_own k l n h = subst (λ j. find_key j l ≡ some n) (sym (find_key_key k l n h)) h

  pub find_key-remove_key :
      (k j : K) (l : List (Node K V))
      → Distinct l
      → find_key j (remove_key k l) ≡ (if e.beq k j then none else find_key j l)
  find_key-remove_key k j [] d = ground arith
  find_key-remove_key k j (x ∷ l) d =
      ground
        (arith, e.beq_iff x.key k, e.beq_iff x.key j, e.beq_iff k j, find_key-remove_key k j l d.2)

  pub entry_at-remove_key :
      (k : K) (a : ℕ) (l : List (Node K V))
      → entry_at a l ≡ none
      → entry_at a (remove_key k l) ≡ none
  entry_at-remove_key k a [] h = refl
  entry_at-remove_key k a (x ∷ l) h = ground (arith, entry_at-remove_key k a l)

  pub remove_key-Distinct : (k : K) (l : List (Node K V)) → Distinct l → Distinct (remove_key k l)
  remove_key-Distinct k [] d = tt
  remove_key-Distinct k (x ∷ l) d = elim (Bool-cases (e.beq x.key k)) [
    | inl same ↦ rw (same, if◌then◌else◌) d.2
    | inr other ↦
        rw (other, if◌then◌else◌)
          (
            ground (arith, find_key-remove_key k x.key l d.2),
            entry_at-remove_key k x.address l d.1,
            remove_key-Distinct k l d.2,
          )
  ]

  pub remove_key-Below :
      (b : ℕ) (k : K) (l : List (Node K V)) → Below b l → Below b (remove_key k l)
  remove_key-Below b k [] h = tt
  remove_key-Below b k (x ∷ l) h = elim (Bool-cases (e.beq x.key k)) [
    | inl same ↦ rw (same, if◌then◌else◌) h.1
    | inr other ↦ rw (other, if◌then◌else◌) (h.0, remove_key-Below b k l h.1)
  ]

  -- What goes when the entry of a key goes.
  pub remove_key_found :
      (k : K) (l : List (Node K V)) (n : Node K V)
      → find_key k l ≡ some n
      → (length l ≡ suc (length (remove_key k l)))
        × (weight_of l ≡ n.weight + weight_of (remove_key k l))
  remove_key_found k [] n h = cc
  remove_key_found k (x ∷ l) n h = ground (arith, remove_key_found k l n)

  pub remove_key_absent : (k : K) (l : List (Node K V)) → find_key k l ≡ none → remove_key k l ≡ l
  remove_key_absent k [] h = refl
  remove_key_absent k (x ∷ l) h = ground (arith, remove_key_absent k l)

  -- The node at the back is found by its key, which no other node has.
  pub find_key-back :
      (l : List (Node K V)) (n : Node K V)
      → Distinct l
      → back l ≡ some n
      → find_key n.key l ≡ some n
  find_key-back [] n d h = cc
  find_key-back (x ∷ []) n d h =
      let same : x ≡ n = ground arith in
      subst (λ m. find_key m.key (x ∷ []) ≡ some m) same (rw ((e.beq_iff x.key x.key).1 refl))
  find_key-back (x ∷ y ∷ l) n d h =
      let rest : find_key n.key (y ∷ l) ≡ some n = find_key-back (y ∷ l) n d.2 h in
      elim (Bool-cases (e.beq x.key n.key)) [
        | inl same ↦ absurd (ground (arith, e.beq_iff x.key n.key, rest))
        | inr other ↦ rw other rest
      ]

  -- Taking the back off is removing its key.
  pub pop_back-remove_key :
      (l : List (Node K V)) (n : Node K V)
      → Distinct l
      → back l ≡ some n
      → pop_back l ≡ remove_key n.key l
  pop_back-remove_key [] n d h = refl
  pop_back-remove_key (x ∷ []) n d h =
      let same : x ≡ n = ground arith in
      subst (λ m. [] ≡ remove_key m.key (x ∷ [])) same (rw ((e.beq_iff x.key x.key).1 refl))
  pop_back-remove_key (x ∷ y ∷ l) n d h =
      let rest : find_key n.key (y ∷ l) ≡ some n = find_key-back (y ∷ l) n d.2 h in
      elim (Bool-cases (e.beq x.key n.key)) [
        | inl same ↦ absurd (ground (arith, e.beq_iff x.key n.key, rest))
        | inr other ↦ rw other (ap (◌∷◌ x) (pop_back-remove_key (y ∷ l) n d.2 h))
      ]

module _ {K V : Type 0} where
  pub entry_at_fresh : (b a : ℕ) (l : List (Node K V)) → Below b l → b ≤ a → entry_at a l ≡ none
  entry_at_fresh b a [] h le = refl
  entry_at_fresh b a (x ∷ l) h le = ground (arith, entry_at_fresh b a l h.1 le)

  pub Below-mono : (b c : ℕ) (l : List (Node K V)) → b ≤ c → Below b l → Below c l
  Below-mono b c [] le h = tt
  Below-mono b c (x ∷ l) le h = (omega arith, Below-mono b c l le h.1)
