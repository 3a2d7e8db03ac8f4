-- ===== src/Util/MemoryCache/Invariant.antt =====
-- The list, the map and the counters of a cache agree, and no operation breaks that.
use hpserver.Prelude.{
  ℕ, zero, suc, ◌-◌, ◌^◌, ◌<◌, ◌≡◌, refl, inl, inr, Option, none, some, List, [], ◌∷◌,
  if◌then◌else◌, Eq, arith, Bool-cases, Option-cases, length,
}
use hpserver.Util.MemoryCache.Nodes.{
  Node, back, weight_of, Below, find_key, remove_key, Distinct, find_key-remove_key,
  remove_key-Distinct, remove_key-Below, remove_key_found, find_key-back, pop_back-remove_key,
}
use hpserver.Util.MemoryCache.{
  MemoryCache, sub_size, map_set, memory_cache, evict_back, over, evict_rounds,
}

abbrev pub address_of : {K V : Type 0} → Option (Node K V) → Option ℕ
address_of none = none
address_of (some n) = some n.address

module _ {K V : Type 0} ⦃e : Eq K⦄ (weigh : V → ℕ) where
  -- Each node carries the weight of its value.
  abbrev pub Weighed : List (Node K V) → Type 0
  Weighed [] = Unit
  Weighed (n ∷ l) = (n.weight ≡ weigh n.value) × Weighed l

  pub Weighed-find_key :
      (k : K) (l : List (Node K V)) (n : Node K V)
      → Weighed l
      → find_key k l ≡ some n
      → n.weight ≡ weigh n.value
  Weighed-find_key k [] n w h = cc
  Weighed-find_key k (x ∷ l) n w h = ground (arith, Weighed-find_key k l n w.1)

  pub record IsValid (c : MemoryCache K V) : Type 0 where
    pub index : (k : K) → c.map k ≡ address_of (find_key k c.lru_list)
    pub counted : c.map_size ≡ length c.lru_list
    pub summed : c.total_weight ≡ weight_of c.lru_list
    pub no_wrap : weight_of c.lru_list < 2 ^ 64
    pub distinct : Distinct c.lru_list
    pub fresh : Below c.next_address c.lru_list
    pub weighed : Weighed c.lru_list

  pub memory_cache-IsValid : (n b : ℕ) → IsValid (memory_cache weigh n b)
  unfolding memory_cache
  memory_cache-IsValid n b = record {
    index = λ k. refl;
    counted = refl;
    summed = refl;
    no_wrap = omega arith;
    distinct = tt;
    fresh = tt;
    weighed = tt;
  }

  pub remove_key-Weighed : (k : K) (l : List (Node K V)) → Weighed l → Weighed (remove_key k l)
  remove_key-Weighed k [] h = tt
  remove_key-Weighed k (x ∷ l) h = elim (Bool-cases (e.beq x.key k)) [
    | inl same ↦ rw (same, if◌then◌else◌) h.1
    | inr other ↦ rw (other, if◌then◌else◌) (h.0, remove_key-Weighed k l h.1)
  ]

  -- The cache without the entry of a key.
  abbrev pub without : MemoryCache K V → Node K V → MemoryCache K V
  without c n = record c {
    total_weight = sub_size c.total_weight n.weight;
    lru_list = remove_key n.key c.lru_list;
    map = map_set weigh c.map n.key none;
    map_size = c.map_size - 1;
  }

  pub without-IsValid :
      (c : MemoryCache K V) (n : Node K V)
      → find_key n.key c.lru_list ≡ some n
      → IsValid c
      → IsValid (without c n)
  without-IsValid c n f v =
      let (count, weight) = remove_key_found n.key c.lru_list n f in
      record {
        index = λ k. ground (arith, v.index k, find_key-remove_key n.key k c.lru_list v.distinct);
        counted = omega (arith, count, v.counted);
        summed = omega (arith, weight, v.summed, v.no_wrap);
        no_wrap = omega (arith, weight, v.no_wrap);
        distinct = remove_key-Distinct n.key c.lru_list v.distinct;
        fresh = remove_key-Below c.next_address n.key c.lru_list v.fresh;
        weighed = remove_key-Weighed n.key c.lru_list v.weighed;
      }

  -- Evicting the back takes out the entry of its key.
  pub evict_back-without :
      (c : MemoryCache K V) (n : Node K V)
      → back c.lru_list ≡ some n
      → IsValid c
      → (evict_back weigh c n ≡ without c n) × (find_key n.key c.lru_list ≡ some n)
  unfolding evict_back
  evict_back-without c n b v =
      let found = find_key-back c.lru_list n v.distinct b in
      let popped = pop_back-remove_key c.lru_list n v.distinct b in
      (ground (arith, found, popped, v.index n.key), found)

  pub evict_rounds-IsValid :
      (fuel : ℕ) (c : MemoryCache K V) → IsValid c → IsValid (evict_rounds weigh fuel c)
  unfolding evict_rounds
  evict_rounds-IsValid zero c v = v
  evict_rounds-IsValid (suc fuel) c v = elim (Option-cases (back c.lru_list)) [
    | inl b ↦ rw (b, evict_rounds) v
    | inr (n, b) ↦ elim (Bool-cases (over weigh c)) [
      | inl more ↦
          let (step, found) = evict_back-without c n b v in
          rw (b, more, evict_rounds)
            (evict_rounds-IsValid fuel (evict_back weigh c n)
              (rw step (without-IsValid c n found v)))
      | inr done ↦ rw (b, done, evict_rounds) v
    ]
  ]
