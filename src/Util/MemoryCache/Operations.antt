-- ===== src/Util/MemoryCache/Operations.antt =====
-- What each operation of a valid cache comes to, with the addresses gone, and that it leaves the
-- cache valid.
use hpserver.Prelude.{
  ℕ, ◌+◌, ◌^◌, ◌<◌, ◌≡◌, refl, ap, ◌∙◌, true, false, none, some, List, [], ◌∷◌, Eq, arith,
}
use hpserver.Util.MemoryCache.Nodes.{
  Node, entry_at, remove_at, weight_of, Below, find_key, remove_key, Distinct, find_key-entry_at,
  find_key-remove_key, remove_key-Distinct, remove_key-Below, remove_key_found,
}
use hpserver.Util.MemoryCache.{
  MemoryCache, add_size, sub_size, get, erase, overwrite, emplace, store,
}
use hpserver.Util.MemoryCache.Invariant.{IsValid, address_of, without, remove_key-Weighed}

module _ {K V : Type 0} ⦃e : Eq K⦄ (weigh : V → ℕ) where
  -- The entry of the key comes to the front.
  abbrev pub promoted : MemoryCache K V → Node K V → MemoryCache K V
  promoted c n = record c { lru_list = n ∷ remove_key n.key c.lru_list }

  -- How a valid cache sees a key that it holds, and one that it does not.
  seen :
      (c : MemoryCache K V) (k : K) (n : Node K V)
      → IsValid weigh c
      → find_key k c.lru_list ≡ some n
      → (c.map k ≡ some n.address)
        × (entry_at n.address c.lru_list ≡ some n)
        × (remove_at n.address c.lru_list ≡ remove_key k c.lru_list)
        × (n.key ≡ k)
  seen c k n v f =
      let (at, removed, key) = find_key-entry_at k c.lru_list n v.distinct f in
      (v.index k ∙ ap address_of f, at, removed, key)

  pub get_found :
      (c : MemoryCache K V) (k : K) (n : Node K V)
      → IsValid weigh c
      → find_key k c.lru_list ≡ some n
      → get weigh c k ≡ (promoted c n, some n.value)
  unfolding get
  get_found c k n v f =
      let (m, at, removed, key) = seen c k n v f in rw (m, get) (rw (at, get) (rw (removed, key)))

  pub get_missing :
      (c : MemoryCache K V) (k : K)
      → IsValid weigh c
      → find_key k c.lru_list ≡ none
      → get weigh c k ≡ (c, none)
  unfolding get
  get_missing c k v f = let m = v.index k ∙ ap address_of f in rw (m, get)

  pub erase_found :
      (c : MemoryCache K V) (k : K) (n : Node K V)
      → IsValid weigh c
      → find_key k c.lru_list ≡ some n
      → erase weigh c k ≡ (without weigh c n, true)
  unfolding erase
  erase_found c k n v f =
      let (m, at, removed, key) = seen c k n v f in
      rw (m, erase) (rw (at, erase) (rw (removed, key)))

  pub erase_missing :
      (c : MemoryCache K V) (k : K)
      → IsValid weigh c
      → find_key k c.lru_list ≡ none
      → erase weigh c k ≡ (c, false)
  unfolding erase
  erase_missing c k v f = let m = v.index k ∙ ap address_of f in rw (m, erase)

  -- `store` on a key that is there.
  abbrev pub replaced : MemoryCache K V → Node K V → V → MemoryCache K V
  replaced c n v = record c {
    total_weight = add_size (sub_size c.total_weight n.weight) (weigh v);
    lru_list = record n { value = v; weight = weigh v } ∷ remove_key n.key c.lru_list;
  }

  pub store_found :
      (c : MemoryCache K V) (k : K) (x : V) (n : Node K V)
      → IsValid weigh c
      → find_key k c.lru_list ≡ some n
      → store weigh c k x ≡ replaced c n x
  unfolding store overwrite
  store_found c k x n v f =
      let (m, at, removed, key) = seen c k n v f in
      rw (m, store) (rw (at, store) (rw (removed, key)))

  pub store_missing :
      (c : MemoryCache K V) (k : K) (x : V)
      → IsValid weigh c
      → find_key k c.lru_list ≡ none
      → store weigh c k x ≡ emplace weigh c k x
  unfolding store
  store_missing c k x v f = let m = v.index k ∙ ap address_of f in rw (m, store)

  -- A node put in front of the list without its key leaves every look-up of another key alone.
  front_index :
      (c : MemoryCache K V) (n m : Node K V) (k : K)
      → IsValid weigh c
      → find_key n.key c.lru_list ≡ some n
      → m.key ≡ n.key
      → m.address ≡ n.address
      → c.map k ≡ address_of (find_key k (m ∷ remove_key n.key c.lru_list))
  front_index c n m k v f q a = ground (
    arith,
    v.index k,
    e.beq_iff m.key k,
    e.beq_iff n.key k,
    find_key-remove_key n.key k c.lru_list v.distinct,
  )

  entry_at-Below :
      (b : ℕ) (l : List (Node K V)) (a : ℕ) (n : Node K V)
      → Below b l
      → entry_at a l ≡ some n
      → a < b
  entry_at-Below b [] a n h f = cc
  entry_at-Below b (x ∷ l) a n h f = ground (arith, entry_at-Below b l a n h.1)

  entry_at-removed :
      (k : K) (l : List (Node K V)) (n : Node K V)
      → Distinct l
      → find_key k l ≡ some n
      → entry_at n.address (remove_key k l) ≡ none
  entry_at-removed k [] n d f = refl
  entry_at-removed k (x ∷ l) n d f =
      ground (arith, entry_at-removed k l n d.2, (find_key-entry_at k l n d.2))

  -- Bringing an entry to the front, its value changed or not.
  pub front-IsValid :
      (c : MemoryCache K V) (n m : Node K V) (total : ℕ)
      → IsValid weigh c
      → find_key n.key c.lru_list ≡ some n
      → m.key ≡ n.key
      → m.address ≡ n.address
      → m.weight ≡ weigh m.value
      → total ≡ m.weight + weight_of (remove_key n.key c.lru_list)
      → total < 2 ^ 64
      → IsValid weigh
          (record c { total_weight = total; lru_list = m ∷ remove_key n.key c.lru_list })
  front-IsValid c n m total v f q a w t s =
      let (count, weight) = remove_key_found n.key c.lru_list n f in
      let gone = find_key-remove_key n.key n.key c.lru_list v.distinct in
      let (at, _, _) = find_key-entry_at n.key c.lru_list n v.distinct f in
      record {
        index = λ k. front_index c n m k v f q a;
        counted = omega (arith, count, v.counted);
        summed = t;
        no_wrap = omega (arith, t, s);
        distinct = (
          rw (q, gone, (e.beq_iff n.key n.key).1 refl),
          rw a (entry_at-removed n.key c.lru_list n v.distinct f),
          remove_key-Distinct n.key c.lru_list v.distinct,
        );
        fresh = (
          rw a (entry_at-Below c.next_address c.lru_list n.address n v.fresh at),
          remove_key-Below c.next_address n.key c.lru_list v.fresh,
        );
        weighed = (w, remove_key-Weighed weigh n.key c.lru_list v.weighed);
      }
