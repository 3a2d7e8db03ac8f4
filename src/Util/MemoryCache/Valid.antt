-- ===== src/Util/MemoryCache/Valid.antt =====
-- Each operation leaves a valid cache valid.
use hpserver.Prelude.{ℕ, ◌+◌, ◌^◌, ◌<◌, ◌≡◌, refl, inl, inr, none, some, Eq, arith, Option-cases}
use hpserver.Util.MemoryCache.Nodes.{
  Node, weight_of, Below-mono, find_key, remove_key, entry_at_fresh, remove_key_found, find_key_own,
}
use hpserver.Util.MemoryCache.{MemoryCache, add_size, sub_size, get, erase, emplace, store}
use hpserver.Util.MemoryCache.Invariant.{IsValid, Weighed-find_key, without-IsValid}
use hpserver.Util.MemoryCache.Operations.{
  promoted, get_found, get_missing, erase_found, erase_missing, replaced, store_found,
  store_missing, front-IsValid,
}

module _ {K V : Type 0} ⦃e : Eq K⦄ (weigh : V → ℕ) where
  promoted-IsValid :
      (c : MemoryCache K V) (k : K) (n : Node K V)
      → IsValid weigh c
      → find_key k c.lru_list ≡ some n
      → IsValid weigh (promoted weigh c n)
  promoted-IsValid c k n v f =
      let own = find_key_own k c.lru_list n f in
      let (_, weight) = remove_key_found n.key c.lru_list n own in
      front-IsValid weigh c n n c.total_weight v own refl refl
        (Weighed-find_key weigh k c.lru_list n v.weighed f) (omega (arith, weight, v.summed))
        (omega (arith, v.summed, v.no_wrap))

  pub get-IsValid :
      (c : MemoryCache K V) (k : K) → IsValid weigh c → IsValid weigh (get weigh c k).0
  get-IsValid c k v = elim (Option-cases (find_key k c.lru_list)) [
    | inl f ↦ rw (get_missing weigh c k v f) v
    | inr (n, f) ↦ rw (get_found weigh c k n v f) (promoted-IsValid c k n v f)
  ]

  pub erase-IsValid :
      (c : MemoryCache K V) (k : K) → IsValid weigh c → IsValid weigh (erase weigh c k).0
  erase-IsValid c k v = elim (Option-cases (find_key k c.lru_list)) [
    | inl f ↦ rw (erase_missing weigh c k v f) v
    | inr (n, f) ↦
        rw (erase_found weigh c k n v f)
          (without-IsValid weigh c n ((find_key_own k c.lru_list n f)) v)
  ]

  replaced-IsValid :
      (c : MemoryCache K V) (k : K) (x : V) (n : Node K V)
      → IsValid weigh c
      → weight_of c.lru_list + weigh x < 2 ^ 64
      → find_key k c.lru_list ≡ some n
      → IsValid weigh (replaced weigh c n x)
  replaced-IsValid c k x n v room f =
      let own = find_key_own k c.lru_list n f in
      let (_, weight) = remove_key_found n.key c.lru_list n own in
      let total : add_size (sub_size c.total_weight n.weight) (weigh x)
          ≡ weigh x + weight_of (remove_key n.key c.lru_list) =
        omega (arith, weight, v.summed, room) in
      front-IsValid weigh c n (record n { value = x; weight = weigh x }) _ v own refl refl refl
        total (omega (arith, total, weight, room))

  emplace-IsValid :
      (c : MemoryCache K V) (k : K) (x : V)
      → IsValid weigh c
      → weight_of c.lru_list + weigh x < 2 ^ 64
      → find_key k c.lru_list ≡ none
      → IsValid weigh (emplace weigh c k x)
  unfolding emplace
  emplace-IsValid c k x v room f = record {
    index = λ j. ground (arith, v.index j);
    counted = omega (arith, v.counted);
    summed = omega (arith, v.summed, room);
    no_wrap = omega (arith, room);
    distinct = (
      f,
      entry_at_fresh c.next_address c.next_address c.lru_list v.fresh (omega arith),
      v.distinct,
    );
    fresh = (
      omega arith,
      Below-mono c.next_address (c.next_address + 1) c.lru_list (omega arith) v.fresh,
    );
    weighed = (refl, v.weighed);
  }

  pub store-IsValid :
      (c : MemoryCache K V) (k : K) (x : V)
      → IsValid weigh c
      → weight_of c.lru_list + weigh x < 2 ^ 64
      → IsValid weigh (store weigh c k x)
  store-IsValid c k x v room = elim (Option-cases (find_key k c.lru_list)) [
    | inl f ↦ rw (store_missing weigh c k x v f) (emplace-IsValid c k x v room f)
    | inr (n, f) ↦ rw (store_found weigh c k x n v f) (replaced-IsValid c k x n v room f)
  ]
