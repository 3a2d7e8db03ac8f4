-- ===== src/Util/MemoryCache/Refine.antt =====
-- `put`, `get` and `erase` of a cache do what an ideal cache does: a list of entries, most recently
-- used first, of which as many as both limits allow are kept.
use hpserver.Prelude.{
  ℕ, ◌+◌, ◌^◌, ◌<◌, ◌≤◌, leb, zero, suc, ◌≡◌, refl, sym, ap, ◌∙◌, inl, inr, Bool, true, false, ◌||◌,
  none, some, List, ◌∷◌, ◌==◌, if◌then◌else◌, Eq, arith, Bool-cases, Option-cases, length,
}
use mathlib.Core.Path.{ap₂}
use hpserver.Util.MemoryCache.Nodes.{entry_at, weight_of, find_key, remove_key, find_key_key}
use hpserver.Util.MemoryCache.{
  MemoryCache, get, with_value, erase, evict_if_needed, emplace, overwrite, store, do_put, put,
}
use hpserver.Util.MemoryCache.Invariant.{IsValid, evict_rounds-IsValid}
use hpserver.Util.MemoryCache.Operations.{
  get_found, get_missing, erase_found, erase_missing, store_found, store_missing,
}
use hpserver.Util.MemoryCache.Valid.{store-IsValid, get-IsValid, erase-IsValid}
use hpserver.Util.MemoryCache.Fit.{
  entries, lookup, drop_key, fit, IsWithin, evict_rounds-fit, lookup-entries, lookup-entries_absent,
  drop_key-entries, drop_key_absent,
}

module _ {K V : Type 0} ⦃e : Eq K⦄ (weigh : V → ℕ) where
  store-entries :
      (c : MemoryCache K V) (k : K) (x : V)
      → IsValid weigh c
      → entries (store weigh c k x).lru_list ≡ (k, x) ∷ drop_key k (entries c.lru_list)
  unfolding emplace
  store-entries c k x v = elim (Option-cases (find_key k c.lru_list)) [
    | inl f ↦
        rw (store_missing weigh c k x v f) (ap (◌∷◌ (k, x)) (sym (drop_key_absent k c.lru_list f)))
    | inr (n, f) ↦
        let key = find_key_key k c.lru_list n f in
        rw (store_found weigh c k x n v f) (
          ap₂ (λ j l. (j, x) ∷ l) key
            (ap (λ j. entries (remove_key j c.lru_list)) key ∙ sym (drop_key-entries k c.lru_list)))
  ]

  store-limits :
      (c : MemoryCache K V) (k : K) (x : V)
      → IsValid weigh c
      → ((store weigh c k x).max_entries ≡ c.max_entries)
        × ((store weigh c k x).max_bytes ≡ c.max_bytes)
  unfolding store emplace overwrite
  store-limits c k x v = ground arith

  lookup-fit :
      (n b : ℕ) (k : K) (x : V) (l : List (K × V))
      → 0 < n
      → weigh x ≤ b
      → lookup k (fit weigh n b ((k, x) ∷ l)) ≡ some x
  unfolding fit lookup
  lookup-fit zero b k x l h g = absurd (omega (arith, h))
  lookup-fit (suc n) b k x l h g =
      let fits : leb (weigh x) b ≡ true = ground (arith, g) in
      let same : e.beq k k ≡ true = (e.beq_iff k k).1 refl in rw (fits, same) refl

  -- In a valid cache within its limits, whose weights and the new one sum to less than 2^64, `put`
  -- puts the entry in front of the others, the old entry of its key gone, and keeps the longest
  -- prefix within both limits; with a limit of 0 it changes nothing. The cache stays valid and
  -- within its limits.
  pub put_refines :
      (c : MemoryCache K V) (k : K) (x : V)
      → IsValid weigh c
      → IsWithin weigh c
      → weight_of c.lru_list + weigh x < 2 ^ 64
      → (entries (put weigh c k x).lru_list ≡ (
          if c.max_entries == 0 || c.max_bytes == 0
          then entries c.lru_list
          else fit weigh c.max_entries c.max_bytes ((k, x) ∷ drop_key k (entries c.lru_list))))
        × IsWithin weigh (put weigh c k x)
        × IsValid weigh (put weigh c k x)
  unfolding put do_put evict_if_needed
  put_refines c k x v w room = elim (Bool-cases (c.max_entries == 0 || c.max_bytes == 0)) [
    | inl off ↦ rw off (refl, w, v)
    | inr on ↦
        let s = store weigh c k x in
        let valid = store-IsValid weigh c k x v room in
        let (kept, within) = evict_rounds-fit weigh (length s.lru_list) s (omega arith) valid in
        let (same_count, same_bytes) = store-limits c k x v in
        rw on (
          kept
              ∙ ap₂ (λ m b. fit weigh m b (entries s.lru_list)) same_count same_bytes
              ∙ ap (fit weigh c.max_entries c.max_bytes) (store-entries c k x v),
          within,
          evict_rounds-IsValid weigh (length s.lru_list) s valid,
        )
  ]

  -- The ideal `get`: a found entry comes to the front.
  abbrev pub touch : K → List (K × V) → List (K × V)
  touch k l = elim (lookup k l) [ none ↦ l | some x ↦ (k, x) ∷ drop_key k l ]

  abbrev pub holds : K → List (K × V) → Bool
  holds k l = elim (lookup k l) [ none ↦ false | some x ↦ true ]

  -- In a valid cache, which stays valid, `get` returns what the ideal look-up finds, and brings a
  -- found entry to the front.
  pub get_refines :
      (c : MemoryCache K V) (k : K)
      → IsValid weigh c
      → ((get weigh c k).1 ≡ lookup k (entries c.lru_list))
        × (entries (get weigh c k).0.lru_list ≡ touch k (entries c.lru_list))
        × IsValid weigh (get weigh c k).0
  get_refines c k v = elim (Option-cases (find_key k c.lru_list)) [
    | inl f ↦
        let absent = lookup-entries_absent k c.lru_list f in
        rw (get_missing weigh c k v f) (sym absent, rw (absent, touch), v)
    | inr (n, f) ↦
        let there = lookup-entries k c.lru_list n f in
        let key = find_key_key k c.lru_list n f in
        let front : (n.key, n.value) ∷ entries (remove_key n.key c.lru_list)
            ≡ (k, n.value) ∷ drop_key k (entries c.lru_list) =
          ap (λ j. (j, n.value) ∷ entries (remove_key j c.lru_list)) key
          ∙ ap (◌∷◌ (k, n.value)) (sym (drop_key-entries k c.lru_list)) in
        let valid = get-IsValid weigh c k v in
        (
          ap (λ r. r.1) (get_found weigh c k n v f) ∙ sym there,
          ap (λ r. entries r.0.lru_list) (get_found weigh c k n v f) ∙ front ∙ rw (there, touch),
          valid,
        )
  ]

  -- In a valid cache, which stays valid, `erase` takes out the entry of the key, and says whether
  -- there was one.
  erase_refines :
      (c : MemoryCache K V) (k : K)
      → IsValid weigh c
      → (entries (erase weigh c k).0.lru_list ≡ drop_key k (entries c.lru_list))
        × ((erase weigh c k).1 ≡ holds k (entries c.lru_list))
        × IsValid weigh (erase weigh c k).0
  erase_refines c k v = elim (Option-cases (find_key k c.lru_list)) [
    | inl f ↦
        let absent = lookup-entries_absent k c.lru_list f in
        rw (erase_missing weigh c k v f)
          (sym (drop_key_absent k c.lru_list f), rw (absent, holds), v)
    | inr (n, f) ↦
        let there = lookup-entries k c.lru_list n f in
        let key = find_key_key k c.lru_list n f in
        (
          ap (λ r. entries r.0.lru_list) (erase_found weigh c k n v f)
              ∙ ap (λ j. entries (remove_key j c.lru_list)) key
              ∙ sym (drop_key-entries k c.lru_list),
          ap (λ r. r.1) (erase_found weigh c k n v f) ∙ rw (there, holds),
          erase-IsValid weigh c k v,
        )
  ]

  -- `with_value` calls its function on what `get` returns, with the same effect on the cache.
  pub with_value-get :
      {W : Type 0} (c : MemoryCache K V) (k : K) (fn : V → W → W) (w : W) (x : V)
      → (get weigh c k).1 ≡ some x
      → with_value weigh c k fn w ≡ ((get weigh c k).0, fn x w, true)
  unfolding get with_value
  with_value-get c k fn w x h = elim (Option-cases (c.map k)) [
    | inl n ↦ absurd (ground (arith, rw (n, get) at h))
    | inr (a, n) ↦ elim (Option-cases (entry_at a c.lru_list)) [
      | inl m ↦ absurd (ground (arith, rw (n, get, m) at h))
      | inr (found, m) ↦
          let same : found.value ≡ x = ground (arith, rw (n, get, m) at h) in
          rw (n, with_value, m, get, same) refl
    ]
  ]

  -- An entry that has room by itself is found after its `put`.
  pub get-put :
      (c : MemoryCache K V) (k : K) (x : V)
      → IsValid weigh c
      → IsWithin weigh c
      → weight_of c.lru_list + weigh x < 2 ^ 64
      → 0 < c.max_entries
      → 0 < c.max_bytes
      → weigh x ≤ c.max_bytes
      → (get weigh (put weigh c k x) k).1 ≡ some x
  get-put c k x v w room n b fits =
      let (kept, within, valid) = put_refines c k x v w room in
      let on : c.max_entries == 0 || c.max_bytes == 0 ≡ false = ground (arith, n, b) in
      (get_refines (put weigh c k x) k valid).0
      ∙ ap (lookup k) kept
      ∙ rw on (lookup-fit c.max_entries c.max_bytes k x (drop_key k (entries c.lru_list)) n fits)
