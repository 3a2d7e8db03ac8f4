-- ===== src/Util/MemoryCache/Fit.antt =====
-- A cache against an ideal one: the entries, most recently used first, of which as many as both
-- limits allow are kept.
use hpserver.Prelude.{
  ℕ, zero, suc, ◌-◌, ◌<◌, ◌≤◌, ◌≡◌, ◌⊎◌, refl, sym, ap, ◌∙◌, inl, inr, true, false, Option, none,
  some, List, [], ◌∷◌, leb, if◌then◌else◌, Eq, arith, Bool-cases, Option-cases, length,
}
use hpserver.Util.MemoryCache.Nodes.{
  Node, back, pop_back, weight_of, find_key, remove_key, remove_key_found,
}
use hpserver.Util.MemoryCache.{MemoryCache, evict_back, over, evict_rounds}
use hpserver.Util.MemoryCache.Invariant.{IsValid, Weighed, without-IsValid, evict_back-without}

abbrev pub entries : {K V : Type 0} → List (Node K V) → List (K × V)
entries [] = []
entries (n ∷ l) = (n.key, n.value) ∷ entries l

-- The ideal cache: look-up, removal, and the longest prefix within both limits.
module _ {K V : Type 0} ⦃e : Eq K⦄ where
  unfoldable pub lookup : K → List (K × V) → Option V
  lookup k [] = none
  lookup k ((j, v) ∷ l) = if e.beq j k then some v else lookup k l

  unfoldable pub drop_key : K → List (K × V) → List (K × V)
  drop_key k [] = []
  drop_key k ((j, v) ∷ l) = if e.beq j k then l else (j, v) ∷ drop_key k l

  pub lookup-entries :
      (k : K) (l : List (Node K V)) (n : Node K V)
      → find_key k l ≡ some n
      → lookup k (entries l) ≡ some n.value
  unfolding lookup
  lookup-entries k [] n h = cc
  lookup-entries k (x ∷ l) n h = ground (arith, lookup-entries k l n)

  pub lookup-entries_absent :
      (k : K) (l : List (Node K V)) → find_key k l ≡ none → lookup k (entries l) ≡ none
  unfolding lookup
  lookup-entries_absent k [] h = refl
  lookup-entries_absent k (x ∷ l) h = ground (arith, lookup-entries_absent k l)

  pub drop_key-entries :
      (k : K) (l : List (Node K V)) → drop_key k (entries l) ≡ entries (remove_key k l)
  unfolding drop_key
  drop_key-entries k [] = refl
  drop_key-entries k (x ∷ l) = ground (arith, drop_key-entries k l)

  pub drop_key_absent :
      (k : K) (l : List (Node K V)) → find_key k l ≡ none → drop_key k (entries l) ≡ entries l
  unfolding drop_key
  drop_key_absent k [] h = refl
  drop_key_absent k (x ∷ l) h = ground (arith, drop_key_absent k l)

module _ {K V : Type 0} (weigh : V → ℕ) where
  -- At most `count` entries of at most `bytes` bytes together.
  unfoldable pub fit : ℕ → ℕ → List (K × V) → List (K × V)
  fit count bytes [] = []
  fit zero bytes (x ∷ l) = []
  fit (suc count) bytes ((k, v) ∷ l) =
      if leb (weigh v) bytes then (k, v) ∷ fit count (bytes - weigh v) l else []

module _ {K V : Type 0} ⦃e : Eq K⦄ (weigh : V → ℕ) where
  fit_within :
      (n b : ℕ) (l : List (Node K V))
      → Weighed weigh l
      → length l ≤ n
      → weight_of l ≤ b
      → fit weigh n b (entries l) ≡ entries l
  unfolding fit
  fit_within n b [] w h g = refl
  fit_within zero b (x ∷ l) w h g = absurd (omega arith)
  fit_within (suc n) b (x ∷ l) w h g = ground (arith, fit_within n (b - weigh x.value) l w.1)

  -- Beyond a limit the entry at the back is not in the prefix.
  fit_over :
      (n b : ℕ) (l : List (Node K V))
      → Weighed weigh l
      → (n < length l) ⊎ (b < weight_of l)
      → fit weigh n b (entries l) ≡ fit weigh n b (entries (pop_back l))
  unfolding fit
  fit_over n b [] w h = refl
  fit_over zero b (x ∷ []) w h = refl
  fit_over zero b (x ∷ y ∷ l) w h = refl
  fit_over (suc n) b (x ∷ []) w h = ground arith
  fit_over (suc n) b (x ∷ y ∷ l) w h = elim (Bool-cases (leb (weigh x.value) b)) [
    | inl small ↦
        let rest : (n < length (y ∷ l)) ⊎ (b - weigh x.value < weight_of (y ∷ l)) = elim h [
          | inl p ↦ inl (omega arith)
          | inr p ↦ inr (ground (arith, small))
        ] in
        rw small (ap (◌∷◌ (x.key, x.value)) (fit_over n (b - weigh x.value) (y ∷ l) w.1 rest))
    | inr large ↦ rw large
  ]

  length_zero : (l : List (Node K V)) → length l ≡ 0 → l ≡ []
  length_zero [] h = refl
  length_zero (x ∷ l) h = absurd (omega arith)

  back-none : (l : List (Node K V)) → back l ≡ none → l ≡ []
  back-none [] h = refl
  back-none (x ∷ []) h = cc
  back-none (x ∷ y ∷ l) h = absurd (ground (arith, back-none (y ∷ l) h))

  -- Both limits hold.
  abbrev pub IsWithin : MemoryCache K V → Type 0
  IsWithin c = (c.map_size ≤ c.max_entries) × (c.total_weight ≤ c.max_bytes)

  -- What the loop does to the entries, and that it ends by its test.
  abbrev pub Fits : MemoryCache K V → MemoryCache K V → Type 0
  Fits c d =
      (entries d.lru_list ≡ fit weigh c.max_entries c.max_bytes (entries c.lru_list)) × IsWithin d

  Fits-empty : (c : MemoryCache K V) → c.lru_list ≡ [] → IsValid weigh c → Fits c c
  unfolding fit
  Fits-empty c p v =
      let count : length c.lru_list ≡ 0 = ap length p in
      let weight : weight_of c.lru_list ≡ 0 = ap weight_of p in
      (
        sym (fit_within c.max_entries c.max_bytes c.lru_list v.weighed (omega arith) (omega arith)),
        (omega (arith, v.counted), omega (arith, v.summed)),
      )

  Fits-done : (c : MemoryCache K V) → over weigh c ≡ false → IsValid weigh c → Fits c c
  Fits-done c p v =
      let limits : IsWithin c = ground (arith, p) in
      (
        sym (
            fit_within c.max_entries c.max_bytes c.lru_list v.weighed
              (omega (arith, limits, v.counted)) (omega (arith, limits, v.summed))),
        limits,
      )

  Fits-step :
      (c d : MemoryCache K V) (n : Node K V)
      → over weigh c ≡ true
      → IsValid weigh c
      → Fits (evict_back weigh c n) d
      → Fits c d
  unfolding evict_back
  Fits-step c d n p v f =
      let beyond : (c.max_entries < length c.lru_list) ⊎ (c.max_bytes < weight_of c.lru_list) =
        ground (arith, p, v.counted, v.summed) in
      (f.0 ∙ sym (fit_over c.max_entries c.max_bytes c.lru_list v.weighed beyond), f.1)

  -- With fuel for every node the eviction loop keeps the longest prefix within both limits.
  pub evict_rounds-fit :
      (fuel : ℕ) (c : MemoryCache K V)
      → length c.lru_list ≤ fuel
      → IsValid weigh c
      → Fits c (evict_rounds weigh fuel c)
  unfolding evict_rounds
  evict_rounds-fit zero c h v = Fits-empty c (length_zero c.lru_list (omega arith)) v
  evict_rounds-fit (suc fuel) c h v = elim (Option-cases (back c.lru_list)) [
    | inl b ↦ rw (b, evict_rounds) (Fits-empty c (back-none c.lru_list b) v)
    | inr (n, b) ↦ elim (Bool-cases (over weigh c)) [
      | inl more ↦
          let (step, found) = evict_back-without weigh c n b v in
          let (count, _) = remove_key_found n.key c.lru_list n found in
          let valid : IsValid weigh (evict_back weigh c n) =
            rw step (without-IsValid weigh c n found v) in
          let shorter : length (evict_back weigh c n).lru_list ≤ fuel =
            rw step (omega (arith, count)) in
          rw (b, more, evict_rounds)
            (Fits-step c (evict_rounds weigh fuel (evict_back weigh c n)) n more v
              (evict_rounds-fit fuel (evict_back weigh c n) shorter valid))
      | inr done ↦ rw (b, done, evict_rounds) (Fits-done c done v)
    ]
  ]
