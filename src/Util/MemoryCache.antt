-- ===== src/Util/MemoryCache.antt =====
-- src/util/memory_cache.h: an LRU cache. `std::list` keeps its nodes at fixed addresses, which the
-- hash map holds as iterators: a node carries its address, and the map goes from keys to
-- addresses, beside its size. `size_t` sums wrap. `weigh` is the weight function.
pub mod Nodes
pub mod Invariant
pub mod Operations
pub mod Valid
pub mod Fit
pub mod Refine
use hpserver.Prelude.{
  ℕ, zero, suc, ◌+◌, ◌-◌, ◌%◌, ◌^◌, Bool, true, false, ◌&&◌, ◌||◌, Option, none, some, List, [],
  ◌∷◌, ◌==◌, ltb, if◌then◌else◌, length, Eq,
}
use Nodes.{Node, entry_at, remove_at, back, pop_back}

abbrev pub add_size : ℕ → ℕ → ℕ
add_size a b = (a + b) % 2 ^ 64

abbrev pub sub_size : ℕ → ℕ → ℕ
sub_size a b = (a + 2 ^ 64 - b) % 2 ^ 64

pub record MemoryCache (K V : Type 0) : Type 0 where
  pub max_entries : ℕ
  pub max_bytes : ℕ
  pub lru_list : List (Node K V)
  pub map : K → Option ℕ
  pub map_size : ℕ
  pub total_weight : ℕ
  pub next_address : ℕ

module _ {K V : Type 0} ⦃e : Eq K⦄ (weigh : V → ℕ) where
  abbrev pub map_set : (K → Option ℕ) → K → Option ℕ → K → Option ℕ
  map_set m k a j = if e.beq k j then a else m j

  -- `map_.erase(key)` by key.
  abbrev pub map_erased_size : (K → Option ℕ) → ℕ → K → ℕ
  map_erased_size m n k = elim (m k) [ none ↦ n | some a ↦ n - 1 ]

  pub memory_cache : ℕ → ℕ → MemoryCache K V
  memory_cache max_entries max_bytes = record {
    max_entries = max_entries;
    max_bytes = max_bytes;
    lru_list = [];
    map = λ k. none;
    map_size = 0;
    total_weight = 0;
    next_address = 0;
  }

  -- The value that the pointer points to, or `none` for `nullptr`.
  pub get : MemoryCache K V → K → MemoryCache K V × Option V
  get c key = elim (c.map key) [
    | none ↦ (c, none)
    | some a ↦ elim (entry_at a c.lru_list) [
      | none ↦ (c, none)
      | some n ↦ (record c { lru_list = n ∷ remove_at a c.lru_list }, some n.value)
    ]
  ]

  -- `fn` acts on the state of the caller.
  unfoldable pub with_value :
      {W : Type 0} → MemoryCache K V → K → (V → W → W) → W → MemoryCache K V × W × Bool
  unfolding get
  with_value c key fn w = elim (c.map key) [
    | none ↦ (c, w, false)
    | some a ↦ elim (entry_at a c.lru_list) [
      | none ↦ (c, w, false)
      | some n ↦ (record c { lru_list = n ∷ remove_at a c.lru_list }, fn n.value w, true)
    ]
  ]

  pub erase : MemoryCache K V → K → MemoryCache K V × Bool
  erase c key = elim (c.map key) [
    | none ↦ (c, false)
    | some a ↦ elim (entry_at a c.lru_list) [
      | none ↦ (c, false)
      | some n ↦ (
        record c {
          total_weight = sub_size c.total_weight n.weight;
          lru_list = remove_at a c.lru_list;
          map = map_set c.map key none;
          map_size = c.map_size - 1;
        },
        true,
      )
    ]
  ]

  pub clear : MemoryCache K V → MemoryCache K V
  clear c = record c { lru_list = []; map = λ k. none; map_size = 0; total_weight = 0 }

  -- One round of the eviction loop: the node at the back goes.
  pub evict_back : MemoryCache K V → Node K V → MemoryCache K V
  evict_back c n = record c {
    total_weight = sub_size c.total_weight n.weight;
    map = map_set c.map n.key none;
    map_size = map_erased_size c.map c.map_size n.key;
    lru_list = pop_back c.lru_list;
  }

  abbrev pub over : MemoryCache K V → Bool
  over c = ltb c.max_entries c.map_size || ltb c.max_bytes c.total_weight

  -- The loop on fuel; every round takes a node off the list.
  pub evict_rounds : ℕ → MemoryCache K V → MemoryCache K V
  evict_rounds zero c = c
  evict_rounds (suc fuel) c = elim (back c.lru_list) [
    | none ↦ c
    | some n ↦ elim (over c) [ true ↦ evict_rounds fuel (evict_back c n) | false ↦ c ]
  ]

  pub evict_if_needed : MemoryCache K V → MemoryCache K V
  evict_if_needed c = evict_rounds (length c.lru_list) c

  -- The two branches of `do_put` before the eviction: an entry changed in place, or a new one.
  pub overwrite : MemoryCache K V → ℕ → Node K V → V → MemoryCache K V
  overwrite c a n v = record c {
    total_weight = add_size (sub_size c.total_weight n.weight) (weigh v);
    lru_list = record n { value = v; weight = weigh v } ∷ remove_at a c.lru_list;
  }

  pub emplace : MemoryCache K V → K → V → MemoryCache K V
  emplace c key v = record c {
    lru_list =
        record { address = c.next_address; key = key; value = v; weight = weigh v } ∷ c.lru_list;
    map = map_set c.map key (some c.next_address);
    map_size = c.map_size + 1;
    total_weight = add_size c.total_weight (weigh v);
    next_address = c.next_address + 1;
  }

  pub store : MemoryCache K V → K → V → MemoryCache K V
  store c key v = elim (c.map key) [
    | none ↦ emplace c key v
    | some a ↦ elim (entry_at a c.lru_list) [ none ↦ c | some n ↦ overwrite c a n v ]
  ]

  pub do_put : MemoryCache K V → K → V → MemoryCache K V
  do_put c key v = evict_if_needed (store c key v)

  pub put : MemoryCache K V → K → V → MemoryCache K V
  put c key v = if c.max_entries == 0 || c.max_bytes == 0 then c else do_put c key v

  pub size : MemoryCache K V → ℕ
  size c = c.map_size
