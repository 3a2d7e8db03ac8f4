-- ===== src/Net/IpFilter/Laws.antt =====
-- The Bloom filter never hides an address of the trie, so the blacklist is exact.
use hpserver.Prelude.{
  ℕ, ◌^◌, ◌<◌, ◌≡◌, ◌∙◌, inl, inr, Bool, true, false, ◌||◌, ◌==◌, ==_iff, arith, Bool-cases,
}
use hpserver.Util.Trie
use hpserver.Util.Trie.{has_value}
use hpserver.Util.Trie.Laws.{search-insert, search-empty}
use hpserver.Util.Bloom
use hpserver.Util.Bloom.{IsSized}
use hpserver.Util.Bloom.Laws.{contains-add_self, contains-add, add-IsSized, bloom_filter-IsSized}
use hpserver.Net.IpFilter.{IpFilter, ip_filter, ip_bytes, add_ip, is_blocked}

-- Whatever the trie holds is in the Bloom filter, which has a bit.
pub record IsValid (f : IpFilter) : Type 0 where
  pub sized : IsSized f.bloom
  pub covered :
      (j : ℕ)
      → j < 2 ^ 32
      → has_value (Trie.search f.trie j) ≡ true
      → Bloom.contains f.bloom (ip_bytes j) ≡ true

pub ip_filter-IsValid : (n : ℕ) → 0 < n → IsValid (ip_filter n)
unfolding ip_filter
ip_filter-IsValid n h = record {
  sized = bloom_filter-IsSized n h;
  covered = λ j hj e. ground (arith, search-empty {A = Bool} j);
}

pub add_ip-IsValid : (f : IpFilter) (ip : ℕ) → ip < 2 ^ 32 → IsValid f → IsValid (add_ip f ip)
unfolding add_ip
add_ip-IsValid f ip h v = record {
  sized = add-IsSized f.bloom (ip_bytes ip) v.sized;
  covered = λ j hj e. elim (Bool-cases (ip == j)) [
    | inl same ↦
        let p : ip ≡ j = (==_iff ip j).0 same in
        rw (← p) (contains-add_self f.bloom (ip_bytes ip) v.sized)
    | inr other ↦
        contains-add f.bloom (ip_bytes ip) (ip_bytes j)
          (v.covered j hj (rw (search-insert f.trie ip j true h hj, other) at e))
  ];
}

-- In a valid filter the Bloom filter changes no answer.
pub is_blocked-search :
    (f : IpFilter) (j : ℕ)
    → j < 2 ^ 32
    → IsValid f
    → is_blocked f j ≡ has_value (Trie.search f.trie j)
unfolding is_blocked
is_blocked-search f j h v = ground (arith, v.covered j h)

-- In a valid filter, adding a 32-bit address blocks it, and changes the answer for no other.
pub is_blocked-add_ip :
    (f : IpFilter) (ip j : ℕ)
    → ip < 2 ^ 32
    → j < 2 ^ 32
    → IsValid f
    → is_blocked (add_ip f ip) j ≡ (ip == j || is_blocked f j)
is_blocked-add_ip f ip j h hj v =
    rw (is_blocked-search (add_ip f ip) j hj (add_ip-IsValid f ip h v), is_blocked-search f j hj v)
      (unfold add_ip in ground (arith, search-insert f.trie ip j true h hj))

-- A new filter blocks no 32-bit address.
pub is_blocked-ip_filter : (n j : ℕ) → 0 < n → j < 2 ^ 32 → is_blocked (ip_filter n) j ≡ false
is_blocked-ip_filter n j h hj =
    is_blocked-search (ip_filter n) j hj (ip_filter-IsValid n h)
    ∙ (unfold ip_filter in ground (arith, search-empty {A = Bool} j))
