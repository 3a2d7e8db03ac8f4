-- ===== src/Tests/Util.antt =====
-- Tests of the containers, after tests/bitwise_trie_test.cpp, tests/bloom_filter_test.cpp and
-- tests/memory_cache_test.cpp.
use hpserver.Prelude.{
  ℕ, ◌≡◌, refl, false, not, none, some, List, [], ◌∷◌, ◌++◌, arith, length, if◌then◌else◌, ◌==◌,
  nat_eq,
}
use hpserver.Text.{to_string, strtoull}
use hpserver.Text.Decimal.{strtoull-to_string}
use hpserver.Util.Trie
use hpserver.Util.Trie.{Node}
use hpserver.Util.Trie.Laws.{search-insert}
use hpserver.Util.Bloom
use hpserver.Util.Bloom.{Bloom, IsSized}
use hpserver.Util.RingBuffer
use hpserver.Util.RingBuffer.{RingBuffer}
use hpserver.Util.RingBuffer.Refine as Ring
use hpserver.Util.MemoryCache
use hpserver.Util.MemoryCache.{MemoryCache}
use hpserver.Util.MemoryCache.Invariant as Lru
use hpserver.Util.MemoryCache.Fit
use hpserver.Util.MemoryCache.Refine as Refined

abbrev two_keys : Node ℕ
two_keys = Trie.insert (Trie.insert Trie.empty 2 200) 3 300

trie_overlap : Trie.search two_keys 3 ≡ some 300
unfolding Trie.search Trie.insert
trie_overlap = refl

search-insert_example :
    Trie.search (Trie.insert two_keys 2 7) 3 ≡ (if 2 == 3 then some 7 else Trie.search two_keys 3)
search-insert_example = search-insert two_keys 2 3 7 (omega arith) (omega arith)

abbrev filter : Bloom
filter = Bloom.bloom_filter 1024

-- Two of three items, the storage gone round.
abbrev ring : RingBuffer ℕ
ring = record { capacity = 3; slots = 9 ∷ 0 ∷ 0 ∷ 8 ∷ []; head = 3; tail = 1 }

ring-IsValid : Ring.IsValid 0 ring
ring-IsValid = record { storage = refl; head_in = omega arith; tail_in = omega arith }

push_refines_example :
    ((RingBuffer.push 0 ring 7).1 ≡ not (length (Ring.contents 0 ring) == 3))
    × (Ring.contents 0 (RingBuffer.push 0 ring 7).0 ≡ (
        if length (Ring.contents 0 ring) == 3
        then Ring.contents 0 ring
        else Ring.contents 0 ring ++ 7 ∷ []))
    × Ring.IsValid 0 (RingBuffer.push 0 ring 7).0
push_refines_example = Ring.push_refines 0 ring 7 ring-IsValid

pop_refines_example :
    ((RingBuffer.pop 0 ring).1 ≡ Ring.first 0 (Ring.contents 0 ring))
    × (Ring.contents 0 (RingBuffer.pop 0 ring).0 ≡ Ring.rest 0 (Ring.contents 0 ring))
    × Ring.IsValid 0 (RingBuffer.pop 0 ring).0
pop_refines_example = Ring.pop_refines 0 ring ring-IsValid

strtoull-to_string_example : strtoull (to_string 8080) ≡ (8080, false)
strtoull-to_string_example = strtoull-to_string 8080 (omega arith)

-- A cache of two numbers, each its own weight.
abbrev weigh : ℕ → ℕ
weigh v = v

-- One entry, key 1, at address 0.
abbrev cache : MemoryCache ℕ ℕ
cache = record {
  max_entries = 2;
  max_bytes = 100;
  lru_list = record { address = 0; key = 1; value = 10; weight = 10 } ∷ [];
  map = λ k. if 1 == k then some 0 else none;
  map_size = 1;
  total_weight = 10;
  next_address = 1;
}

cache-IsValid : Lru.IsValid weigh cache
cache-IsValid = record {
  index = λ k. ground arith;
  counted = refl;
  summed = refl;
  no_wrap = omega arith;
  distinct = (refl, refl, tt);
  fresh = omega arith;
  weighed = (refl, tt);
}

abbrev stored : List (ℕ × ℕ)
stored = (1, 10) ∷ []

abbrev with_new : List (ℕ × ℕ)
with_new = (2, 95) ∷ Fit.drop_key 2 stored

-- The older entry does not fit beside a new one of 95 bytes.
put_evicts : Fit.fit weigh 2 100 with_new ≡ (2, 95) ∷ []
unfolding Fit.fit Fit.drop_key
put_evicts = refl

put_refines_example :
    (Fit.entries (MemoryCache.put weigh cache 2 95).lru_list ≡ Fit.fit weigh 2 100 with_new)
    × Fit.IsWithin weigh (MemoryCache.put weigh cache 2 95)
    × Lru.IsValid weigh (MemoryCache.put weigh cache 2 95)
put_refines_example = Refined.put_refines weigh cache 2 95 cache-IsValid (omega arith) (omega arith)

get_refines_example :
    ((MemoryCache.get weigh cache 1).1 ≡ Fit.lookup 1 stored)
    × (Fit.entries (MemoryCache.get weigh cache 1).0.lru_list ≡ Refined.touch weigh 1 stored)
    × Lru.IsValid weigh (MemoryCache.get weigh cache 1).0
get_refines_example = Refined.get_refines weigh cache 1 cache-IsValid
