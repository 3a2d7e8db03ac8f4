-- ===== src/Util/Bloom.antt =====
-- src/util/bloom_filter.h: a Bloom filter over three FNV-1a hashes. `bits_[hash % size]` is in
-- range when the filter has a bit at all; `IsSized` says so.
pub mod Laws
use hpserver.Prelude.{
  ℕ, ◌*◌, ◌%◌, ◌^◌, ◌<◌, Bool, true, false, ◌&&◌, List, [], ◌∷◌, bit_xor, length, get_or, set,
  replicate, Bytes,
}

pub record Bloom : Type 0 where
  pub bits : List Bool

pub bloom_filter : ℕ → Bloom
bloom_filter size = record { bits = replicate size false }

-- `uint64_t` arithmetic wraps.
unfoldable pub fnv1a_hash : Bytes → ℕ → ℕ
fnv1a_hash [] hash = hash
fnv1a_hash (c ∷ text) hash = fnv1a_hash text (bit_xor hash c * 1099511628211 % 2 ^ 64)

unfoldable pub compute_hashes : Bytes → List ℕ
unfolding fnv1a_hash
compute_hashes text =
    fnv1a_hash text 0xcbf29ce484222325
    ∷ fnv1a_hash text 0x811c9dc5
    ∷ fnv1a_hash text 0x100000001b3
    ∷ []

set_bits : List Bool → List ℕ → List Bool
set_bits bits [] = bits
set_bits bits (hash ∷ hashes) = set_bits (set bits (hash % length bits) true) hashes

all_set : List Bool → List ℕ → Bool
all_set bits [] = true
all_set bits (hash ∷ hashes) = get_or bits (hash % length bits) false && all_set bits hashes

pub add : Bloom → Bytes → Bloom
add f text = record f { bits = set_bits f.bits (compute_hashes text) }

pub contains : Bloom → Bytes → Bool
contains f text = all_set f.bits (compute_hashes text)

-- `std::fill` with `false`.
fill_false : List Bool → List Bool
fill_false [] = []
fill_false (b ∷ bits) = false ∷ fill_false bits

pub clear : Bloom → Bloom
unfolding fill_false
clear f = record f { bits = fill_false f.bits }

-- With no bit, `hash % bits_.size()` divides by zero.
abbrev pub IsSized : Bloom → Type 0
IsSized f = 0 < length f.bits
