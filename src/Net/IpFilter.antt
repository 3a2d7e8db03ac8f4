-- ===== src/Net/IpFilter.antt =====
-- src/net/core/ip_filter.cpp: the blacklist, a trie of exact addresses behind a Bloom filter.
-- Addresses are numbers in host byte order. `pton text` stands for `inet_pton(AF_INET, …)` with
-- `ntohl` of what it stores, and `none` for a result other than 1. `none` of `add_cidr` and
-- `init` is the exception of `std::stoi`, which neither catches.
pub mod Laws
pub mod Ranges
pub mod File
use hpserver.Prelude.{
  ℕ, zero, suc, ◌+◌, ◌-◌, ◌*◌, ◌/◌, ◌%◌, ◌^◌, Bool, true, false, ◌||◌, Option, none, some, List, [],
  ◌∷◌, ◌==◌, ltb, leb, if◌then◌else◌, Bytes, ℤ, pos, negsuc, take, drop, bit_and,
}
use hpserver.Text.{find, stoi}
use hpserver.Util.Trie.{Node, has_value}
use hpserver.Util.Trie
use hpserver.Util.Bloom.{Bloom}
use hpserver.Util.Bloom

pub record IpFilter : Type 0 where
  pub trie : Node Bool
  pub bloom : Bloom
  pub ip_list_path : Bytes

pub ip_filter : ℕ → IpFilter
ip_filter bloom_size = record {
  trie = Trie.empty;
  bloom = Bloom.bloom_filter bloom_size;
  ip_list_path = [];
}

-- `reinterpret_cast<const char*>(&ip)` on a little-endian machine.
abbrev pub ip_bytes : ℕ → Bytes
ip_bytes ip = ip % 256 ∷ ip / 2 ^ 8 % 256 ∷ ip / 2 ^ 16 % 256 ∷ ip / 2 ^ 24 % 256 ∷ []

pub add_ip : IpFilter → ℕ → IpFilter
add_ip f ip = record f {
  trie = Trie.insert f.trie ip true;
  bloom = Bloom.add f.bloom (ip_bytes ip);
}

pub is_blocked : IpFilter → ℕ → Bool
is_blocked f ip =
    if Bloom.contains f.bloom (ip_bytes ip) then has_value (Trie.search f.trie ip) else false

-- `for (i = …; i < num_ips; ++i) add_ip(base_ip + i)` with `n` rounds left.
pub add_ips : ℕ → ℕ → ℕ → IpFilter → IpFilter
add_ips zero base i f = f
add_ips (suc n) base i f = add_ips n base (i + 1) (add_ip f ((base + i) % 2 ^ 32))

-- `0xFFFFFFFF << k` in 32 bits, and `1 << k`.
abbrev pub mask_bits : ℕ → ℕ
mask_bits k = 0xFFFFFFFF * 2 ^ k % 2 ^ 32

-- The part of `add_cidr` after the address is known.
pub add_range : IpFilter → ℕ → ℤ → IpFilter
unfolding add_ips
add_range f ip (negsuc m) = f
add_range f ip (pos mask) =
    if mask == 0 || ltb 32 mask
    then f
    else if leb 24 mask
    then add_ips (2 ^ (32 - mask)) (bit_and ip (mask_bits (32 - mask))) 0 f
    else add_ip f ip

module _ (pton : Bytes → Option ℕ) where
  pub add_single : IpFilter → Bytes → IpFilter
  add_single f cidr = elim (pton cidr) [ none ↦ f | some ip ↦ add_ip f ip ]

  unfoldable pub add_cidr : IpFilter → Bytes → Option IpFilter
  unfolding add_single
  add_cidr f cidr = elim (find b'/' cidr) [
    | none ↦ some (add_single f cidr)
    | some slash ↦ elim (stoi (drop (slash + 1) cidr)) [
      | none ↦ none
      | some mask ↦ elim (pton (take slash cidr)) [
        | none ↦ some f
        | some ip ↦ some (add_range f ip mask)
      ]
    ]
  ]

  abbrev pub skips_line : Bytes → Bool
  skips_line [] = true
  skips_line (c ∷ line) = c == b'#'

  -- The loop over `std::getline`.
  unfoldable pub add_lines : IpFilter → List Bytes → Option IpFilter
  add_lines f [] = some f
  add_lines f (line ∷ lines) =
      if skips_line line
      then add_lines f lines
      else elim (add_cidr f line) [ none ↦ none | some g ↦ add_lines g lines ]

  -- `file path` gives the lines of the file, or `none` if it does not open.
  unfoldable pub init : IpFilter → Bytes → (Bytes → Option (List Bytes)) → Option IpFilter
  unfolding add_lines
  init f [] file = some f
  init f (c ∷ path) file = elim (file (c ∷ path)) [
    | none ↦ some (record f { ip_list_path = c ∷ path })
    | some lines ↦ add_lines (record f { ip_list_path = c ∷ path }) lines
  ]
