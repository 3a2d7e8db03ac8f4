-- ===== src/Tests/Net.antt =====
-- Tests of the blacklist, after tests/ip_filter_test.cpp.
use hpserver.Prelude.{
  ℕ, ◌≡◌, ◌<◌, ◌^◌, ◌/◌, ◌||◌, Option, none, some, List, [], ◌∷◌, arith, Bytes, codes,
  if◌then◌else◌, ◌==◌, pos,
}
use hpserver.Net.IpFilter
use hpserver.Net.IpFilter.{IpFilter}
use hpserver.Net.IpFilter.Laws as Filter
use hpserver.Net.IpFilter.Ranges

abbrev blacklist : IpFilter
blacklist = IpFilter.ip_filter 1024

blacklist-IsValid : Filter.IsValid blacklist
blacklist-IsValid = Filter.ip_filter-IsValid 1024 (omega arith)

-- 192.168.1.77/24
is_blocked-add_range_example :
    IpFilter.is_blocked (IpFilter.add_range blacklist 0xC0A8014D (pos 24)) 0xC0A80102
    ≡ (0xC0A80102 / 256 == 0xC0A8014D / 256 || IpFilter.is_blocked blacklist 0xC0A80102)
is_blocked-add_range_example =
    Ranges.is_blocked-add_range blacklist 0xC0A8014D 24 0xC0A80102 (omega arith) (omega arith)
      (omega arith) (omega arith) blacklist-IsValid

-- An `inet_pton` that knows one text.
abbrev pton : Bytes → Option ℕ
pton [] = none
pton (c ∷ text) = if c == b'7' then some 0x07070707 else none

pton_in_32_bits : (text : Bytes) (ip : ℕ) → pton text ≡ some ip → ip < 2 ^ 32
pton_in_32_bits [] ip h = absurd (ground arith)
pton_in_32_bits (c ∷ text) ip h = ground arith

abbrev lines : List Bytes
lines = codes "# comment" ∷ codes "7.7.7.7" ∷ []
