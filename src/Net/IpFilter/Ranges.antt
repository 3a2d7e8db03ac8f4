-- ===== src/Net/IpFilter/Ranges.antt =====
-- Which addresses a CIDR line blocks, and what a whole file does.
use hpserver.Prelude.{
  ℕ, zero, suc, ◌+◌, ◌-◌, ◌*◌, ◌/◌, ◌%◌, ◌^◌, ◌<◌, ◌≤◌, ◌≡◌, refl, ap, ◌∙◌, true, false, ◌||◌, ◌&&◌,
  ◌==◌, ltb, leb, arith, pos, two_pow_pos, bit_and, bit_and-high,
}
use native.Mathlib.Nat.{div-lt_iff_lt-mul}
use hpserver.Net.IpFilter.{IpFilter, add_ip, is_blocked, add_ips, add_range, mask_bits}
use hpserver.Net.IpFilter.Laws.{IsValid, add_ip-IsValid, is_blocked-add_ip}

add_ips-IsValid : (n base i : ℕ) (f : IpFilter) → IsValid f → IsValid (add_ips n base i f)
unfolding add_ips
add_ips-IsValid zero base i f v = v
add_ips-IsValid (suc n) base i f v =
    add_ips-IsValid n base (i + 1) _ (add_ip-IsValid f _ (omega arith) v)

-- `n` rounds of the loop block the `n` addresses from `base + i` on.
is_blocked-add_ips :
    (n base i : ℕ) (f : IpFilter) (j : ℕ)
    → base + i + n ≤ 2 ^ 32
    → j < 2 ^ 32
    → IsValid f
    → is_blocked (add_ips n base i f) j
      ≡ ((leb (base + i) j && ltb j (base + i + n)) || is_blocked f j)
unfolding add_ips
is_blocked-add_ips zero base i f j h hj v = ground arith
is_blocked-add_ips (suc n) base i f j h hj v =
    let e : (base + i) % 2 ^ 32 ≡ base + i = omega arith in
    rw e (
      ground (
        arith,
        is_blocked-add_ips n base (i + 1) (add_ip f (base + i)) j (omega arith) hj
            (add_ip-IsValid f (base + i) (omega arith) v),
        is_blocked-add_ip f (base + i) j (omega arith) hj v,
      ))

mask_bits_lem : (k : ℕ) → k ≤ 8 → mask_bits k ≡ (2 ^ (32 - k) - 1) * 2 ^ k
mask_bits_lem zero h = refl
mask_bits_lem (suc zero) h = refl
mask_bits_lem (suc (suc zero)) h = refl
mask_bits_lem (suc (suc (suc zero))) h = refl
mask_bits_lem (suc (suc (suc (suc zero)))) h = refl
mask_bits_lem (suc (suc (suc (suc (suc zero))))) h = refl
mask_bits_lem (suc (suc (suc (suc (suc (suc zero)))))) h = refl
mask_bits_lem (suc (suc (suc (suc (suc (suc (suc zero))))))) h = refl
mask_bits_lem (suc (suc (suc (suc (suc (suc (suc (suc zero)))))))) h = refl
mask_bits_lem (suc (suc (suc (suc (suc (suc (suc (suc (suc k))))))))) h = absurd (omega arith)

two_pow_split : (k : ℕ) → k ≤ 8 → 2 ^ (32 - k) * 2 ^ k ≡ 2 ^ 32
two_pow_split zero h = refl
two_pow_split (suc zero) h = refl
two_pow_split (suc (suc zero)) h = refl
two_pow_split (suc (suc (suc zero))) h = refl
two_pow_split (suc (suc (suc (suc zero)))) h = refl
two_pow_split (suc (suc (suc (suc (suc zero))))) h = refl
two_pow_split (suc (suc (suc (suc (suc (suc zero)))))) h = refl
two_pow_split (suc (suc (suc (suc (suc (suc (suc zero))))))) h = refl
two_pow_split (suc (suc (suc (suc (suc (suc (suc (suc zero)))))))) h = refl
two_pow_split (suc (suc (suc (suc (suc (suc (suc (suc (suc k))))))))) h = absurd (omega arith)

base_lem : (ip k : ℕ) → k ≤ 8 → ip < 2 ^ 32 → bit_and ip (mask_bits k) ≡ ip / 2 ^ k * 2 ^ k
base_lem ip k h lt =
    ap (bit_and ip) (mask_bits_lem k h)
    ∙ bit_and-high (32 - k) k ip (let e = two_pow_split k h in omega (arith, e))

-- A block of `m` addresses that starts at a multiple of `m`.
in_block : (q m j : ℕ) → 0 < m → (leb (q * m) j && ltb j (q * m + m)) ≡ (j / m == q)
in_block q m j h =
    let (a, b) = div-lt_iff_lt-mul {k = m} {x = j} {y = q} h in
    let (c, d) = div-lt_iff_lt-mul {k = m} {x = j} {y = q + 1} h in
    let e : (q + 1) * m ≡ q * m + m = omega arith in ground (arith, a, b, c, d, e)

block_fits : (q m n : ℕ) → q < n → q * m + m ≤ n * m
block_fits q m n h = grind arith

-- In a valid filter, a range with a mask from 24 to 32 blocks exactly the 32-bit addresses that
-- share its first `mask` bits, and the answer for no other changes.
pub is_blocked-add_range :
    (f : IpFilter) (ip mask j : ℕ)
    → 24 ≤ mask
    → mask ≤ 32
    → ip < 2 ^ 32
    → j < 2 ^ 32
    → IsValid f
    → is_blocked (add_range f ip (pos mask)) j
      ≡ (j / 2 ^ (32 - mask) == ip / 2 ^ (32 - mask) || is_blocked f j)
unfolding add_range
is_blocked-add_range f ip mask j lo hi h hj v =
    let k : ℕ = 32 - mask in
    let q : ℕ = ip / 2 ^ k in
    let small : k ≤ 8 = omega arith in
    let fits : q * 2 ^ k + 2 ^ k ≤ 2 ^ 32 =
      let split = two_pow_split k small in
      let below : q < 2 ^ (32 - k) = (div-lt_iff_lt-mul (two_pow_pos k)).1 (omega (arith, split)) in
      omega (arith, split, block_fits q (2 ^ k) (2 ^ (32 - k)) below) in
    let base : bit_and ip (mask_bits k) ≡ q * 2 ^ k = base_lem ip k small h in
    let zero_test : (mask == 0 || ltb 32 mask) ≡ false = ground arith in
    let range_test : leb 24 mask ≡ true = ground arith in
    rw (zero_test, range_test, base)
      (ground (
        arith,
        is_blocked-add_ips (2 ^ k) (q * 2 ^ k) 0 f j (omega (arith, fits)) hj v,
        in_block q (2 ^ k) j (two_pow_pos k),
      ))

-- In a valid filter, a range with a mask from 1 to 23 blocks only the 32-bit address that it names,
-- and the answer for no other changes.
is_blocked-wide_range :
    (f : IpFilter) (ip mask j : ℕ)
    → 0 < mask
    → mask < 24
    → ip < 2 ^ 32
    → j < 2 ^ 32
    → IsValid f
    → is_blocked (add_range f ip (pos mask)) j ≡ (ip == j || is_blocked f j)
unfolding add_range
is_blocked-wide_range f ip mask j lo hi h hj v = ground (arith, is_blocked-add_ip f ip j h hj v)
