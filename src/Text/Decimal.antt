-- ===== src/Text/Decimal.antt =====
-- What `std::to_string` prints, `strtoull` reads back.
use hpserver.Prelude.{
  ℕ, zero, suc, ◌+◌, ◌-◌, ◌*◌, ◌/◌, ◌%◌, ◌^◌, ◌<◌, ◌≤◌, ◌≡◌, refl, ap, ◌∙◌, Bool, true, false, [],
  ◌∷◌, Bytes, arith, ◌==◌, if◌then◌else◌, Bool-cases, inl, inr, length,
}
use hpserver.Text.{
  is_digit, skip_space, scan_digits, scan_sign, scan, strtoull, decimal_from, to_string,
}

-- Every byte is a decimal digit.
abbrev pub AllDigits : Bytes → Type 0
AllDigits [] = Unit
AllDigits (c ∷ cs) = (is_digit c ≡ true) × AllDigits cs

-- The number that a row of digits goes on from `v`.
pub digits_value : ℕ → Bytes → ℕ
digits_value v [] = v
digits_value v (c ∷ cs) = digits_value (v * 10 + (c - b'0')) cs

pub scan_digits_all :
    (neg : Bool) (v n : ℕ) (xs : Bytes)
    → AllDigits xs
    → scan_digits neg v n xs
      ≡ record { negative = neg; value = digits_value v xs; count = n + length xs; rest = [] }
unfolding scan_digits digits_value
scan_digits_all neg v n [] h = ground arith
scan_digits_all neg v n (c ∷ cs) h =
    ground (arith, scan_digits_all neg (v * 10 + (c - b'0')) (n + 1) cs h.1)

decimal_from-AllDigits :
    (fuel n : ℕ) (acc : Bytes) → AllDigits acc → AllDigits (decimal_from fuel n acc)
unfolding decimal_from
decimal_from-AllDigits zero n acc h = h
decimal_from-AllDigits (suc fuel) n acc h = elim (Bool-cases (n / 10 == 0)) [
  | inl e ↦ rw (e, if◌then◌else◌) (ground arith, h)
  | inr e ↦
      rw (e, if◌then◌else◌)
        (decimal_from-AllDigits fuel (n / 10) ((b'0' + n % 10) ∷ acc) (ground arith, h))
]

decimal_from-value :
    (fuel n : ℕ) (acc : Bytes)
    → n < fuel
    → digits_value 0 (decimal_from fuel n acc) ≡ digits_value n acc
unfolding decimal_from digits_value
decimal_from-value zero n acc h = absurd (omega arith)
decimal_from-value (suc fuel) n acc h =
    ground (arith, decimal_from-value fuel (n / 10) ((b'0' + n % 10) ∷ acc))

decimal_from-length : (fuel n : ℕ) (acc : Bytes) → length acc ≤ length (decimal_from fuel n acc)
unfolding decimal_from
decimal_from-length zero n acc = omega arith
decimal_from-length (suc fuel) n acc =
    ground (arith, decimal_from-length fuel (n / 10) ((b'0' + n % 10) ∷ acc))

pub to_string-AllDigits : (n : ℕ) → AllDigits (to_string n)
unfolding to_string
to_string-AllDigits n = decimal_from-AllDigits (suc n) n [] tt

pub to_string-nonempty : (n : ℕ) → 0 < length (to_string n)
unfolding to_string decimal_from
to_string-nonempty n = ground (arith, decimal_from-length n (n / 10) ((b'0' + n % 10) ∷ []))

pub to_string-value : (n : ℕ) → digits_value 0 (to_string n) ≡ n
unfolding to_string digits_value
to_string-value n = decimal_from-value (suc n) n [] (omega arith)

-- On digits alone the scan takes no sign and skips nothing.
scan-digits :
    (xs : Bytes)
    → AllDigits xs
    → scan xs ≡ record { negative = false; value = digits_value 0 xs; count = length xs; rest = [] }
unfolding scan skip_space scan_sign scan_digits digits_value
scan-digits [] h = refl
scan-digits (c ∷ cs) h = ground (
  arith,
  scan_digits_all false 0 0 (c ∷ cs) h,
  scan_digits_all false (0 * 10 + (c - b'0')) (0 + 1) cs h.1,
)

pub scan-to_string :
    (n : ℕ)
    → scan (to_string n)
      ≡ record { negative = false; value = n; count = length (to_string n); rest = [] }
scan-to_string n =
    scan-digits (to_string n) (to_string-AllDigits n)
    ∙ ap (λ v. record { negative = false; value = v; count = length (to_string n); rest = [] })
        (to_string-value n)

-- Reading back the decimal text of a 64-bit number gives the number, with no range error.
pub strtoull-to_string : (n : ℕ) → n < 2 ^ 64 → strtoull (to_string n) ≡ (n, false)
unfolding strtoull
strtoull-to_string n h = rw scan-to_string (ground arith)
