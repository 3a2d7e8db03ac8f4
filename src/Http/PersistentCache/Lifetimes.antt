-- ===== src/Http/PersistentCache/Lifetimes.antt =====
-- `Cache-Control: max-age` as a lifetime.
use hpserver.Prelude.{
  ℕ, ◌^◌, ◌<◌, ◌≡◌, refl, ap, Bool, true, false, some, [], ◌∷◌, ◌++◌, Bytes, if◌then◌else◌, arith,
  codes, length, ltb, leb,
}
use hpserver.Text.{is_digit, to_string, find_text, starts_with}
use hpserver.Text.Decimal.{AllDigits, to_string-AllDigits, to_string-nonempty, scan-to_string}
use hpserver.Http.Builder.{is_empty}
use hpserver.Http.Request.{find_header}
use hpserver.Http.ResponseParser.{ResponseInfo}
use hpserver.Http.PersistentCache.{take_digits, read_seconds, parse_max_age, compute_ttl}

-- What may stand behind a number.
abbrev pub ends_number : Bytes → Bool
ends_number [] = true
ends_number (c ∷ cs) = if is_digit c then false else true

take_digits-append :
    (xs ys : Bytes) → AllDigits xs → ends_number ys ≡ true → take_digits (xs ++ ys) ≡ xs
take_digits-append [] [] h e = refl
take_digits-append [] (c ∷ cs) h e = ground arith
take_digits-append (c ∷ xs) ys h e =
    rw (h.0, take_digits) (ap (λ t. c ∷ t) (take_digits-append xs ys h.1 e))

is_empty-to_string : (n : ℕ) → is_empty (to_string n) ≡ false
is_empty-to_string n = go (to_string n) (to_string-nonempty n)
  where
    go : (xs : Bytes) → 0 < length xs → is_empty xs ≡ false
    go [] h = absurd (omega arith)
    go (c ∷ xs) h = refl

read_seconds-to_string : (n : ℕ) → n < 2 ^ 63 → read_seconds (to_string n) ≡ some n
read_seconds-to_string n h =
    let fits : ltb n (2 ^ 63) ≡ true = ground (arith, h) in
    rw (is_empty-to_string n, scan-to_string n, fits) refl

parse_max_age-first :
    (n : ℕ) (rest : Bytes)
    → n < 2 ^ 63
    → ends_number rest ≡ true
    → parse_max_age (codes "max-age=" ++ (to_string n ++ rest)) ≡ some n
unfolding parse_max_age find_text starts_with
parse_max_age-first n rest h e =
    let long : leb (length (codes "max-age=" ++ (to_string n ++ rest))) 0 ≡ false = ground arith in
    rw
      (
        long,
        take_digits-append (to_string n) rest (to_string-AllDigits n) e,
        read_seconds-to_string n h,
      )
      refl

-- A response whose `cache-control` begins with `max-age=` and a decimal number below 2^63, with
-- nothing or no digit behind it, lives that many seconds.
compute_ttl-max_age :
    (r : ResponseInfo) (n : ℕ) (rest : Bytes)
    → n < 2 ^ 63
    → ends_number rest ≡ true
    → find_header (codes "cache-control") r.headers
      ≡ some (codes "max-age=" ++ (to_string n ++ rest))
    → compute_ttl r ≡ n
unfolding compute_ttl
compute_ttl-max_age r n rest h e k = rw (k, compute_ttl) (rw (parse_max_age-first n rest h e) refl)
