-- ===== src/Http/RequestParser/HostPort.antt =====
-- Hosts with a port, as `parse_host_port` reads them.
use hpserver.Prelude.{
  ℕ, suc, ◌+◌, ◌-◌, ◌<◌, ◌%◌, ◌^◌, ◌≡◌, ◌∙◌, refl, ap, Bool, true, false, not, ◌&&◌, ◌==◌, leb, [],
  ◌∷◌, ◌++◌, Bytes, none, some, length, take, drop, get_or, arith, length-append,
}
use hpserver.Text.{is_space, skip_space, find, rfind, to_string}
use hpserver.Text.Decimal.{AllDigits, to_string-AllDigits, strtoull-to_string}
use hpserver.Http.Builder.{is_empty}
use hpserver.Http.RequestParser.{skip_space_back, parse_port, split_host_port, parse_host_port}

-- A byte of a host name: no space, colon or bracket.
abbrev pub name_byte : ℕ → Bool
name_byte c = not (is_space c) && (not (c == b':') && (not (c == b'[') && not (c == b']')))

abbrev pub IsName : Bytes → Type 0
IsName [] = Unit
IsName (c ∷ cs) = (name_byte c ≡ true) × IsName cs

abbrev NoSpace : Bytes → Type 0
NoSpace [] = Unit
NoSpace (c ∷ cs) = (is_space c ≡ false) × NoSpace cs

IsName-NoSpace : (xs : Bytes) → IsName xs → NoSpace xs
IsName-NoSpace [] h = tt
IsName-NoSpace (c ∷ cs) h = (ground (arith, h.0), IsName-NoSpace cs h.1)

AllDigits-NoSpace : (xs : Bytes) → AllDigits xs → NoSpace xs
AllDigits-NoSpace [] h = tt
AllDigits-NoSpace (c ∷ cs) h = (ground (arith, h.0), AllDigits-NoSpace cs h.1)

NoSpace-append : (xs ys : Bytes) → NoSpace xs → NoSpace ys → NoSpace (xs ++ ys)
NoSpace-append [] ys h k = k
NoSpace-append (c ∷ xs) ys h k = (h.0, NoSpace-append xs ys h.1 k)

skip_space-NoSpace : (xs : Bytes) → NoSpace xs → skip_space xs ≡ xs
unfolding skip_space
skip_space-NoSpace [] h = refl
skip_space-NoSpace (c ∷ cs) h = rw h.0 refl

skip_space_back-NoSpace : (xs : Bytes) → NoSpace xs → skip_space_back xs ≡ xs
unfolding skip_space_back
skip_space_back-NoSpace [] h = refl
skip_space_back-NoSpace (c ∷ []) h = rw h.0 refl
skip_space_back-NoSpace (c ∷ d ∷ ds) h = rw (skip_space_back-NoSpace (d ∷ ds) h.1) refl

find-name : (xs ys : Bytes) → IsName xs → find b':' (xs ++ (b':' ∷ ys)) ≡ some (length xs)
unfolding find
find-name [] ys h = refl
find-name (c ∷ cs) ys h =
    let n : (c == b':') ≡ false = ground (arith, h.0) in
    rw (n, find-name cs ys h.1) (ap some (omega arith))

find-bracket : (xs ys : Bytes) → IsName xs → find b']' (xs ++ (b']' ∷ ys)) ≡ some (length xs)
unfolding find
find-bracket [] ys h = refl
find-bracket (c ∷ cs) ys h =
    let n : (c == b']') ≡ false = ground (arith, h.0) in
    rw (n, find-bracket cs ys h.1) (ap some (omega arith))

rfind-digits : (xs : Bytes) → AllDigits xs → rfind b':' xs ≡ none
unfolding rfind
rfind-digits [] h = refl
rfind-digits (c ∷ cs) h =
    let n : (c == b':') ≡ false = ground (arith, h.0) in rw (rfind-digits cs h.1, n) refl

rfind-name : (xs ys : Bytes) → AllDigits ys → rfind b':' (xs ++ (b':' ∷ ys)) ≡ some (length xs)
unfolding rfind
rfind-name [] ys h = rw (rfind-digits ys h) refl
rfind-name (c ∷ cs) ys h = rw (rfind-name cs ys h) (ap some (omega arith))

take-length : (xs ys : Bytes) → take (length xs) (xs ++ ys) ≡ xs
take-length [] ys = refl
take-length (c ∷ cs) ys = ap (λ t. c ∷ t) (take-length cs ys)

drop-past : (xs : Bytes) (y : ℕ) (ys : Bytes) → drop (suc (length xs)) (xs ++ (y ∷ ys)) ≡ ys
drop-past [] y ys = refl
drop-past (c ∷ cs) y ys = drop-past cs y ys

drop-past_two :
    (xs : Bytes) (y z : ℕ) (ys : Bytes) → drop (suc (suc (length xs))) (xs ++ (y ∷ z ∷ ys)) ≡ ys
drop-past_two [] y z ys = refl
drop-past_two (c ∷ cs) y z ys = drop-past_two cs y z ys

get_or-past :
    (xs : Bytes) (y z d : ℕ) (ys : Bytes) → get_or (xs ++ (y ∷ z ∷ ys)) (suc (length xs)) d ≡ z
get_or-past [] y z d ys = refl
get_or-past (c ∷ cs) y z d ys = get_or-past cs y z d ys

parse_port-to_string : (port : ℕ) → port < 2 ^ 64 → parse_port (to_string port) ≡ port % 2 ^ 16
parse_port-to_string port h = ap (λ r. r.0 % 2 ^ 16) (strtoull-to_string port h)

trimmed : (xs : Bytes) → NoSpace xs → parse_host_port xs ≡ split_host_port xs
unfolding parse_host_port
trimmed xs h =
    ap split_host_port (ap skip_space_back (skip_space-NoSpace xs h) ∙ skip_space_back-NoSpace xs h)

-- A host name that is not empty and has no space, colon or bracket, with a colon and a decimal port
-- below 2^64 behind it, is read as that name and the port modulo 2^16.
pub parse_host_port-name :
    (host : Bytes) (port : ℕ)
    → is_empty host ≡ false
    → IsName host
    → port < 2 ^ 64
    → parse_host_port (host ++ (b':' ∷ to_string port)) ≡ (host, port % 2 ^ 16)
parse_host_port-name [] port e h p = absurd (ground arith)
parse_host_port-name (c ∷ cs) port e h p =
    let digits = to_string port in
    let d = to_string-AllDigits port in
    let n : (c == b'[') ≡ false = ground (arith, h.0) in
    let next : length (c ∷ cs) + 1 ≡ suc (length (c ∷ cs)) = omega arith in
    let i : not (length (c ∷ cs) == length (c ∷ cs)) ≡ false = ground arith in
    trimmed ((c ∷ cs) ++ (b':' ∷ digits)) (
      NoSpace-append (c ∷ cs) (b':' ∷ digits) (IsName-NoSpace (c ∷ cs) h)
        (refl, AllDigits-NoSpace digits d))
    ∙ rw (n, rfind-name (c ∷ cs) digits d, find-name (c ∷ cs) digits h, i, next)
        (λ k. (
          take-length (c ∷ cs) (b':' ∷ digits) k,
          (ap parse_port (drop-past (c ∷ cs) b':' digits) ∙ parse_port-to_string port p) k,
        ))

-- The index of the closing bracket, from the opening one.
find-closing :
    (host rest : Bytes)
    → IsName host
    → find b']' (b'[' ∷ (host ++ (b']' ∷ rest))) ≡ some (length host + 1)
unfolding find
find-closing host rest h = rw (find-bracket host rest h) refl

-- A name of the same kind, which may be empty, in brackets, with a colon and a decimal port below
-- 2^64 behind them, is read as that name and the port modulo 2^16.
parse_host_port-brackets :
    (host : Bytes) (port : ℕ)
    → IsName host
    → port < 2 ^ 64
    → parse_host_port (b'[' ∷ (host ++ (b']' ∷ b':' ∷ to_string port))) ≡ (host, port % 2 ^ 16)
parse_host_port-brackets host port h p =
    let digits = to_string port in
    let text : Bytes = b'[' ∷ (host ++ (b']' ∷ b':' ∷ digits)) in
    let one : length host + 1 ≡ suc (length host) = omega arith in
    let inside : suc (length host) - 1 ≡ length host = omega arith in
    let three : suc (length host) + 2 ≡ suc (suc (suc (length host))) = omega arith in
    let two : suc (length host) + 1 ≡ suc (suc (length host)) = omega arith in
    let long : leb (suc (suc (suc (length host)))) (length text) ≡ true =
      ground (arith, length-append host (b']' ∷ b':' ∷ digits)) in
    trimmed text (
      refl,
      NoSpace-append host (b']' ∷ b':' ∷ digits) (IsName-NoSpace host h)
          (refl, (refl, AllDigits-NoSpace digits (to_string-AllDigits port))),
    )
    ∙ rw
        (
          find-closing host (b':' ∷ digits) h,
          one,
          inside,
          three,
          two,
          long,
          get_or-past host b']' b':' 0 digits,
        )
        (λ k. (
          take-length host (b']' ∷ b':' ∷ digits) k,
          (ap parse_port (drop-past_two host b']' b':' digits) ∙ parse_port-to_string port p) k,
        ))
