-- ===== src/Text.antt =====
-- What the sources use of the C and C++ text functions, over bytes in the "C" locale: character
-- classes, `find`, `rfind`, `substr`, the `strtol` family and `std::to_string`.
pub mod Decimal
use hpserver.Prelude.{
  ℕ, zero, suc, ◌+◌, ◌-◌, ◌*◌, ◌/◌, ◌%◌, ◌^◌, Bool, true, false, ◌&&◌, ◌||◌, Option, none, some,
  List, [], ◌∷◌, ◌++◌, map, ◌==◌, ltb, leb, if◌then◌else◌, Bytes, ℤ, pos, negsuc, sub_ℕ, drop,
}

abbrev pub is_digit : ℕ → Bool
is_digit c = leb b'0' c && leb c b'9'

-- `std::isspace`: space, and `\t \n \v \f \r`.
abbrev pub is_space : ℕ → Bool
is_space c = c == b' ' || (leb 9 c && leb c 13)

abbrev pub is_upper : ℕ → Bool
is_upper c = leb b'A' c && leb c b'Z'

abbrev pub lower : ℕ → ℕ
lower c = if is_upper c then c + 32 else c

-- `std::tolower` on each byte.
abbrev pub to_lower_ascii : Bytes → Bytes
to_lower_ascii = map lower

unfoldable pub skip_space : Bytes → Bytes
skip_space [] = []
skip_space (c ∷ cs) = if is_space c then skip_space cs else c ∷ cs

-- What `strtol` and its kin read in base 10: a sign, and as many digits as follow. A `count`
-- of 0 means that no conversion was made, and `end` then points to the start.
pub record Scan : Type 0 where
  pub negative : Bool
  pub value : ℕ
  pub count : ℕ
  pub rest : Bytes

unfoldable pub scan_digits : Bool → ℕ → ℕ → Bytes → Scan
scan_digits neg v n [] = record { negative = neg; value = v; count = n; rest = [] }
scan_digits neg v n (c ∷ cs) =
    if is_digit c
    then scan_digits neg (v * 10 + (c - b'0')) (n + 1) cs
    else record { negative = neg; value = v; count = n; rest = c ∷ cs }

unfoldable pub scan_sign : Bytes → Scan
unfolding scan_digits
scan_sign [] = scan_digits false 0 0 []
scan_sign (c ∷ cs) =
    if c == b'-'
    then scan_digits true 0 0 cs
    else if c == b'+'
    then scan_digits false 0 0 cs
    else scan_digits false 0 0 (c ∷ cs)

unfoldable pub scan : Bytes → Scan
unfolding skip_space scan_sign
scan text = scan_sign (skip_space text)

-- `std::stoi`: `none` where it throws, `std::invalid_argument` or `std::out_of_range`.
unfoldable pub stoi : Bytes → Option ℤ
unfolding scan
stoi text =
    let s = scan text in
    if s.count == 0
    then none
    else if s.negative
    then if leb s.value (2 ^ 31) then some (sub_ℕ 0 s.value) else none
    else if ltb s.value (2 ^ 31)
    then some (pos s.value)
    else none

abbrev pub max_u64 : ℕ
max_u64 = 2 ^ 64 - 1

-- `std::strtoul` and `std::strtoull` (64 bits): the value, and whether `errno` is set to `ERANGE`.
-- Out of range gives the greatest value, and a minus sign negates modulo 2^64.
unfoldable pub strtoull : Bytes → ℕ × Bool
unfolding scan
strtoull text =
    let s = scan text in
    if ltb max_u64 s.value
    then (max_u64, true)
    else if s.negative
    then ((2 ^ 64 - s.value) % 2 ^ 64, false)
    else (s.value, false)

-- `std::to_string` of an unsigned number: digits by division, the last one first, on fuel. There
-- are never more divisions than the number itself.
decimal_from : ℕ → ℕ → Bytes → Bytes
decimal_from zero n acc = acc
decimal_from (suc fuel) n acc =
    let acc' : Bytes = (b'0' + n % 10) ∷ acc in
    let more = decimal_from fuel (n / 10) acc' in if n / 10 == 0 then acc' else more

unfoldable pub to_string : ℕ → Bytes
unfolding decimal_from
to_string n = decimal_from (suc n) n []

-- `find(c)`: the index of the first occurrence.
unfoldable pub find : ℕ → Bytes → Option ℕ
find c [] = none
find c (x ∷ xs) =
    if x == c then some 0 else elim (find c xs) [ none ↦ none | some i ↦ some (i + 1) ]

-- `rfind(c)`: the index of the last occurrence.
unfoldable pub rfind : ℕ → Bytes → Option ℕ
rfind c [] = none
rfind c (x ∷ xs) = elim (rfind c xs) [
  | none ↦ if x == c then some 0 else none
  | some i ↦ some (i + 1)
]

-- `rfind(p, 0) == 0`
unfoldable pub starts_with : Bytes → Bytes → Bool
starts_with [] xs = true
starts_with (p ∷ ps) [] = false
starts_with (p ∷ ps) (x ∷ xs) = p == x && starts_with ps xs

-- `find(p)` of a text.
unfoldable pub find_text : Bytes → Bytes → Option ℕ
unfolding starts_with
find_text p [] = if starts_with p [] then some 0 else none
find_text p (x ∷ xs) =
    if starts_with p (x ∷ xs)
    then some 0
    else elim (find_text p xs) [ none ↦ none | some i ↦ some (i + 1) ]
