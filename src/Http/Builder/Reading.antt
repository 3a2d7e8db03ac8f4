-- ===== src/Http/Builder/Reading.antt =====
-- An independent reader of HTTP messages: the lines of the head, up to the empty one, and what
-- follows. As lenient servers do, it ends a line at a bare LF as well as at CRLF.
use hpserver.Prelude.{
  ℕ, zero, suc, ◌≤◌, ◌<◌, ◌≡◌, refl, inl, inr, Bool, true, false, not, ◌&&◌, ◌||◌, Option, none,
  some, List, [], ◌∷◌, ◌++◌, ◌==◌, if◌then◌else◌, Bytes, length, drop, length-append, arith,
  Bool-cases,
}
use hpserver.Text.Decimal.{AllDigits}
use hpserver.Http.Builder.{crlf, drop_breaks, sanitize_header_token}

abbrev starts_lf : Bytes → Bool
starts_lf [] = false
starts_lf (c ∷ cs) = c == 10

-- A line without its end, and the rest; `none` where no line ends.
read_line : Bytes → Option (Bytes × Bytes)
read_line [] = none
read_line (c ∷ cs) =
    if c == 10
    then some ([], cs)
    else if c == 13 && starts_lf cs
    then some ([], drop 1 cs)
    else elim (read_line cs) [ none ↦ none | some (l, r) ↦ some (c ∷ l, r) ]

read_head : ℕ → Bytes → Option (List Bytes × Bytes)
read_head zero text = none
read_head (suc fuel) text = elim (read_line text) [
  | none ↦ none
  | some ([], r) ↦ some ([], r)
  | some (c ∷ l, r) ↦ elim (read_head fuel r) [
    | none ↦ none
    | some (ls, body) ↦ some ((c ∷ l) ∷ ls, body)
  ]
]

-- No message has more lines than bytes.
pub read_message : Bytes → Option (List Bytes × Bytes)
read_message text = read_head (suc (length text)) text

-- Neither CR nor LF.
abbrev pub NoBreak : Bytes → Type 0
NoBreak [] = Unit
NoBreak (c ∷ cs) = ((c == 13 || c == 10) ≡ false) × NoBreak cs

-- The lines of a head: none is empty or broken.
abbrev pub AreLines : List Bytes → Type 0
AreLines [] = Unit
AreLines (l ∷ ls) = NoBreak l × (0 < length l) × AreLines ls

abbrev pub message : List Bytes → Bytes → Bytes
message [] body = crlf ++ body
message (l ∷ ls) body = l ++ (crlf ++ message ls body)

-- For a text that is known, by evaluation.
abbrev pub has_no_break : Bytes → Bool
has_no_break [] = true
has_no_break (c ∷ cs) = not (c == 13 || c == 10) && has_no_break cs

pub has_no_break-NoBreak : (xs : Bytes) → has_no_break xs ≡ true → NoBreak xs
has_no_break-NoBreak [] h = tt
has_no_break-NoBreak (c ∷ xs) h = (ground arith, has_no_break-NoBreak xs (ground arith))

pub NoBreak-append : (xs ys : Bytes) → NoBreak xs → NoBreak ys → NoBreak (xs ++ ys)
NoBreak-append [] ys h k = k
NoBreak-append (c ∷ xs) ys h k = (h.0, NoBreak-append xs ys h.1 k)

pub NoBreak-drop : (n : ℕ) (xs : Bytes) → NoBreak xs → NoBreak (drop n xs)
NoBreak-drop zero xs h = h
NoBreak-drop (suc n) [] h = tt
NoBreak-drop (suc n) (c ∷ xs) h = NoBreak-drop n xs h.1

pub NoBreak-digits : (xs : Bytes) → AllDigits xs → NoBreak xs
NoBreak-digits [] h = tt
NoBreak-digits (c ∷ xs) h = (ground (arith, h.0), NoBreak-digits xs h.1)

drop_breaks-NoBreak : (xs : Bytes) → NoBreak (drop_breaks xs)
unfolding drop_breaks
drop_breaks-NoBreak [] = tt
drop_breaks-NoBreak (c ∷ xs) = elim (Bool-cases (c == 13 || c == 10)) [
  | inl e ↦ rw (e, if◌then◌else◌) (drop_breaks-NoBreak xs)
  | inr e ↦ rw (e, if◌then◌else◌) (e, drop_breaks-NoBreak xs)
]

pub sanitize_header_token-NoBreak :
    (value fallback : Bytes) → NoBreak fallback → NoBreak (sanitize_header_token value fallback)
unfolding sanitize_header_token
sanitize_header_token-NoBreak value fallback h = go (drop_breaks value) (drop_breaks-NoBreak value)
  where
    go :
        (out : Bytes)
        → NoBreak out
        → NoBreak (if hpserver.Http.Builder.is_empty out then fallback else out)
    go [] k = h
    go (c ∷ cs) k = k

read_line-line : (l rest : Bytes) → NoBreak l → read_line (l ++ (crlf ++ rest)) ≡ some (l, rest)
unfolding read_line
read_line-line [] rest h = refl
read_line-line (c ∷ l) rest h = ground (arith, read_line-line l rest h.1)

read_head-empty : (fuel : ℕ) (body : Bytes) → read_head (suc fuel) (crlf ++ body) ≡ some ([], body)
unfolding read_head read_line
read_head-empty fuel body = refl

read_head-message :
    (fuel : ℕ) (ls : List Bytes) (body : Bytes)
    → length ls < fuel
    → AreLines ls
    → read_head fuel (message ls body) ≡ some (ls, body)
unfolding read_head
read_head-message zero ls body h k = absurd (omega arith)
read_head-message (suc fuel) [] body h k = read_head-empty fuel body
read_head-message (suc fuel) ([] ∷ ls) body h k = absurd (omega arith)
read_head-message (suc fuel) ((c ∷ l) ∷ ls) body h k =
    rw (read_line-line (c ∷ l) (message ls body) k.0, read_head)
      (rw (read_head-message fuel ls body (omega arith) k.2, read_head))

length-message : (ls : List Bytes) (body : Bytes) → length ls ≤ length (message ls body)
length-message [] body = omega arith
length-message (l ∷ ls) body =
    omega (arith, length-append l (crlf ++ message ls body), length-message ls body)

-- What is written as a head and a body is read as that head and that body.
pub read_message-message :
    (ls : List Bytes) (body : Bytes)
    → AreLines ls
    → read_message (message ls body) ≡ some (ls, body)
unfolding read_message
read_message-message ls body h =
    read_head-message (suc (length (message ls body))) ls body
      (omega (arith, length-message ls body)) h
