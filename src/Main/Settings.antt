-- ===== src/Main/Settings.antt =====
-- A command line as the settings that it stands for.
use hpserver.Prelude.{
  ℕ, ◌+◌, ◌-◌, ◌^◌, ◌≤◌, ◌<◌, ◌≡◌, ◌∙◌, refl, ap, true, false, ◌||◌, ◌==◌, none, some, List, [],
  ◌∷◌, Bytes, codes, ◌=?◌, arith, length, ◌⊎◌, inl, inr,
}
use hpserver.Text.{scan, scan_sign, skip_space, strtoull, to_string}
use hpserver.Text.Decimal.{
  scan_digits_all, to_string-AllDigits, to_string-value, scan-to_string, strtoull-to_string,
  to_string-nonempty,
}
use hpserver.Http.Builder.{is_empty}
use hpserver.Main.{Options, parse_unsigned, set_option, parse_arguments, returns}

pub data Flag : Type 0 where
  port : Flag
  proxy_workers : Flag
  tunnel_workers : Flag
  proxy_queue : Flag
  tunnel_queue : Flag

abbrev pub flag_text : Flag → Bytes
flag_text port = codes "--port"
flag_text proxy_workers = codes "--proxy-workers"
flag_text tunnel_workers = codes "--tunnel-workers"
flag_text proxy_queue = codes "--proxy-queue"
flag_text tunnel_queue = codes "--tunnel-queue"

abbrev pub at_least : Flag → ℕ
at_least port = 1
at_least _ = 0

abbrev pub at_most : Flag → ℕ
at_most port = 65535
at_most proxy_workers = 2 ^ 32 - 1
at_most tunnel_workers = 2 ^ 32 - 1
at_most proxy_queue = 2 ^ 64 - 1
at_most tunnel_queue = 2 ^ 64 - 1

abbrev pub write : Flag → ℕ → Options → Options
write port v o = record o { port = v }
write proxy_workers v o = record o { proxy_workers = v }
write tunnel_workers v o = record o { tunnel_workers = v }
write proxy_queue v o = record o { proxy_queue_size = v }
write tunnel_queue v o = record o { tunnel_queue_size = v }

abbrev pub Settings : Type 0
Settings = List (Flag × ℕ)

abbrev pub InRange : Settings → Type 0
InRange [] = Unit
InRange ((f, v) ∷ s) = (at_least f ≤ v) × (v ≤ at_most f) × InRange s

-- The arguments that say it, followed by others.
abbrev pub arguments : Settings → List Bytes → List Bytes
arguments [] rest = rest
arguments ((f, v) ∷ s) rest = flag_text f ∷ to_string v ∷ arguments s rest

abbrev pub write_all : Settings → Options → Options
write_all [] o = o
write_all ((f, v) ∷ s) o = write_all s (write f v o)

is_empty_lem : (xs : Bytes) → 0 < length xs → is_empty xs ≡ false
is_empty_lem [] h = absurd (omega arith)
is_empty_lem (c ∷ xs) h = refl

parse_unsigned-to_string : (v : ℕ) → v < 2 ^ 64 → parse_unsigned (to_string v) ≡ some v
unfolding parse_unsigned
parse_unsigned-to_string v h =
    let full = is_empty_lem (to_string v) (to_string-nonempty v) in
    let some_digits : (length (to_string v) == 0) ≡ false = ground (arith, to_string-nonempty v) in
    rw (full, strtoull-to_string v h, scan-to_string v, some_digits) refl

set_option-write :
    (f : Flag) (v : ℕ) (o : Options)
    → at_least f ≤ v
    → v ≤ at_most f
    → set_option (flag_text f) v o ≡ some (write f v o)
unfolding set_option ◌=?◌
set_option-write port v o h k = ground arith
set_option-write proxy_workers v o h k = ground arith
set_option-write tunnel_workers v o h k = ground arith
set_option-write proxy_queue v o h k = ground arith
set_option-write tunnel_queue v o h k = ground arith

set_option-range :
    (f : Flag) (v : ℕ) (o : Options)
    → v < 2 ^ 64
    → (v < at_least f) ⊎ (at_most f < v)
    → set_option (flag_text f) v o ≡ none
unfolding set_option ◌=?◌
set_option-range port v o h (inl k) = ground arith
set_option-range port v o h (inr k) = ground arith
set_option-range proxy_workers v o h (inr k) = ground arith
set_option-range tunnel_workers v o h (inr k) = ground arith
set_option-range proxy_queue v o h k = absurd (omega arith)
set_option-range tunnel_queue v o h k = absurd (omega arith)
set_option-range _ v o h (inl k) = absurd (omega arith)

no_help : (f : Flag) → (flag_text f =? codes "--help" || flag_text f =? codes "-h") ≡ false
unfolding ◌=?◌
no_help port = refl
no_help proxy_workers = refl
no_help tunnel_workers = refl
no_help proxy_queue = refl
no_help tunnel_queue = refl

at_most-word : (f : Flag) (v : ℕ) → v ≤ at_most f → v < 2 ^ 64
at_most-word port v h = omega arith
at_most-word proxy_workers v h = omega arith
at_most-word tunnel_workers v h = omega arith
at_most-word proxy_queue v h = omega arith
at_most-word tunnel_queue v h = omega arith

-- Settings in their ranges (a port from 1 to 65535, workers of 32 bits, queues of 64), written in
-- decimal with any arguments behind them, are taken over one by one, a later one of the same flag
-- over an earlier one, and the parse goes on with what is behind.
pub parse_arguments-write_all :
    (s : Settings) (rest : List Bytes) (o : Options)
    → InRange s
    → parse_arguments (arguments s rest) o ≡ parse_arguments rest (write_all s o)
unfolding parse_arguments
parse_arguments-write_all [] rest o h = refl
parse_arguments-write_all ((f, v) ∷ s) rest o h =
    rw
      (no_help f, parse_unsigned-to_string v (at_most-word f v h.1), set_option-write f v o h.0 h.1)
      (parse_arguments-write_all s rest (write f v o) h.2)

-- A setting outside its range and below 2^64, behind settings inside theirs, makes `main` return 1,
-- whatever follows.
parse_arguments-out_of_range :
    (s : Settings) (f : Flag) (v : ℕ) (rest : List Bytes) (o : Options)
    → InRange s
    → v < 2 ^ 64
    → (v < at_least f) ⊎ (at_most f < v)
    → parse_arguments (arguments s (flag_text f ∷ to_string v ∷ rest)) o ≡ returns 1
unfolding parse_arguments
parse_arguments-out_of_range s f v rest o h small out =
    parse_arguments-write_all s (flag_text f ∷ to_string v ∷ rest) o h
    ∙ rw
        (
          no_help f,
          parse_unsigned-to_string v small,
          set_option-range f v (write_all s o) small out,
        )
        refl

scan-minus :
    (v : ℕ)
    → scan (b'-' ∷ to_string v)
      ≡ record { negative = true; value = v; count = length (to_string v); rest = [] }
unfolding scan skip_space scan_sign
scan-minus v =
    scan_digits_all true 0 0 (to_string v) (to_string-AllDigits v)
    ∙ ap (λ n. record { negative = true; value = n; count = 0 + length (to_string v); rest = [] })
        (to_string-value v)
    ∙ ap (λ n. record { negative = true; value = v; count = n; rest = [] }) (omega arith)

-- A minus sign before a positive decimal number below 2^64 is taken: the value wraps around, so a
-- queue size of -1 is the greatest one.
parse_unsigned-minus :
    (v : ℕ) → 0 < v → v < 2 ^ 64 → parse_unsigned (b'-' ∷ to_string v) ≡ some (2 ^ 64 - v)
unfolding parse_unsigned strtoull
parse_unsigned-minus v p h = rw (scan-minus v) (ground (arith, to_string-nonempty v))
