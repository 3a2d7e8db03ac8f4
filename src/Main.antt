-- ===== src/Main.antt =====
-- The command line of src/main.cpp.
pub mod Settings
use hpserver.Prelude.{
  ℕ, ◌+◌, ◌-◌, ◌^◌, Bool, true, false, not, ◌||◌, ◌==◌, ltb, Option, none, some, List, [], ◌∷◌,
  if◌then◌else◌, Bytes, codes, ◌=?◌,
}
use hpserver.Text.{scan, strtoull}
use hpserver.Http.Builder.{is_empty}

-- The local variables of `main`.
pub record Options : Type 0 where
  pub port : ℕ
  pub proxy_workers : ℕ
  pub tunnel_workers : ℕ
  pub proxy_queue_size : ℕ
  pub tunnel_queue_size : ℕ

-- `main` returns a status, or goes on with the options.
pub data Parsed : Type 0 where
  returns : ℕ → Parsed
  starts : Options → Parsed

-- `std::strtoull` with `errno` and `end`: the whole text is read, without overflow.
unfoldable pub parse_unsigned : Bytes → Option ℕ
parse_unsigned text =
    if is_empty text
    then none
    else let (value, range_error) = strtoull text in
      if range_error || ((scan text).count == 0 || not (is_empty (scan text).rest))
      then none
      else some value

-- One option and its value; `none` where `main` returns 1.
unfoldable pub set_option : Bytes → ℕ → Options → Option Options
set_option arg parsed o =
    if arg =? codes "--port"
    then if parsed == 0 || ltb 65535 parsed then none else some (record o { port = parsed })
    else if arg =? codes "--proxy-workers"
    then if ltb (2 ^ 32 - 1) parsed then none else some (record o { proxy_workers = parsed })
    else if arg =? codes "--tunnel-workers"
    then if ltb (2 ^ 32 - 1) parsed then none else some (record o { tunnel_workers = parsed })
    else if arg =? codes "--proxy-queue"
    then if ltb (2 ^ 64 - 1) parsed then none else some (record o { proxy_queue_size = parsed })
    else if arg =? codes "--tunnel-queue"
    then if ltb (2 ^ 64 - 1) parsed then none else some (record o { tunnel_queue_size = parsed })
    else none

-- The arguments behind the program's name.
unfoldable pub parse_arguments : List Bytes → Options → Parsed
parse_arguments [] o = starts o
parse_arguments (arg ∷ []) o =
    if arg =? codes "--help" || arg =? codes "-h" then returns 0 else returns 1
parse_arguments (arg ∷ text ∷ args) o =
    if arg =? codes "--help" || arg =? codes "-h" then returns 0 else elim (parse_unsigned text) [
      | none ↦ returns 1
      | some parsed ↦ elim (set_option arg parsed o) [
        | none ↦ returns 1
        | some o' ↦ parse_arguments args o'
      ]
    ]

-- The status of `main`, or `none` where it does not return. `listen_start` says whether a server with
-- these options gets to its main loop, which has no end.
abbrev pub status_of : (Options → Bool) → Parsed → Option ℕ
status_of listen_start (returns status) = some status
status_of listen_start (starts o) = if listen_start o then none else some 1

abbrev pub defaults : Options
defaults = record {
  port = 8080;
  proxy_workers = 0;
  tunnel_workers = 0;
  proxy_queue_size = 0;
  tunnel_queue_size = 0;
}

abbrev pub main : (Options → Bool) → List Bytes → Option ℕ
main listen_start args = status_of listen_start (parse_arguments args defaults)
