-- ===== src/Net/Proxy/Connect.antt =====
-- `http_proxy::connect_upstream`. The addresses stand with what the system calls on each of them do.
use hpserver.Prelude.{
  ℕ, zero, suc, Bool, true, false, ◌==◌, Option, none, some, List, [], ◌∷◌, ◌++◌, if◌then◌else◌,
}
use hpserver.Os.{Result, einprogress}
use hpserver.Net.Proxy.{WaitRun, Outcome, wait_fd}

-- One address of `getaddrinfo`.
pub record Candidate : Type 0 where
  pub socket : Result
  pub connect : Result
  pub wait : WaitRun
  pub get_option : Result
  pub so_error : ℕ

-- `getaddrinfo` fails and leaves this `errno`, or gives addresses.
pub data Lookup : Type 0 where
  unresolved : ℕ → Lookup
  resolved : List Candidate → Lookup

-- The socket of `upstream` if there is one, `errno`, and the sockets that have been closed.
pub record Connected : Type 0 where
  pub upstream : Option ℕ
  pub errno : ℕ
  pub closed : List ℕ

-- What `connect` leads to: whether the candidate is kept, and `errno`.
abbrev pub checked : ℕ → Candidate → Result → Bool × ℕ
checked errno ai (Result.failed e) = (false, e)
checked errno ai (Result.returned (suc n)) = (false, errno)
checked errno ai (Result.returned zero) =
    (ai.so_error == 0, if ai.so_error == 0 then errno else ai.so_error)

abbrev pub awaited : Candidate → Outcome → Bool × ℕ
awaited ai waited =
    if waited.ok then checked waited.errno ai ai.get_option else (false, waited.errno)

abbrev pub try_connect : ℕ → Candidate → Result → Bool × ℕ
try_connect errno ai (Result.returned zero) = (true, errno)
try_connect errno ai (Result.returned (suc n)) = (false, errno)
try_connect errno ai (Result.failed e) =
    if e == einprogress then awaited ai (wait_fd e ai.wait) else (false, e)

unfoldable pub connect_loop : List Candidate → ℕ → List ℕ → Connected
connect_loop [] errno closed = record { upstream = none; errno = errno; closed = closed }
connect_loop (ai ∷ ais) errno closed = elim ai.socket [
  | Result.failed e ↦ connect_loop ais e closed
  | Result.returned fd ↦
      let (kept, e) = try_connect errno ai ai.connect in
      let rest = connect_loop ais e (closed ++ (fd ∷ [])) in
      if kept then record { upstream = some fd; errno = e; closed = closed } else rest
]

-- `upstream.reset()`
abbrev pub closing : Option ℕ → List ℕ
closing none = []
closing (some fd) = fd ∷ []

abbrev pub connect_upstream : Lookup → ℕ → Option ℕ → Connected
connect_upstream (unresolved e) errno upstream = record {
  upstream = none;
  errno = e;
  closed = closing upstream;
}
connect_upstream (resolved ais) errno upstream = connect_loop ais errno (closing upstream)
