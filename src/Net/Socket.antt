-- ===== src/Net/Socket.antt =====
-- src/net/core/socket_ops.h and src/net/core/socket_ops.cpp: a handle on a descriptor, and its calls. The
-- descriptor is `none` for -1; no other negative number is used. A call of the system is a function of the
-- descriptor, its other arguments included. `Closes` are the descriptors handed to `close`, in order.
-- A wrapper returns what the call returns, with the text that `perror` prints, if any.
pub mod Owned
use hpserver.Prelude.{
  ℕ, zero, suc, ◌+◌, ◌<◌, ◌≡◌, length, Bool, true, false, not, ◌&&◌, ◌||◌, ◌==◌, Option, none, some,
  List, [], ◌∷◌, ◌++◌, if◌then◌else◌, Bytes, codes, get_or, set,
}
use hpserver.Os.{Result, eagain, eintr, einprogress}

pub record SocketOps : Type 0 where
  pub fd : Option ℕ

abbrev pub Closes : Type 0
Closes = List ℕ

abbrev pub Called : Type 0
Called = Result × Option Bytes

-- `socket_ops()` and `socket_ops(int)`
abbrev pub socket_ops : Option ℕ → SocketOps
socket_ops f = record { fd = f }

abbrev pub fd_of : Result → Option ℕ
fd_of (Result.returned f) = some f
fd_of (Result.failed e) = none

-- `perror(name)` for -1 with an `errno` that is not expected.
abbrev pub checked : (ℕ → Bool) → Bytes → Result → Called
checked is_expected name (Result.returned n) = (Result.returned n, none)
checked is_expected name (Result.failed e) =
    (Result.failed e, if is_expected e then none else some name)

abbrev pub never : ℕ → Bool
never e = false

-- `socket_ops(int, int, int)`, where `r` is what `::socket` returns.
abbrev pub open_socket : Result → SocketOps × Option Bytes
open_socket r = (socket_ops (fd_of r), (checked never (codes "socket") r).1)

abbrev pub valid : SocketOps → Bool
valid s = elim s.fd [ none ↦ false | some f ↦ true ]

abbrev pub close_fd : Option ℕ → Closes
close_fd none = []
close_fd (some f) = f ∷ []

-- The handle afterwards, and what it returns.
abbrev pub release : SocketOps → SocketOps × Option ℕ
release s = (record { fd = none }, s.fd)

abbrev pub reset : Option ℕ → SocketOps → SocketOps × Closes
reset new_fd s = (record { fd = new_fd }, close_fd s.fd)

abbrev pub destroy : SocketOps → Closes
destroy s = (reset none s).1

-- The move constructor: the new handle, then the other.
abbrev pub move : SocketOps → SocketOps × SocketOps
move other = (record { fd = other.fd }, record { fd = none })

-- The move assignment between two handles.
abbrev pub assign : SocketOps → SocketOps → SocketOps × SocketOps × Closes
assign this other =
    let (emptied, closes) = reset none this in
    (record emptied { fd = other.fd }, record { fd = none }, closes)

abbrev pub bind : (Option ℕ → Result) → SocketOps → Called
bind call s = checked never (codes "bind") (call s.fd)

abbrev pub listen : (Option ℕ → Result) → SocketOps → Called
listen call s = checked never (codes "listen") (call s.fd)

abbrev pub is_retry : ℕ → Bool
is_retry e = e == eagain || e == eintr

abbrev pub accept : (Option ℕ → Result) → SocketOps → Called
accept call s = checked is_retry (codes "accept") (call s.fd)

abbrev pub is_pending : ℕ → Bool
is_pending e = e == einprogress || e == eintr

abbrev pub connect : (Option ℕ → Result) → SocketOps → Called
connect call s = checked is_pending (codes "connect") (call s.fd)

abbrev pub shutdown : (Option ℕ → Result) → SocketOps → Called
shutdown call s = checked never (codes "shutdown") (call s.fd)

abbrev pub read : (Option ℕ → Result) → SocketOps → Called
read call s = checked never (codes "read") (call s.fd)

abbrev pub write : (Option ℕ → Result) → SocketOps → Called
write call s = checked never (codes "write") (call s.fd)

abbrev pub recv : (Option ℕ → Result) → SocketOps → Called
recv call s = checked is_retry (codes "recv") (call s.fd)

abbrev pub send : (Option ℕ → Result) → SocketOps → Called
send call s = checked is_retry (codes "send") (call s.fd)

abbrev pub get_option : (Option ℕ → Result) → SocketOps → Called
get_option call s = checked never (codes "getsockopt") (call s.fd)

abbrev pub set_option : (Option ℕ → Result) → SocketOps → Called
set_option call s = checked never (codes "setsockopt") (call s.fd)

-- The handles of a program at its places, in order, and what has become of the descriptors:
-- those that a handle has taken, those that were closed and those that were given away.
pub record Handles : Type 0 where
  pub sockets : List SocketOps
  pub taken : List ℕ
  pub closed : List ℕ
  pub given : List ℕ

abbrev pub handles : Handles
handles = record { sockets = []; taken = []; closed = []; given = [] }

abbrev pub socket_at : ℕ → Handles → SocketOps
socket_at i h = get_or h.sockets i (socket_ops none)

abbrev pub construct : Option ℕ → Handles → Handles
construct f h = record h { sockets = socket_ops f ∷ h.sockets; taken = close_fd f ++ h.taken }

abbrev pub construct_open : Result → Handles → Handles
construct_open r h = record h {
  sockets = (open_socket r).0 ∷ h.sockets;
  taken = close_fd (fd_of r) ++ h.taken;
}

abbrev pub move_at : ℕ → Handles → Handles
move_at i h =
    let (this, other) = move (socket_at i h) in record h { sockets = this ∷ set h.sockets i other }

-- `this != &other`
abbrev pub assign_at : ℕ → ℕ → Handles → Handles
assign_at i j h =
    let (this, other, closes) = assign (socket_at i h) (socket_at j h) in
    if i == j
    then h
    else record h { sockets = set (set h.sockets i this) j other; closed = closes ++ h.closed }

abbrev pub reset_at : ℕ → Option ℕ → Handles → Handles
reset_at i new_fd h =
    let (this, closes) = reset new_fd (socket_at i h) in
    record h {
      sockets = set h.sockets i this;
      taken = close_fd new_fd ++ h.taken;
      closed = closes ++ h.closed;
    }

abbrev pub release_at : ℕ → Handles → Handles
release_at i h =
    let (this, f) = release (socket_at i h) in
    record h { sockets = set h.sockets i this; given = close_fd f ++ h.given }

abbrev pub without : ℕ → List SocketOps → List SocketOps
without i [] = []
without zero (s ∷ ss) = ss
without (suc i) (s ∷ ss) = s ∷ without i ss

abbrev pub destroy_at : ℕ → Handles → Handles
destroy_at i h = record h {
  sockets = without i h.sockets;
  closed = destroy (socket_at i h) ++ h.closed;
}

-- How often a number stands in a list.
abbrev pub count : ℕ → List ℕ → ℕ
count k [] = 0
count k (x ∷ xs) = if x == k then suc (count k xs) else count k xs

-- How many of the handles hold a descriptor.
abbrev pub holders : ℕ → List SocketOps → ℕ
holders k [] = 0
holders k (s ∷ ss) = count k (close_fd s.fd) + holders k ss

-- No handle holds a descriptor that the system, or the caller, hands over.
abbrev pub IsFree : Option ℕ → Handles → Type 0
IsFree none h = Unit
IsFree (some f) h = holders f h.sockets ≡ 0

-- What a program does with its handles.
pub data Reached : Handles → Type 0 where
  begins : Reached handles
  constructs : (f : Option ℕ) (h : Handles) → IsFree f h → Reached h → Reached (construct f h)
  opens : (r : Result) (h : Handles) → IsFree (fd_of r) h → Reached h → Reached (construct_open r h)
  moves : (i : ℕ) (h : Handles) → Reached h → Reached (move_at i h)
  assigns : (i j : ℕ) (h : Handles) → i < length h.sockets → Reached h → Reached (assign_at i j h)
  resets :
      (i : ℕ) (f : Option ℕ) (h : Handles)
      → i < length h.sockets
      → IsFree f h
      → Reached h
      → Reached (reset_at i f h)
  releases : (i : ℕ) (h : Handles) → Reached h → Reached (release_at i h)
  destroys : (i : ℕ) (h : Handles) → Reached h → Reached (destroy_at i h)
