-- ===== src/Net/Poller.antt =====
-- src/net/core/poller.h and src/net/core/poller.cpp: the handle on an epoll instance, `none` for -1, and
-- its calls. `epoll_ctl` and `epoll_wait` are functions of their arguments; a null event is
-- `none`. The text that `perror` prints comes with a result, and closed descriptors with an
-- operation that closes one.
use hpserver.Prelude.{
  ℕ, zero, suc, Bool, true, false, not, ◌||◌, ◌==◌, Option, none, some, [], ◌∷◌, if◌then◌else◌,
  Bytes, codes, ℤ, pos, negsuc,
}
use hpserver.Os.{Result, ebadf, einval, eintr}
use hpserver.Net.Socket.{Closes, Called, fd_of, checked, never}

pub record Poller : Type 0 where
  pub epoll_fd : Option ℕ

-- `r` is what `epoll_create1` returns.
abbrev pub poller : Result → Poller × Option Bytes
poller r = (record { epoll_fd = fd_of r }, (checked never (codes "epoll_create1") r).1)

-- `::close` of the instance, which may fail.
abbrev pub close_epoll : (ℕ → Result) → Option ℕ → Closes × Option Bytes
close_epoll close none = ([], none)
close_epoll close (some fd) = (fd ∷ [], (checked never (codes "close(epoll_fd)") (close fd)).1)

abbrev pub destroy : (ℕ → Result) → Poller → Closes × Option Bytes
destroy close p = close_epoll close p.epoll_fd

abbrev pub move : Poller → Poller × Poller
move other = (record { epoll_fd = other.epoll_fd }, record { epoll_fd = none })

-- The move assignment between two pollers.
abbrev pub assign : (ℕ → Result) → Poller → Poller → Poller × Poller × Closes × Option Bytes
assign close this other =
    let (closes, text) = close_epoll close this.epoll_fd in
    (record this { epoll_fd = other.epoll_fd }, record { epoll_fd = none }, closes, text)

pub data Op : Type 0 where
  ctl_add : Op
  ctl_mod : Op
  ctl_del : Op
  ctl_other : ℕ → Op

abbrev pub ctl_text : Op → Bytes
ctl_text ctl_add = codes "epoll_ctl(ADD)"
ctl_text ctl_mod = codes "epoll_ctl(MOD)"
ctl_text ctl_del = codes "epoll_ctl(DEL)"
ctl_text (ctl_other op) = codes "epoll_ctl"

-- The event of a call: its mask and its descriptor, which may be -1.
abbrev pub event_of : Op → Option ℕ → ℕ → Option (ℕ × Option ℕ)
event_of ctl_add fd events = some (events, fd)
event_of ctl_mod fd events = some (events, fd)
event_of ctl_del fd events = none
event_of (ctl_other op) fd events = some (events, fd)

abbrev pub Ctl : Type 0
Ctl = ℕ → Op → Option ℕ → Option (ℕ × Option ℕ) → Result

module _ (epoll_ctl : Ctl) where
  abbrev pub control : Op → Option ℕ → ℕ → Poller → Called
  control op fd events p = elim p.epoll_fd [
    | none ↦ (Result.failed ebadf, none)
    | some epfd ↦ checked never (ctl_text op) (epoll_ctl epfd op fd (event_of op fd events))
  ]

  abbrev pub add : Option ℕ → ℕ → Poller → Called
  add fd events p = control ctl_add fd events p

  abbrev pub modify : Option ℕ → ℕ → Poller → Called
  modify fd events p = control ctl_mod fd events p

  abbrev pub remove : Option ℕ → Poller → Called
  remove fd p = control ctl_del fd 0 p

abbrev pub is_eintr : ℕ → Bool
is_eintr e = e == eintr

-- `max_events <= 0`
abbrev pub is_positive : ℤ → Bool
is_positive (pos zero) = false
is_positive (pos (suc n)) = true
is_positive (negsuc n) = false

-- `has_events` says that `events` is not null; `epoll_wait` is a function of the instance, the
-- size of the buffer and the timeout.
abbrev pub wait : (ℕ → ℤ → ℤ → Result) → Bool → ℤ → ℤ → Poller → Called
wait epoll_wait has_events max_events timeout_ms p = elim p.epoll_fd [
  | none ↦ (Result.failed ebadf, none)
  | some epfd ↦
      if not has_events || not (is_positive max_events)
      then (Result.failed einval, none)
      else checked is_eintr (codes "epoll_wait") (epoll_wait epfd max_events timeout_ms)
]
