-- ===== src/Net/Proxy.antt =====
-- src/net/proxy/http_proxy.cpp: the helpers on one descriptor. An outcome is what the kernel does in
-- one call. At the end of a list of outcomes a call would block, and a wait times out. `errno` is
-- passed on.
pub mod Connect
pub mod Forward
pub mod Tunnel
pub mod Relay
pub mod Completion
pub mod Owned
pub mod Attempts
pub mod Retries
use hpserver.Prelude.{
  ℕ, zero, suc, ◌+◌, Bool, true, false, not, ◌&&◌, ◌||◌, ◌==◌, ltb, List, [], ◌∷◌, ◌++◌,
  if◌then◌else◌, Bytes, length, take, drop,
}
use hpserver.Os.{Recv, Send, Result, taken, eintr, eagain, etimedout}

-- One `epoll_wait`.
pub data Wait : Type 0 where
  ready : ℕ → Wait
  timed_out : Wait
  refused : ℕ → Wait

-- What a wait for one descriptor meets: its poller, `epoll_ctl`, and the calls of `epoll_wait`.
pub record WaitRun : Type 0 where
  pub poller : Result
  pub added : Result
  pub waits : List Wait

-- What a call says, and `errno` after it.
pub record Outcome : Type 0 where
  pub ok : Bool
  pub errno : ℕ

abbrev pub succeeded : ℕ → Outcome
succeeded errno = record { ok = true; errno = errno }

abbrev pub failed_with : ℕ → Outcome
failed_with errno = record { ok = false; errno = errno }

unfoldable pub wait_loop : ℕ → List Wait → Outcome
wait_loop errno [] = failed_with etimedout
wait_loop errno (Wait.ready events ∷ waits) = record { ok = not (events == 0); errno = errno }
wait_loop errno (Wait.timed_out ∷ waits) = failed_with etimedout
wait_loop errno (Wait.refused e ∷ waits) = if e == eintr then wait_loop e waits else failed_with e

abbrev pub wait_added : ℕ → Result → List Wait → Outcome
wait_added errno (Result.failed e) waits = failed_with e
wait_added errno (Result.returned zero) waits = wait_loop errno waits
wait_added errno (Result.returned (suc n)) waits = failed_with errno

abbrev pub wait_polled : ℕ → Result → Result → List Wait → Outcome
wait_polled errno (Result.failed e) added waits = failed_with e
wait_polled errno (Result.returned n) added waits = wait_added errno added waits

abbrev pub wait_fd : ℕ → WaitRun → Outcome
wait_fd errno run = wait_polled errno run.poller run.added run.waits

-- What a read appends to, and `errno`.
pub record Drained : Type 0 where
  pub ok : Bool
  pub errno : ℕ
  pub out : Bytes
  pub eof : Bool

pub append_nonblocking_read : List Recv → ℕ → Bytes → Bool → Drained
append_nonblocking_read [] errno out eof = record {
  ok = true;
  errno = eagain;
  out = out;
  eof = eof;
}
append_nonblocking_read (Recv.received c cs ∷ outcomes) errno out eof =
    append_nonblocking_read outcomes errno (out ++ (c ∷ cs)) eof
append_nonblocking_read (Recv.ended ∷ outcomes) errno out eof = record {
  ok = true;
  errno = errno;
  out = out;
  eof = true;
}
append_nonblocking_read (Recv.refused e ∷ outcomes) errno out eof =
    let rest = append_nonblocking_read outcomes e out eof in
    if e == eintr then rest else record { ok = e == eagain; errno = e; out = out; eof = eof }

-- The buffer after a flush. `out` is what the kernel has taken.
pub record Flushed : Type 0 where
  pub ok : Bool
  pub errno : ℕ
  pub out : Bytes
  pub buf : Bytes
  pub offset : ℕ

pub flush_nonblocking : List Send → ℕ → Bytes → Bytes → ℕ → Flushed
flush_nonblocking [] errno out buf offset =
    if ltb offset (length buf)
    then record { ok = true; errno = eagain; out = out; buf = buf; offset = offset }
    else record { ok = true; errno = errno; out = out; buf = []; offset = 0 }
flush_nonblocking (Send.room n ∷ outcomes) errno out buf offset =
    let k = taken n (drop offset buf) in
    let rest =
      flush_nonblocking outcomes errno (out ++ take k (drop offset buf)) buf (offset + k) in
    if not (ltb offset (length buf))
    then record { ok = true; errno = errno; out = out; buf = []; offset = 0 }
    else if k == 0
    then record { ok = false; errno = errno; out = out; buf = buf; offset = offset }
    else rest
flush_nonblocking (Send.refused e ∷ outcomes) errno out buf offset =
    let rest = flush_nonblocking outcomes e out buf offset in
    if not (ltb offset (length buf))
    then record { ok = true; errno = errno; out = out; buf = []; offset = 0 }
    else if e == eintr
    then rest
    else record { ok = e == eagain; errno = e; out = out; buf = buf; offset = offset }

-- A `send`, with the wait behind it if it would block.
abbrev pub SendRun : Type 0
SendRun = Send × WaitRun

pub record SentAll : Type 0 where
  pub ok : Bool
  pub errno : ℕ
  pub out : Bytes

-- Both `send_all_nonblocking_socket` and `send_all_nonblocking`, from `offset` on.
unfoldable pub send_all : List SendRun → ℕ → Bytes → ℕ → Bytes → SentAll
send_all [] errno data_ offset out =
    if ltb offset (length data_)
    then record { ok = false; errno = etimedout; out = out }
    else record { ok = true; errno = errno; out = out }
send_all ((Send.room n, wait) ∷ outcomes) errno data_ offset out =
    let k = taken n (drop offset data_) in
    let rest = send_all outcomes errno data_ (offset + k) (out ++ take k (drop offset data_)) in
    if not (ltb offset (length data_))
    then record { ok = true; errno = errno; out = out }
    else if k == 0
    then record { ok = false; errno = errno; out = out }
    else rest
send_all ((Send.refused e, wait) ∷ outcomes) errno data_ offset out =
    let waited = wait_fd e wait in
    let again = send_all outcomes e data_ offset out in
    let rest = send_all outcomes waited.errno data_ offset out in
    if not (ltb offset (length data_))
    then record { ok = true; errno = errno; out = out }
    else if e == eintr
    then again
    else if e == eagain && waited.ok
    then rest
    else record { ok = false; errno = if e == eagain then waited.errno else e; out = out }

abbrev pub send_all_nonblocking : List SendRun → ℕ → Bytes → SentAll
send_all_nonblocking outcomes errno data_ = send_all outcomes errno data_ 0 []
