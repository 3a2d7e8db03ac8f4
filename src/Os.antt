-- ===== src/Os.antt =====
-- What the sources use of the system calls: an outcome stands for what the kernel does in one call.
-- `EWOULDBLOCK` is `EAGAIN` on Linux.
use hpserver.Prelude.{ℕ, min, List, [], ◌∷◌, ◌++◌, Bytes, length}

abbrev pub eintr : ℕ
eintr = 4

abbrev pub eio : ℕ
eio = 5

abbrev pub ebadf : ℕ
ebadf = 9

abbrev pub eagain : ℕ
eagain = 11

abbrev pub einval : ℕ
einval = 22

abbrev pub epipe : ℕ
epipe = 32

abbrev pub eproto : ℕ
eproto = 71

abbrev pub econnaborted : ℕ
econnaborted = 103

abbrev pub econnreset : ℕ
econnreset = 104

abbrev pub enotconn : ℕ
enotconn = 107

abbrev pub etimedout : ℕ
etimedout = 110

abbrev pub einprogress : ℕ
einprogress = 115

-- One `recv`: some bytes, the end of the stream, or -1 with `errno`. No bytes are the end, too.
pub data Recv : Type 0 where
  received : (c : ℕ) (cs : Bytes) → Recv
  ended : Recv
  refused : ℕ → Recv

-- One `send`: how many bytes the kernel has room for, or -1 with `errno`.
pub data Send : Type 0 where
  room : ℕ → Send
  refused : ℕ → Send

-- The kernel takes no more than it is given.
abbrev pub taken : ℕ → Bytes → ℕ
taken n bytes = min n (length bytes)

-- What a call with a signed result returns: a number from 0 on, or -1 with `errno`.
pub data Result : Type 0 where
  returned : ℕ → Result
  failed : ℕ → Result

-- All the bytes of a row of pieces.
abbrev pub concat : List Bytes → Bytes
concat [] = []
concat (b ∷ bs) = b ++ concat bs
