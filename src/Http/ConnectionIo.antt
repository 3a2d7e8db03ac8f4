-- ===== src/Http/ConnectionIo.antt =====
-- src/net/http/http_connection_io.cpp. A run of a loop over a socket is given the outcomes of its
-- calls; `none` stands for a run that is still in the loop when they end. `out` is what the
-- kernel has taken.
pub mod Conserved
use hpserver.Prelude.{
  ℕ, zero, suc, ◌+◌, Bool, true, false, not, ◌||◌, ltb, leb, ◌==◌, Option, none, some, List, [],
  ◌∷◌, ◌++◌, if◌then◌else◌, Bytes, length, take, drop,
}
use hpserver.Os.{Recv, Send, Result, returned, failed, taken, eagain, ebadf}
use hpserver.Http.Builder.{is_empty}

-- `fd` is `none` for a descriptor below 0.
pub record HttpConnectionIo : Type 0 where
  pub fd : Option ℕ
  pub read_buffer : Bytes
  pub write_buffer : Bytes
  pub write_offset : ℕ

abbrev pub http_connection_io : Option ℕ → HttpConnectionIo
http_connection_io fd = record { fd = fd; read_buffer = []; write_buffer = []; write_offset = 0 }

abbrev pub valid : HttpConnectionIo → Bool
valid io = elim io.fd [ none ↦ false | some fd ↦ true ]

read_loop : List Recv → ℕ → HttpConnectionIo → Option (HttpConnectionIo × Result)
read_loop [] total io = none
read_loop (Recv.received c cs ∷ outcomes) total io =
    read_loop outcomes (total + length (c ∷ cs))
      (record io { read_buffer = io.read_buffer ++ (c ∷ cs) })
read_loop (Recv.ended ∷ outcomes) total io = some (io, returned total)
read_loop (Recv.refused e ∷ outcomes) total io =
    some (io, if e == eagain then returned total else failed e)

unfoldable pub read_from_socket : List Recv → HttpConnectionIo → Option (HttpConnectionIo × Result)
unfolding read_loop
read_from_socket outcomes io =
    if not (valid io) then some (io, failed ebadf) else read_loop outcomes 0 io

unfoldable pub queue_write : Bytes → HttpConnectionIo → HttpConnectionIo
queue_write [] io = io
queue_write (c ∷ cs) io = record io { write_buffer = io.write_buffer ++ (c ∷ cs) }

abbrev pub has_pending_write : HttpConnectionIo → Bool
has_pending_write io = ltb io.write_offset (length io.write_buffer)

-- Behind the loop.
abbrev pub clear_written : HttpConnectionIo → HttpConnectionIo
clear_written io =
    if io.write_offset == length io.write_buffer
    then record io { write_buffer = []; write_offset = 0 }
    else io

pub record Flushed : Type 0 where
  pub io : HttpConnectionIo
  pub out : Bytes
  pub result : Result

flush_loop : List Send → ℕ → Bytes → HttpConnectionIo → Option Flushed
flush_loop [] total out io =
    if has_pending_write io
    then none
    else some (record { io = clear_written io; out = out; result = returned total })
flush_loop (Send.room n ∷ outcomes) total out io =
    let remain = drop io.write_offset io.write_buffer in
    let rest =
      flush_loop outcomes (total + taken n remain) (out ++ take (taken n remain) remain)
        (record io { write_offset = io.write_offset + taken n remain }) in
    if not (has_pending_write io)
    then some (record { io = clear_written io; out = out; result = returned total })
    else if n == 0
    then some (record { io = io; out = out; result = failed 0 })
    else rest
flush_loop (Send.refused e ∷ outcomes) total out io =
    if not (has_pending_write io)
    then some (record { io = clear_written io; out = out; result = returned total })
    else if e == eagain
    then some (record { io = clear_written io; out = out; result = returned total })
    else some (record { io = io; out = out; result = failed e })

unfoldable pub flush_to_socket : List Send → HttpConnectionIo → Option Flushed
unfolding flush_loop
flush_to_socket outcomes io =
    if not (valid io)
    then some (record { io = io; out = []; result = failed ebadf })
    else flush_loop outcomes 0 [] io

-- The two branches return the same text where the offset is 0.
unfoldable pub take_write_buffer : HttpConnectionIo → HttpConnectionIo × Bytes
take_write_buffer io = (
  record io { write_buffer = []; write_offset = 0 },
  if io.write_offset == 0 then io.write_buffer else drop io.write_offset io.write_buffer,
)

unfoldable pub consume_read_bytes : ℕ → HttpConnectionIo → HttpConnectionIo
consume_read_bytes bytes io =
    if bytes == 0
    then io
    else if leb (length io.read_buffer) bytes
    then record io { read_buffer = [] }
    else record io { read_buffer = drop bytes io.read_buffer }
