-- ===== src/Http/ConnectionIo/Conserved.antt =====
-- No byte is lost, doubled or moved between a buffer and the socket.
use hpserver.Prelude.{
  drop-append, Ends, Ends-Ensures, Ensures, Ensures-imp, drop-length, append-take-drop, ==_iff, ℕ,
  ◌+◌, ◌≤◌, ◌≡◌, ◌∙◌, refl, sym, ap, arith, true, ◌==◌, some, List, [], ◌∷◌, ◌++◌, if◌then◌else◌,
  Bytes, length, length-append, length-drop, length-take, take, drop, Bool-cases, inl, inr,
}
use mathlib.Core.List.{append_assoc, append-nil}
use hpserver.Os.{Recv, Send, Result, returned, failed, taken, eagain}
use hpserver.Http.ConnectionIo.{
  HttpConnectionIo, valid, read_loop, read_from_socket, has_pending_write, clear_written, Flushed,
  flush_loop, flush_to_socket, queue_write,
}

-- What is still to be sent.
abbrev pub pending : HttpConnectionIo → Bytes
pending io = drop io.write_offset io.write_buffer

abbrev pub IsWithin : HttpConnectionIo → Type 0
IsWithin io = io.write_offset ≤ length io.write_buffer

clear_written-pending :
    (io : HttpConnectionIo)
    → IsWithin io
    → (pending (clear_written io) ≡ pending io) × IsWithin (clear_written io)
clear_written-pending io h = elim (Bool-cases (io.write_offset == length io.write_buffer)) [
  | inl e ↦
      rw (e, clear_written)
        (
          sym (drop-length io.write_buffer)
              ∙ ap (λ n. drop n io.write_buffer)
                  (sym ((==_iff io.write_offset (length io.write_buffer)).0 e)),
          omega arith,
        )
  | inr e ↦ rw (e, clear_written) (refl, h)
]

-- A number of bytes is reported just as it is.
abbrev pub Counts : Result → ℕ → Type 0
Counts (returned n) m = n ≡ m
Counts (failed e) m = Unit

stop :
    {total : ℕ} (out : Bytes) (io : HttpConnectionIo)
    → IsWithin io
    → total ≡ length out
    → (out ++ pending (clear_written io) ≡ out ++ pending io)
      × IsWithin (clear_written io)
      × (total ≡ length out)
stop out io h t = let c = clear_written-pending io h in (ap (λ p. out ++ p) c.0, c.1, t)

-- From a state `io`, when `out` has been taken.
abbrev Conserves : Bytes → HttpConnectionIo → Flushed → Type 0
Conserves out io f =
    (f.out ++ pending f.io ≡ out ++ pending io) × IsWithin f.io × Counts f.result (length f.out)

flush_loop-Conserves :
    (outcomes : List Send) (total : ℕ) (out : Bytes) (io : HttpConnectionIo)
    → IsWithin io
    → total ≡ length out
    → Ensures (Conserves out io) (flush_loop outcomes total out io)
unfolding flush_loop
flush_loop-Conserves [] total out io h t = elim (Bool-cases (has_pending_write io)) [
  | inl e ↦ rw e tt
  | inr e ↦ rw e (stop out io h t)
]
flush_loop-Conserves (Send.room n ∷ outcomes) total out io h t =
    let remain = drop io.write_offset io.write_buffer in
    let k = taken n remain in
    let io' : HttpConnectionIo = record io { write_offset = io.write_offset + k } in
    elim (Bool-cases (has_pending_write io)) [
      | inl e ↦ elim (Bool-cases (n == 0)) [
        | inl z ↦ rw (e, z) (refl, h, tt)
        | inr z ↦
            rw (e, z)
              (Ensures-imp {P = Conserves (out ++ take k remain) io'}
                (flush_loop outcomes (total + k) (out ++ take k remain) io')
                (λ f c. (c.0 ∙ append-take-drop out io.write_buffer io.write_offset k, c.1, c.2))
                (flush_loop-Conserves outcomes (total + k) (out ++ take k remain) io'
                  (omega (arith, length-drop io.write_offset io.write_buffer))
                  (omega (arith, length-append out (take k remain), length-take k remain))))
      ]
      | inr e ↦ rw e (stop out io h t)
    ]
flush_loop-Conserves (Send.refused er ∷ outcomes) total out io h t =
    elim (Bool-cases (has_pending_write io)) [
      | inl e ↦ elim (Bool-cases (er == eagain)) [
        | inl z ↦ rw (e, z) (stop out io h t)
        | inr z ↦ rw (e, z) (refl, h, tt)
      ]
      | inr e ↦ rw e (stop out io h t)
    ]

flush_loop-Ends :
    (outcomes : List Send) (total : ℕ) (out : Bytes) (io : HttpConnectionIo)
    → length (pending io) ≤ length outcomes
    → Ends (flush_loop outcomes total out io)
unfolding flush_loop
flush_loop-Ends [] total out io l = elim (Bool-cases (has_pending_write io)) [
  | inl e ↦ absurd (ground (arith, e, length-drop io.write_offset io.write_buffer))
  | inr e ↦ rw e tt
]
flush_loop-Ends (Send.room n ∷ outcomes) total out io l =
    let remain = drop io.write_offset io.write_buffer in
    let k = taken n remain in
    let io' : HttpConnectionIo = record io { write_offset = io.write_offset + k } in
    elim (Bool-cases (has_pending_write io)) [
      | inl e ↦ elim (Bool-cases (n == 0)) [
        | inl z ↦ rw (e, z) tt
        | inr z ↦
            rw (e, z)
              (flush_loop-Ends outcomes (total + k) (out ++ take k remain) io' (
                ground (
                  arith,
                  e,
                  z,
                  length-drop io.write_offset io.write_buffer,
                  length-drop (io.write_offset + k) io.write_buffer,
                )))
      ]
      | inr e ↦ rw e tt
    ]
flush_loop-Ends (Send.refused er ∷ outcomes) total out io l =
    elim (Bool-cases (has_pending_write io)) [
      | inl e ↦ elim (Bool-cases (er == eagain)) [ inl z ↦ rw (e, z) tt | inr z ↦ rw (e, z) tt ]
      | inr e ↦ rw e tt
    ]

-- A flush of an open connection whose offset lies in its buffer needs no more outcomes than there
-- are bytes to send. It ends with the offset in the buffer, what the kernel has taken is the front
-- of what was to be sent and the rest is still to be sent, and a count that is returned is right.
pub flush_to_socket-conserves :
    (outcomes : List Send) (io : HttpConnectionIo)
    → valid io ≡ true
    → IsWithin io
    → length (pending io) ≤ length outcomes
    → (f : Flushed) × (flush_to_socket outcomes io ≡ some f)
      × (f.out ++ pending f.io ≡ pending io)
      × IsWithin f.io
      × Counts f.result (length f.out)
unfolding flush_to_socket
flush_to_socket-conserves outcomes io v h l =
    let (f, e, c) =
      Ends-Ensures {P = Conserves [] io} (flush_loop outcomes 0 [] io)
        (flush_loop-Ends outcomes 0 [] io l) (flush_loop-Conserves outcomes 0 [] io h refl) in
    (f, rw v e, c.0, c.1, c.2)

-- While the offset lies in the buffer, what is queued goes behind what is still to be sent.
pending-queue_write :
    (bytes : Bytes) (io : HttpConnectionIo)
    → IsWithin io
    → (pending (queue_write bytes io) ≡ pending io ++ bytes) × IsWithin (queue_write bytes io)
unfolding queue_write
pending-queue_write [] io h = (sym (append-nil (pending io)), h)
pending-queue_write (c ∷ cs) io h = (
  drop-append io.write_offset io.write_buffer (c ∷ cs) h,
  omega (arith, length-append io.write_buffer (c ∷ cs)),
)

-- A row of calls that find bytes.
abbrev pub arrivals : List (ℕ × Bytes) → List Recv
arrivals [] = []
arrivals ((c, cs) ∷ pieces) = Recv.received c cs ∷ arrivals pieces

abbrev pub joined : List (ℕ × Bytes) → Bytes
joined [] = []
joined ((c, cs) ∷ pieces) = (c ∷ cs) ++ joined pieces

abbrev pub IsStop : Recv → Type 0
IsStop (Recv.received c cs) = ⊥
IsStop _ = Unit

abbrev pub stop_result : Recv → ℕ → Result
stop_result (Recv.refused e) n = if e == eagain then returned n else failed e
stop_result _ n = returned n

read_loop-arrivals :
    (pieces : List (ℕ × Bytes)) (stop : Recv) (rest : List Recv) (total : ℕ) (io : HttpConnectionIo)
    → IsStop stop
    → read_loop (arrivals pieces ++ stop ∷ rest) total io
      ≡ some (
        record io { read_buffer = io.read_buffer ++ joined pieces },
        stop_result stop (total + length (joined pieces)),
      )
unfolding read_loop
read_loop-arrivals [] (Recv.received c cs) rest total io s = elim s [ ]
read_loop-arrivals [] Recv.ended rest total io s =
    let e : total ≡ total + 0 = omega arith in
    λ i. some (record io { read_buffer = sym (append-nil io.read_buffer) i }, returned (e i))
read_loop-arrivals [] (Recv.refused er) rest total io s =
    let e : total ≡ total + 0 = omega arith in
    λ i. some (
      record io { read_buffer = sym (append-nil io.read_buffer) i },
      stop_result (Recv.refused er) (e i),
    )
read_loop-arrivals ((c, cs) ∷ pieces) stop rest total io s =
    let e : total + length (c ∷ cs) + length (joined pieces)
        ≡ total + length ((c ∷ cs) ++ joined pieces) =
      omega (arith, length-append (c ∷ cs) (joined pieces)) in
    read_loop-arrivals pieces stop rest (total + length (c ∷ cs))
      (record io { read_buffer = io.read_buffer ++ (c ∷ cs) }) s
    ∙ λ i. some (
      record io { read_buffer = append_assoc io.read_buffer (c ∷ cs) (joined pieces) i },
      stop_result stop (e i),
    )

-- On an open connection, calls that find bytes and then one that does not, whatever may come after
-- it, put those bytes behind the read buffer, in their order, and change nothing else. The result
-- is their number at the end of the stream and where a call would block, and the error otherwise.
read_from_socket-arrivals :
    (pieces : List (ℕ × Bytes)) (stop : Recv) (rest : List Recv) (io : HttpConnectionIo)
    → valid io ≡ true
    → IsStop stop
    → read_from_socket (arrivals pieces ++ stop ∷ rest) io
      ≡ some (
        record io { read_buffer = io.read_buffer ++ joined pieces },
        stop_result stop (length (joined pieces)),
      )
unfolding read_from_socket
read_from_socket-arrivals pieces stop rest io v s =
    let e : 0 + length (joined pieces) ≡ length (joined pieces) = omega arith in
    rw (v, read_loop-arrivals pieces stop rest 0 io s, e) refl
