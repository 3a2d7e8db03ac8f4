-- ===== src/Net/Proxy/Completion.antt =====
-- A tunnel between two sides that say all they have to say.
use hpserver.Prelude.{
  ℕ, ◌+◌, ◌≤◌, ◌≡◌, ◌∙◌, refl, sym, ap, arith, Bool, true, false, ◌==◌, ltb, List, [], ◌∷◌, ◌++◌,
  Bytes, length, take, min,
}
use mathlib.Core.List.{append_assoc, append-nil}
use hpserver.Os.{Recv, Send}
use hpserver.Http.ConnectionIo.Conserved.{arrivals, joined}
use hpserver.Net.Proxy.{flush_nonblocking, append_nonblocking_read}
use hpserver.Net.Proxy.Tunnel.{Tunnel, fresh, Poll, Round, running, returned, turn, relay}

append_nonblocking_read-arrivals :
    (cs : List (ℕ × Bytes)) (errno : ℕ) (out : Bytes) (eof : Bool)
    → append_nonblocking_read (arrivals cs ++ (Recv.ended ∷ [])) errno out eof
      ≡ record { ok = true; errno = errno; out = out ++ joined cs; eof = true }
unfolding append_nonblocking_read
append_nonblocking_read-arrivals [] errno out eof =
    λ i. record { ok = true; errno = errno; out = sym (append-nil out) i; eof = true }
append_nonblocking_read-arrivals ((c, s) ∷ cs) errno out eof =
    append_nonblocking_read-arrivals cs errno (out ++ (c ∷ s)) eof ∙ (λ i. record {
      ok = true;
      errno = errno;
      out = append_assoc out (c ∷ s) (joined cs) i;
      eof = true;
    })

take_all : (xs : Bytes) → take (length xs) xs ≡ xs
take_all [] = refl
take_all (x ∷ xs) = ap (λ ys. x ∷ ys) (take_all xs)

flush_nonblocking-room :
    (n errno : ℕ) (buf : Bytes)
    → length buf ≤ n
    → flush_nonblocking (Send.room n ∷ []) errno [] buf 0
      ≡ record { ok = true; errno = errno; out = buf; buf = []; offset = 0 }
unfolding flush_nonblocking
flush_nonblocking-room n errno [] l = refl
flush_nonblocking-room n errno (c ∷ cs) l =
    let len = length (c ∷ cs) in
    let m : min n len ≡ len = omega (arith, l) in
    let a : ltb 0 len ≡ true = ground arith in
    let b : len == 0 ≡ false = ground arith in
    let d : ltb (0 + len) len ≡ false = ground arith in rw (m, a, b, d, take_all (c ∷ cs)) refl

-- Both sides say `cs` and `us`, and end.
abbrev pub talk : List (ℕ × Bytes) → List (ℕ × Bytes) → Round
talk cs us = record {
  upstream_sends = [];
  client_sends = [];
  poll =
      Poll.ready (record { broken = false; readable = true })
        (record { broken = false; readable = true });
  client_recvs = arrivals cs ++ (Recv.ended ∷ []);
  upstream_recvs = arrivals us ++ (Recv.ended ∷ []);
}

-- Both sockets have room.
abbrev pub listen : ℕ → ℕ → Round
listen n m = record {
  upstream_sends = Send.room n ∷ [];
  client_sends = Send.room m ∷ [];
  poll = Poll.timed_out;
  client_recvs = [];
  upstream_recvs = [];
}

abbrev talked : ℕ → Bytes → Bytes → Tunnel
talked errno cs us = record (fresh errno) {
  c2u_buf = cs;
  u2c_buf = us;
  client_eof = true;
  upstream_eof = true;
  from_client = cs;
  from_upstream = us;
}

turn-talk :
    (errno : ℕ) (cs us : List (ℕ × Bytes))
    → turn (talk cs us) (fresh errno) ≡ running (talked errno (joined cs) (joined us))
unfolding turn flush_nonblocking
turn-talk errno cs us =
    rw
      (
        append_nonblocking_read-arrivals cs errno [] false,
        append_nonblocking_read-arrivals us errno [] false,
      )
      refl

abbrev over : ℕ → Bytes → Bytes → Tunnel
over errno cs us = record (talked errno cs us) {
  c2u_buf = [];
  u2c_buf = [];
  upstream_write_shutdown = true;
  client_write_shutdown = true;
  to_upstream = cs;
  to_client = us;
}

turn-listen :
    (n m errno : ℕ) (cs us : Bytes)
    → length cs ≤ n
    → length us ≤ m
    → (t : Tunnel) × (turn (listen n m) (talked errno cs us) ≡ returned true t)
      × (t.to_upstream ≡ cs)
      × (t.to_client ≡ us)
unfolding turn
turn-listen n m errno cs us l k =
    rw (flush_nonblocking-room n errno cs l, flush_nonblocking-room m errno us k)
      (over errno cs us, refl, refl, refl)

-- Both sides say something in any pieces and end, and then both sockets have room for what the other
-- side has said: the tunnel returns `true` in its second turn, and each side has been sent just what
-- the other one has said.
pub relay-returns :
    (cs us : List (ℕ × Bytes)) (n m errno : ℕ)
    → length (joined cs) ≤ n
    → length (joined us) ≤ m
    → (t : Tunnel) × (relay (talk cs us ∷ listen n m ∷ []) (fresh errno) ≡ returned true t)
      × (t.to_upstream ≡ joined cs)
      × (t.to_client ≡ joined us)
unfolding relay
relay-returns cs us n m errno l k =
    let (t, e, a, b) = turn-listen n m errno (joined cs) (joined us) l k in
    (t, rw (turn-talk errno cs us, relay, e) refl, a, b)
