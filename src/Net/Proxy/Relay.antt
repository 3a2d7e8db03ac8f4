-- ===== src/Net/Proxy/Relay.antt =====
-- The tunnel passes on every byte, in its order.
use hpserver.Prelude.{
  ℕ, zero, suc, ◌+◌, ◌≤◌, ◌≡◌, ◌∙◌, refl, sym, ap, subst, arith, Bool, true, false, ◌||◌, ◌==◌, ltb,
  List, [], ◌∷◌, ◌++◌, if◌then◌else◌, Bytes, length, length-append, length-drop, take, drop,
  drop-length, drop-append, append-take-drop, Bool-cases, inl, inr, ◌⊎◌,
}
use mathlib.Core.List.{append_assoc, append-nil}
use hpserver.Os.{Recv, Send, taken, eintr}
use hpserver.Http.Builder.{is_empty}
use hpserver.Net.Proxy.{flush_nonblocking, append_nonblocking_read, Flushed}
use hpserver.Net.Proxy.Tunnel.{
  Tunnel, fresh, Poll, Round, Next, running, returned, flush_upstream, flush_client, pass_on_eof,
  is_drained, has_no_events, read_client, read_upstream, after_poll, after_flush, turn, relay,
}

abbrev Flushes : Bytes → Bytes → ℕ → Flushed → Type 0
Flushes out buf offset f =
    (f.out ++ drop f.offset f.buf ≡ out ++ drop offset buf) × (f.offset ≤ length f.buf)

whole :
    (out buf : Bytes) (offset : ℕ)
    → offset ≤ length buf
    → ltb offset (length buf) ≡ false
    → out ++ [] ≡ out ++ drop offset buf
whole out buf offset l e =
    let q : offset ≡ length buf = ground (arith, l, e) in
    ap (λ xs. out ++ xs) (sym (ap (λ n. drop n buf) q ∙ drop-length buf))

pub flush_nonblocking-Flushes :
    (outcomes : List Send) (errno : ℕ) (out buf : Bytes) (offset : ℕ)
    → offset ≤ length buf
    → Flushes out buf offset (flush_nonblocking outcomes errno out buf offset)
unfolding flush_nonblocking
flush_nonblocking-Flushes [] errno out buf offset l = elim (Bool-cases (ltb offset (length buf))) [
  | inl e ↦ rw e (refl, l)
  | inr e ↦ rw e (whole out buf offset l e, omega arith)
]
flush_nonblocking-Flushes (Send.room n ∷ outcomes) errno out buf offset l =
    let k = taken n (drop offset buf) in
    elim (Bool-cases (ltb offset (length buf))) [
      | inr e ↦ rw e (whole out buf offset l e, omega arith)
      | inl e ↦ elim (Bool-cases (k == 0)) [
        | inl z ↦ rw (e, z) (refl, l)
        | inr z ↦
            let r =
              flush_nonblocking-Flushes outcomes errno (out ++ take k (drop offset buf)) buf
                (offset + k) (omega (arith, l, length-drop offset buf)) in
            rw (e, z) (r.0 ∙ append-take-drop out buf offset k, r.1)
      ]
    ]
flush_nonblocking-Flushes (Send.refused er ∷ outcomes) errno out buf offset l =
    elim (Bool-cases (ltb offset (length buf))) [
      | inr e ↦ rw e (whole out buf offset l e, omega arith)
      | inl e ↦ elim (Bool-cases (er == eintr)) [
        | inl z ↦ rw (e, z) (flush_nonblocking-Flushes outcomes er out buf offset l)
        | inr z ↦ rw (e, z) (refl, l)
      ]
    ]

-- One direction: what has been read is what has been sent, and then what waits in the buffer.
abbrev pub Carries : Bytes → Bytes → Bytes → ℕ → Type 0
Carries read sent buf offset = (sent ++ drop offset buf ≡ read) × (offset ≤ length buf)

flush-Carries :
    (outcomes : List Send) (errno : ℕ) (read sent buf : Bytes) (offset : ℕ)
    → Carries read sent buf offset
    → let f = flush_nonblocking outcomes errno [] buf offset in
      Carries read (sent ++ f.out) f.buf f.offset
flush-Carries outcomes errno read sent buf offset c =
    let f = flush_nonblocking outcomes errno [] buf offset in
    let k = flush_nonblocking-Flushes outcomes errno [] buf offset c.1 in
    (append_assoc sent f.out (drop f.offset f.buf) ∙ ap (λ xs. sent ++ xs) k.0 ∙ c.0, k.1)

read-Carries :
    (new read sent buf : Bytes) (offset : ℕ)
    → Carries read sent buf offset
    → Carries (read ++ new) sent (buf ++ new) offset
read-Carries new read sent buf offset c = (
  ap (λ xs. sent ++ xs) (drop-append offset buf new c.1)
      ∙ sym (append_assoc sent (drop offset buf) new)
      ∙ ap (λ xs. xs ++ new) c.0,
  omega (arith, c.1, length-append buf new),
)

-- Both directions.
abbrev pub IsFaithful : Tunnel → Type 0
IsFaithful t =
    Carries t.from_client t.to_upstream t.c2u_buf t.c2u_offset
    × Carries t.from_upstream t.to_client t.u2c_buf t.u2c_offset

-- All that either end has sent has reached the other one, and so have both ends of stream.
abbrev pub IsComplete : Tunnel → Type 0
IsComplete t =
    (t.to_upstream ≡ t.from_client)
    × (t.to_client ≡ t.from_upstream)
    × (t.client_eof ≡ true)
    × (t.upstream_eof ≡ true)
    × (t.upstream_write_shutdown ≡ true)
    × (t.client_write_shutdown ≡ true)

abbrev pub Relayed : Next → Type 0
Relayed (running t) = IsFaithful t
Relayed (returned false t) = IsFaithful t
Relayed (returned true t) = IsComplete t

faithful-Relayed : (t : Tunnel) → IsFaithful t → Relayed (returned false t)
faithful-Relayed t f = f

empty_drop : (buf : Bytes) (offset : ℕ) → is_empty buf ≡ true → drop offset buf ≡ []
empty_drop [] zero e = refl
empty_drop [] (suc n) e = refl
empty_drop (c ∷ cs) n e = absurd (ground (arith, e))

Carries-empty :
    (read sent buf : Bytes) (offset : ℕ)
    → Carries read sent buf offset
    → is_empty buf ≡ true
    → sent ≡ read
Carries-empty read sent buf offset c e =
    sym (append-nil sent) ∙ ap (λ xs. sent ++ xs) (sym (empty_drop buf offset e)) ∙ c.0

flush_upstream-IsFaithful :
    (sends : List Send) (t : Tunnel) → IsFaithful t → IsFaithful (flush_upstream sends t).1
flush_upstream-IsFaithful sends t f =
    (flush-Carries sends t.errno t.from_client t.to_upstream t.c2u_buf t.c2u_offset f.0, f.1)

flush_client-IsFaithful :
    (sends : List Send) (t : Tunnel) → IsFaithful t → IsFaithful (flush_client sends t).1
flush_client-IsFaithful sends t f =
    (f.0, flush-Carries sends t.errno t.from_upstream t.to_client t.u2c_buf t.u2c_offset f.1)

read_client-IsFaithful :
    (readable : Bool) (recvs : List Recv) (t : Tunnel)
    → IsFaithful t
    → IsFaithful (read_client readable recvs t).1
read_client-IsFaithful true recvs t f = (
  read-Carries (append_nonblocking_read recvs t.errno [] t.client_eof).out t.from_client
      t.to_upstream t.c2u_buf t.c2u_offset f.0,
  f.1,
)
read_client-IsFaithful false recvs t f = f

read_upstream-IsFaithful :
    (readable : Bool) (recvs : List Recv) (t : Tunnel)
    → IsFaithful t
    → IsFaithful (read_upstream readable recvs t).1
read_upstream-IsFaithful true recvs t f = (
  f.0,
  read-Carries (append_nonblocking_read recvs t.errno [] t.upstream_eof).out t.from_upstream
      t.to_client t.u2c_buf t.u2c_offset f.1,
)
read_upstream-IsFaithful false recvs t f = f

after_poll-Relayed :
    (r : Round) (poll : Poll) (t : Tunnel) → IsFaithful t → Relayed (after_poll r poll t)
after_poll-Relayed r Poll.timed_out t f = f
after_poll-Relayed r (Poll.refused e) t f = elim (Bool-cases (e == eintr)) [
  | inl q ↦ rw q f
  | inr q ↦ rw q f
]
after_poll-Relayed r (Poll.ready client upstream) t f =
    let a = read_client client.readable r.client_recvs t in
    let b = read_upstream upstream.readable r.upstream_recvs a.1 in
    let fa : IsFaithful a.1 = read_client-IsFaithful client.readable r.client_recvs t f in
    let fb : IsFaithful b.1 = read_upstream-IsFaithful upstream.readable r.upstream_recvs a.1 fa in
    elim (Bool-cases (client.broken || upstream.broken)) [
      | inl q ↦ rw q f
      | inr q ↦ elim (Bool-cases a.0) [
        | inr o ↦ rw (q, o) fa
        | inl o ↦ elim (Bool-cases b.0) [ inr o' ↦ rw (q, o, o') fb | inl o' ↦ rw (q, o, o') fb ]
      ]
    ]

drained_IsComplete :
    (t : Tunnel) → IsFaithful t → is_drained (pass_on_eof t) ≡ true → IsComplete (pass_on_eof t)
drained_IsComplete t f d = (
  Carries-empty t.from_client t.to_upstream t.c2u_buf t.c2u_offset f.0 (ground (arith, d)),
  Carries-empty t.from_upstream t.to_client t.u2c_buf t.u2c_offset f.1 (ground (arith, d)),
  ground (arith, d),
  ground (arith, d),
  ground (arith, d),
  ground (arith, d),
)

after_flush-Relayed :
    (r : Round) (t : Tunnel) → IsFaithful t → Relayed (after_flush r (pass_on_eof t))
after_flush-Relayed r t f = elim (Bool-cases (is_drained (pass_on_eof t))) [
  | inl d ↦ rw d (drained_IsComplete t f d)
  | inr d ↦ elim (Bool-cases (has_no_events (pass_on_eof t))) [
    | inl n ↦ rw (d, n) f
    | inr n ↦ rw (d, n) (after_poll-Relayed r r.poll (pass_on_eof t) f)
  ]
]

turn-Relayed : (r : Round) (t : Tunnel) → IsFaithful t → Relayed (turn r t)
unfolding turn
turn-Relayed r t f =
    let a = flush_upstream r.upstream_sends t in
    let b = flush_client r.client_sends a.1 in
    let fa : IsFaithful a.1 = flush_upstream-IsFaithful r.upstream_sends t f in
    let fb : IsFaithful b.1 = flush_client-IsFaithful r.client_sends a.1 fa in
    elim (Bool-cases a.0) [
      | inr o ↦ rw o fa
      | inl o ↦ elim (Bool-cases b.0) [
        | inr o' ↦ rw (o, o') fb
        | inl o' ↦ rw (o, o') (after_flush-Relayed r b.1 fb)
      ]
    ]

Next-cases :
    (n : Next)
    → ((t : Tunnel) × (n ≡ running t)) ⊎ ((ok : Bool) × (t : Tunnel) × (n ≡ returned ok t))
Next-cases (running t) = inl (t, refl)
Next-cases (returned ok t) = inr (ok, t, refl)

relay-Relayed_from : (rounds : List Round) (t : Tunnel) → IsFaithful t → Relayed (relay rounds t)
unfolding relay
relay-Relayed_from [] t f = f
relay-Relayed_from (r ∷ rounds) t f =
    let k = turn-Relayed r t f in
    elim (Next-cases (turn r t)) [
      | inl (t', q) ↦ rw (q, relay) (relay-Relayed_from rounds t' (subst Relayed q k))
      | inr (ok, t', q) ↦ rw (q, relay) (subst Relayed q k)
    ]

-- Whatever the two sockets do, in any number of turns: what has been sent to either side, and then what
-- waits in the buffer for it, is what has been read from the other, in its order. When the loop returns
-- `true`, all that has been read has been sent, both ends of stream have been read, and both have been
-- passed on.
pub relay-Relayed : (rounds : List Round) (errno : ℕ) → Relayed (relay rounds (fresh errno))
relay-Relayed rounds errno =
    relay-Relayed_from rounds (fresh errno) ((refl, omega arith), (refl, omega arith))

-- The loop never goes round without a `poll`: behind the flushes, if there is nothing to return, one
-- of the descriptors has an event to wait for.
after_flush-polls :
    (r : Round) (t : Tunnel)
    → after_flush r t ≡ (if is_drained t then returned true t else after_poll r r.poll t)
after_flush-polls r t = elim (Bool-cases (is_drained t)) [
  | inl d ↦ rw d refl
  | inr d ↦ let e : has_no_events t ≡ false = ground (arith, d) in rw (d, e) refl
]
