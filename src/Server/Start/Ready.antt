-- ===== src/Server/Start/Ready.antt =====
-- What the start has when it gets to the main loop.
use hpserver.Prelude.{
  ℕ, ◌≡◌, ◌∙◌, refl, sym, subst, Bool, true, false, not, Option, none, some, if◌then◌else◌,
  Bool-cases, Option-cases, inl, inr,
}
use hpserver.Os.{Result}
use hpserver.Net.Socket.{fd_of, bind, listen}
use hpserver.Net.Poller as P
use hpserver.Server.Start.{
  Calls, Startup, init, set_nonblocking, store_flags, is_zero, edge_events, watch_events,
  init_proxy_async, listen_start,
}

-- A test that did not end the start.
goes_on :
    (b : Bool) (s : Startup) (r : Bool × Startup)
    → (if b then (false, s) else r).0 ≡ true
    → (b ≡ false) × ((if b then (false, s) else r) ≡ r) × (r.0 ≡ true)
goes_on true s r h = absurd (cc h)
goes_on false s r h = (refl, refl, h)

IsSome : {A : Type 0} → Option A → Type 0
IsSome {A} o = (x : A) × (o ≡ some x)

watch_events-IsSome :
    (k : Calls) (fd : Option ℕ) (s : Startup)
    → (watch_events k fd s).0 ≡ true
    → IsSome (watch_events k fd s).1.proxy_event_fd
      × ((watch_events k fd s).1.server_socket ≡ s.server_socket)
      × ((watch_events k fd s).1.poller ≡ s.poller)
unfolding IsSome
watch_events-IsSome k none s h = absurd (cc h)
watch_events-IsSome k (some fd) s h =
    elim (Bool-cases (is_zero (P.add k.epoll_ctl (some fd) edge_events s.poller).0)) [
      | inl b ↦ rw b ((fd, refl), refl, refl)
      | inr b ↦ absurd (cc (rw b at h))
    ]

add-IsSome :
    (ctl : P.Ctl) (fd : Option ℕ) (events : ℕ) (p : P.Poller)
    → is_zero (P.add ctl fd events p).0 ≡ true
    → IsSome p.epoll_fd
unfolding IsSome
add-IsSome ctl fd events p h = elim (Option-cases p.epoll_fd) [
  | inl n ↦ absurd (cc (rw (n, P.add, P.control) at h))
  | inr (e, n) ↦ (e, n)
]

set_nonblocking-IsSome :
    (k : Calls) (e : ℕ) (fd : Option ℕ)
    → k.get_flags none ≡ Result.failed e
    → set_nonblocking k fd ≡ true
    → IsSome fd
unfolding IsSome
set_nonblocking-IsSome k e none fails h =
    absurd (cc (rw (fails, set_nonblocking, store_flags) at h))
set_nonblocking-IsSome k e (some fd) fails h = (fd, refl)

of_not-false : (b : Bool) → not b ≡ false → b ≡ true
of_not-false true h = refl
of_not-false false h = absurd (cc h)

-- Where `fcntl` fails on -1, a start that gets to the main loop has a listening socket, an epoll instance
-- and an eventfd.
listen_start-IsSome :
    (k : Calls) (s : Startup) (e : ℕ)
    → k.get_flags none ≡ Result.failed e
    → (listen_start k s).0 ≡ true
    → IsSome (listen_start k s).1.server_socket.fd
      × IsSome (listen_start k s).1.poller.epoll_fd
      × IsSome (listen_start k s).1.proxy_event_fd
listen_start-IsSome k s e fails h =
    let s1 = init k s in
    let fd = s1.server_socket.fd in
    let r5 = init_proxy_async k s1 in
    let watched = is_zero (P.add k.epoll_ctl fd edge_events s1.poller).0 in
    let listens = is_zero (listen k.listen s1.server_socket).0 in
    let bound = is_zero (bind k.bind s1.server_socket).0 in
    let r4 = if not watched then (false, s1) else r5 in
    let r3 = if not listens then (false, s1) else r4 in
    let r2 = if not bound then (false, s1) else r3 in
    let r1 = if not (set_nonblocking k fd) then (false, s1) else r2 in
    let (b0, q0, h1) = goes_on (not k.open_cache) s1 r1 h in
    let (b1, q1, h2) = goes_on (not (set_nonblocking k fd)) s1 r2 h1 in
    let (b2, q2, h3) = goes_on (not bound) s1 r3 h2 in
    let (b3, q3, h4) = goes_on (not listens) s1 r4 h3 in
    let (b4, q4, h5) = goes_on (not watched) s1 r5 h4 in
    let (event, socket, poller) = watch_events-IsSome k (fd_of k.eventfd) s1 h5 in
    subst
      (λ x. IsSome x.1.server_socket.fd × IsSome x.1.poller.epoll_fd × IsSome x.1.proxy_event_fd)
      (sym (q0 ∙ q1 ∙ q2 ∙ q3 ∙ q4))
      (
        subst (λ x. IsSome x.fd) (sym socket)
            (set_nonblocking-IsSome k e fd fails (of_not-false (set_nonblocking k fd) b1)),
        subst (λ x. IsSome x.epoll_fd) (sym poller)
            (add-IsSome k.epoll_ctl fd edge_events s1.poller (of_not-false watched b4)),
        event,
      )
