-- ===== src/Server/Clean.antt =====
-- A descriptor without a connection has nothing left over, and a client has a timer.
use hpserver.Prelude.{
  true, false, Bool-cases, ℕ, ◌≡◌, ◌∙◌, refl, sym, ap, subst, arith, Bool, ltb, ℤ, none, some, List,
  [], ◌∷◌, Option-cases, inl, ◌⊎◌, ◌==◌, inr, Ensures,
}
use hpserver.Http.Llhttp.{Llhttp}
use hpserver.Http.RequestParser.{Event}
use hpserver.Http.HttpConn.{HttpConn, http_conn}
use hpserver.Util.Timer.{
  Node, Entry, Timer, find, erase, tick, get_next_timeout_ms, discard_stale_top,
}
use hpserver.Util.Timer.Entries.{find-erase}
use hpserver.Util.Timer.Live.{discard_stale_top-IsValid, skip-IsValid, pop-IsValid}
use hpserver.Util.Timer.Keep.{tick-Q}
use hpserver.Server.{Hpserver, init, max_fd, client_at, on_timeout, accept_client, put_conn}
use hpserver.Server.Clients.{
  call_timeout, tick_timer, ServerStep, accept_step, client_step, drain_step, tick_step, wait_step,
  next_timeout, job_step, Served, served_start, served_step,
}
use hpserver.Server.Idle.{
  IsClean, put_conn-IsClean, close_client-IsClean, refresh_client_timeout-IsClean,
}
use hpserver.Server.Handlers.{IsSound, LeavesSound, drain_events-IsSound}
use hpserver.Server.Handlers.Input.{client_event-IsSound}
use hpserver.Server.Timed.{IsTimed, HasTimer, close_client-others, accepted-IsTimed}

module _ (lib : Llhttp Event) where
  -- With the timer and the rest of the server apart.
  TimerSound : Timer ℕ → Hpserver lib → Type 0
  TimerSound t s = IsSound lib (record s { connection_timer = t })

  discard_stale_top-TimerSound :
      (t : Timer ℕ) (s : Hpserver lib) → TimerSound t s → TimerSound (discard_stale_top t) s
  unfolding TimerSound discard_stale_top
  discard_stale_top-TimerSound t s ((v, i), u) = ((discard_stale_top-IsValid t v, i), u)

  skip-TimerSound :
      (n : Node) (h : List Node) (entries : List (ℕ × Entry ℕ)) (s : Hpserver lib)
      → find n.id entries ≡ none
      → TimerSound (record { heap = n ∷ h; entries = entries }) s
      → TimerSound (record { heap = h; entries = entries }) s
  unfolding TimerSound
  skip-TimerSound n h entries s f ((v, i), u) = ((skip-IsValid n h entries f v, i), u)

  -- The client of an entry that is taken out: the callback is for its descriptor.
  owner :
      (fd : ℕ) (e : Entry ℕ) (s : Hpserver lib)
      → find fd s.connection_timer.entries ≡ some e
      → IsSound lib s
      → (c : HttpConn lib) × (s.connections fd ≡ some c)
        × (e.callback ≡ fd)
        × (ltb fd max_fd ≡ true)
  owner fd e s f ((v, i), u) = elim (Option-cases (s.connections fd)) [
    | inl n ↦ absurd (cc ((i fd n).2, f))
    | inr (c, n) ↦ elim (u fd) [
      | inl m ↦ absurd (cc (m, n))
      | inr (e', f', d, l) ↦
          let same : e' ≡ e = ground (arith, f, f') in
          (c, n, ap (λ x. x.callback) (sym same) ∙ d, l)
    ]
  ]

  pop-TimerSound :
      (n : Node) (h : List Node) (entries : List (ℕ × Entry ℕ)) (e : Entry ℕ) (s : Hpserver lib)
      → find n.id entries ≡ some e
      → TimerSound (record { heap = n ∷ h; entries = entries }) s
      → let r =
          call_timeout lib e.callback (record { heap = h; entries = erase n.id entries }, s) in
        TimerSound r.0 r.1
  unfolding TimerSound on_timeout
  pop-TimerSound n h entries e s f w =
      let before : Hpserver lib = record s {
        connection_timer = record { heap = n ∷ h; entries = entries };
      } in
      let s1 : Hpserver lib = record s {
        connection_timer = record { heap = h; entries = erase n.id entries };
      } in
      let (c, found, same, l) = owner n.id e before f w in
      let ((v, i), u) = w in
      let w1 : IsClean lib s1 = (
        pop-IsValid n h entries v,
        (λ k q. let j = i k q in (j.0, j.1, find-erase n.id k entries v.1 ∙ ground (arith, j.2))),
      ) in
      let others : (k : ℕ) → n.id == k ≡ false → (s.connections k ≡ none) ⊎ HasTimer lib k s1 =
        λ k q. elim (u k) [
          | inl m ↦ inl m
          | inr (g, b, d, m) ↦ inr (g, find-erase n.id k entries v.1 ∙ rw q b, d, m)
        ] in
      let at : client_at lib n.id s1 ≡ some c = rw (l, client_at) found in
      subst (λ x. IsSound lib (on_timeout lib x s1)) (sym same)
        (rw (at, on_timeout)
          (close_client-IsClean lib n.id s1 w1, close_client-others lib n.id s1 l w1 others))

  tick_timer-IsSound :
      (clock : ℕ → ℕ) (s : Hpserver lib) → IsSound lib s → LeavesSound lib (tick_timer lib clock s)
  unfolding TimerSound
  tick_timer-IsSound clock s w =
      let k =
        tick-Q (call_timeout lib) clock TimerSound
          (discard_stale_top-TimerSound, skip-TimerSound, pop-TimerSound) s.connection_timer s w in
      elim (Option-cases (tick (call_timeout lib) clock s.connection_timer s)) [
        | inl n ↦ rw (n, tick_timer) tt
        | inr (r, n) ↦
            rw (n, tick_timer)
              (subst (Ensures (λ (r : Timer ℕ × Hpserver lib). TimerSound r.0 r.1)) n k)
      ]

  next_timeout-IsSound :
      (clock : ℕ → ℕ) (now : ℕ) (s : Hpserver lib)
      → IsSound lib s
      → Ensures (λ (r : Hpserver lib × ℤ). IsSound lib r.0) (next_timeout lib clock now s)
  unfolding TimerSound
  next_timeout-IsSound clock now s w =
      let k =
        tick-Q (call_timeout lib) clock TimerSound
          (discard_stale_top-TimerSound, skip-TimerSound, pop-TimerSound) s.connection_timer s w in
      elim (Option-cases (tick (call_timeout lib) clock s.connection_timer s)) [
        | inl n ↦ rw (n, next_timeout, get_next_timeout_ms) tt
        | inr (r, n) ↦
            rw (n, next_timeout, get_next_timeout_ms)
              (discard_stale_top-TimerSound r.0 r.1
                (subst (Ensures (λ (r : Timer ℕ × Hpserver lib). TimerSound r.0 r.1)) n k))
      ]

  accept_client-IsSound :
      (now fd : ℕ) (blocked is_set_up : Bool) (s : Hpserver lib)
      → IsSound lib s
      → IsSound lib (accept_client lib now fd blocked is_set_up s)
  accept_client-IsSound now fd true is_set_up s w = w
  accept_client-IsSound now fd false false s w = w
  accept_client-IsSound now fd false true s (w, t) = elim (Bool-cases (ltb fd max_fd)) [
    | inr l ↦ rw (l, accept_client) (w, t)
    | inl l ↦
        let c = http_conn lib (some fd) in
        rw (l, accept_client)
          (
            refresh_client_timeout-IsClean lib now fd (put_conn lib fd c s)
                (put_conn-IsClean lib fd c s w),
            accepted-IsTimed lib now fd c s l w t,
          )
  ]

  ServerStep-IsSound : (s s' : Hpserver lib) → ServerStep lib s s' → IsSound lib s → IsSound lib s'
  ServerStep-IsSound _ _ (accept_step now fd blocked is_set_up s) w =
      accept_client-IsSound now fd blocked is_set_up s w
  ServerStep-IsSound _ _ (client_step ev run recvs accepted now fd s s' e) w =
      subst (LeavesSound lib) e (client_event-IsSound lib ev run recvs accepted now fd s w)
  ServerStep-IsSound _ _ (drain_step strerror runs now s s' e) w = subst (LeavesSound lib) e (
      drain_events-IsSound lib strerror runs now 0 s.proxy_done_queue
        (record s { proxy_done_queue = [] }) w)
  ServerStep-IsSound _ _ (tick_step clock s s' e) w =
      subst (LeavesSound lib) e (tick_timer-IsSound clock s w)
  ServerStep-IsSound _ _ (wait_step clock now s s' ms e) w =
      subst (Ensures (λ (r : Hpserver lib × ℤ). IsSound lib r.0)) e
        (next_timeout-IsSound clock now s w)
  ServerStep-IsSound _ _ (job_step before job after ok err response s e) w = w

  init-IsSound : IsSound lib (init lib)
  unfolding find
  init-IsSound = (
    ((tt, tt, (λ id e f. absurd (ground (arith, f)))), (λ fd e. (refl, refl, refl))),
    (λ fd. inl refl),
  )

  Served-IsSound : (s : Hpserver lib) → Served lib s → IsSound lib s
  Served-IsSound _ served_start = init-IsSound
  Served-IsSound _ (served_step s s' r t) = ServerStep-IsSound s s' t (Served-IsSound s r)

  -- In every state that the server comes to, by whatever events and outcomes of system calls, the timer
  -- is well formed, and a descriptor without a connection has no request in flight, no flag that closes
  -- it after a flush, and no timer: a new client of that descriptor starts with none of them.
  pub Served-IsClean : (s : Hpserver lib) → Served lib s → IsClean lib s
  Served-IsClean s r = (Served-IsSound s r).0

  -- In every state that the server comes to, by whatever events and outcomes of system calls, each
  -- descriptor has no connection, or it lies in the table and has a timer whose callback is for
  -- that descriptor: no client stays without one.
  pub Served-IsTimed : (s : Hpserver lib) → Served lib s → IsTimed lib s
  Served-IsTimed s r = (Served-IsSound s r).1
