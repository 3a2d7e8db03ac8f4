-- ===== src/Server/Loop/Refine.antt =====
-- The main loop and the server's steps.
use hpserver.Prelude.{
  ℕ, zero, suc, ◌≡◌, refl, sym, ap, subst, arith, ◌==◌, Option, none, some, List, [], ◌∷◌, ◌++◌,
  Bool-cases, Option-cases, inl, inr, Bytes, ℤ, Ensures,
}
use hpserver.Os.{eintr}
use hpserver.Http.Llhttp.{Llhttp}
use hpserver.Http.RequestParser.{Event}
use hpserver.Net.IpFilter.{IpFilter, is_blocked}
use hpserver.Server.{Hpserver, Job}
use hpserver.Server.Clients.{
  client_event, drain_proxy_done_events, tick_timer, next_timeout, finish_job, Served, served_step,
  accept_step, client_step, drain_step, tick_step, wait_step, job_step,
}
use hpserver.Server.Accept.{
  Arrival, client, refused, is_set_up, Accepted, accept_one, accept_clients,
}
use hpserver.Server.Accept.Admission.{accept_turn-IsTurn}
use hpserver.Server.Loop.{
  Ready, Finished, Waited, wait_fails, wait_returns, Turn, turns, finishes, task_at, Listening,
  with_server, handle_event, handle_events, after_wait, waited, finished, take_turn, run_turns,
}

module _ (lib : Llhttp Event) where
  accept_clients-Served :
      (f : IpFilter) (now : ℕ) (arrivals : List Arrival) (a a' : Accepted lib)
      → accept_clients lib f now arrivals a ≡ some a'
      → Served lib a.server
      → Served lib a'.server
  unfolding accept_clients
  accept_clients-Served f now [] a a' h r = absurd (ground (arith, h))
  accept_clients-Served f now (client c ∷ more) a a' h r =
      elim (Option-cases (accept_one lib f now c a)) [
        | inl e ↦ absurd (ground (arith, h, e))
        | inr (m, e) ↦
            let (server, closed) = accept_turn-IsTurn lib (is_blocked f c.ip) now c a m e in
            accept_clients-Served f now more m a' (rw (e, accept_clients) at h) (
              subst (Served lib) (sym server) (
                served_step a.server _ r
                  (accept_step now c.fd (is_blocked f c.ip) (is_set_up c) a.server)))
      ]
  accept_clients-Served f now (refused e ∷ more) a a' h r = elim (Bool-cases (e == eintr)) [
    | inl b ↦ accept_clients-Served f now more a a' (rw (b, accept_clients) at h) r
    | inr b ↦
        let same : a ≡ a' = ground (arith, rw (b, accept_clients) at h) in
        subst (λ x. Served lib x.server) same r
  ]

  module _ (strerror : ℕ → Bytes) (l : Listening) where
    with_server-Served :
        (o : Option (Hpserver lib)) (a a' : Accepted lib)
        → ((s : Hpserver lib) → o ≡ some s → Served lib s)
        → with_server lib strerror l o a ≡ some a'
        → Served lib a'.server
    with_server-Served none a a' k h = absurd (ground (arith, h))
    with_server-Served (some s) a a' k h =
        let same : record a { server = s } ≡ a' = ground (arith, h) in
        subst (λ x. Served lib x.server) same (k s refl)

    handle_event-Served :
        (e : Ready) (a a' : Accepted lib)
        → handle_event lib strerror l e a ≡ some a'
        → Served lib a.server
        → Served lib a'.server
    unfolding handle_event
    handle_event-Served e a a' h r = elim (Bool-cases (e.fd == l.server_fd)) [
      | inl b ↦
          accept_clients-Served l.ip_filter e.now e.arrivals a a' (rw (b, handle_event) at h) r
      | inr b ↦ elim (Bool-cases (e.fd == l.proxy_event_fd)) [
        | inl d ↦
            with_server-Served (drain_proxy_done_events lib strerror e.runs e.now a.server) a a'
              (λ s q. served_step a.server s r (drain_step strerror e.runs e.now a.server s q))
              (rw (b, handle_event, d) at h)
        | inr d ↦
            with_server-Served
              (client_event lib e.events e.run e.recvs e.accepted e.now e.fd a.server) a a'
              (λ s q.
                served_step a.server s r
                  (client_step e.events e.run e.recvs e.accepted e.now e.fd a.server s q))
              (rw (b, handle_event, d) at h)
      ]
    ]

    pub handle_events-Served :
        (es : List Ready) (a a' : Accepted lib)
        → handle_events lib strerror l es a ≡ some a'
        → Served lib a.server
        → Served lib a'.server
    unfolding handle_events
    handle_events-Served [] a a' h r =
        let same : a ≡ a' = ground (arith, h) in subst (λ x. Served lib x.server) same r
    handle_events-Served (e ∷ es) a a' h r = elim (Option-cases (handle_event lib strerror l e a)) [
      | inl n ↦ absurd (ground (arith, h, n))
      | inr (m, n) ↦
          handle_events-Served es m a' (rw (n, handle_events) at h) (handle_event-Served e a m n r)
    ]

    after_wait-Served :
        (w : Waited) (a a' : Accepted lib)
        → after_wait lib strerror l w a ≡ some a'
        → Served lib a.server
        → Served lib a'.server
    unfolding after_wait
    after_wait-Served wait_fails a a' h r =
        let same : a ≡ a' = ground (arith, h) in subst (λ x. Served lib x.server) same r
    after_wait-Served (wait_returns es clock) a a' h r =
        elim (Option-cases (handle_events lib strerror l es a)) [
          | inl n ↦ absurd (ground (arith, h, n))
          | inr (m, n) ↦
              let k = handle_events-Served es a m n r in
              with_server-Served (tick_timer lib clock m.server) m a'
                (λ s q. served_step m.server s k (tick_step clock m.server s q))
                (rw (n, after_wait) at h)
        ]

    waited-Served :
        (w : Waited) (o : Option (Hpserver lib × ℤ)) (a a' : Accepted lib)
        → ((s : Hpserver lib) (ms : ℤ) → o ≡ some (s, ms) → Served lib s)
        → waited lib strerror l w o a ≡ some a'
        → Served lib a'.server
    waited-Served w none a a' k h = absurd (ground (arith, h))
    waited-Served w (some (s, ms)) a a' k h =
        after_wait-Served w (record a { server = s }) a' h (k s ms refl)

    -- What a task's place is good for.
    IsSplit : List Job → List Job × Job × List Job → Type 0
    IsSplit jobs (before, job, after) = jobs ≡ before ++ (job ∷ after)

    task_at-IsSplit : (i : ℕ) (jobs : List Job) → Ensures (IsSplit jobs) (task_at i jobs)
    unfolding IsSplit
    task_at-IsSplit i [] = tt
    task_at-IsSplit zero (j ∷ jobs) = refl
    task_at-IsSplit (suc i) (j ∷ jobs) =
        let rest = task_at-IsSplit i jobs in
        elim (Option-cases (task_at i jobs)) [
          | inl n ↦ rw (n, task_at) tt
          | inr (found, n) ↦
              rw (n, task_at) (ap (λ js. j ∷ js) (subst (Ensures (IsSplit jobs)) n rest))
        ]

    finished-Served :
        (f : Finished) (o : Option (List Job × Job × List Job)) (a a' : Accepted lib)
        → Ensures (IsSplit a.server.jobs) o
        → finished lib strerror l f o a ≡ some a'
        → Served lib a.server
        → Served lib a'.server
    unfolding IsSplit
    finished-Served f none a a' q h r = absurd (ground (arith, h))
    finished-Served f (some (before, job, after)) a a' q h r =
        let s = finish_job lib before job after f.ok f.err f.response a.server in
        let same : record a { server = s } ≡ a' = ground (arith, h) in
        subst (λ x. Served lib x.server) same
          (served_step a.server s r (job_step before job after f.ok f.err f.response a.server q))

    take_turn-Served :
        (t : Turn) (a a' : Accepted lib)
        → take_turn lib strerror l t a ≡ some a'
        → Served lib a.server
        → Served lib a'.server
    take_turn-Served (turns clock now w) a a' h r =
        waited-Served w (next_timeout lib clock now a.server) a a'
          (λ s ms q. served_step a.server s r (wait_step clock now a.server s ms q)) h
    take_turn-Served (finishes f) a a' h r =
        finished-Served f (task_at f.place a.server.jobs) a a'
          (task_at-IsSplit f.place a.server.jobs) h r

    pub run_turns-Served :
        (ts : List Turn) (a a' : Accepted lib)
        → run_turns lib strerror l ts a ≡ some a'
        → Served lib a.server
        → Served lib a'.server
    unfolding run_turns
    run_turns-Served [] a a' h r =
        let same : a ≡ a' = ground (arith, h) in subst (λ x. Served lib x.server) same r
    run_turns-Served (t ∷ ts) a a' h r = elim (Option-cases (take_turn lib strerror l t a)) [
      | inl n ↦ absurd (ground (arith, h, n))
      | inr (m, n) ↦ run_turns-Served ts m a' (rw (n, run_turns) at h) (take_turn-Served t a m n r)
    ]
