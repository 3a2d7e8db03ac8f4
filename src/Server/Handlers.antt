-- ===== src/Server/Handlers.antt =====
-- What the handlers of an event leave.
pub mod Input
use hpserver.Prelude.{
  ℕ, ◌+◌, ◌≡◌, subst, refl, arith, Bool, true, false, not, ◌&&◌, ◌||◌, ◌==◌, ==_iff, ltb, Option,
  none, some, List, [], ◌∷◌, if◌then◌else◌, Bool-cases, Option-cases, inl, inr, Bytes, Ensures,
}
use hpserver.Os.{Recv, Result}
use hpserver.Http.Llhttp.{Llhttp}
use hpserver.Http.RequestParser.{Event, is_message_complete}
use hpserver.Http.ConnectionIo.{HttpConnectionIo, queue_write, read_from_socket}
use hpserver.Http.HttpConn.{HttpConn, parse_available_data, reset_for_next_message}
use hpserver.Http.Builder.{build_service_unavailable_response}
use hpserver.Server.{
  max_fd, is_expected_connect_shutdown_errno, Hpserver, ProxyDoneEvent, Job, FlushRun, set_at,
  client_at, close_client, refresh_client_timeout, put_conn, submit_proxy_job, parse_client,
  after_read, handle_conn, handle_client, flush_conn, flush_found, flush_client_output,
}
use hpserver.Server.Clients.{
  has_pending_at, ClientEvents, settle, respond, drain_event, drain_events, flush_ready, read_ready,
  read_if, flush_if, refresh_if, client_event,
}
use hpserver.Server.Idle.{
  IsClean, other, client_at-some, put_conn-IsClean, close_client-IsClean,
  refresh_client_timeout-IsClean,
}
use hpserver.Server.Timed.{
  IsTimed, put_conn-IsTimed, close_client-IsTimed, refresh_client_timeout-IsTimed,
}

module _ (lib : Llhttp Event) where
  -- Nothing is left over without a client, and every client has a timer.
  abbrev pub IsSound : Hpserver lib → Type 0
  IsSound s = IsClean lib s × IsTimed lib s

  abbrev Leaves : Option (Bool × Hpserver lib) → Type 0
  Leaves = Ensures (λ (r : Bool × Hpserver lib). IsSound r.1)

  abbrev pub LeavesSound : Option (Hpserver lib) → Type 0
  LeavesSound = Ensures IsSound

  either : {A : Type 0} (P : A → Type 0) (b : Bool) (x y : A) → P x → P y → P (if b then x else y)
  either P true x y p q = p
  either P false x y p q = q

  flag-IsClean :
      (fd : ℕ) (s : Hpserver lib)
      → has_pending_at lib fd s ≡ true
      → IsClean lib s
      → IsClean lib (record s { close_after_flush = set_at fd true s.close_after_flush })
  unfolding set_at
  flag-IsClean fd s h (v, i) = elim (Option-cases (client_at lib fd s)) [
    | inl n ↦ absurd (ground (arith, rw (has_pending_at, n) at h))
    | inr (c, e) ↦ (
      v,
      (λ k n.
          let j = i k n in
          let q : k == fd ≡ false = ground (
            arith,
            ==_iff k fd,
            ==_iff fd k,
            other lib fd k s c (client_at-some lib fd s c e).1 n,
          ) in
          (j.0, rw q j.1, j.2)),
    )
  ]

  unflag-IsClean :
      (fd : ℕ) (s : Hpserver lib)
      → IsClean lib s
      → IsClean lib (record s { proxy_inflight = set_at fd false s.proxy_inflight })
  unfolding set_at
  unflag-IsClean fd s (v, i) = (v, (λ k n. let j = i k n in (ground (arith, j.0), j.1, j.2)))

  inflight-IsClean :
      (fd : ℕ) (c : HttpConn lib) (s : Hpserver lib)
      → IsClean lib s
      → IsClean lib
          (record (put_conn lib fd c s) { proxy_inflight = set_at fd true s.proxy_inflight })
  unfolding set_at
  inflight-IsClean fd c s (v, i) = (
    v,
    (λ k e. elim (Bool-cases (k == fd)) [
      | inl q ↦ absurd (ground (arith, rw q at e))
      | inr q ↦ let j = i k (rw q at e) in (rw q j.0, j.1, j.2)
    ]),
  )

  put_conn-IsSound :
      (fd : ℕ) (c c' : HttpConn lib) (s : Hpserver lib)
      → client_at lib fd s ≡ some c
      → IsSound s
      → IsSound (put_conn lib fd c' s)
  put_conn-IsSound fd c c' s e (w, t) = (
    put_conn-IsClean lib fd c' s w,
    put_conn-IsTimed lib fd c c' s (client_at-some lib fd s c e).1 t,
  )

  pub close_client-IsSound :
      (fd : ℕ) (s : Hpserver lib) → IsSound s → IsSound (close_client lib fd s)
  close_client-IsSound fd s (w, t) =
      (close_client-IsClean lib fd s w, close_client-IsTimed lib fd s w t)

  refresh_client_timeout-IsSound :
      (now fd : ℕ) (s : Hpserver lib) → IsSound s → IsSound (refresh_client_timeout lib now fd s)
  refresh_client_timeout-IsSound now fd s (w, t) =
      (refresh_client_timeout-IsClean lib now fd s w, refresh_client_timeout-IsTimed lib now fd s t)

  flush_client_output-IsSound :
      (run : FlushRun) (fd : ℕ) (s : Hpserver lib)
      → IsSound s
      → Leaves (flush_client_output lib run fd s)
  flush_client_output-IsSound run fd s w = elim (Option-cases (client_at lib fd s)) [
    | inl n ↦ rw (n, flush_client_output) w
    | inr (c, e) ↦ elim (Option-cases (flush_conn run.sends run.modified c.io)) [
      | inl n ↦ rw (e, flush_client_output, flush_found, n) tt
      | inr (r, n) ↦
          rw (e, flush_client_output, flush_found, n)
            (put_conn-IsSound fd c (record c { io = r.1 }) s e w)
    ]
  ]

  settle-IsSound :
      (b : Bool) (now fd : ℕ) (s : Hpserver lib) → IsSound s → IsSound (settle lib b now fd s)
  settle-IsSound false now fd s w = refresh_client_timeout-IsSound now fd s w
  settle-IsSound true now fd s w = elim (Bool-cases (has_pending_at lib fd s)) [
    | inl h ↦ rw h (flag-IsClean fd s h w.0, w.1)
    | inr h ↦ rw h (close_client-IsSound fd s w)
  ]

  respond-IsSound :
      (run : FlushRun) (b : Bool) (now : ℕ) (bytes : Bytes) (fd : ℕ) (c : HttpConn lib)
      (s : Hpserver lib)
      → client_at lib fd s ≡ some c
      → IsSound s
      → LeavesSound (respond lib run b now bytes fd c s)
  respond-IsSound run b now bytes fd c s e w =
      let s' = put_conn lib fd (record c { io = queue_write bytes c.io }) s in
      let k =
        flush_client_output-IsSound run fd s'
          (put_conn-IsSound fd c (record c { io = queue_write bytes c.io }) s e w) in
      elim (Option-cases (flush_client_output lib run fd s')) [
        | inl n ↦ rw (n, respond) tt
        | inr (r, n) ↦
            let x : IsSound r.1 = subst Leaves n k in
            rw (n, respond)
              (either IsSound r.0 (settle lib b now fd r.1) (close_client lib fd r.1)
                (settle-IsSound b now fd r.1 x) (close_client-IsSound fd r.1 x))
      ]

  drain_event-IsSound :
      (strerror : ℕ → Bytes) (run : FlushRun) (now : ℕ) (e : ProxyDoneEvent) (s : Hpserver lib)
      → IsSound s
      → LeavesSound (drain_event lib strerror run now e s)
  drain_event-IsSound strerror run now e s w = elim (Option-cases (client_at lib e.client_fd s)) [
    | inl n ↦ rw (n, drain_event) w
    | inr (c, q) ↦
        let s' = record s { proxy_inflight = set_at e.client_fd false s.proxy_inflight } in
        let w' : IsSound s' = (unflag-IsClean e.client_fd s w.0, w.1) in
        let failure = build_service_unavailable_response (strerror e.err) in
        rw (q, drain_event)
          (either LeavesSound e.ok
            (respond lib run e.close_after_done now e.response e.client_fd c s')
            (if e.is_connect && is_expected_connect_shutdown_errno e.err
              then some (close_client lib e.client_fd s')
              else respond lib run true now failure e.client_fd c s')
            (respond-IsSound run e.close_after_done now e.response e.client_fd c s' q w')
            (either LeavesSound (e.is_connect && is_expected_connect_shutdown_errno e.err)
              (some (close_client lib e.client_fd s'))
              (respond lib run true now failure e.client_fd c s')
              (close_client-IsSound e.client_fd s' w')
              (respond-IsSound run true now failure e.client_fd c s' q w')))
  ]

  pub drain_events-IsSound :
      (strerror : ℕ → Bytes) (runs : ℕ → FlushRun) (now i : ℕ) (events : List ProxyDoneEvent)
      (s : Hpserver lib)
      → IsSound s
      → LeavesSound (drain_events lib strerror runs now i events s)
  unfolding drain_events
  drain_events-IsSound strerror runs now i [] s w = w
  drain_events-IsSound strerror runs now i (e ∷ events) s w =
      let k = drain_event-IsSound strerror (runs i) now e s w in
      elim (Option-cases (drain_event lib strerror (runs i) now e s)) [
        | inl n ↦ rw (n, drain_events) tt
        | inr (s', n) ↦
            rw (n, drain_events)
              (drain_events-IsSound strerror runs now (i + 1) events s' (subst LeavesSound n k))
      ]
