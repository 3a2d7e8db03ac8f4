-- ===== src/Server/Handlers/Input.antt =====
-- What the handlers of the events of a client leave.
use hpserver.Prelude.{
  ℕ, ◌≡◌, subst, Bool, true, false, not, ◌&&◌, ◌||◌, some, List, if◌then◌else◌, Bool-cases,
  Option-cases, inl, inr,
}
use hpserver.Os.{Recv, Result}
use hpserver.Http.Llhttp.{Llhttp}
use hpserver.Http.RequestParser.{Event, is_message_complete}
use hpserver.Http.ConnectionIo.{HttpConnectionIo, read_from_socket}
use hpserver.Http.HttpConn.{HttpConn, parse_available_data, reset_for_next_message}
use hpserver.Server.{
  Hpserver, Job, FlushRun, set_at, client_at, close_client, refresh_client_timeout, put_conn,
  submit_proxy_job, parse_client, after_read, handle_conn, handle_client, flush_client_output,
}
use hpserver.Server.Clients.{
  has_pending_at, ClientEvents, flush_ready, read_ready, read_if, flush_if, refresh_if,
  client_event,
}
use hpserver.Server.Handlers.{
  either, inflight-IsClean, IsSound, Leaves, LeavesSound, put_conn-IsSound, close_client-IsSound,
  refresh_client_timeout-IsSound, flush_client_output-IsSound,
}

module _ (lib : Llhttp Event) where
  submit_proxy_job-IsSound :
      (accepted : Bool) (job : Job) (s : Hpserver lib)
      → IsSound lib s
      → IsSound lib (submit_proxy_job lib accepted job s)
  submit_proxy_job-IsSound true job s w = w
  submit_proxy_job-IsSound false job s w = w

  -- `c0` is the connection before the read.
  parse_client-IsSound :
      (accepted : Bool) (fd : ℕ) (c0 c : HttpConn lib) (s : Hpserver lib)
      → client_at lib fd s ≡ some c0
      → IsSound lib s
      → IsSound lib (parse_client lib accepted fd c s).1
  parse_client-IsSound accepted fd c0 c s e w =
      let r = parse_available_data lib c in
      elim (Bool-cases r.1) [
        | inr o ↦ rw o (put_conn-IsSound lib fd c0 r.0 s e w)
        | inl o ↦ elim (Bool-cases (is_message_complete r.0.parser)) [
          | inr m ↦ rw (o, m) (put_conn-IsSound lib fd c0 r.0 s e w)
          | inl m ↦
              rw (o, m)
                (let c' = reset_for_next_message lib r.0 in
                  submit_proxy_job-IsSound accepted
                    (record { client_fd = fd; req = r.0.parser.request })
                    (record (put_conn lib fd c' s) {
                      proxy_inflight = set_at fd true s.proxy_inflight;
                    })
                    (inflight-IsClean lib fd c' s w.0, (put_conn-IsSound lib fd c0 c' s e w).1))
        ]
      ]

  after_read-IsSound :
      (accepted : Bool) (fd : ℕ) (c : HttpConn lib) (io : HttpConnectionIo) (r : Result)
      (s : Hpserver lib)
      → client_at lib fd s ≡ some c
      → IsSound lib s
      → IsSound lib (after_read lib accepted fd c io r s).1
  after_read-IsSound accepted fd c io (Result.failed n) s e w =
      put_conn-IsSound lib fd c (record c { io = io }) s e w
  after_read-IsSound accepted fd c io (Result.returned n) s e w =
      parse_client-IsSound accepted fd c (record c { io = io }) s e w

  handle_client-IsSound :
      (recvs : List Recv) (accepted : Bool) (fd : ℕ) (s : Hpserver lib)
      → IsSound lib s
      → Leaves lib (handle_client lib recvs accepted fd s)
  handle_client-IsSound recvs accepted fd s w = elim (Option-cases (client_at lib fd s)) [
    | inl n ↦ rw (n, handle_client) w
    | inr (c, e) ↦ elim (Bool-cases (s.proxy_inflight fd)) [
      | inl q ↦ rw (e, handle_client, q) w
      | inr q ↦ elim (Option-cases (read_from_socket recvs c.io)) [
        | inl n ↦ rw (e, handle_client, q, handle_conn, n) tt
        | inr (r, n) ↦
            rw (e, handle_client, q, handle_conn, n)
              (after_read-IsSound accepted fd c r.0 r.1 s e w)
      ]
    ]
  ]

  flush_ready-IsSound :
      (run : FlushRun) (fd : ℕ) (s : Hpserver lib)
      → IsSound lib s
      → Leaves lib (flush_ready lib run fd s)
  flush_ready-IsSound run fd s w =
      let k = flush_client_output-IsSound lib run fd s w in
      elim (Option-cases (flush_client_output lib run fd s)) [
        | inl n ↦ rw (n, flush_ready) tt
        | inr ((ok, s'), n) ↦
            let x : IsSound lib s' = subst (Leaves lib) n k in
            let P : Bool × Hpserver lib → Type 0 = λ r. IsSound lib r.1 in
            let shut : Bool × Hpserver lib = (false, close_client lib fd s') in
            let y : P shut = close_client-IsSound lib fd s' x in
            let b = s'.close_after_flush fd && not (has_pending_at lib fd s') in
            rw (n, flush_ready)
              (either lib P (not ok) shut (if b then shut else (true, s')) y
                (either lib P b shut (true, s') y x))
      ]

  read_ready-IsSound :
      (recvs : List Recv) (accepted : Bool) (fd : ℕ) (s : Hpserver lib)
      → IsSound lib s
      → LeavesSound lib (read_ready lib recvs accepted fd s)
  read_ready-IsSound recvs accepted fd s w =
      let k = handle_client-IsSound recvs accepted fd s w in
      elim (Option-cases (handle_client lib recvs accepted fd s)) [
        | inl n ↦ rw (n, read_ready) tt
        | inr (r, n) ↦
            let x : IsSound lib r.1 = subst (Leaves lib) n k in
            rw (n, read_ready)
              (either lib (IsSound lib) r.0 r.1 (close_client lib fd r.1) x
                (close_client-IsSound lib fd r.1 x))
      ]

  flush_if-IsSound :
      (b : Bool) (run : FlushRun) (fd : ℕ) (s : Hpserver lib)
      → IsSound lib s
      → Leaves lib (flush_if lib b run fd s)
  flush_if-IsSound true run fd s w = flush_ready-IsSound run fd s w
  flush_if-IsSound false run fd s w = w

  read_if-IsSound :
      (b : Bool) (recvs : List Recv) (accepted : Bool) (fd : ℕ) (s : Hpserver lib)
      → IsSound lib s
      → LeavesSound lib (read_if lib b recvs accepted fd s)
  read_if-IsSound true recvs accepted fd s w = read_ready-IsSound recvs accepted fd s w
  read_if-IsSound false recvs accepted fd s w = w

  pub client_event-IsSound :
      (ev : ClientEvents) (run : FlushRun) (recvs : List Recv) (accepted : Bool) (now fd : ℕ)
      (s : Hpserver lib)
      → IsSound lib s
      → LeavesSound lib (client_event lib ev run recvs accepted now fd s)
  client_event-IsSound ev run recvs accepted now fd s w =
      let active = ev.readable || ev.writable in
      let s1 = refresh_if lib active now fd s in
      let w1 =
        either lib (IsSound lib) active (refresh_client_timeout lib now fd s) s
          (refresh_client_timeout-IsSound lib now fd s w) w in
      let k = flush_if-IsSound ev.writable run fd s1 w1 in
      elim (Bool-cases ev.broken) [
        | inl b ↦ rw (client_event, b) (close_client-IsSound lib fd s w)
        | inr b ↦ elim (Option-cases (flush_if lib ev.writable run fd s1)) [
          | inl n ↦ rw (client_event, b, n) tt
          | inr (r, n) ↦
              let x : IsSound lib r.1 = subst (Leaves lib) n k in
              rw (client_event, b, n)
                (either lib (LeavesSound lib) r.0 (read_if lib ev.readable recvs accepted fd r.1)
                  (some r.1) (read_if-IsSound ev.readable recvs accepted fd r.1 x) x)
        ]
      ]
