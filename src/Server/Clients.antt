-- ===== src/Server/Clients.antt =====
-- src/hpserver.cpp: the events of the main loop, and the steps that the server takes.
use hpserver.Prelude.{
  ℕ, ◌+◌, ◌≡◌, Bool, true, false, not, ◌&&◌, ◌||◌, Option, none, some, List, [], ◌∷◌, ◌++◌,
  if◌then◌else◌, Bytes, ℤ,
}
use hpserver.Os.{Recv}
use hpserver.Http.Builder.{build_service_unavailable_response}
use hpserver.Http.Llhttp.{Llhttp}
use hpserver.Http.RequestParser.{Event}
use hpserver.Http.ConnectionIo.{has_pending_write, queue_write}
use hpserver.Http.HttpConn.{HttpConn}
use hpserver.Util.Timer.{Timer, tick, get_next_timeout_ms}
use hpserver.Server.{
  Hpserver, init, ProxyDoneEvent, Job, FlushRun, set_at, is_expected_connect_shutdown_errno,
  done_event, client_at, close_client, refresh_client_timeout, on_timeout, accept_client, put_conn,
  handle_client, flush_client_output,
}

-- `events` of a client: an error or a hang-up, `EPOLLOUT` and `EPOLLIN`.
pub record ClientEvents : Type 0 where
  pub broken : Bool
  pub writable : Bool
  pub readable : Bool

module _ (lib : Llhttp Event) where
  abbrev pub has_pending_at : ℕ → Hpserver lib → Bool
  has_pending_at fd s = elim (client_at lib fd s) [ none ↦ false | some c ↦ has_pending_write c.io ]

  -- Behind the flush of a response.
  abbrev pub settle : Bool → ℕ → ℕ → Hpserver lib → Hpserver lib
  settle close_after_done now fd s =
      if not close_after_done
      then refresh_client_timeout lib now fd s
      else if has_pending_at fd s
      then record s { close_after_flush = set_at fd true s.close_after_flush }
      else close_client lib fd s

  abbrev pub respond :
      FlushRun → Bool → ℕ → Bytes → ℕ → HttpConn lib → Hpserver lib → Option (Hpserver lib)
  respond run close_after_done now bytes fd c s =
      elim (flush_client_output lib run fd
        (put_conn lib fd (record c { io = queue_write bytes c.io }) s)) [
          | none ↦ none
          | some (ok, s') ↦
              some (if ok then settle close_after_done now fd s' else close_client lib fd s')
        ]

  -- One turn of `drain_proxy_done_events`.
  abbrev pub drain_found :
      (ℕ → Bytes)
      → FlushRun
      → ℕ
      → ProxyDoneEvent
      → HttpConn lib
      → Hpserver lib
      → Option (Hpserver lib)
  drain_found strerror run now e c s =
      let s' = record s { proxy_inflight = set_at e.client_fd false s.proxy_inflight } in
      let failure = build_service_unavailable_response (strerror e.err) in
      if e.ok
      then respond run e.close_after_done now e.response e.client_fd c s'
      else if e.is_connect && is_expected_connect_shutdown_errno e.err
      then some (close_client lib e.client_fd s')
      else respond run true now failure e.client_fd c s'

  abbrev pub drain_event :
      (ℕ → Bytes) → FlushRun → ℕ → ProxyDoneEvent → Hpserver lib → Option (Hpserver lib)
  drain_event strerror run now e s = elim (client_at lib e.client_fd s) [
    | none ↦ some s
    | some c ↦ drain_found strerror run now e c s
  ]

  -- `runs i` is what the flush of the turn `i` meets.
  unfoldable pub drain_events :
      (ℕ → Bytes)
      → (ℕ → FlushRun)
      → ℕ
      → ℕ
      → List ProxyDoneEvent
      → Hpserver lib
      → Option (Hpserver lib)
  drain_events strerror runs now i [] s = some s
  drain_events strerror runs now i (e ∷ events) s = elim (drain_event strerror (runs i) now e s) [
    | none ↦ none
    | some s' ↦ drain_events strerror runs now (i + 1) events s'
  ]

  abbrev pub drain_proxy_done_events :
      (ℕ → Bytes) → (ℕ → FlushRun) → ℕ → Hpserver lib → Option (Hpserver lib)
  drain_proxy_done_events strerror runs now s =
      drain_events strerror runs now 0 s.proxy_done_queue (record s { proxy_done_queue = [] })

  -- `EPOLLOUT`, and whether the handler goes on to `EPOLLIN`.
  abbrev pub flush_ready : FlushRun → ℕ → Hpserver lib → Option (Bool × Hpserver lib)
  flush_ready run fd s = elim (flush_client_output lib run fd s) [
    | none ↦ none
    | some (ok, s') ↦ some (
        if not ok
        then (false, close_client lib fd s')
        else if s'.close_after_flush fd && not (has_pending_at fd s')
        then (false, close_client lib fd s')
        else (true, s'))
  ]

  abbrev pub read_ready : List Recv → Bool → ℕ → Hpserver lib → Option (Hpserver lib)
  read_ready recvs accepted fd s = elim (handle_client lib recvs accepted fd s) [
    | none ↦ none
    | some (ok, s') ↦ some (if ok then s' else close_client lib fd s')
  ]

  abbrev pub read_if : Bool → List Recv → Bool → ℕ → Hpserver lib → Option (Hpserver lib)
  read_if readable recvs accepted fd s = if readable then read_ready recvs accepted fd s else some s

  abbrev pub flush_if : Bool → FlushRun → ℕ → Hpserver lib → Option (Bool × Hpserver lib)
  flush_if writable run fd s = if writable then flush_ready run fd s else some (true, s)

  abbrev pub refresh_if : Bool → ℕ → ℕ → Hpserver lib → Hpserver lib
  refresh_if active now fd s = if active then refresh_client_timeout lib now fd s else s

  abbrev pub client_event :
      ClientEvents → FlushRun → List Recv → Bool → ℕ → ℕ → Hpserver lib → Option (Hpserver lib)
  client_event ev run recvs accepted now fd s =
      if ev.broken
      then some (close_client lib fd s)
      else elim (flush_if ev.writable run fd (refresh_if (ev.readable || ev.writable) now fd s)) [
        | none ↦ none
        | some (goes_on, s') ↦ if goes_on then read_if ev.readable recvs accepted fd s' else some s'
      ]

  abbrev pub call_timeout : ℕ → Timer ℕ × Hpserver lib → Timer ℕ × Hpserver lib
  call_timeout fd (t, s) =
      let s' = on_timeout lib fd (record s { connection_timer = t }) in (s'.connection_timer, s')

  -- `connection_timer_.tick()`
  abbrev pub tick_timer : (ℕ → ℕ) → Hpserver lib → Option (Hpserver lib)
  tick_timer clock s = elim (tick call_timeout clock s.connection_timer s) [
    | none ↦ none
    | some (t, s') ↦ some (record s' { connection_timer = t })
  ]

  -- `connection_timer_.get_next_timeout_ms()`
  abbrev pub next_timeout : (ℕ → ℕ) → ℕ → Hpserver lib → Option (Hpserver lib × ℤ)
  next_timeout clock now s =
      elim (get_next_timeout_ms call_timeout clock now s.connection_timer s) [
        | none ↦ none
        | some (t, s', ms) ↦ some (record s' { connection_timer = t }, ms)
      ]

  -- A worker that has run a task.
  abbrev pub finish_job : List Job → Job → List Job → Bool → ℕ → Bytes → Hpserver lib → Hpserver lib
  finish_job before job after ok err response s = record s {
    jobs = before ++ after;
    proxy_done_queue = s.proxy_done_queue ++ (done_event job ok err response ∷ []);
  }

  -- An event of the main loop, a question to the timer, a tick, or the end of a task.
  pub data ServerStep : Hpserver lib → Hpserver lib → Type 0 where
    accept_step :
        (now fd : ℕ) (blocked is_set_up : Bool) (s : Hpserver lib)
        → ServerStep s (accept_client lib now fd blocked is_set_up s)
    client_step :
        (ev : ClientEvents) (run : FlushRun) (recvs : List Recv) (accepted : Bool) (now fd : ℕ)
        (s s' : Hpserver lib)
        → client_event ev run recvs accepted now fd s ≡ some s'
        → ServerStep s s'
    drain_step :
        (strerror : ℕ → Bytes) (runs : ℕ → FlushRun) (now : ℕ) (s s' : Hpserver lib)
        → drain_proxy_done_events strerror runs now s ≡ some s'
        → ServerStep s s'
    tick_step :
        (clock : ℕ → ℕ) (s s' : Hpserver lib) → tick_timer clock s ≡ some s' → ServerStep s s'
    wait_step :
        (clock : ℕ → ℕ) (now : ℕ) (s s' : Hpserver lib) (ms : ℤ)
        → next_timeout clock now s ≡ some (s', ms)
        → ServerStep s s'
    job_step :
        (before : List Job) (job : Job) (after : List Job) (ok : Bool) (err : ℕ) (response : Bytes)
        (s : Hpserver lib)
        → s.jobs ≡ before ++ (job ∷ after)
        → ServerStep s (finish_job before job after ok err response s)

  -- What the server comes to from its start.
  pub data Served : Hpserver lib → Type 0 where
    served_start : Served (init lib)
    served_step : (s s' : Hpserver lib) → Served s → ServerStep s s' → Served s'
