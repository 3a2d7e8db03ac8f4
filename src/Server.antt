-- ===== src/Server.antt =====
-- src/hpserver.cpp: the table of connections and the handlers of the main loop. A descriptor is a number
-- from 0 on. What the system calls do, what the pools say and what the clock reads are arguments;
-- `none` says that a list of outcomes is too short. The callback of the timer is the descriptor.
pub mod Clients
pub mod Idle
pub mod Handlers
pub mod Clean
pub mod Accept
pub mod Loop
pub mod Notify
pub mod Timed
pub mod Start
use hpserver.Prelude.{
  ℕ, zero, suc, ◌+◌, ◌*◌, ◌%◌, ◌^◌, Bool, true, false, not, ◌&&◌, ◌||◌, ◌==◌, ltb, max, Option,
  none, some, List, [], ◌∷◌, ◌++◌, if◌then◌else◌, Bytes, pos, codes,
}
use hpserver.Os.{eio, Recv, Send, Result, eagain, epipe, econnreset, econnaborted, enotconn}
use hpserver.Http.Builder.{build_service_unavailable_response}
use hpserver.Http.Llhttp.{Llhttp}
use hpserver.Http.Request.{RequestInfo}
use hpserver.Http.RequestParser.{Event, is_message_complete}
use hpserver.Http.ConnectionIo.{
  HttpConnectionIo, Flushed, has_pending_write, flush_to_socket, queue_write, read_from_socket,
}
use hpserver.Http.HttpConn.{HttpConn, http_conn, parse_available_data, reset_for_next_message}
use hpserver.Util.Timer.{Timer, timer, add, adjust, remove, contains, tick}

abbrev pub max_fd : ℕ
max_fd = 65536

abbrev pub client_idle_timeout_ms : ℕ
client_idle_timeout_ms = 15000

-- `hw` is `hardware_concurrency()`.
abbrev pub default_proxy_worker_count : ℕ → ℕ
default_proxy_worker_count hw = if hw == 0 then 8 else max 2 hw

abbrev pub default_tunnel_worker_count : ℕ → ℕ
default_tunnel_worker_count hw = if hw == 0 then 64 else max 32 (hw * 8 % 2 ^ 32)

abbrev pub normalize_proxy_workers : ℕ → ℕ → ℕ
normalize_proxy_workers hw configured =
    if configured == 0 then default_proxy_worker_count hw else configured

abbrev pub normalize_tunnel_workers : ℕ → ℕ → ℕ
normalize_tunnel_workers hw configured =
    if configured == 0 then default_tunnel_worker_count hw else configured

abbrev pub normalize_proxy_queue_size : ℕ → ℕ → ℕ
normalize_proxy_queue_size configured proxy_workers =
    if configured == 0 then proxy_workers * 512 else configured

abbrev pub normalize_tunnel_queue_size : ℕ → ℕ → ℕ
normalize_tunnel_queue_size configured tunnel_workers =
    if configured == 0 then tunnel_workers * 128 else configured

abbrev pub is_expected_connect_shutdown_errno : ℕ → Bool
is_expected_connect_shutdown_errno err =
    err == econnreset || err == epipe || err == enotconn || err == econnaborted

pub record ProxyDoneEvent : Type 0 where
  pub client_fd : ℕ
  pub ok : Bool
  pub response : Bytes
  pub close_after_done : Bool
  pub is_connect : Bool
  pub err : ℕ

-- A task of one of the pools.
pub record Job : Type 0 where
  pub client_fd : ℕ
  pub req : RequestInfo

-- A write of an element.
unfoldable pub set_at {ℓ} : {A : Type ℓ} → ℕ → A → (ℕ → A) → ℕ → A
set_at fd a f k = if k == fd then a else f k

-- What the calls of one flush do: those of `send`, and whether `poller::modify` succeeds.
pub record FlushRun : Type 0 where
  pub sends : List (List Send)
  pub modified : Bool

-- The loop of `flush_client_output`, and the result: whether it is 0.
pub flush_conn : List (List Send) → Bool → HttpConnectionIo → Option (Bool × HttpConnectionIo)
flush_conn [] modified io = if has_pending_write io then none else some (modified, io)
flush_conn (sends ∷ more) modified io =
    if not (has_pending_write io) then some (modified, io) else elim (flush_to_socket sends io) [
      | none ↦ none
      | some f ↦ elim f.result [
        | Result.returned zero ↦ some (if has_pending_write f.io then modified else false, f.io)
        | Result.returned (suc n) ↦ flush_conn more modified f.io
        | Result.failed e ↦ some (if e == eagain then modified else false, f.io)
      ]
    ]

-- The result of a task, with `EIO` for an error without a number.
abbrev pub done_event : Job → Bool → ℕ → Bytes → ProxyDoneEvent
done_event job ok err response = record {
  client_fd = job.client_fd;
  ok = ok;
  response = if job.req.is_connect then [] else response;
  close_after_done = true;
  is_connect = job.req.is_connect;
  err = if not ok && err == 0 then eio else err;
}

abbrev pub saturated_event : Job → ProxyDoneEvent
saturated_event job = record {
  client_fd = job.client_fd;
  ok = false;
  response = [];
  close_after_done = true;
  is_connect = job.req.is_connect;
  err = eagain;
}

module _ (lib : Llhttp Event) where
  pub record Hpserver : Type 0 where
    pub connections : ℕ → Option (HttpConn lib)
    pub proxy_inflight : ℕ → Bool
    pub close_after_flush : ℕ → Bool
    pub connection_timer : Timer ℕ
    pub proxy_done_queue : List ProxyDoneEvent
    pub jobs : List Job

  -- What `init` leaves.
  abbrev pub init : Hpserver
  init = record {
    connections = λ fd. none;
    proxy_inflight = λ fd. false;
    close_after_flush = λ fd. false;
    connection_timer = timer;
    proxy_done_queue = [];
    jobs = [];
  }

  -- The connection at a descriptor of the table.
  abbrev pub client_at : ℕ → Hpserver → Option (HttpConn lib)
  client_at fd s = if ltb fd max_fd then s.connections fd else none

  unfoldable pub close_client : ℕ → Hpserver → Hpserver
  close_client fd s =
      let t = remove fd s.connection_timer in
      if ltb fd max_fd
      then record s {
        connections = set_at fd none s.connections;
        proxy_inflight = set_at fd false s.proxy_inflight;
        close_after_flush = set_at fd false s.close_after_flush;
        connection_timer = t;
      }
      else record s { connection_timer = t }

  -- `now` is the reading of the clock.
  unfoldable pub refresh_client_timeout : ℕ → ℕ → Hpserver → Hpserver
  refresh_client_timeout now fd s = elim (client_at fd s) [
    | none ↦ s
    | some c ↦
        if contains fd s.connection_timer
        then record s { connection_timer = adjust fd client_idle_timeout_ms now s.connection_timer }
        else record s {
          connection_timer = add (pos fd) client_idle_timeout_ms fd now s.connection_timer;
        }
  ]

  -- The callback of the timer.
  unfoldable pub on_timeout : ℕ → Hpserver → Hpserver
  on_timeout fd s = elim (client_at fd s) [ none ↦ s | some c ↦ close_client fd s ]

  -- An accepted connection, that is on the blacklist or not, and whose set-up succeeds or not.
  abbrev pub accept_client : ℕ → ℕ → Bool → Bool → Hpserver → Hpserver
  accept_client now fd blocked is_set_up s =
      if blocked || (not is_set_up || not (ltb fd max_fd))
      then s
      else refresh_client_timeout now fd
          (record s { connections = set_at fd (some (http_conn lib (some fd))) s.connections })

  -- The event of a `submit_proxy_job` that its pool has taken or not.
  abbrev pub submit_proxy_job : Bool → Job → Hpserver → Hpserver
  submit_proxy_job accepted job s =
      if accepted
      then record s { jobs = s.jobs ++ (job ∷ []) }
      else record s { proxy_done_queue = s.proxy_done_queue ++ (saturated_event job ∷ []) }

  abbrev pub put_conn : ℕ → HttpConn lib → Hpserver → Hpserver
  put_conn fd c s = record s { connections = set_at fd (some c) s.connections }

  -- Behind a read without an error.
  abbrev pub parse_client : Bool → ℕ → HttpConn lib → Hpserver → Bool × Hpserver
  parse_client accepted fd c s =
      let (c', ok) = parse_available_data lib c in
      if not ok
      then (false, put_conn fd c' s)
      else if not (is_message_complete c'.parser)
      then (true, put_conn fd c' s)
      else (
        true,
        submit_proxy_job accepted (record { client_fd = fd; req = c'.parser.request })
            (record (put_conn fd (reset_for_next_message lib c') s) {
              proxy_inflight = set_at fd true s.proxy_inflight;
            }),
      )

  -- `read_from_socket` has read into `io`.
  abbrev pub after_read :
      Bool → ℕ → HttpConn lib → HttpConnectionIo → Result → Hpserver → Bool × Hpserver
  after_read accepted fd c io (Result.failed e) s =
      (e == eagain, put_conn fd (record c { io = io }) s)
  after_read accepted fd c io (Result.returned n) s =
      parse_client accepted fd (record c { io = io }) s

  -- Whether the result is 0.
  abbrev pub handle_conn : List Recv → Bool → ℕ → HttpConn lib → Hpserver → Option (Bool × Hpserver)
  handle_conn recvs accepted fd c s = elim (read_from_socket recvs c.io) [
    | none ↦ none
    | some (io, r) ↦ some (after_read accepted fd c io r s)
  ]

  abbrev pub handle_client : List Recv → Bool → ℕ → Hpserver → Option (Bool × Hpserver)
  handle_client recvs accepted fd s = elim (client_at fd s) [
    | none ↦ some (false, s)
    | some c ↦ if s.proxy_inflight fd then some (true, s) else handle_conn recvs accepted fd c s
  ]

  abbrev pub flush_found : FlushRun → ℕ → HttpConn lib → Hpserver → Option (Bool × Hpserver)
  flush_found run fd c s = elim (flush_conn run.sends run.modified c.io) [
    | none ↦ none
    | some (ok, io) ↦ some (ok, put_conn fd (record c { io = io }) s)
  ]

  abbrev pub flush_client_output : FlushRun → ℕ → Hpserver → Option (Bool × Hpserver)
  flush_client_output run fd s = elim (client_at fd s) [
    | none ↦ some (false, s)
    | some c ↦ flush_found run fd c s
  ]
