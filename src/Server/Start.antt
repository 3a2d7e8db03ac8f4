-- ===== src/Server/Start.antt =====
-- src/hpserver.cpp: the construction of the server, the part of `listen` in front of the main loop, and the
-- destructor, as far as they deal with descriptors. The calls of the system, and that of
-- `http_cache::open`, are the fields of `Calls`; -1 for a descriptor is `none`. The numbers of workers and the
-- sizes of the queues are those of the parent's functions.
pub mod Closing
pub mod Ready
use hpserver.Prelude.{
  ℕ, zero, suc, ◌+◌, ◌*◌, ◌/◌, ◌%◌, ◌^◌, ◌≤◌, ◌<◌, ◌≡◌, ◌≢◌, ◌∙◌, refl, sym, ap, subst, arith, Bool,
  true, false, not, ◌&&◌, ◌||◌, ◌==◌, Option, none, some, List, [], ◌∷◌, ◌++◌, if◌then◌else◌, Bytes,
  Bool-cases, Option-cases, inl, inr,
}
use Prim.Native.Nat.{bit_or}
use hpserver.Os.{Result}
use hpserver.Net.Socket.{
  SocketOps, socket_ops, Closes, fd_of, close_fd, open_socket, assign, destroy, bind, listen,
  set_option, count,
}
use hpserver.Net.Poller as P
use hpserver.Server.{
  normalize_proxy_workers, normalize_tunnel_workers, normalize_proxy_queue_size,
  normalize_tunnel_queue_size,
}

pub record Calls : Type 0 where
  pub epoll_create1 : Result
  pub socket : Result
  pub open_cache : Bool
  pub get_flags : Option ℕ → Result
  pub set_flags : Option ℕ → ℕ → Result
  pub bind : Option ℕ → Result
  pub listen : Option ℕ → Result
  pub eventfd : Result
  pub epoll_ctl : P.Ctl
  pub close : ℕ → Result

-- The fields of the server, with the descriptors that it has opened and those that it has closed.
pub record Startup : Type 0 where
  pub port : ℕ
  pub proxy_worker_count : ℕ
  pub tunnel_worker_count : ℕ
  pub proxy_queue_size : ℕ
  pub tunnel_queue_size : ℕ
  pub poller : P.Poller
  pub server_socket : SocketOps
  pub sin_port : Bytes
  pub proxy_event_fd : Option ℕ
  pub opened : List ℕ
  pub closed : Closes

-- `hw` is `hardware_concurrency()`.
abbrev pub hpserver_of : Calls → ℕ → ℕ → ℕ → ℕ → ℕ → ℕ → Startup
hpserver_of k hw port proxy_workers tunnel_workers proxy_queue tunnel_queue =
    let proxies = normalize_proxy_workers hw proxy_workers in
    let tunnels = normalize_tunnel_workers hw tunnel_workers in
    record {
      port = port;
      proxy_worker_count = proxies;
      tunnel_worker_count = tunnels;
      proxy_queue_size = normalize_proxy_queue_size proxy_queue proxies;
      tunnel_queue_size = normalize_tunnel_queue_size tunnel_queue tunnels;
      poller = (P.poller k.epoll_create1).0;
      server_socket = socket_ops none;
      sin_port = [];
      proxy_event_fd = none;
      opened = close_fd (P.poller k.epoll_create1).0.epoll_fd;
      closed = [];
    }

abbrev pub o_nonblock : ℕ
o_nonblock = 2048

-- `flags | O_NONBLOCK`
abbrev pub with_nonblock : ℕ → ℕ
with_nonblock flags = bit_or flags o_nonblock

abbrev pub is_success : Result → Bool
is_success (Result.returned n) = true
is_success (Result.failed e) = false

-- `ret == 0`
abbrev pub is_zero : Result → Bool
is_zero (Result.returned n) = n == 0
is_zero (Result.failed e) = false

abbrev pub store_flags : Calls → Option ℕ → Result → Bool
store_flags k fd (Result.failed e) = false
store_flags k fd (Result.returned flags) = is_success (k.set_flags fd (with_nonblock flags))

abbrev pub set_nonblocking : Calls → Option ℕ → Bool
set_nonblocking k fd = store_flags k fd (k.get_flags fd)

-- `htons(port)` as the two bytes of the network.
abbrev pub htons : ℕ → Bytes
htons port = port / 256 % 256 ∷ port % 256 ∷ []

-- The temporary of the assignment ends without a descriptor. What `set_option` returns is ignored, and the
-- starts of the logger and of the filter are in Logger and Net/IpFilter.
abbrev pub init : Calls → Startup → Startup
init k s =
    let (made, text) = open_socket k.socket in
    let (this, other, closes) = assign s.server_socket made in
    record s {
      server_socket = this;
      sin_port = htons s.port;
      opened = s.opened ++ close_fd made.fd;
      closed = s.closed ++ (closes ++ destroy other);
    }

-- `EPOLLIN | EPOLLET`
abbrev pub edge_events : ℕ
edge_events = 1 + 2 ^ 31

abbrev pub watch_events : Calls → Option ℕ → Startup → Bool × Startup
watch_events k none s = (false, record s { proxy_event_fd = none })
watch_events k (some fd) s =
    if is_zero (P.add k.epoll_ctl (some fd) edge_events s.poller).0
    then (true, record s { proxy_event_fd = some fd; opened = s.opened ++ (fd ∷ []) })
    else (
      false,
      record s {
        proxy_event_fd = none;
        opened = s.opened ++ (fd ∷ []);
        closed = s.closed ++ (fd ∷ []);
      },
    )

abbrev pub init_proxy_async : Calls → Startup → Bool × Startup
init_proxy_async k s = watch_events k (fd_of k.eventfd) s

abbrev pub init_cache_db : Calls → Bool
init_cache_db k = k.open_cache

-- `listen` up to its loop, and whether it gets there; it returns -1 otherwise.
abbrev pub listen_start : Calls → Startup → Bool × Startup
listen_start k s =
    let s1 = init k s in
    let fd = s1.server_socket.fd in
    if not (init_cache_db k)
    then (false, s1)
    else if not (set_nonblocking k fd)
    then (false, s1)
    else if not (is_zero (bind k.bind s1.server_socket).0)
    then (false, s1)
    else if not (is_zero (listen k.listen s1.server_socket).0)
    then (false, s1)
    else if not (is_zero (P.add k.epoll_ctl fd edge_events s1.poller).0)
    then (false, s1)
    else init_proxy_async k s1

-- `~hpserver`, and then the ends of its members.
abbrev pub destroy_server : Calls → Startup → Closes
destroy_server k s =
    s.closed
    ++ (close_fd s.proxy_event_fd ++ ((P.destroy k.close s.poller).0 ++ destroy s.server_socket))
