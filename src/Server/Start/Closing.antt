-- ===== src/Server/Start/Closing.antt =====
-- What the start of the server opens and closes.
use hpserver.Prelude.{
  ℕ, ◌+◌, ◌≡◌, refl, ap, arith, Bool, true, false, not, Option, none, some, [], ◌∷◌, ◌++◌,
  if◌then◌else◌,
}
use hpserver.Os.{Result}
use hpserver.Net.Socket.{close_fd, fd_of, count, bind, listen}
use hpserver.Net.Socket.Owned.{count-++}
use hpserver.Net.Poller as P
use hpserver.Server.Start.{
  Calls, Startup, hpserver_of, init, set_nonblocking, is_zero, edge_events, watch_events,
  init_proxy_async, listen_start, destroy_server,
}

-- The destructor leaves every descriptor closed as often as it was opened.
abbrev pub IsBalanced : Calls → Startup → Type 0
IsBalanced k s = (fd : ℕ) → count fd (destroy_server k s) ≡ count fd s.opened

count-close_epoll :
    (close : ℕ → Result) (fd : Option ℕ) (i : ℕ)
    → count i (P.close_epoll close fd).0 ≡ count i (close_fd fd)
count-close_epoll close none i = refl
count-close_epoll close (some fd) i = refl

-- The sum of what the destructor closes.
count-destroy_server :
    (k : Calls) (s : Startup) (i : ℕ)
    → count i (destroy_server k s)
      ≡ count i s.closed
        + (count i (close_fd s.proxy_event_fd)
            + (count i (close_fd s.poller.epoll_fd) + count i (close_fd s.server_socket.fd)))
count-destroy_server k s i =
    let polled = (P.destroy k.close s.poller).0 in
    let rest = polled ++ close_fd s.server_socket.fd in
    omega (
      arith,
      count-++ i s.closed (close_fd s.proxy_event_fd ++ rest),
      count-++ i (close_fd s.proxy_event_fd) rest,
      count-++ i polled (close_fd s.server_socket.fd),
      count-close_epoll k.close s.poller.epoll_fd i,
    )

init-IsBalanced : (k : Calls) (s : Startup) → IsBalanced k s → IsBalanced k (init k s)
init-IsBalanced k s b i = omega (
  arith,
  b i,
  count-destroy_server k s i,
  count-destroy_server k (init k s) i,
  count-++ i s.closed (close_fd s.server_socket.fd ++ []),
  count-++ i (close_fd s.server_socket.fd) [],
  count-++ i s.opened (close_fd (fd_of k.socket)),
)

-- A choice between two results with the same property.
either : {A : Type 0} (P : A → Type 0) (b : Bool) (x y : A) → P x → P y → P (if b then x else y)
either P true x y p q = p
either P false x y p q = q

abbrev Leaves : Calls → Bool × Startup → Type 0
Leaves k r = IsBalanced k r.1

-- The sum before the call of `eventfd`.
count-closed :
    (k : Calls) (s : Startup) (i : ℕ)
    → s.proxy_event_fd ≡ none
    → IsBalanced k s
    → count i s.closed
        + (count i (close_fd s.poller.epoll_fd) + count i (close_fd s.server_socket.fd))
      ≡ count i s.opened
count-closed k s i n b =
    let gone : count i (close_fd s.proxy_event_fd) ≡ 0 = ap (λ f. count i (close_fd f)) n in
    omega (arith, b i, gone, count-destroy_server k s i)

watch_events-IsBalanced :
    (k : Calls) (fd : Option ℕ) (s : Startup)
    → s.proxy_event_fd ≡ none
    → IsBalanced k s
    → IsBalanced k (watch_events k fd s).1
watch_events-IsBalanced k none s n b = λ i.
    let t : Startup = record s { proxy_event_fd = none } in
    omega (arith, count-destroy_server k t i, count-closed k s i n b)
watch_events-IsBalanced k (some fd) s n b =
    let kept : Startup = record s { proxy_event_fd = some fd; opened = s.opened ++ (fd ∷ []) } in
    let dropped : Startup = record s {
      proxy_event_fd = none;
      opened = s.opened ++ (fd ∷ []);
      closed = s.closed ++ (fd ∷ []);
    } in
    either (Leaves k) (is_zero (P.add k.epoll_ctl (some fd) edge_events s.poller).0) (true, kept)
      (false, dropped)
      (λ i. omega (
        arith,
        count-destroy_server k kept i,
        count-closed k s i n b,
        count-++ i s.opened (fd ∷ []),
      ))
      (λ i. omega (
        arith,
        count-destroy_server k dropped i,
        count-closed k s i n b,
        count-++ i s.opened (fd ∷ []),
        count-++ i s.closed (fd ∷ []),
      ))

listen_start-IsBalanced :
    (k : Calls) (s : Startup)
    → s.proxy_event_fd ≡ none
    → IsBalanced k s
    → IsBalanced k (listen_start k s).1
listen_start-IsBalanced k s n b =
    let s1 = init k s in
    let fd = s1.server_socket.fd in
    let stays = init-IsBalanced k s b in
    let goes = watch_events-IsBalanced k (fd_of k.eventfd) s1 n stays in
    let watched = is_zero (P.add k.epoll_ctl fd edge_events s1.poller).0 in
    let listens = is_zero (listen k.listen s1.server_socket).0 in
    let bound = is_zero (bind k.bind s1.server_socket).0 in
    let r5 = if not watched then (false, s1) else init_proxy_async k s1 in
    let r4 = if not listens then (false, s1) else r5 in
    let r3 = if not bound then (false, s1) else r4 in
    let r2 = if not (set_nonblocking k fd) then (false, s1) else r3 in
    either (Leaves k) (not k.open_cache) (false, s1) r2 stays
      (either (Leaves k) (not (set_nonblocking k fd)) (false, s1) r3 stays
        (either (Leaves k) (not bound) (false, s1) r4 stays
          (either (Leaves k) (not listens) (false, s1) r5 stays
            (either (Leaves k) (not watched) (false, s1) (init_proxy_async k s1) stays goes))))

hpserver_of-IsBalanced :
    (k : Calls) (hw port proxies tunnels proxy_queue tunnel_queue : ℕ)
    → IsBalanced k (hpserver_of k hw port proxies tunnels proxy_queue tunnel_queue)
hpserver_of-IsBalanced k hw port proxies tunnels proxy_queue tunnel_queue i =
    let s = hpserver_of k hw port proxies tunnels proxy_queue tunnel_queue in
    omega (arith, count-destroy_server k s i)

-- However far the start of a new server gets, and whichever of its calls fail, the destructor leaves each
-- descriptor closed just as often as the start has opened it.
pub listen_start-closed :
    (k : Calls) (hw port proxies tunnels proxy_queue tunnel_queue fd : ℕ)
    → let s = (listen_start k (hpserver_of k hw port proxies tunnels proxy_queue tunnel_queue)).1 in
      count fd (destroy_server k s) ≡ count fd s.opened
listen_start-closed k hw port proxies tunnels proxy_queue tunnel_queue fd =
    listen_start-IsBalanced k (hpserver_of k hw port proxies tunnels proxy_queue tunnel_queue) refl
      (hpserver_of-IsBalanced k hw port proxies tunnels proxy_queue tunnel_queue) fd
