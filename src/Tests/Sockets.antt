-- ===== src/Tests/Sockets.antt =====
-- Tests of the handles on descriptors, and of the start of the server.
use hpserver.Prelude.{◌≡◌, refl, arith, true, some, none}
use hpserver.Os.{Result, ebadf}
use hpserver.Net.Socket.{
  Handles, handles, construct, assign_at, destroy_at, Reached, begins, constructs, assigns,
  destroys, count,
}
use hpserver.Net.Socket.Owned as Owned
use hpserver.Server.Start.{Calls, Startup, hpserver_of, listen_start, destroy_server}
use hpserver.Server.Start.Closing as Closing

abbrev two : Handles
two = construct (some 4) (construct (some 3) handles)

-- The second handle takes over what the first one holds, and ends.
abbrev ends : Handles
ends = destroy_at 1 (assign_at 1 0 two)

ends-Reached : Reached ends
ends-Reached = destroys 1 (assign_at 1 0 two) (
    assigns 1 0 two (omega arith) (
      constructs (some 4) (construct (some 3) handles) refl
        (constructs (some 3) handles refl begins)))

Reached-IsOwned_example : Owned.IsOwned ends
Reached-IsOwned_example = Owned.Reached-IsOwned ends ends-Reached

-- A system in which only the registration of the eventfd fails, if `events` are those of 9.
abbrev calls : Result → Calls
calls registered = record {
  epoll_create1 = Result.returned 4;
  socket = Result.returned 3;
  open_cache = true;
  get_flags = λ fd. elim fd [ none ↦ Result.failed ebadf | some f ↦ Result.returned 2 ];
  set_flags = λ fd flags. Result.returned 0;
  bind = λ fd. Result.returned 0;
  listen = λ fd. Result.returned 0;
  eventfd = Result.returned 9;
  epoll_ctl = λ epfd op fd event. registered;
  close = λ fd. Result.returned 0;
}

abbrev refusing : Startup
refusing =
    (listen_start (calls (Result.failed 12))
      (hpserver_of (calls (Result.failed 12)) 8 8080 0 0 0 0)).1

listen_start-closed_example :
    count 3 (destroy_server (calls (Result.failed 12)) refusing) ≡ count 3 refusing.opened
listen_start-closed_example =
    Closing.listen_start-closed (calls (Result.failed 12)) 8 8080 0 0 0 0 3
