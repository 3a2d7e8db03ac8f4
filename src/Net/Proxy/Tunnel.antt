-- ===== src/Net/Proxy/Tunnel.antt =====
-- `http_proxy::forward_connect_tunnel`: bytes go both ways until both ends have closed. The last four
-- fields of `Tunnel` note what has been read and sent.
use hpserver.Prelude.{
  ℕ, Bool, true, false, not, ◌&&◌, ◌||◌, ◌==◌, none, some, List, [], ◌∷◌, ◌++◌, if◌then◌else◌,
  Bytes, codes, ℤ, pos, negsuc,
}
use hpserver.Os.{Recv, Send, eintr, einval, econnreset, etimedout}
use hpserver.Http.Builder.{build_connect_established_response, is_empty}
use hpserver.Http.Request.{RequestInfo}
use hpserver.Net.Proxy.{SendRun, send_all_nonblocking, flush_nonblocking, append_nonblocking_read}
use hpserver.Net.Proxy.Connect.{Lookup, connect_upstream}

pub record Tunnel : Type 0 where
  pub c2u_buf : Bytes
  pub u2c_buf : Bytes
  pub c2u_offset : ℕ
  pub u2c_offset : ℕ
  pub client_eof : Bool
  pub upstream_eof : Bool
  pub upstream_write_shutdown : Bool
  pub client_write_shutdown : Bool
  pub errno : ℕ
  pub from_client : Bytes
  pub to_upstream : Bytes
  pub from_upstream : Bytes
  pub to_client : Bytes

abbrev pub fresh : ℕ → Tunnel
fresh errno = record {
  c2u_buf = [];
  u2c_buf = [];
  c2u_offset = 0;
  u2c_offset = 0;
  client_eof = false;
  upstream_eof = false;
  upstream_write_shutdown = false;
  client_write_shutdown = false;
  errno = errno;
  from_client = [];
  to_upstream = [];
  from_upstream = [];
  to_client = [];
}

-- `revents`: an error or a hang-up, and `POLLIN`.
pub record Revents : Type 0 where
  pub broken : Bool
  pub readable : Bool

-- One `poll`.
pub data Poll : Type 0 where
  timed_out : Poll
  refused : ℕ → Poll
  ready : (client upstream : Revents) → Poll

-- What the calls of one turn of the loop do.
pub record Round : Type 0 where
  pub upstream_sends : List Send
  pub client_sends : List Send
  pub poll : Poll
  pub client_recvs : List Recv
  pub upstream_recvs : List Recv

-- The loop goes on, or the function returns.
pub data Next : Type 0 where
  running : Tunnel → Next
  returned : (ok : Bool) (t : Tunnel) → Next

abbrev pub flush_upstream : List Send → Tunnel → Bool × Tunnel
flush_upstream sends t =
    let f = flush_nonblocking sends t.errno [] t.c2u_buf t.c2u_offset in
    (
      f.ok,
      record t {
        c2u_buf = f.buf;
        c2u_offset = f.offset;
        errno = f.errno;
        to_upstream = t.to_upstream ++ f.out;
      },
    )

abbrev pub flush_client : List Send → Tunnel → Bool × Tunnel
flush_client sends t =
    let f = flush_nonblocking sends t.errno [] t.u2c_buf t.u2c_offset in
    (
      f.ok,
      record t {
        u2c_buf = f.buf;
        u2c_offset = f.offset;
        errno = f.errno;
        to_client = t.to_client ++ f.out;
      },
    )

-- Both calls of `shutdown`, whose results are not read.
abbrev pub pass_on_eof : Tunnel → Tunnel
pass_on_eof t = record t {
  upstream_write_shutdown = t.upstream_write_shutdown || (t.client_eof && is_empty t.c2u_buf);
  client_write_shutdown = t.client_write_shutdown || (t.upstream_eof && is_empty t.u2c_buf);
}

abbrev pub is_drained : Tunnel → Bool
is_drained t = t.client_eof && (t.upstream_eof && (is_empty t.c2u_buf && is_empty t.u2c_buf))

-- `events` of a descriptor: `POLLIN` and `POLLOUT`.
abbrev pub client_events : Tunnel → Bool × Bool
client_events t = (not t.client_eof && is_empty t.c2u_buf, not (is_empty t.u2c_buf))

abbrev pub upstream_events : Tunnel → Bool × Bool
upstream_events t = (not t.upstream_eof && is_empty t.u2c_buf, not (is_empty t.c2u_buf))

abbrev pub has_no_events : Tunnel → Bool
has_no_events t =
    not ((client_events t).0 || (client_events t).1)
    && not ((upstream_events t).0 || (upstream_events t).1)

abbrev pub read_client : Bool → List Recv → Tunnel → Bool × Tunnel
read_client readable recvs t =
    let d = append_nonblocking_read recvs t.errno [] t.client_eof in
    if readable
    then (
      d.ok,
      record t {
        c2u_buf = t.c2u_buf ++ d.out;
        client_eof = d.eof;
        errno = d.errno;
        from_client = t.from_client ++ d.out;
      },
    )
    else (true, t)

abbrev pub read_upstream : Bool → List Recv → Tunnel → Bool × Tunnel
read_upstream readable recvs t =
    let d = append_nonblocking_read recvs t.errno [] t.upstream_eof in
    if readable
    then (
      d.ok,
      record t {
        u2c_buf = t.u2c_buf ++ d.out;
        upstream_eof = d.eof;
        errno = d.errno;
        from_upstream = t.from_upstream ++ d.out;
      },
    )
    else (true, t)

-- Behind `poll`.
abbrev pub after_poll : Round → Poll → Tunnel → Next
after_poll r Poll.timed_out t = returned false (record t { errno = etimedout })
after_poll r (Poll.refused e) t =
    if e == eintr then running (record t { errno = e }) else returned false (record t { errno = e })
after_poll r (Poll.ready client upstream) t =
    let (ok, t1) = read_client client.readable r.client_recvs t in
    let (ok', t2) = read_upstream upstream.readable r.upstream_recvs t1 in
    if client.broken || upstream.broken
    then returned false (record t { errno = econnreset })
    else if not ok
    then returned false t1
    else if not ok'
    then returned false t2
    else running t2

-- Behind the two flushes.
abbrev pub after_flush : Round → Tunnel → Next
after_flush r t =
    if is_drained t
    then returned true t
    else if has_no_events t
    then running t
    else after_poll r r.poll t

unfoldable pub turn : Round → Tunnel → Next
turn r t =
    let (ok, t1) = flush_upstream r.upstream_sends t in
    let (ok', t2) = flush_client r.client_sends t1 in
    if not ok
    then returned false t1
    else if not ok'
    then returned false t2
    else after_flush r (pass_on_eof t2)

unfoldable pub relay : List Round → Tunnel → Next
relay [] t = running t
relay (r ∷ rounds) t = elim (turn r t) [
  | returned ok t' ↦ returned ok t'
  | running t' ↦ relay rounds t'
]

-- Whether the tunnel goes into the loop, or what the function returns before it, with `*out_errno` of
-- a return. `closed` are the sockets that `connect_upstream` has closed.
pub record Opened : Type 0 where
  pub next : Next
  pub closed : List ℕ
  pub greeting : Bytes

abbrev pub not_opened : ℕ → List ℕ → Bytes → Opened
not_opened errno closed greeting = record {
  next = returned false (fresh errno);
  closed = closed;
  greeting = greeting;
}

abbrev pub upstream_port : RequestInfo → ℕ
upstream_port req = if req.port == 0 then 443 else req.port

abbrev pub greet : List SendRun → List Round → ℕ → ℕ → List ℕ → Opened
greet greets rounds fd errno closed =
    let s =
      send_all_nonblocking greets errno (build_connect_established_response (codes "hpserver")) in
    if s.ok
    then record {
      next = relay rounds (fresh s.errno);
      closed = closed ++ (fd ∷ []);
      greeting = s.out;
    }
    else not_opened s.errno (closed ++ (fd ∷ [])) s.out

-- `lookup` gives what the name and the port resolve to.
unfoldable pub forward_connect_tunnel :
    (Bytes → ℕ → Lookup) → ℤ → RequestInfo → ℕ → List SendRun → List Round → Opened
forward_connect_tunnel lookup client_fd req errno greets rounds = elim client_fd [
  | negsuc n ↦ not_opened einval [] []
  | pos fd ↦
      let c = connect_upstream (lookup req.host (upstream_port req)) errno none in
      if is_empty req.host then not_opened einval [] [] else elim c.upstream [
        | none ↦ not_opened c.errno c.closed []
        | some upstream_fd ↦ greet greets rounds upstream_fd c.errno c.closed
      ]
]
