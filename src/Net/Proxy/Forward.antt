-- ===== src/Net/Proxy/Forward.antt =====
-- `http_proxy::forward_request`.
use hpserver.Prelude.{
  ℕ, ◌+◌, Bool, true, false, not, ◌&&◌, ◌||◌, ◌==◌, ltb, none, some, List, [], ◌∷◌, ◌++◌,
  if◌then◌else◌, Bytes,
}
use hpserver.Os.{Recv, eintr, eagain, einval, eproto, econnreset, etimedout}
use hpserver.Http.Builder.{build_forward_proxy_request, is_empty}
use hpserver.Http.Request.{RequestInfo}
use hpserver.Http.Llhttp.{Llhttp}
use hpserver.Http.ResponseParser.{
  Event, HttpResponseParser, blank_parser, parse, finish, is_message_complete,
}
use hpserver.Net.Proxy.{WaitRun, wait_fd, SendRun, send_all_nonblocking}
use hpserver.Net.Proxy.Connect.{Lookup, connect_upstream}

abbrev pub max_partial_read_timeout_retries : ℕ
max_partial_read_timeout_retries = 5

-- A `recv`, with the wait behind it if it would block.
abbrev pub RecvRun : Type 0
RecvRun = Recv × WaitRun

-- `ok`, `out_response` and `final_errno` of an attempt, and the socket that it closes.
pub record Attempt : Type 0 where
  pub ok : Bool
  pub out_response : Bytes
  pub final_errno : ℕ
  pub closed : List ℕ
  pub sent : Bytes

-- What the system calls of an attempt do, and `errno` at its start.
pub record AttemptRun : Type 0 where
  pub errno : ℕ
  pub lookup : Lookup
  pub sends : List SendRun
  pub recvs : List RecvRun

pub record Received : Type 0 where
  pub ok : Bool
  pub out_response : Bytes
  pub final_errno : ℕ

abbrev pub ending : Bool → Bytes → ℕ → Received
ending ok out_response final_errno = record {
  ok = ok;
  out_response = out_response;
  final_errno = final_errno;
}

-- What `forward_request` returns, with `out_response`, `*out_errno`, and its attempts.
pub record Forwarded : Type 0 where
  pub ok : Bool
  pub out_response : Bytes
  pub out_errno : ℕ
  pub attempts : List Attempt

abbrev pub is_transient : ℕ → Bool
is_transient e = e == etimedout || e == econnreset

abbrev pub concluded : Attempt → List Attempt → Forwarded
concluded a attempts = record {
  ok = a.ok;
  out_response = a.out_response;
  out_errno = if a.ok then 0 else a.final_errno;
  attempts = attempts;
}

module _ (lib : Llhttp Event) where
  -- The end of the stream.
  abbrev pub at_end : HttpResponseParser → lib.Parser → Bytes → ℕ → Received
  at_end p parser out final_errno =
      let (ok, (p', parser')) = finish lib p parser in
      if is_message_complete p
      then ending true out final_errno
      else if ok
      then ending true out final_errno
      else ending false out econnreset

  -- The loop of `recv`. `retries` is `partial_read_timeout_retries`. At the end each wait times out,
  -- and so the retries run out.
  unfoldable pub receive : List RecvRun → HttpResponseParser → lib.Parser → ℕ → Bytes → ℕ → Received
  receive [] p parser retries out final_errno = ending false out etimedout
  receive ((Recv.received c cs, wait) ∷ recvs) p parser retries out final_errno =
      let (ok, (p', parser')) = parse lib (c ∷ cs) p parser in
      let rest = receive recvs p' parser' 0 (out ++ (c ∷ cs)) final_errno in
      if not ok
      then ending false (out ++ (c ∷ cs)) eproto
      else if is_message_complete p'
      then ending true (out ++ (c ∷ cs)) final_errno
      else rest
  receive ((Recv.ended, wait) ∷ recvs) p parser retries out final_errno =
      at_end p parser out final_errno
  receive ((Recv.refused e, wait) ∷ recvs) p parser retries out final_errno =
      let waited = wait_fd e wait in
      let rest = receive recvs p parser retries out final_errno in
      let again = receive recvs p parser (retries + 1) out final_errno in
      if e == eintr
      then rest
      else if not (e == eagain)
      then ending false out e
      else if waited.ok
      then rest
      else if waited.errno == etimedout
          && (not (is_empty out)
              && (not (is_message_complete p) && ltb retries max_partial_read_timeout_retries))
      then again
      else ending false out waited.errno

  -- On a connection: the payload, and the response to it.
  abbrev pub exchange : ℕ → Bytes → ℕ → AttemptRun → ℕ → List ℕ → Attempt
  exchange fd forward errno run final_errno closed =
      let s = send_all_nonblocking run.sends errno forward in
      let r = receive run.recvs blank_parser lib.init 0 [] final_errno in
      if s.ok
      then record {
        ok = r.ok;
        out_response = r.out_response;
        final_errno = r.final_errno;
        closed = closed ++ (fd ∷ []);
        sent = s.out;
      }
      else record {
        ok = false;
        out_response = [];
        final_errno = s.errno;
        closed = closed ++ (fd ∷ []);
        sent = s.out;
      }

  abbrev pub attempt : Bytes → AttemptRun → ℕ → Attempt
  attempt forward run final_errno =
      let c = connect_upstream run.lookup run.errno none in
      elim c.upstream [
        | none ↦ record {
          ok = false;
          out_response = [];
          final_errno = c.errno;
          closed = c.closed;
          sent = [];
        }
        | some fd ↦ exchange fd forward c.errno run final_errno c.closed
      ]

  -- `first` and `second` are what the system calls of the attempts do.
  unfoldable pub forward_request : RequestInfo → AttemptRun → AttemptRun → Forwarded
  forward_request req first second =
      let forward = build_forward_proxy_request req in
      let a = attempt forward first 0 in
      let b = attempt forward second a.final_errno in
      if is_empty forward
      then record { ok = false; out_response = []; out_errno = einval; attempts = [] }
      else if not a.ok && is_transient a.final_errno
      then concluded b (a ∷ b ∷ [])
      else concluded a (a ∷ [])
