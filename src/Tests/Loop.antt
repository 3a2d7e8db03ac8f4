-- ===== src/Tests/Loop.antt =====
-- Tests of the loop that accepts clients and of the main loop.
use hpserver.Prelude.{
  ℕ, ◌^◌, ◌<◌, ◌≡◌, ◌⊎◌, pos, refl, arith, ◌==◌, true, false, some, none, Option, List, [], ◌∷◌,
  ◌++◌, Bytes, codes, if◌then◌else◌,
}
use hpserver.Os.{Send, Result, eagain, eintr}
use hpserver.Http.Builder.{
  build_forbidden_response, build_plain_text_response, sanitize_header_token, sanitize_body,
}
use hpserver.Http.Llhttp.{Llhttp, Errno, Code}
use hpserver.Http.RequestParser.{Event}
use hpserver.Http.HttpConn.{http_conn}
use hpserver.Net.IpFilter.{IpFilter, ip_filter, is_blocked, add_ip, add_lines, add_cidr}
use hpserver.Net.IpFilter.Laws as Filter
use hpserver.Text.{find, to_string}
use hpserver.Util.Timer.{
  tick, discard_stale_top, contains, remove, add, push, erase, assign, maybe_compact_heap,
  tick_rounds, drop_stale,
}
use hpserver.Util.Timer.{find as find_entry}
use hpserver.Server.{set_at, refresh_client_timeout, init, accept_client}
use hpserver.Server.Clients.{next_timeout, served_start}
use hpserver.Server.Accept.{
  Client, Arrival, client, refused, rejection, Accepted, accept_turn, accept_one, accept_clients,
  send_response,
}
use hpserver.Server.Accept.Admission as Admission
use hpserver.Server.Accept.Admission.{lets_in, turned_away, clients_of}
use hpserver.Server.Accept.Blacklist as Blacklist
use hpserver.Server.Loop.{
  Ready, wait_fails, wait_returns, Turn, turns, handle_event, handle_events, after_wait, Listening,
  run_turns, take_turn,
}
use hpserver.Server.Loop.InTime as InTime

abbrev fine : Errno
fine = record { code = Code.hpe_ok; errno_name = codes "HPE_OK"; reason = none }

-- A library that finds nothing.
abbrev silent : Llhttp Event
silent = record {
  Parser = ℕ;
  init = 0;
  reset = λ n. 0;
  execute = λ bytes n. ([], (fine, n));
  finish = λ n. ([], (fine, n));
  resume_after_upgrade = λ n. n;
}

abbrev filter : IpFilter
filter = ip_filter 8

filter-IsValid : Filter.IsValid filter
filter-IsValid = Filter.ip_filter-IsValid 8 (omega arith)

abbrev client_of : ℕ → ℕ → Client
client_of fd ip = record {
  fd = fd;
  ip = ip;
  flags = record { get = Result.returned 2; store = Result.returned 0 };
  added = true;
  sends = Send.refused eintr ∷ Send.room 20 ∷ Send.room 0 ∷ [];
}

abbrev begin : Accepted silent
begin = record { server = init silent; closed = []; sent = [] }

-- One client comes in, and the descriptor of another is too large.
abbrev arrivals : List Arrival
arrivals = client (client_of 7 5) ∷ refused eintr ∷ client (client_of 70000 5) ∷ refused eagain ∷ []

abbrev after : Accepted silent
after = record {
  server = accept_client silent 0 7 false true (init silent);
  closed = 70000 ∷ [];
  sent = [];
}

unblocked : is_blocked filter 5 ≡ false
unblocked = Filter.is_blocked-ip_filter 8 5 (omega arith) (omega arith)

arrived : accept_clients silent filter 0 arrivals begin ≡ some after
unfolding accept_clients
arrived = rw (accept_clients, unblocked, accept_turn) (rw (accept_one, unblocked, accept_turn) refl)

accept_clients_lem_example :
    ((fd : ℕ)
      → after.server.connections fd ≡ (
          if lets_in filter fd (clients_of arrivals)
          then some (http_conn silent (some fd))
          else none))
    × (after.closed ≡ [] ++ turned_away filter (clients_of arrivals))
accept_clients_lem_example =
    Admission.accept_clients_lem silent filter 0 arrivals begin after arrived

-- An `inet_pton` that knows one text.
abbrev pton : Bytes → Option ℕ
pton [] = none
pton (c ∷ text) = if c == b'7' then some 0x07070707 else none

pton_in_32_bits : (text : Bytes) (ip : ℕ) → pton text ≡ some ip → ip < 2 ^ 32
pton_in_32_bits [] ip e = absurd (ground arith)
pton_in_32_bits (c ∷ text) ip e = ground (arith, e)

abbrev listed : IpFilter
listed = add_ip filter 0x07070707

abbrev seven : Client
seven = client_of 7 0x07070707

seven_blocked : is_blocked listed 0x07070707 ≡ true
seven_blocked = ground (
  arith,
  Filter.is_blocked-add_ip filter 0x07070707 0x07070707 (omega arith) (omega arith) filter-IsValid,
)

abbrev left : Accepted silent
left = record begin { closed = 7 ∷ []; sent = (7, codes "HTTP/1.1 403 Forbidd") ∷ [] }

turned : accept_one silent listed 0 seven begin ≡ some left
unfolding send_response build_forbidden_response build_plain_text_response sanitize_header_token
    to_string sanitize_body
turned = rw (seven_blocked, accept_one, accept_turn) refl

accept_one-blacklisted_example :
    (left.server ≡ begin.server)
    × (left.closed ≡ [] ++ (7 ∷ []))
    × (bytes : Bytes) × (left.sent ≡ [] ++ ((7, bytes) ∷ []))
    × Blacklist.IsPrefix bytes rejection
unfolding add_lines add_cidr find
accept_one-blacklisted_example =
    Blacklist.accept_one-blacklisted silent pton pton_in_32_bits filter listed
      (codes "# comment" ∷ []) (codes "7.7.7.7") [] 0 seven begin left refl refl refl filter-IsValid
      refl turned

abbrev listening : Listening
listening = record { server_fd = 3; proxy_event_fd = 9; ip_filter = filter }

abbrev ready : ℕ → Ready
ready fd = record {
  fd = fd;
  events = record { broken = true; writable = false; readable = true };
  now = 0;
  arrivals = arrivals;
  runs = λ i. record { sends = []; modified = true };
  run = record { sends = []; modified = true };
  recvs = [];
  accepted = true;
}

-- The clients, and then nothing until the time of the client is up.
abbrev rounds : List Turn
rounds = turns (λ i. 0) 0 wait_fails ∷ turns (λ i. 0) 0 (wait_returns (ready 3 ∷ []) (λ i. 1)) ∷ []

handled : handle_event silent (λ e. []) listening (ready 3) begin ≡ some after
unfolding handle_event
handled = arrived

handled_all : handle_events silent (λ e. []) listening (ready 3 ∷ []) begin ≡ some after
unfolding handle_events
handled_all = rw (handle_events, handled) refl

ran : run_turns silent (λ e. []) listening rounds begin ≡ some after
unfolding run_turns after_wait set_at refresh_client_timeout tick discard_stale_top remove add push
    find_entry erase assign maybe_compact_heap tick_rounds drop_stale contains
ran = rw (run_turns, handled_all) refl

asked : next_timeout silent (λ i. 1) 1 after.server ≡ some (after.server, (pos 14999))
unfolding set_at refresh_client_timeout tick discard_stale_top remove add push find_entry erase
    assign maybe_compact_heap tick_rounds drop_stale contains
asked = refl

take_turn-IsInTime_example :
    (b : Accepted silent) × (take_turn silent
        (λ e. [])
        listening
        (turns (λ i. 1) 1 (wait_returns [] (λ i. 10 ^ 15)))
        after
      ≡ some b)
    × ((fd : ℕ) → (b.server.connections fd ≡ none) ⊎ InTime.IsInTime silent (10 ^ 15) fd b.server)
unfolding handle_events
take_turn-IsInTime_example =
    InTime.take_turn-IsInTime silent (λ e. []) listening rounds begin after after (λ i. 1)
      (λ i. 10 ^ 15) 1 after.server (pos 14999) [] served_start ran asked refl (λ i. omega arith)
