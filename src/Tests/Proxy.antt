-- ===== src/Tests/Proxy.antt =====
-- Tests of the proxy.
use hpserver.Prelude.{
  ℕ, ◌≡◌, ◌≢◌, ◌||◌, ◌⊎◌, arith, true, false, none, some, List, [], ◌∷◌, ◌=?◌, codes,
}
use hpserver.Os.{Recv, Send, Result, eagain, einprogress}
use hpserver.Http.Request.{RequestInfo, blank_request}
use hpserver.Http.Llhttp.{Llhttp, Errno, Code}
use hpserver.Http.ResponseParser.{Event}
use hpserver.Net.Proxy.{Wait, WaitRun}
use hpserver.Net.Proxy.Connect.{Candidate, resolved, connect_upstream}
use hpserver.Net.Proxy.Forward.{Attempt, AttemptRun, Forwarded, forward_request}
use hpserver.Net.Proxy.Tunnel.{Tunnel, Round, Poll, fresh, relay, returned}
use hpserver.Net.Proxy.Owned as Owned
use hpserver.Net.Proxy.Attempts as Attempts
use hpserver.Net.Proxy.Retries as Retries
use hpserver.Net.Proxy.Relay as Relay
use hpserver.Net.Proxy.Completion as Completion

abbrev ready : WaitRun
ready = record { poller = Result.returned 9; added = Result.returned 0; waits = Wait.ready 4 ∷ [] }

abbrev late : WaitRun
late = record { poller = Result.returned 9; added = Result.returned 0; waits = Wait.timed_out ∷ [] }

-- An address that refuses, and one that connects after a wait.
abbrev refusing : Candidate
refusing = record {
  socket = Result.returned 7;
  connect = Result.failed 111;
  wait = ready;
  get_option = Result.returned 0;
  so_error = 0;
}

abbrev slow : Candidate
slow = record refusing { socket = Result.returned 8; connect = Result.failed einprogress }

connect_upstream-AreOwned_example :
    Owned.AreOwned
      (3 ∷ [])
      (refusing ∷ slow ∷ [])
      (connect_upstream (resolved (refusing ∷ slow ∷ [])) 0 (some 3))
connect_upstream-AreOwned_example =
    Owned.connect_upstream-AreOwned (refusing ∷ slow ∷ []) 0 (some 3)

-- One side says hello and ends, then the other one does.
abbrev first_round : Round
first_round = record {
  upstream_sends = [];
  client_sends = [];
  poll =
      Poll.ready (record { broken = false; readable = true })
        (record { broken = false; readable = false });
  client_recvs = Recv.received 104 (codes "i") ∷ Recv.ended ∷ [];
  upstream_recvs = [];
}

abbrev second_round : Round
second_round = record {
  upstream_sends = Send.room 1 ∷ Send.room 1 ∷ [];
  client_sends = [];
  poll =
      Poll.ready (record { broken = false; readable = false })
        (record { broken = false; readable = true });
  client_recvs = [];
  upstream_recvs = Recv.received 111 (codes "k") ∷ Recv.ended ∷ [];
}

abbrev third_round : Round
third_round = record first_round { client_sends = Send.room 4 ∷ [] }

abbrev three_rounds : List Round
three_rounds = first_round ∷ second_round ∷ third_round ∷ []

relay-Relayed_example : Relay.Relayed (relay three_rounds (fresh 0))
relay-Relayed_example = Relay.relay-Relayed three_rounds 0

abbrev fine : Errno
fine = record { code = Code.hpe_ok; errno_name = codes "HPE_OK"; reason = none }

-- A library that finds a whole message in all bytes.
abbrev whole : Llhttp Event
whole = record {
  Parser = ℕ;
  init = 0;
  reset = λ n. 0;
  execute = λ bytes n. (Event.message_end ∷ [], (fine, 1));
  finish = λ n. ([], (fine, n));
  resume_after_upgrade = λ n. n;
}

abbrev get : RequestInfo
get = record blank_request {
  method = codes "GET";
  url = codes "/";
  version = codes "1.1";
  host = codes "a";
  port = 80;
}

-- No address answers in time; and one takes the request and answers.
abbrev timed_out : AttemptRun
timed_out = record {
  errno = 0;
  lookup = resolved (record slow { wait = late } ∷ []);
  sends = [];
  recvs = [];
}

abbrev answered : AttemptRun
answered = record {
  errno = 0;
  lookup = resolved (slow ∷ []);
  sends = (Send.room 9, ready) ∷ (Send.refused eagain, ready) ∷ (Send.room 4096, ready) ∷ [];
  recvs = (Recv.refused eagain, ready) ∷ (Recv.received 72 (codes "TTP"), ready) ∷ [];
}

abbrev forwarded : Forwarded
forwarded = forward_request whole get timed_out answered

forward_request-attempts_example :
    let refused = get.method =? [] || (get.host =? [] || get.is_connect) in
    ((refused ≡ true)
      × (forwarded.attempts ≡ [])
      × (forwarded.ok ≡ false)
      × (forwarded.out_response ≡ [])
      × (forwarded.out_errno ≡ 22))
    ⊎ ((refused ≡ false)
        × (a : Attempt) × (((forwarded.attempts ≡ a ∷ [])
              × ((a.ok ≡ true) ⊎ ((a.final_errno ≢ 110) × (a.final_errno ≢ 104)))
              × Retries.Concludes whole a forwarded)
            ⊎ ((b : Attempt) × (forwarded.attempts ≡ a ∷ b ∷ [])
                × (a.ok ≡ false)
                × ((a.final_errno ≡ 110) ⊎ (a.final_errno ≡ 104))
                × Retries.Concludes whole b forwarded)))
forward_request-attempts_example = Retries.forward_request-attempts whole get timed_out answered

-- One side says hi in two pieces, and the other one ok.
relay-returns_example :
    (t : Tunnel) × (relay
        (Completion.talk ((104, []) ∷ (105, []) ∷ []) ((111, codes "k") ∷ [])
          ∷ Completion.listen 2 9
          ∷ [])
        (fresh 0)
      ≡ returned true t)
    × (t.to_upstream ≡ codes "hi")
    × (t.to_client ≡ codes "ok")
relay-returns_example =
    Completion.relay-returns ((104, []) ∷ (105, []) ∷ []) ((111, codes "k") ∷ []) 2 9 0
      (omega arith) (omega arith)
