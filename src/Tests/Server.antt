-- ===== src/Tests/Server.antt =====
-- Tests of the server: a client comes, is flushed, and hangs up.
use hpserver.Prelude.{ℕ, refl, true, false, none, [], codes}
use hpserver.Http.Llhttp.{Llhttp, Errno, Code}
use hpserver.Http.RequestParser.{Event}
use hpserver.Server.{Hpserver, FlushRun, init, accept_client, close_client}
use hpserver.Server.Clients.{
  ClientEvents, Served, served_start, served_step, accept_step, client_step,
}
use hpserver.Server.Idle.{IsClean}
use hpserver.Server.Timed.{IsTimed}
use hpserver.Server.Clean as Clean

abbrev fine : Errno
fine = record { code = Code.hpe_ok; errno_name = codes "HPE_OK"; reason = none }

-- A library that finds nothing.
abbrev silent : Llhttp Event
silent = record {
  Parser = ℕ;
  init = 0;
  reset = λ n. 0;
  execute = λ bytes n. ([], (fine, n));
  finish = λ n. ([], (fine, n));
  resume_after_upgrade = λ n. n;
}

abbrev accepted : Hpserver silent
accepted = accept_client silent 0 7 false true (init silent)

abbrev flushes : FlushRun
flushes = record { sends = []; modified = true }

abbrev hang_up : ClientEvents
hang_up = record { broken = true; writable = false; readable = true }

abbrev gone : Hpserver silent
gone = close_client silent 7 accepted

served : Served silent gone
served =
    served_step accepted gone
      (served_step (init silent) accepted served_start (accept_step 0 7 false true (init silent)))
      (client_step hang_up flushes [] true 9 7 accepted gone refl)

Served-IsClean_example : IsClean silent gone
Served-IsClean_example = Clean.Served-IsClean silent gone served

Served-IsTimed_example : IsTimed silent accepted
Served-IsTimed_example =
    Clean.Served-IsTimed silent accepted
      (served_step (init silent) accepted served_start (accept_step 0 7 false true (init silent)))
