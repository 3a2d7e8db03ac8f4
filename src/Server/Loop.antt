-- ===== src/Server/Loop.antt =====
-- src/hpserver.cpp: the main loop of `listen`. A turn takes what `epoll_wait` returns; every event brings the
-- outcomes of the calls that its handler makes. `none` says that a list of outcomes is too
-- short. The workers of the pools end their tasks between the turns.
pub mod Refine
pub mod InTime
use hpserver.Prelude.{
  ℕ, zero, suc, ◌≡◌, ◌==◌, Bool, true, false, Option, none, some, List, [], ◌∷◌, ◌++◌,
  if◌then◌else◌, Bytes, ℤ,
}
use hpserver.Os.{Recv}
use hpserver.Http.Llhttp.{Llhttp}
use hpserver.Http.RequestParser.{Event}
use hpserver.Net.IpFilter.{IpFilter}
use hpserver.Server.{Hpserver, Job, FlushRun}
use hpserver.Server.Clients.{
  ClientEvents, client_event, drain_proxy_done_events, tick_timer, next_timeout, finish_job,
}
use hpserver.Server.Accept.{Arrival, Accepted, accept_clients}

-- An event, with the outcomes for each of the handlers.
pub record Ready : Type 0 where
  pub fd : ℕ
  pub events : ClientEvents
  pub now : ℕ
  pub arrivals : List Arrival
  pub runs : ℕ → FlushRun
  pub run : FlushRun
  pub recvs : List Recv
  pub accepted : Bool

-- The end of the task at a place of the pools' tasks, and its result.
pub record Finished : Type 0 where
  pub place : ℕ
  pub ok : Bool
  pub err : ℕ
  pub response : Bytes

-- What `poller::wait` returns.
pub data Waited : Type 0 where
  wait_fails : Waited
  wait_returns : List Ready → (ℕ → ℕ) → Waited

-- A turn of the loop, with the readings of the clock by `get_next_timeout_ms`, or the end of a task.
pub data Turn : Type 0 where
  turns : (ℕ → ℕ) → ℕ → Waited → Turn
  finishes : Finished → Turn

-- The task at a place, between the others.
abbrev pub task_at : ℕ → List Job → Option (List Job × Job × List Job)
task_at i [] = none
task_at zero (job ∷ jobs) = some ([], job, jobs)
task_at (suc i) (job ∷ jobs) =
    let found = task_at i jobs in
    elim found [ none ↦ none | some (before, j, after) ↦ some (job ∷ before, j, after) ]

-- The descriptors that the loop tests, and the filter.
pub record Listening : Type 0 where
  pub server_fd : ℕ
  pub proxy_event_fd : ℕ
  pub ip_filter : IpFilter

module _ (lib : Llhttp Event) (strerror : ℕ → Bytes) (l : Listening) where
  abbrev pub with_server : Option (Hpserver lib) → Accepted lib → Option (Accepted lib)
  with_server none a = none
  with_server (some s) a = some (record a { server = s })

  unfoldable pub handle_event : Ready → Accepted lib → Option (Accepted lib)
  handle_event e a =
      if e.fd == l.server_fd
      then accept_clients lib l.ip_filter e.now e.arrivals a
      else if e.fd == l.proxy_event_fd
      then with_server (drain_proxy_done_events lib strerror e.runs e.now a.server) a
      else with_server (client_event lib e.events e.run e.recvs e.accepted e.now e.fd a.server) a

  unfoldable pub handle_events : List Ready → Accepted lib → Option (Accepted lib)
  handle_events [] a = some a
  handle_events (e ∷ es) a = elim (handle_event e a) [ none ↦ none | some a' ↦ handle_events es a' ]

  unfoldable pub after_wait : Waited → Accepted lib → Option (Accepted lib)
  after_wait wait_fails a = some a
  after_wait (wait_returns es clock) a = elim (handle_events es a) [
    | none ↦ none
    | some a' ↦ with_server (tick_timer lib clock a'.server) a'
  ]

  abbrev pub waited : Waited → Option (Hpserver lib × ℤ) → Accepted lib → Option (Accepted lib)
  waited w none a = none
  waited w (some (s, timeout_ms)) a = after_wait w (record a { server = s })

  abbrev pub finished :
      Finished → Option (List Job × Job × List Job) → Accepted lib → Option (Accepted lib)
  finished f none a = none
  finished f (some (before, job, after)) a =
      some (record a { server = finish_job lib before job after f.ok f.err f.response a.server })

  abbrev pub take_turn : Turn → Accepted lib → Option (Accepted lib)
  take_turn (turns clock now w) a = waited w (next_timeout lib clock now a.server) a
  take_turn (finishes f) a = finished f (task_at f.place a.server.jobs) a

  unfoldable pub run_turns : List Turn → Accepted lib → Option (Accepted lib)
  run_turns [] a = some a
  run_turns (t ∷ ts) a = elim (take_turn t a) [ none ↦ none | some a' ↦ run_turns ts a' ]
