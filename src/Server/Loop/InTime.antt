-- ===== src/Server/Loop/InTime.antt =====
-- The tick of a turn of the main loop, and the times of the clients.
use hpserver.Prelude.{
  ℕ, ◌≡◌, ◌≤◌, ◌<◌, ◌⊎◌, ltb, length, refl, sym, subst, arith, none, some, List, Bool-cases,
  Option-cases, inl, inr, Bytes, ℤ,
}
use hpserver.Http.Llhttp.{Llhttp}
use hpserver.Http.RequestParser.{Event}
use hpserver.Server.{Hpserver, on_timeout, close_client, client_at, max_fd}
use hpserver.Server.Clean.{Served-IsClean, Served-IsTimed}
use hpserver.Util.Timer.{Timer, Entry, find, remove}
use hpserver.Util.Timer.Live.{IsValid, remove-IsValid}
use hpserver.Util.Timer.Early.{remove-length}
use hpserver.Util.Timer.Tick.{IsMild, AreAfter, tick-Settled}
use hpserver.Server.Clients.{
  call_timeout, tick_timer, next_timeout, Served, served_step, tick_step, wait_step,
}
use hpserver.Server.Accept.{Accepted}
use hpserver.Server.Loop.{
  Ready, wait_returns, Turn, turns, Listening, with_server, handle_events, after_wait, take_turn,
  run_turns,
}
use hpserver.Server.Loop.Refine.{run_turns-Served, handle_events-Served}

module _ (lib : Llhttp Event) where
  -- A timeout leaves the timer as it is, or takes its descriptor out.
  on_timeout-timer :
      (fd : ℕ) (s : Hpserver lib)
      → ((on_timeout lib fd s).connection_timer ≡ s.connection_timer)
        ⊎ ((on_timeout lib fd s).connection_timer ≡ remove fd s.connection_timer)
  unfolding on_timeout close_client
  on_timeout-timer fd s = elim (Option-cases (client_at lib fd s)) [
    | inl n ↦ inl (rw (n, on_timeout) refl)
    | inr (c, n) ↦ inr (
        rw (n, on_timeout)
          (elim (Bool-cases (ltb fd max_fd)) [
            | inl l ↦ rw (l, close_client) refl
            | inr l ↦ rw (l, close_client) refl
          ]))
  ]

  call_timeout-IsMild : (clock : ℕ → ℕ) → IsMild (call_timeout lib) clock
  call_timeout-IsMild clock fd t s v =
      let P : Timer ℕ → Type 0 = λ u. IsValid u × (length u.heap ≤ length t.heap) in
      elim (on_timeout-timer fd (record s { connection_timer = t })) [
        | inl q ↦ subst P (sym q) (v, omega arith)
        | inr q ↦ subst P (sym q) (remove-IsValid fd t v, remove-length fd t)
      ]

  -- The tick of a server ends, and leaves no entry that was due at its first reading of the clock.
  tick_timer-AreAfter :
      (clock : ℕ → ℕ) (s : Hpserver lib)
      → IsValid s.connection_timer
      → ((i : ℕ) → clock 0 ≤ clock i)
      → (s' : Hpserver lib) × (tick_timer lib clock s ≡ some s')
        × AreAfter (clock 0) s'.connection_timer
  tick_timer-AreAfter clock s v up =
      let (r, q, w, after) =
        tick-Settled (call_timeout lib) clock (call_timeout-IsMild clock) up s.connection_timer s
          v in
      (record r.1 { connection_timer = r.0 }, rw (q, tick_timer) refl, after)

  -- A client at a descriptor, whose timer expires after a time.
  abbrev pub IsInTime : ℕ → ℕ → Hpserver lib → Type 0
  IsInTime time fd s =
      (e : Entry ℕ) × (find fd s.connection_timer.entries ≡ some e)
      × (e.callback ≡ fd)
      × (time < e.expires_at)

  module _ (strerror : ℕ → Bytes) (l : Listening) where
    -- After any turns of the main loop, the questions to the timer and the ends of tasks among them, a
    -- turn whose question to the timer is answered, and whose `epoll_wait` returns events that are
    -- handled, ends as well, if the clock never reads less than at first. It closes every client whose time is up at that first reading of its tick: each
    -- descriptor has then no connection, or a timer of its own that expires later.
    pub take_turn-IsInTime :
        (ts : List Turn) (a a' m : Accepted lib) (asked clock : ℕ → ℕ) (now : ℕ) (s : Hpserver lib)
        (ms : ℤ) (es : List Ready)
        → Served lib a.server
        → run_turns lib strerror l ts a ≡ some a'
        → next_timeout lib asked now a'.server ≡ some (s, ms)
        → handle_events lib strerror l es (record a' { server = s }) ≡ some m
        → ((i : ℕ) → clock 0 ≤ clock i)
        → (b : Accepted lib) × (take_turn lib strerror l
              (turns asked now (wait_returns es clock))
              a'
            ≡ some b)
          × ((fd : ℕ) → (b.server.connections fd ≡ none) ⊎ IsInTime (clock 0) fd b.server)
    unfolding after_wait
    take_turn-IsInTime ts a a' m asked clock now s ms es r q n h up =
        let before = run_turns-Served lib strerror l ts a a' q r in
        let middle =
          handle_events-Served lib strerror l es (record a' { server = s }) m h
            (served_step a'.server s before (wait_step asked now a'.server s ms n)) in
        let (s', k, after) =
          tick_timer-AreAfter clock m.server (Served-IsClean lib m.server middle).0 up in
        let timed =
          Served-IsTimed lib s' (served_step m.server s' middle (tick_step clock m.server s' k)) in
        let b : Accepted lib = record m { server = s' } in
        let ends : take_turn lib strerror l (turns asked now (wait_returns es clock)) a' ≡ some b =
          rw (n, take_turn) (rw (h, after_wait) (rw (k, with_server) refl)) in
        (
          b,
          ends,
          λ fd. elim (timed fd) [
            | inl e ↦ inl e
            | inr (e, f, c, room) ↦ inr (e, f, c, after fd e f)
          ],
        )
