-- ===== src/Server/Idle.antt =====
-- What the single operations of the table leave.
use hpserver.Prelude.{
  ℕ, ◌≡◌, ◌∙◌, refl, ap, arith, true, false, ltb, ◌==◌, ==_iff, none, some, Bool-cases,
  Option-cases, inl, inr, pos,
}
use hpserver.Http.Llhttp.{Llhttp}
use hpserver.Http.RequestParser.{Event}
use hpserver.Http.HttpConn.{HttpConn}
use hpserver.Util.Timer.{find, contains}
use hpserver.Util.Timer.Live.{IsValid, add-IsValid, adjust-IsValid, remove-IsValid}
use hpserver.Util.Timer.Keep.{find-remove, find-add, find-adjust}
use hpserver.Server.{
  Hpserver, set_at, max_fd, client_idle_timeout_ms, client_at, close_client, refresh_client_timeout,
  put_conn,
}

module _ (lib : Llhttp Event) where
  -- Nothing is in flight, no flag is set, and no timer runs.
  abbrev pub IsIdle : ℕ → Hpserver lib → Type 0
  IsIdle fd s =
      (s.proxy_inflight fd ≡ false)
      × (s.close_after_flush fd ≡ false)
      × (find fd s.connection_timer.entries ≡ none)

  abbrev pub IsClean : Hpserver lib → Type 0
  IsClean s = IsValid s.connection_timer × ((fd : ℕ) → s.connections fd ≡ none → IsIdle fd s)

  pub client_at-some :
      (fd : ℕ) (s : Hpserver lib) (c : HttpConn lib)
      → client_at lib fd s ≡ some c
      → (ltb fd max_fd ≡ true) × (s.connections fd ≡ some c)
  client_at-some fd s c e = elim (Bool-cases (ltb fd max_fd)) [
    | inl l ↦ (l, rw l at e)
    | inr l ↦ absurd (ground (arith, rw l at e))
  ]

  pub put_conn-IsClean :
      (fd : ℕ) (c : HttpConn lib) (s : Hpserver lib) → IsClean s → IsClean (put_conn lib fd c s)
  unfolding set_at
  put_conn-IsClean fd c s (v, i) = (
    v,
    (λ k e. elim (Bool-cases (k == fd)) [
      | inl q ↦ absurd (ground (arith, rw q at e))
      | inr q ↦ i k (rw q at e)
    ]),
  )

  pub close_client-IsClean :
      (fd : ℕ) (s : Hpserver lib) → IsClean s → IsClean (close_client lib fd s)
  unfolding close_client set_at
  close_client-IsClean fd s (v, i) = elim (Bool-cases (ltb fd max_fd)) [
    | inl l ↦ rw l (
      remove-IsValid fd s.connection_timer v,
      (λ k e. elim (Bool-cases (k == fd)) [
        | inl q ↦ rw q (
          refl,
          refl,
          find-remove fd k s.connection_timer v.1 ∙ ground (arith, q, ==_iff k fd, ==_iff fd k),
        )
        | inr q ↦
            let j = i k (rw q at e) in
            rw q (j.0, j.1, find-remove fd k s.connection_timer v.1 ∙ ground (arith, j.2))
      ]),
    )
    | inr l ↦ rw l (
      remove-IsValid fd s.connection_timer v,
      (λ k e.
          let j = i k e in
          (j.0, j.1, find-remove fd k s.connection_timer v.1 ∙ ground (arith, j.2))),
    )
  ]

  -- The timer of a connection does not touch the descriptors without one.
  pub other :
      (fd k : ℕ) (s : Hpserver lib) (c : HttpConn lib)
      → s.connections fd ≡ some c
      → s.connections k ≡ none
      → fd == k ≡ false
  other fd k s c e n = elim (Bool-cases (fd == k)) [
    | inl q ↦ absurd (ground (arith, e, n, ap s.connections ((==_iff fd k).0 q)))
    | inr q ↦ q
  ]

  pub refresh_client_timeout-IsClean :
      (now fd : ℕ) (s : Hpserver lib) → IsClean s → IsClean (refresh_client_timeout lib now fd s)
  unfolding refresh_client_timeout
  refresh_client_timeout-IsClean now fd s (v, i) = elim (Option-cases (client_at lib fd s)) [
    | inl n ↦ rw (n, refresh_client_timeout) (v, i)
    | inr (c, e) ↦
        let found = (client_at-some fd s c e).1 in
        elim (Bool-cases (contains fd s.connection_timer)) [
          | inl h ↦
              rw (e, refresh_client_timeout, h)
                (
                  adjust-IsValid fd client_idle_timeout_ms now s.connection_timer v,
                  (λ k n.
                      let j = i k n in
                      (
                        j.0,
                        j.1,
                        find-adjust fd client_idle_timeout_ms now k s.connection_timer
                              (other fd k s c found n)
                            ∙ j.2,
                      )),
                )
          | inr h ↦
              rw (e, refresh_client_timeout, h)
                (
                  add-IsValid (pos fd) client_idle_timeout_ms fd now s.connection_timer v,
                  (λ k n.
                      let j = i k n in
                      (
                        j.0,
                        j.1,
                        find-add fd client_idle_timeout_ms fd now k s.connection_timer
                              (other fd k s c found n)
                            ∙ j.2,
                      )),
                )
        ]
  ]
