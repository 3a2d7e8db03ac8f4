-- ===== src/Server/Timed.antt =====
-- Every client has a timer, whose callback is for the client's descriptor.
use hpserver.Prelude.{
  ℕ, ◌≡◌, ◌∙◌, refl, sym, ap, subst, arith, true, false, ltb, ◌==◌, ==_iff, none, some, Bool-cases,
  Option-cases, inl, inr, ◌⊎◌, pos,
}
use hpserver.Http.Llhttp.{Llhttp}
use hpserver.Http.RequestParser.{Event}
use hpserver.Http.HttpConn.{HttpConn}
use hpserver.Util.Timer.{Entry, find, contains, add, adjust, remove}
use hpserver.Util.Timer.Keep.{find-remove, find-add, find-adjust, find-add_self, find-adjust_self}
use hpserver.Server.{
  Hpserver, set_at, max_fd, client_idle_timeout_ms, client_at, close_client, refresh_client_timeout,
  put_conn,
}
use hpserver.Server.Idle.{IsClean, client_at-some}

module _ (lib : Llhttp Event) where
  -- A timer runs at a descriptor of the table.
  abbrev pub HasTimer : ℕ → Hpserver lib → Type 0
  HasTimer k s =
      (e : Entry ℕ) × (find k s.connection_timer.entries ≡ some e)
      × (e.callback ≡ k)
      × (ltb k max_fd ≡ true)

  abbrev pub IsTimed : Hpserver lib → Type 0
  IsTimed s = (k : ℕ) → (s.connections k ≡ none) ⊎ HasTimer k s

  pub put_conn-IsTimed :
      (fd : ℕ) (c c' : HttpConn lib) (s : Hpserver lib)
      → s.connections fd ≡ some c
      → IsTimed s
      → IsTimed (put_conn lib fd c' s)
  unfolding set_at
  put_conn-IsTimed fd c c' s e t k = elim (t k) [
    | inr h ↦ inr h
    | inl n ↦ elim (Bool-cases (k == fd)) [
      | inl q ↦ absurd (ground (arith, e, n, ap s.connections ((==_iff k fd).0 q)))
      | inr q ↦ inl (rw q n)
    ]
  ]

  other_way : (k fd : ℕ) → k == fd ≡ false → fd == k ≡ false
  other_way k fd q = ground (arith, q, ==_iff k fd, ==_iff fd k)

  apart : (k fd : ℕ) → ltb k max_fd ≡ true → ltb fd max_fd ≡ false → fd == k ≡ false
  apart k fd l m = elim (Bool-cases (fd == k)) [
    | inl q ↦ absurd (cc (l, m, ap (λ x. ltb x max_fd) ((==_iff fd k).0 q)))
    | inr q ↦ q
  ]

  -- The timer of another descriptor is removed.
  removed :
      (fd k : ℕ) (e : Entry ℕ) (s : Hpserver lib)
      → IsClean lib s
      → fd == k ≡ false
      → find k s.connection_timer.entries ≡ some e
      → find k (remove fd s.connection_timer).entries ≡ some e
  removed fd k e s (v, i) q f = find-remove fd k s.connection_timer v.1 ∙ rw q f

  -- The other descriptors when a client of the table is closed.
  pub close_client-others :
      (fd : ℕ) (s : Hpserver lib)
      → ltb fd max_fd ≡ true
      → IsClean lib s
      → ((k : ℕ) → fd == k ≡ false → (s.connections k ≡ none) ⊎ HasTimer k s)
      → IsTimed (close_client lib fd s)
  unfolding close_client set_at
  close_client-others fd s l w t k = rw l (elim (Bool-cases (k == fd)) [
    | inl q ↦ inl (rw q refl)
    | inr q ↦ rw q (elim (t k (other_way k fd q)) [
      | inl n ↦ inl n
      | inr (e, f, c, m) ↦ inr (e, removed fd k e s w (other_way k fd q) f, c, m)
    ])
  ])

  pub close_client-IsTimed :
      (fd : ℕ) (s : Hpserver lib) → IsClean lib s → IsTimed s → IsTimed (close_client lib fd s)
  unfolding close_client set_at
  close_client-IsTimed fd s w t = elim (Bool-cases (ltb fd max_fd)) [
    | inl l ↦ close_client-others fd s l w (λ k q. t k)
    | inr l ↦ λ k. rw l (elim (t k) [
      | inl n ↦ inl n
      | inr (e, f, c, m) ↦ inr (e, removed fd k e s w (apart k fd m l) f, c, m)
    ])
  ]

  -- The timer of a descriptor starts again, and the timers of the others go on.
  adjusted :
      (now fd k : ℕ) (s : Hpserver lib)
      → HasTimer k s
      → HasTimer k
          (record s { connection_timer = adjust fd client_idle_timeout_ms now s.connection_timer })
  adjusted now fd k s (e, f, c, m) = elim (Bool-cases (fd == k)) [
    | inl q ↦
        let same = (==_iff fd k).0 q in
        let (g, h, d) = find-adjust_self k client_idle_timeout_ms now s.connection_timer e f in
        (
          g,
          subst
              (λ x.
                find k (adjust x client_idle_timeout_ms now s.connection_timer).entries ≡ some g)
              (sym same) h,
          d ∙ c,
          m,
        )
    | inr q ↦ (e, find-adjust fd client_idle_timeout_ms now k s.connection_timer q ∙ f, c, m)
  ]

  added :
      (now fd k : ℕ) (s : Hpserver lib)
      → ltb fd max_fd ≡ true
      → (fd == k ≡ false → HasTimer k s)
      → HasTimer k (record s {
        connection_timer = add (pos fd) client_idle_timeout_ms fd now s.connection_timer;
      })
  added now fd k s l h = elim (Bool-cases (fd == k)) [
    | inl q ↦
        let same = (==_iff fd k).0 q in
        let t = add (pos fd) client_idle_timeout_ms fd now s.connection_timer in
        let (g, f, c) = find-add_self fd client_idle_timeout_ms fd now s.connection_timer in
        subst
          (λ x.
            (e : Entry ℕ) × (find x t.entries ≡ some e) × (e.callback ≡ x) × (ltb x max_fd ≡ true))
          same (g, f, c, l)
    | inr q ↦
        let (e, f, c, m) = h q in
        (e, find-add fd client_idle_timeout_ms fd now k s.connection_timer q ∙ f, c, m)
  ]

  -- A refresh gives a client a timer, and leaves the others theirs.
  refreshed :
      (now fd : ℕ) (c : HttpConn lib) (s : Hpserver lib)
      → client_at lib fd s ≡ some c
      → ((k : ℕ) → fd == k ≡ false → (s.connections k ≡ none) ⊎ HasTimer k s)
      → (contains fd s.connection_timer ≡ true → HasTimer fd s)
      → IsTimed (refresh_client_timeout lib now fd s)
  unfolding refresh_client_timeout
  refreshed now fd c s e others own k = elim (Bool-cases (contains fd s.connection_timer)) [
    | inl h ↦
        rw (e, refresh_client_timeout, h)
          (elim (Bool-cases (fd == k)) [
            | inl q ↦
                inr (adjusted now fd k s (subst (λ x. HasTimer x s) ((==_iff fd k).0 q) (own h)))
            | inr q ↦ elim (others k q) [ inl n ↦ inl n | inr t ↦ inr (adjusted now fd k s t) ]
          ])
    | inr h ↦
        let (l, found) = client_at-some lib fd s c e in
        rw (e, refresh_client_timeout, h)
          (elim (Bool-cases (fd == k)) [
            | inl q ↦ inr (added now fd k s l (λ z. absurd (cc (q, z))))
            | inr q ↦ elim (others k q) [
              | inl n ↦ inl n
              | inr t ↦ inr (added now fd k s l (λ z. t))
            ]
          ])
  ]

  pub refresh_client_timeout-IsTimed :
      (now fd : ℕ) (s : Hpserver lib) → IsTimed s → IsTimed (refresh_client_timeout lib now fd s)
  unfolding refresh_client_timeout
  refresh_client_timeout-IsTimed now fd s t = elim (Option-cases (client_at lib fd s)) [
    | inl n ↦ rw (n, refresh_client_timeout) t
    | inr (c, e) ↦
        refreshed now fd c s e (λ k q. t k)
          (λ h. elim (t fd) [
            | inl n ↦ absurd (cc (n, (client_at-some lib fd s c e).1))
            | inr u ↦ u
          ])
  ]

  -- A new client, at a descriptor without a connection or in place of another client.
  pub accepted-IsTimed :
      (now fd : ℕ) (c : HttpConn lib) (s : Hpserver lib)
      → ltb fd max_fd ≡ true
      → IsClean lib s
      → IsTimed s
      → IsTimed (refresh_client_timeout lib now fd (put_conn lib fd c s))
  unfolding set_at contains
  accepted-IsTimed now fd c s l (v, i) t =
      let s' = put_conn lib fd c s in
      let e : client_at lib fd s' ≡ some c = rw (l, client_at, (==_iff fd fd).1 refl) refl in
      refreshed now fd c s' e
        (λ k q. elim (t k) [ inl n ↦ inl (let r = other_way fd k q in rw r n) | inr u ↦ inr u ])
        (λ h. elim (t fd) [ inl n ↦ absurd (cc (rw ((i fd n).2, contains) at h)) | inr u ↦ u ])
