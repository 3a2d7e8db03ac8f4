-- ===== src/Server/Accept/Admission.antt =====
-- Which clients the loop that accepts them lets in, and what it closes.
use hpserver.Prelude.{
  ℕ, ◌≡◌, ◌∙◌, refl, sym, ap, subst, arith, Bool, true, false, not, ◌&&◌, ◌||◌, ◌==◌, ltb, Option,
  none, some, List, [], ◌∷◌, ◌++◌, if◌then◌else◌, Bool-cases, Option-cases, inl, inr, Bytes, ==_iff,
}
use mathlib.Core.List.{append_assoc, append-nil}
use hpserver.Os.{eintr}
use hpserver.Http.Llhttp.{Llhttp}
use hpserver.Http.RequestParser.{Event}
use hpserver.Http.HttpConn.{HttpConn, http_conn}
use hpserver.Net.IpFilter.{IpFilter, is_blocked}
use hpserver.Util.Timer.{contains}
use hpserver.Server.{Hpserver, set_at, client_at, refresh_client_timeout, accept_client}
use hpserver.Server.Accept.{
  Client, Arrival, client, refused, send_response, rejection, is_set_up, is_admitted, Accepted,
  accept_turn, accept_one, accept_clients,
}

-- The clients that the loop comes to, in order.
abbrev pub clients_of : List Arrival → List Client
clients_of [] = []
clients_of (client c ∷ more) = c ∷ clients_of more
clients_of (refused e ∷ more) = if e == eintr then clients_of more else []

-- The descriptors of the clients that are not let in, in order.
abbrev pub turned_away : IpFilter → List Client → List ℕ
turned_away f [] = []
turned_away f (c ∷ cs) = if is_admitted f c then turned_away f cs else c.fd ∷ turned_away f cs

-- Whether one of the clients is let in at a descriptor.
abbrev pub lets_in : IpFilter → ℕ → List Client → Bool
lets_in f fd [] = false
lets_in f fd (c ∷ cs) = lets_in f fd cs || (is_admitted f c && fd == c.fd)

module _ (lib : Llhttp Event) where
  refresh-connections :
      (now fd : ℕ) (s : Hpserver lib)
      → (refresh_client_timeout lib now fd s).connections ≡ s.connections
  unfolding refresh_client_timeout
  refresh-connections now fd s = elim (Option-cases (client_at lib fd s)) [
    | inl e ↦ rw (e, refresh_client_timeout) refl
    | inr (c, e) ↦ elim (Bool-cases (contains fd s.connection_timer)) [
      | inl b ↦ rw (e, refresh_client_timeout, b) refl
      | inr b ↦ rw (e, refresh_client_timeout, b) refl
    ]
  ]

  -- The table after one client.
  abbrev with_client : Bool → ℕ → (ℕ → Option (HttpConn lib)) → ℕ → Option (HttpConn lib)
  with_client is_in fd table k = if is_in && k == fd then some (http_conn lib (some k)) else table k

  written :
      (fd k : ℕ) (table : ℕ → Option (HttpConn lib))
      → set_at fd (some (http_conn lib (some fd))) table k ≡ with_client true fd table k
  unfolding set_at
  written fd k table = elim (Bool-cases (k == fd)) [
    | inl e ↦ rw e (ap (λ x. some (http_conn lib (some x))) (sym ((==_iff k fd).0 e)))
    | inr e ↦ rw e refl
  ]

  accept_client-connections :
      (now : ℕ) (blocked is_set : Bool) (fd k : ℕ) (s : Hpserver lib)
      → (accept_client lib now fd blocked is_set s).connections k
        ≡ with_client (not blocked && (is_set && ltb fd 65536)) fd s.connections k
  accept_client-connections now true is_set fd k s = refl
  accept_client-connections now false false fd k s = refl
  accept_client-connections now false true fd k s = elim (Bool-cases (ltb fd 65536)) [
    | inl e ↦
        let opened : Hpserver lib = record s {
          connections = set_at fd (some (http_conn lib (some fd))) s.connections;
        } in
        rw (e, accept_client)
          (ap (λ t. t k) (refresh-connections now fd opened) ∙ written fd k s.connections)
    | inr e ↦ rw (e, accept_client) refl
  ]

  -- What a turn with a client does to the server and to its descriptor.
  abbrev pub IsTurn : Bool → ℕ → Hpserver lib → List ℕ → Accepted lib → Type 0
  IsTurn admitted fd s closed a' =
      (a'.server ≡ s) × (a'.closed ≡ (if admitted then closed else closed ++ (fd ∷ [])))

  turned_away-IsTurn :
      (o : Option Bytes) (fd : ℕ) (s : Hpserver lib) (a a' : Accepted lib)
      → elim o [
        | none ↦ none
        | some bytes ↦ some (record a {
          server = s;
          closed = a.closed ++ (fd ∷ []);
          sent = a.sent ++ ((fd, bytes) ∷ []);
        })
      ]
        ≡ some a'
      → IsTurn false fd s a.closed a'
  turned_away-IsTurn none fd s a a' h = absurd (ground (arith, h))
  turned_away-IsTurn (some bytes) fd s a a' h =
      let same : record a {
        server = s;
        closed = a.closed ++ (fd ∷ []);
        sent = a.sent ++ ((fd, bytes) ∷ []);
      }
          ≡ a' =
        ground (arith, h) in
      subst (λ x. (x.server ≡ s) × (x.closed ≡ a.closed ++ (fd ∷ []))) same (refl, refl)

  let_in-IsTurn :
      (admitted : Bool) (fd : ℕ) (s : Hpserver lib) (a a' : Accepted lib)
      → some
          (record a { server = s; closed = if admitted then a.closed else a.closed ++ (fd ∷ []) })
        ≡ some a'
      → IsTurn admitted fd s a.closed a'
  let_in-IsTurn admitted fd s a a' h =
      let same : record a {
        server = s;
        closed = if admitted then a.closed else a.closed ++ (fd ∷ []);
      }
          ≡ a' =
        ground (arith, h) in
      subst
        (λ x. (x.server ≡ s) × (x.closed ≡ (if admitted then a.closed else a.closed ++ (fd ∷ []))))
        same (refl, refl)

  pub accept_turn-IsTurn :
      (blocked : Bool) (now : ℕ) (c : Client) (a a' : Accepted lib)
      → accept_turn lib blocked now c a ≡ some a'
      → IsTurn
          (not blocked && (is_set_up c && ltb c.fd 65536))
          c.fd
          (accept_client lib now c.fd blocked (is_set_up c) a.server)
          a.closed
          a'
  accept_turn-IsTurn true now c a a' h =
      turned_away-IsTurn (send_response c.sends rejection) c.fd a.server a a' h
  accept_turn-IsTurn false now c a a' h =
      let_in-IsTurn (is_set_up c && ltb c.fd 65536) c.fd
        (accept_client lib now c.fd false (is_set_up c) a.server) a a' h

  -- The table of connections after some clients.
  abbrev entered : Bool → ℕ → (ℕ → Option (HttpConn lib)) → Option (HttpConn lib)
  entered b fd table = if b then some (http_conn lib (some fd)) else table fd

  entered-with_client :
      (b admitted : Bool) (fd k : ℕ) (table : ℕ → Option (HttpConn lib))
      → entered b k (with_client admitted fd table) ≡ entered (b || (admitted && k == fd)) k table
  entered-with_client true admitted fd k table = refl
  entered-with_client false admitted fd k table = refl

  closed-more :
      (admitted : Bool) (fd : ℕ) (closed more : List ℕ)
      → (if admitted then closed else closed ++ (fd ∷ [])) ++ more
        ≡ closed ++ (if admitted then more else fd ∷ more)
  closed-more true fd closed more = refl
  closed-more false fd closed more = append_assoc closed (fd ∷ []) more

  -- A loop that ends has let in the clients that are not on the blacklist, whose set-up succeeds and
  -- whose descriptor fits the table: the entry of such a client's descriptor is a new connection, and
  -- every other entry is as before. It has closed the descriptors of the other clients, each
  -- once, and no other.
  pub accept_clients_lem :
      (f : IpFilter) (now : ℕ) (arrivals : List Arrival) (a a' : Accepted lib)
      → accept_clients lib f now arrivals a ≡ some a'
      → ((fd : ℕ)
          → a'.server.connections fd ≡ (
              if lets_in f fd (clients_of arrivals)
              then some (http_conn lib (some fd))
              else a.server.connections fd))
        × (a'.closed ≡ a.closed ++ turned_away f (clients_of arrivals))
  unfolding accept_clients
  accept_clients_lem f now [] a a' h = absurd (ground (arith, h))
  accept_clients_lem f now (client c ∷ more) a a' h =
      elim (Option-cases (accept_one lib f now c a)) [
        | inl e ↦ absurd (ground (arith, h, e))
        | inr (m, e) ↦
            let (server, closed) = accept_turn-IsTurn (is_blocked f c.ip) now c a m e in
            let (table, rest) = accept_clients_lem f now more m a' (rw (e, accept_clients) at h) in
            let admitted = is_admitted f c in
            (
              (λ fd.
                  table fd
                  ∙ ap
                      (λ x.
                        if lets_in f fd (clients_of more)
                        then some (http_conn lib (some fd))
                        else x)
                      (ap (λ s. s.connections fd) server
                        ∙ accept_client-connections now (is_blocked f c.ip) (is_set_up c) c.fd fd
                            a.server)
                  ∙ entered-with_client (lets_in f fd (clients_of more)) admitted c.fd fd
                      a.server.connections),
              rest
                  ∙ ap (λ xs. xs ++ turned_away f (clients_of more)) closed
                  ∙ closed-more admitted c.fd a.closed (turned_away f (clients_of more)),
            )
      ]
  accept_clients_lem f now (refused e ∷ more) a a' h = elim (Bool-cases (e == eintr)) [
    | inl b ↦ rw b (accept_clients_lem f now more a a' (rw (b, accept_clients) at h))
    | inr b ↦
        let same : a ≡ a' = ground (arith, rw (b, accept_clients) at h) in
        rw b (
          subst
            (λ x.
              ((fd : ℕ) → x.server.connections fd ≡ a.server.connections fd)
              × (x.closed ≡ a.closed ++ []))
            same ((λ fd. refl), sym (append-nil a.closed)))
  ]
