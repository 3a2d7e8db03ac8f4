-- ===== src/Net/Proxy/Owned.antt =====
-- The sockets of `connect_upstream`.
use hpserver.Prelude.{
  ℕ, suc, ◌≤◌, ◌≡◌, ◌∙◌, refl, sym, ap, arith, Option, none, some, List, [], ◌∷◌, ◌++◌, length,
  take, Bool-cases, ◌⊎◌, inl, inr,
}
use mathlib.Core.List.{append_assoc, append-nil}
use hpserver.Os.{Result}
use hpserver.Net.Proxy.Connect.{
  Candidate, resolved, Connected, try_connect, connect_loop, closing, connect_upstream,
}

Result-cases :
    (r : Result) → ((e : ℕ) × (r ≡ Result.failed e)) ⊎ ((n : ℕ) × (r ≡ Result.returned n))
Result-cases (Result.failed e) = inl (e, refl)
Result-cases (Result.returned n) = inr (n, refl)

abbrev pub socket_of : Result → List ℕ
socket_of (Result.failed e) = []
socket_of (Result.returned fd) = fd ∷ []

-- The sockets that the addresses give.
abbrev pub sockets : List Candidate → List ℕ
sockets [] = []
sockets (ai ∷ ais) = socket_of ai.socket ++ sockets ais

-- Of the first addresses, each socket has been closed or is the one of `upstream`; without one,
-- these are all addresses.
abbrev pub AreOwned : List ℕ → List Candidate → Connected → Type 0
AreOwned before ais c =
    ((c.upstream ≡ none) × (c.closed ≡ before ++ sockets ais))
    ⊎ ((n : ℕ) × (fd : ℕ) × (c.upstream ≡ some fd)
        × (n ≤ length ais)
        × (c.closed ++ (fd ∷ []) ≡ before ++ sockets (take n ais)))

one_more :
    (before : List ℕ) (fd : ℕ) (ai : Candidate) (ais : List Candidate) (c : Connected)
    → ai.socket ≡ Result.returned fd
    → AreOwned (before ++ (fd ∷ [])) ais c
    → AreOwned before (ai ∷ ais) c
one_more before fd ai ais c q (inl (u, o)) = inl (
  u,
  o
      ∙ append_assoc before (fd ∷ []) (sockets ais)
      ∙ ap (λ s. before ++ (socket_of s ++ sockets ais)) (sym q),
)
one_more before fd ai ais c q (inr (n, g, u, l, o)) = inr (
  suc n,
  g,
  u,
  omega (arith, l),
  o
      ∙ append_assoc before (fd ∷ []) (sockets (take n ais))
      ∙ ap (λ s. before ++ (socket_of s ++ sockets (take n ais))) (sym q),
)

none_more :
    (before : List ℕ) (e : ℕ) (ai : Candidate) (ais : List Candidate) (c : Connected)
    → ai.socket ≡ Result.failed e
    → AreOwned before ais c
    → AreOwned before (ai ∷ ais) c
none_more before e ai ais c q (inl (u, o)) = inl (u, rw q o)
none_more before e ai ais c q (inr (n, g, u, l, o)) = inr (suc n, g, u, omega (arith, l), rw q o)

connect_loop-AreOwned :
    (ais : List Candidate) (errno : ℕ) (before : List ℕ)
    → AreOwned before ais (connect_loop ais errno before)
unfolding connect_loop
connect_loop-AreOwned [] errno before = inl (refl, sym (append-nil before))
connect_loop-AreOwned (ai ∷ ais) errno before = elim (Result-cases ai.socket) [
  | inl (e, q) ↦
      none_more before e ai ais (connect_loop (ai ∷ ais) errno before) q
        (rw (q, connect_loop) (connect_loop-AreOwned ais e before))
  | inr (fd, q) ↦
      let k = try_connect errno ai ai.connect in
      elim (Bool-cases k.0) [
        | inl o ↦ rw (q, connect_loop, o) (inr (1, fd, refl, omega arith, refl))
        | inr o ↦
            one_more before fd ai ais (connect_loop (ai ∷ ais) errno before) q
              (rw (q, connect_loop, o) (connect_loop-AreOwned ais k.1 (before ++ (fd ∷ []))))
      ]
]

-- Of a list of addresses, `connect_upstream` makes the sockets of some first ones, in their order, and
-- each of them has been closed or is the socket that it leaves in `upstream`, which is the last one
-- made. With no socket in `upstream` all addresses have been tried. The socket that stood in
-- `upstream` before is closed first.
pub connect_upstream-AreOwned :
    (ais : List Candidate) (errno : ℕ) (upstream : Option ℕ)
    → AreOwned (closing upstream) ais (connect_upstream (resolved ais) errno upstream)
connect_upstream-AreOwned ais errno upstream = connect_loop-AreOwned ais errno (closing upstream)
