-- ===== src/Server/Accept.antt =====
-- src/hpserver.cpp: the loop that accepts clients. An arrival is what one call of `accept`, and the calls for
-- the client that it brings, do; `none` says that a list of outcomes is too short.
pub mod Admission
pub mod Blacklist
use hpserver.Prelude.{
  ℕ, zero, suc, ◌≡◌, Bool, true, false, not, ◌&&◌, ◌||◌, ◌==◌, ltb, Option, none, some, List, [],
  ◌∷◌, ◌++◌, if◌then◌else◌, Bytes, codes, length, drop, take,
}
use hpserver.Os.{Send, taken, Result, eintr}
use hpserver.Http.Builder.{build_forbidden_response}
use hpserver.Http.Llhttp.{Llhttp}
use hpserver.Http.RequestParser.{Event}
use hpserver.Net.IpFilter.{IpFilter, is_blocked}
use hpserver.Server.{Hpserver, accept_client}

-- What the two calls of `fcntl` return.
pub record Flags : Type 0 where
  pub get : Result
  pub store : Result

abbrev pub is_ok : Result → Bool
is_ok (Result.returned n) = true
is_ok (Result.failed e) = false

abbrev pub set_nonblocking : Flags → Bool
set_nonblocking f = is_ok f.get && is_ok f.store

-- A client: its address in host byte order, what the calls of its set-up do, and those of `send` if it is
-- turned away. `added` says that `poller::add` returns 0.
pub record Client : Type 0 where
  pub fd : ℕ
  pub ip : ℕ
  pub flags : Flags
  pub added : Bool
  pub sends : List Send

pub data Arrival : Type 0 where
  client : Client → Arrival
  refused : ℕ → Arrival

-- The loop of `reject_blacklisted_client`: what is sent.
unfoldable pub send_response : List Send → Bytes → Option Bytes
send_response [] [] = some []
send_response [] (b ∷ data_) = none
send_response (s ∷ sends) [] = some []
send_response (Send.room zero ∷ sends) (b ∷ data_) = some []
send_response (Send.room (suc n) ∷ sends) (b ∷ data_) =
    let now = taken (suc n) (b ∷ data_) in
    elim (send_response sends (drop now (b ∷ data_))) [
      | none ↦ none
      | some later ↦ some (take now (b ∷ data_) ++ later)
    ]
send_response (Send.refused e ∷ sends) (b ∷ data_) =
    if e == eintr then send_response sends (b ∷ data_) else some []

abbrev pub rejection : Bytes
rejection = build_forbidden_response (codes "client ip is blocked")

abbrev pub is_set_up : Client → Bool
is_set_up c = set_nonblocking c.flags && c.added

abbrev pub is_admitted : IpFilter → Client → Bool
is_admitted f c = not (is_blocked f c.ip) && (is_set_up c && ltb c.fd 65536)

-- What the loop has closed, in order, and what it has sent to a client that it has turned away.
pub record Accepted (lib : Llhttp Event) : Type 0 where
  pub server : Hpserver lib
  pub closed : List ℕ
  pub sent : List (ℕ × Bytes)

module _ (lib : Llhttp Event) where
  abbrev pub reject_blacklisted_client : Client → Accepted lib → Option (Accepted lib)
  reject_blacklisted_client c a = elim (send_response c.sends rejection) [
    | none ↦ none
    | some bytes ↦
        some (record a { closed = a.closed ++ (c.fd ∷ []); sent = a.sent ++ ((c.fd, bytes) ∷ []) })
  ]

  -- One turn of the loop with a client, that is on the blacklist or not.
  abbrev pub accept_turn : Bool → ℕ → Client → Accepted lib → Option (Accepted lib)
  accept_turn true now c a = reject_blacklisted_client c a
  accept_turn false now c a = some (record a {
    server = accept_client lib now c.fd false (is_set_up c) a.server;
    closed = if is_set_up c && ltb c.fd 65536 then a.closed else a.closed ++ (c.fd ∷ []);
  })

  abbrev pub accept_one : IpFilter → ℕ → Client → Accepted lib → Option (Accepted lib)
  accept_one f now c a = accept_turn (is_blocked f c.ip) now c a

  unfoldable pub accept_clients : IpFilter → ℕ → List Arrival → Accepted lib → Option (Accepted lib)
  accept_clients f now [] a = none
  accept_clients f now (client c ∷ more) a = elim (accept_one f now c a) [
    | none ↦ none
    | some a' ↦ accept_clients f now more a'
  ]
  accept_clients f now (refused e ∷ more) a =
      if e == eintr then accept_clients f now more a else some a
