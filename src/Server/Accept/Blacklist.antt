-- ===== src/Server/Accept/Blacklist.antt =====
-- The clients whose addresses stand in the file of blocked addresses.
use hpserver.Prelude.{
  ℕ, zero, suc, ◌<◌, ◌^◌, ◌≡◌, ◌∙◌, refl, ap, subst, arith, true, false, ◌==◌, Option, none, some,
  List, [], ◌∷◌, ◌++◌, Bool-cases, Option-cases, inl, inr, Bytes, drop, take, take-append-drop,
}
use mathlib.Core.List.{append_assoc}
use hpserver.Os.{Send, taken, eintr}
use hpserver.Text.{find}
use hpserver.Http.Llhttp.{Llhttp}
use hpserver.Http.RequestParser.{Event}
use hpserver.Net.IpFilter.{IpFilter, skips_line, add_lines}
use hpserver.Net.IpFilter.Laws.{IsValid}
use hpserver.Net.IpFilter.File.{add_lines-blocks}
use hpserver.Server.Accept.{
  Client, send_response, rejection, Accepted, reject_blacklisted_client, accept_turn, accept_one,
}

abbrev pub IsPrefix : Bytes → Bytes → Type 0
IsPrefix xs ys = (rest : Bytes) × (xs ++ rest ≡ ys)

IsPrefix-append : (xs ys zs : Bytes) → IsPrefix ys zs → IsPrefix (xs ++ ys) (xs ++ zs)
IsPrefix-append xs ys zs (rest, e) = (rest, append_assoc xs ys rest ∙ ap (λ t. xs ++ t) e)

-- A send that ends the loop.
nothing-IsPrefix : (data_ bytes : Bytes) → some [] ≡ some bytes → IsPrefix bytes data_
nothing-IsPrefix data_ bytes h =
    subst (λ x. IsPrefix x data_) (let same : [] ≡ bytes = ground (arith, h) in same) (data_, refl)

send_response-IsPrefix :
    (sends : List Send) (data_ bytes : Bytes)
    → send_response sends data_ ≡ some bytes
    → IsPrefix bytes data_
unfolding send_response
send_response-IsPrefix [] [] bytes h = nothing-IsPrefix [] bytes h
send_response-IsPrefix [] (b ∷ data_) bytes h = absurd (ground (arith, h))
send_response-IsPrefix (s ∷ sends) [] bytes h = nothing-IsPrefix [] bytes h
send_response-IsPrefix (Send.room zero ∷ sends) (b ∷ data_) bytes h =
    nothing-IsPrefix (b ∷ data_) bytes h
send_response-IsPrefix (Send.room (suc n) ∷ sends) (b ∷ data_) bytes h =
    let now = taken (suc n) (b ∷ data_) in
    let left = drop now (b ∷ data_) in
    elim (Option-cases (send_response sends left)) [
      | inl e ↦ absurd (ground (arith, h, e))
      | inr (later, e) ↦
          let same : take now (b ∷ data_) ++ later ≡ bytes =
            ground (arith, rw (e, send_response) at h) in
          subst (λ x. IsPrefix x (b ∷ data_)) same
            (subst (IsPrefix (take now (b ∷ data_) ++ later)) (take-append-drop now (b ∷ data_)) (
              IsPrefix-append (take now (b ∷ data_)) later left
                (send_response-IsPrefix sends left later e)))
    ]
send_response-IsPrefix (Send.refused e ∷ sends) (b ∷ data_) bytes h =
    elim (Bool-cases (e == eintr)) [
      | inl t ↦ send_response-IsPrefix sends (b ∷ data_) bytes (rw (t, send_response) at h)
      | inr t ↦ nothing-IsPrefix (b ∷ data_) bytes (rw (t, send_response) at h)
    ]

module _ (lib : Llhttp Event) where
  accept_turn-blocked :
      (o : Option Bytes) (now : ℕ) (c : Client) (a a' : Accepted lib)
      → send_response c.sends rejection ≡ o
      → accept_turn lib true now c a ≡ some a'
      → (a'.server ≡ a.server)
        × (a'.closed ≡ a.closed ++ (c.fd ∷ []))
        × (bytes : Bytes) × (a'.sent ≡ a.sent ++ ((c.fd, bytes) ∷ []))
        × IsPrefix bytes rejection
  accept_turn-blocked none now c a a' e h =
      absurd (ground (arith, rw (e, accept_turn, reject_blacklisted_client) at h))
  accept_turn-blocked (some bytes) now c a a' e h =
      let same : record a {
        closed = a.closed ++ (c.fd ∷ []);
        sent = a.sent ++ ((c.fd, bytes) ∷ []);
      }
          ≡ a' =
        ground (arith, rw (e, accept_turn, reject_blacklisted_client) at h) in
      subst
        (λ x.
          (x.server ≡ a.server)
          × (x.closed ≡ a.closed ++ (c.fd ∷ []))
          × (bytes : Bytes) × (x.sent ≡ a.sent ++ ((c.fd, bytes) ∷ []))
          × IsPrefix bytes rejection)
        same (refl, refl, bytes, refl, send_response-IsPrefix c.sends rejection bytes e)

  -- Where `inet_pton` gives 32-bit addresses and the file is read to the end by a valid filter, a
  -- client whose address stands alone on a line of the file that is no comment never enters the
  -- server: the turn leaves the server as it is, closes the client's descriptor, and has sent the
  -- client a prefix of the response that its address is blocked, and nothing else.
  pub accept_one-blacklisted :
      (pton : Bytes → Option ℕ)
      → ((text : Bytes) (ip : ℕ) → pton text ≡ some ip → ip < 2 ^ 32)
      → (f g : IpFilter) (before : List Bytes) (line : Bytes) (after : List Bytes)
      → (now : ℕ) (c : Client) (a a' : Accepted lib) → skips_line pton line ≡ false
      → find b'/' line ≡ none
      → pton line ≡ some c.ip
      → IsValid f
      → add_lines pton f (before ++ line ∷ after) ≡ some g
      → accept_one lib g now c a ≡ some a'
      → (a'.server ≡ a.server)
        × (a'.closed ≡ a.closed ++ (c.fd ∷ []))
        × (bytes : Bytes) × (a'.sent ≡ a.sent ++ ((c.fd, bytes) ∷ []))
        × IsPrefix bytes rejection
  accept_one-blacklisted pton in_32_bits f g before line after now c a a' shown plain e v read h =
      let blocked =
        add_lines-blocks pton in_32_bits f g before line after c.ip shown plain e v read in
      accept_turn-blocked (send_response c.sends rejection) now c a a' refl
        (rw (blocked, accept_one) at h)
