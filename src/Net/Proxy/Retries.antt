-- ===== src/Net/Proxy/Retries.antt =====
-- The attempts of `forward_request`.
use hpserver.Prelude.{
  ℕ, ◌≡◌, ◌≢◌, ◌=?◌, ==_iff, ◌∙◌, refl, ap, arith, Bool, true, false, not, ◌&&◌, ◌||◌, ◌==◌, List,
  [], ◌∷◌, if◌then◌else◌, Bytes, Bool-cases, ◌⊎◌, inl, inr,
}
use hpserver.Http.Builder.{build_forward_proxy_request, is_empty}
use hpserver.Http.Builder.Targets.{is_empty-=?}
use hpserver.Http.Builder.Forward.{build_forward_proxy_request-message}
use hpserver.Http.Builder.Reading.{message}
use hpserver.Http.Request.{RequestInfo}
use hpserver.Http.Llhttp.{Llhttp}
use hpserver.Http.ResponseParser.{Event}
use hpserver.Net.Proxy.Forward.{
  Attempt, AttemptRun, attempt, is_transient, Forwarded, forward_request,
}

message-nonempty :
    (l : Bytes) (ls : List Bytes) (body : Bytes) → is_empty (message (l ∷ ls) body) ≡ false
message-nonempty [] ls body = refl
message-nonempty (c ∷ l) ls body = refl

-- There is nothing to forward just for a request with no method or no host, and for a CONNECT.
is_empty-refused :
    (req : RequestInfo)
    → let refused = req.method =? [] || (req.host =? [] || req.is_connect) in
      ((refused ≡ true) × (is_empty (build_forward_proxy_request req) ≡ true))
      ⊎ ((refused ≡ false) × (is_empty (build_forward_proxy_request req) ≡ false))
unfolding build_forward_proxy_request
is_empty-refused req =
    let m = is_empty-=? req.method in
    let h = is_empty-=? req.host in
    elim (Bool-cases (is_empty req.method || (is_empty req.host || req.is_connect))) [
      | inl e ↦ inl (ground (arith, e, m, h), ground (arith, e))
      | inr e ↦ inr (
        ground (arith, e, m, h),
        ap is_empty (
              build_forward_proxy_request-message req (ground (arith, e)) (ground (arith, e))
                (ground (arith, e)))
            ∙ message-nonempty _ _ req.body,
      )
    ]

transient_cases : (ok : Bool) (e : ℕ) → (not ok && is_transient e) ≡ true → (e ≡ 110) ⊎ (e ≡ 104)
transient_cases ok e t = elim (Bool-cases (e == 110)) [
  | inl h ↦ inl ((==_iff e 110).0 h)
  | inr h ↦ inr (ground (arith, t, h))
]

not_transient_cases :
    (ok : Bool) (e : ℕ) → (not ok && is_transient e) ≡ false → (ok ≡ true) ⊎ ((e ≢ 110) × (e ≢ 104))
not_transient_cases true e t = inl refl
not_transient_cases false e t =
    inr (λ q. absurd (ground (arith, t, q)), λ q. absurd (ground (arith, t, q)))

module _ (lib : Llhttp Event) where
  -- The result is that of this attempt.
  abbrev pub Concludes : Attempt → Forwarded → Type 0
  Concludes last f =
      (f.ok ≡ last.ok)
      × (f.out_response ≡ last.out_response)
      × (f.out_errno ≡ (if last.ok then 0 else last.final_errno))

  -- A request with no method or no host, and a CONNECT, is refused: no attempt is made, and the result
  -- is a failure with an empty response and `EINVAL` (22). Any other request is attempted once, and a
  -- second time just if the first attempt has failed with `ETIMEDOUT` (110) or `ECONNRESET` (104).
  -- Success, the response and the error number, 0 on success, are then those of the last attempt.
  pub forward_request-attempts :
      (req : RequestInfo) (first second : AttemptRun)
      → let f = forward_request lib req first second in
        let refused = req.method =? [] || (req.host =? [] || req.is_connect) in
        ((refused ≡ true)
          × (f.attempts ≡ [])
          × (f.ok ≡ false)
          × (f.out_response ≡ [])
          × (f.out_errno ≡ 22))
        ⊎ ((refused ≡ false)
            × (a : Attempt) × (((f.attempts ≡ a ∷ [])
                  × ((a.ok ≡ true) ⊎ ((a.final_errno ≢ 110) × (a.final_errno ≢ 104)))
                  × Concludes a f)
                ⊎ ((b : Attempt) × (f.attempts ≡ a ∷ b ∷ [])
                    × (a.ok ≡ false)
                    × ((a.final_errno ≡ 110) ⊎ (a.final_errno ≡ 104))
                    × Concludes b f)))
  unfolding forward_request ◌=?◌
  forward_request-attempts req first second =
      let forward = build_forward_proxy_request req in
      let a = attempt lib forward first 0 in
      let b = attempt lib forward second a.final_errno in
      elim (is_empty-refused req) [
        | inl (e, n) ↦ inl (rw n (e, refl, refl, refl, refl))
        | inr (e, n) ↦ elim (Bool-cases (not a.ok && is_transient a.final_errno)) [
          | inl t ↦
              let why = transient_cases a.ok a.final_errno t in
              let failed : a.ok ≡ false = ground (arith, t) in
              rw (n, t) (inr (e, a, inr (b, refl, failed, why, (refl, refl, refl))))
          | inr t ↦
              let why = not_transient_cases a.ok a.final_errno t in
              rw (n, t) (inr (e, a, inl (refl, why, (refl, refl, refl))))
        ]
      ]
