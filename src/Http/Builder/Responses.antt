-- ===== src/Http/Builder/Responses.antt =====
-- The responses that the proxy makes itself, read back by an independent reader.
use hpserver.Prelude.{
  ℕ, ◌≡◌, refl, ap, ◌∙◌, Bool, true, false, some, List, [], ◌∷◌, ◌++◌, ◌==◌, if◌then◌else◌, Bytes,
  codes, length, length-map, arith,
}
use mathlib.Core.List.{append_assoc}
use hpserver.Text.{to_string}
use hpserver.Text.Decimal.{to_string-AllDigits}
use hpserver.Http.Builder.{
  sanitize_header_token, sanitize_body, build_plain_text_response,
  build_connect_established_response,
}
use hpserver.Http.Builder.Reading.{
  read_message, read_message-message, NoBreak, NoBreak-append, has_no_break-NoBreak, NoBreak-digits,
  AreLines, message, sanitize_header_token-NoBreak,
}

abbrev pub status_line : ℕ → Bytes → Bytes
status_line code reason = codes "HTTP/1.1 " ++ (to_string code ++ (32 ∷ reason))

abbrev pub plain_head : ℕ → Bytes → ℕ → Bool → List Bytes
plain_head code reason size close =
    status_line code reason
    ∷ codes "Content-Type: text/plain; charset=utf-8"
    ∷ (codes "Content-Length: " ++ to_string size)
    ∷ (codes "Connection: " ++ (if close then codes "close" else codes "keep-alive"))
    ∷ []

plain_head-AreLines :
    (code : ℕ) (reason : Bytes) (size : ℕ) (close : Bool)
    → NoBreak reason
    → AreLines (plain_head code reason size close)
plain_head-AreLines code reason size close h = (
  NoBreak-append (codes "HTTP/1.1 ") (to_string code ++ (32 ∷ reason))
      (has_no_break-NoBreak (codes "HTTP/1.1 ") refl)
      (NoBreak-append (to_string code) (32 ∷ reason)
        (NoBreak-digits (to_string code) (to_string-AllDigits code)) (refl, h)),
  omega arith,
  (
    has_no_break-NoBreak (codes "Content-Type: text/plain; charset=utf-8") refl,
    omega arith,
    (
      NoBreak-append (codes "Content-Length: ") (to_string size)
          (has_no_break-NoBreak (codes "Content-Length: ") refl)
          (NoBreak-digits (to_string size) (to_string-AllDigits size)),
      omega arith,
      (
        NoBreak-append (codes "Connection: ") (if close then codes "close" else codes "keep-alive")
            (has_no_break-NoBreak (codes "Connection: ") refl) (word close),
        omega arith,
        tt,
      ),
    ),
  ),
)
  where
    word : (b : Bool) → NoBreak (if b then codes "close" else codes "keep-alive")
    word true = has_no_break-NoBreak (codes "close") refl
    word false = has_no_break-NoBreak (codes "keep-alive") refl

-- Whatever the reason and the body are, a reader finds four lines in the head, among them the
-- length of the body, and then the body with each CR replaced by a space.
pub read_message-plain_text :
    (code : ℕ) (reason body : Bytes) (close : Bool)
    → read_message (build_plain_text_response code reason body close)
      ≡ some (
        plain_head code (sanitize_header_token reason (codes "Unknown")) (length body) close,
        sanitize_body body,
      )
unfolding build_plain_text_response sanitize_body
read_message-plain_text code reason body close =
    let token = sanitize_header_token reason (codes "Unknown") in
    let payload = sanitize_body body in
    let written : build_plain_text_response code reason body close
        ≡ message (plain_head code token (length payload) close) payload =
      simp append_assoc in
    ap read_message written
    ∙ read_message-message (plain_head code token (length payload) close) payload (
        plain_head-AreLines code token (length payload) close (
          sanitize_header_token-NoBreak reason (codes "Unknown")
            (has_no_break-NoBreak (codes "Unknown") refl)))
    ∙ ap (λ n. some (plain_head code token n close, payload))
        (length-map body (λ c. if c == 13 then 32 else c))

-- The agent's name cannot add a line to the answer to CONNECT, which has no body.
read_message-connect_established :
    (agent : Bytes)
    → read_message (build_connect_established_response agent)
      ≡ some (
        codes "HTTP/1.1 200 Connection Established"
            ∷ (codes "Proxy-Agent: " ++ sanitize_header_token agent (codes "hpserver"))
            ∷ [],
        [],
      )
unfolding build_connect_established_response
read_message-connect_established agent =
    let name = sanitize_header_token agent (codes "hpserver") in
    let safe =
      sanitize_header_token-NoBreak agent (codes "hpserver")
        (has_no_break-NoBreak (codes "hpserver") refl) in
    read_message-message
      (codes "HTTP/1.1 200 Connection Established" ∷ (codes "Proxy-Agent: " ++ name) ∷ []) []
      (
        has_no_break-NoBreak (codes "HTTP/1.1 200 Connection Established") refl,
        omega arith,
        (
          NoBreak-append (codes "Proxy-Agent: ") name
              (has_no_break-NoBreak (codes "Proxy-Agent: ") refl) safe,
          omega arith,
          tt,
        ),
      )
