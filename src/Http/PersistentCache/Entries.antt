-- ===== src/Http/PersistentCache/Entries.antt =====
-- The responses made from an entry, read back, and lifetimes.
use hpserver.Prelude.{
  ◌≡◌, ◌∙◌, refl, sym, ap, inl, inr, Bool, false, not, ◌||◌, ◌&&◌, List, [], ◌∷◌, ◌++◌, Bytes, some,
  if◌then◌else◌, Bool-cases, arith, codes, ◌=?◌, length,
}
use mathlib.Core.List.{append_assoc, append-nil}
use hpserver.Text.{to_lower_ascii, to_string}
use hpserver.Text.Decimal.{to_string-AllDigits}
use hpserver.Http.Request.{Headers}
use hpserver.Http.Builder.{crlf, header_line}
use hpserver.Http.Builder.Reading.{
  read_message, read_message-message, NoBreak, NoBreak-append, has_no_break-NoBreak, NoBreak-digits,
  AreLines, message,
}
use hpserver.Http.Builder.Forward.{
  hop_by_hop, is_among, is_hop_by_hop_header-among, lines_of, lines_of-append, message-lines_of,
  lines_of-optional, or_false, or_assoc,
}
use hpserver.Http.Builder.Upstream.{AreLines-append, if-AreLines}
use hpserver.Http.PersistentCache.{HttpCacheEntry, rebuild_headers, rebuild_response}

-- The headers that are sent again, as lines, and whether a length is among them.
abbrev pub sent_again : Headers → List Bytes
sent_again [] = []
sent_again ((k, v) ∷ h) =
    if is_among (to_lower_ascii k) hop_by_hop
    then sent_again h
    else (k ++ (codes ": " ++ v)) ∷ sent_again h

abbrev pub has_length : Headers → Bool
has_length [] = false
has_length ((k, v) ∷ h) =
    (not (is_among (to_lower_ascii k) hop_by_hop) && to_lower_ascii k =? codes "content-length")
    || has_length h

abbrev pub status_of : HttpCacheEntry → Bytes
status_of e = codes "HTTP/1.1 " ++ (to_string e.status_code ++ (32 ∷ e.reason_phrase))

abbrev pub rebuilt_head : HttpCacheEntry → List Bytes
rebuilt_head e =
    status_of e
    ∷ (sent_again e.headers
        ++ ((if has_length e.headers
              then []
              else (codes "Content-Length: " ++ to_string (length e.body)) ∷ [])
            ++ []))

pair-path : {a a' : Bytes} {b b' : Bool} → a ≡ a' → b ≡ b' → ◌≡◌ {A = Bytes × Bool} (a, b) (a', b')
pair-path p q = λ i. (p i, q i)

rebuild_headers_lem :
    (h : Headers) (out : Bytes) (b : Bool)
    → rebuild_headers h (out, b) ≡ (out ++ lines_of (sent_again h), b || has_length h)
unfolding rebuild_headers lines_of
rebuild_headers_lem [] out b = pair-path (sym (append-nil out)) (sym (or_false b))
rebuild_headers_lem ((k, v) ∷ h) out b =
    elim (Bool-cases (is_among (to_lower_ascii k) hop_by_hop)) [
      | inl e ↦ rw (is_hop_by_hop_header-among (to_lower_ascii k), e) (rebuild_headers_lem h out b)
      | inr e ↦
          let here = to_lower_ascii k =? codes "content-length" in
          let line : (out ++ header_line k v) ++ lines_of (sent_again h)
              ≡ out ++ ((k ++ (codes ": " ++ v)) ++ (crlf ++ lines_of (sent_again h))) =
            simp append_assoc in
          rw (is_hop_by_hop_header-among (to_lower_ascii k), e)
            (rebuild_headers_lem h (out ++ header_line k v) (b || here)
              ∙ pair-path line (or_assoc b here (has_length h)))
    ]

rebuild_response-message :
    (e : HttpCacheEntry) → rebuild_response e ≡ message (rebuilt_head e) e.body
unfolding rebuild_response lines_of
rebuild_response-message e =
    let start =
      codes "HTTP/1.1 " ++ (to_string e.status_code ++ (32 ∷ (e.reason_phrase ++ crlf))) in
    let size = codes "Content-Length: " ++ to_string (length e.body) in
    rw
      (
        rebuild_headers_lem e.headers start false,
        message-lines_of,
        lines_of-append,
        lines_of-optional (has_length e.headers) size [],
      )
      (simp append_assoc)

-- Where the reason and the headers that are sent again have no line break,
-- a reader of a rebuilt response finds the status line, the stored headers in their order without
-- those of one hop, a length where none is stored, and the stored body.
pub read_message-rebuilt :
    (e : HttpCacheEntry)
    → NoBreak e.reason_phrase
    → AreLines (sent_again e.headers)
    → read_message (rebuild_response e) ≡ some (rebuilt_head e, e.body)
read_message-rebuilt e reason lines =
    ap read_message (rebuild_response-message e)
    ∙ read_message-message (rebuilt_head e) e.body (
      NoBreak-append (codes "HTTP/1.1 ") _ (has_no_break-NoBreak (codes "HTTP/1.1 ") refl) (
          NoBreak-append (to_string e.status_code) _
            (NoBreak-digits (to_string e.status_code) (to_string-AllDigits e.status_code))
            (refl, reason)),
      omega arith,
      AreLines-append (sent_again e.headers) _ lines (
          AreLines-append _ []
            (if-AreLines (has_length e.headers)
              (codes "Content-Length: " ++ to_string (length e.body))
              (NoBreak-append (codes "Content-Length: ") (to_string (length e.body))
                (has_no_break-NoBreak (codes "Content-Length: ") refl)
                (NoBreak-digits (to_string (length e.body)) (to_string-AllDigits (length e.body))))
              (omega arith))
            tt),
    )
