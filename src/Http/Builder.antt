-- ===== src/Http/Builder.antt =====
-- src/net/http/http_message_builder.cpp. `reserve` has no part in the result. A status code is not
-- negative.
pub mod Reading
pub mod Responses
pub mod Targets
pub mod Forward
pub mod Upstream
use hpserver.Prelude.{
  ℕ, zero, suc, ◌+◌, Bool, true, false, not, ◌&&◌, ◌||◌, Option, none, some, List, [], ◌∷◌, ◌++◌,
  map, ◌==◌, if◌then◌else◌, Bytes, codes, ◌=?◌, length, drop,
}
use hpserver.Text.{find, starts_with, to_string}
use hpserver.Http.Request.{RequestInfo, Headers}

-- `"\r\n"`
abbrev pub crlf : Bytes
crlf = 13 ∷ 10 ∷ []

abbrev pub is_empty : Bytes → Bool
is_empty [] = true
is_empty (c ∷ cs) = false

unfoldable pub drop_breaks : Bytes → Bytes
drop_breaks [] = []
drop_breaks (c ∷ cs) = if c == 13 || c == 10 then drop_breaks cs else c ∷ drop_breaks cs

unfoldable pub sanitize_header_token : Bytes → Bytes → Bytes
unfolding drop_breaks
sanitize_header_token value fallback =
    let out = drop_breaks value in if is_empty out then fallback else out

unfoldable pub sanitize_body : Bytes → Bytes
sanitize_body = map (λ c. if c == 13 then 32 else c)

-- The path of an absolute URL whose host begins at index `n`: `url.find('/', n)` and `substr`.
unfoldable pub path_from : ℕ → Bytes → Bytes
path_from n url = elim (find b'/' (drop n url)) [ none ↦ codes "/" | some i ↦ drop (n + i) url ]

-- `url.front() != '/'`, for a text that is not empty.
abbrev rooted : Bytes → Bytes
rooted [] = codes "/"
rooted (c ∷ cs) = if not (c == b'/') then b'/' ∷ c ∷ cs else c ∷ cs

unfoldable pub build_origin_form : Bytes → Bytes
unfolding path_from
build_origin_form url =
    if starts_with (codes "http://") url
    then path_from 7 url
    else if starts_with (codes "https://") url
    then path_from 8 url
    else if url =? codes "*"
    then url
    else rooted url

unfoldable pub is_hop_by_hop_header : Bytes → Bool
is_hop_by_hop_header key =
    key =? codes "connection"
    || (key =? codes "proxy-connection"
        || (key =? codes "keep-alive"
            || (key =? codes "te"
                || (key =? codes "trailer"
                    || (key =? codes "transfer-encoding" || key =? codes "upgrade")))))

unfoldable pub build_plain_text_response : ℕ → Bytes → Bytes → Bool → Bytes
build_plain_text_response status_code reason_phrase body close_connection =
    let reason = sanitize_header_token reason_phrase (codes "Unknown") in
    let payload = sanitize_body body in
    codes "HTTP/1.1 "
    ++ (to_string status_code
        ++ (32
            ∷ (reason
                ++ (crlf
                    ++ (codes "Content-Type: text/plain; charset=utf-8"
                        ++ (crlf
                            ++ (codes "Content-Length: "
                                ++ (to_string (length payload)
                                    ++ (crlf
                                        ++ (codes "Connection: "
                                            ++ ((if close_connection
                                                  then codes "close"
                                                  else codes "keep-alive")
                                                ++ (crlf ++ (crlf ++ payload)))))))))))))

-- The message of the two error responses: a fixed text, and the detail if there is one.
abbrev with_detail : Bytes → Bytes → Bytes
with_detail message [] = message
with_detail message (c ∷ detail) = message ++ (codes ": " ++ (c ∷ detail))

pub build_service_unavailable_response : Bytes → Bytes
build_service_unavailable_response detail =
    build_plain_text_response 503 (codes "Service Unavailable")
      (with_detail (codes "proxy upstream unavailable") detail) true

unfoldable pub build_forbidden_response : Bytes → Bytes
build_forbidden_response detail =
    build_plain_text_response 403 (codes "Forbidden")
      (with_detail (codes "request forbidden") detail) true

pub build_connect_established_response : Bytes → Bytes
build_connect_established_response proxy_agent =
    let safe_agent = sanitize_header_token proxy_agent (codes "hpserver") in
    codes "HTTP/1.1 200 Connection Established"
    ++ (crlf ++ (codes "Proxy-Agent: " ++ (safe_agent ++ (crlf ++ crlf))))

-- `key: value` and a line break.
abbrev pub header_line : Bytes → Bytes → Bytes
header_line key value = key ++ (codes ": " ++ (value ++ crlf))

-- The loop over the headers: what it writes, and its two flags.
pub record Written : Type 0 where
  pub out : Bytes
  pub has_host_header : Bool
  pub has_content_length_header : Bool

unfoldable pub write_headers : Headers → Written → Written
write_headers [] w = w
write_headers ((key, value) ∷ headers) w = write_headers headers (
    if is_hop_by_hop_header key then w else record {
      out = w.out ++ header_line key value;
      has_host_header = w.has_host_header || key =? codes "host";
      has_content_length_header = w.has_content_length_header || key =? codes "content-length";
    })

-- The `host` line that is added where the client sent none.
abbrev pub host_value : RequestInfo → Bytes
host_value req =
    req.host
    ++ (if not (req.port == 0) && not (req.port == 80) then b':' ∷ to_string req.port else [])

unfoldable pub request_line : RequestInfo → Bytes
request_line req =
    req.method
    ++ (32
        ∷ (build_origin_form req.url
            ++ (codes " HTTP/" ++ (if is_empty req.version then codes "1.1" else req.version))))

-- Empty where there is nothing to forward.
unfoldable pub build_forward_proxy_request : RequestInfo → Bytes
unfolding write_headers request_line
build_forward_proxy_request req =
    if is_empty req.method || is_empty req.host || req.is_connect
    then []
    else let head : Written = record {
      out = request_line req ++ crlf;
      has_host_header = false;
      has_content_length_header = false;
    } in
      let w = write_headers req.headers head in
      w.out
      ++ ((if w.has_host_header then [] else header_line (codes "host") (host_value req))
          ++ ((if w.has_content_length_header || is_empty req.body
                then []
                else header_line (codes "content-length") (to_string (length req.body)))
              ++ (codes "connection: close" ++ (crlf ++ (crlf ++ req.body)))))
