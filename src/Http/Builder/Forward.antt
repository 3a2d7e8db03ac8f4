-- ===== src/Http/Builder/Forward.antt =====
-- What the loop over the headers writes into the request that goes upstream.
use hpserver.Prelude.{
  ℕ, ◌≡◌, ◌==◌, refl, sym, ap, ◌∙◌, Bool, true, false, not, ◌&&◌, ◌||◌, List, [], ◌∷◌, ◌++◌,
  if◌then◌else◌, Bytes, codes, ◌=?◌, length, Bool-cases, inl, inr,
}
use mathlib.Core.List.{append_assoc, append-nil}
use hpserver.Text.{to_string}
use hpserver.Http.Request.{RequestInfo, Headers}
use hpserver.Http.Builder.{
  crlf, is_empty, is_hop_by_hop_header, header_line, Written, write_headers, host_value,
  request_line, build_origin_form, build_forward_proxy_request,
}
use hpserver.Http.Builder.Targets.{is_empty-=?}
use hpserver.Http.Builder.Reading.{message}

-- The headers of one hop, as RFC 7230 and older proxies have them.
abbrev pub hop_by_hop : List Bytes
hop_by_hop =
    codes "connection"
    ∷ codes "proxy-connection"
    ∷ codes "keep-alive"
    ∷ codes "te"
    ∷ codes "trailer"
    ∷ codes "transfer-encoding"
    ∷ codes "upgrade"
    ∷ []

abbrev pub is_among : Bytes → List Bytes → Bool
is_among key [] = false
is_among key (k ∷ ks) = key =? k || is_among key ks

-- The headers that are passed on, as lines.
abbrev pub end_to_end : Headers → List Bytes
end_to_end [] = []
end_to_end ((k, v) ∷ h) =
    if is_among k hop_by_hop then end_to_end h else (k ++ (codes ": " ++ v)) ∷ end_to_end h

abbrev pub sends : Bytes → Headers → Bool
sends key [] = false
sends key ((k, v) ∷ h) = (not (is_among k hop_by_hop) && k =? key) || sends key h

-- The host, with the port unless it is unknown or 80.
abbrev pub authority_of : Bytes → ℕ → Bytes
authority_of host port =
    if port == 0 || port == 80 then host else host ++ (codes ":" ++ to_string port)

-- The request line, with the version 1.1 where none is known.
abbrev pub forward_line : RequestInfo → Bytes → Bytes
forward_line req target =
    req.method
    ++ (codes " "
        ++ (target ++ (codes " HTTP/" ++ (if req.version =? [] then codes "1.1" else req.version))))

-- The lines of the head that goes upstream.
abbrev pub forward_head : RequestInfo → Bytes → List Bytes
forward_head req target =
    forward_line req target
    ∷ (end_to_end req.headers
        ++ ((if sends (codes "host") req.headers
              then []
              else (codes "host: " ++ authority_of req.host req.port) ∷ [])
            ++ ((if sends (codes "content-length") req.headers || is_empty req.body
                  then []
                  else (codes "content-length: " ++ to_string (length req.body)) ∷ [])
                ++ codes "connection: close" ∷ [])))

pub request_line-head :
    (req : RequestInfo) → request_line req ≡ forward_line req (build_origin_form req.url)
unfolding request_line
request_line-head req =
    ap
      (λ (b : Bool).
        req.method
        ++ (codes " "
            ++ (build_origin_form req.url
                ++ (codes " HTTP/" ++ (if b then codes "1.1" else req.version)))))
      (is_empty-=? req.version)

pub host_value-authority_of : (req : RequestInfo) → host_value req ≡ authority_of req.host req.port
host_value-authority_of req = elim (Bool-cases (req.port == 0)) [
  | inl e ↦ rw (e, host_value) (append-nil req.host)
  | inr e ↦ elim (Bool-cases (req.port == 80)) [
    | inl k ↦ rw (e, k, host_value) (append-nil req.host)
    | inr k ↦ rw (e, k, host_value) refl
  ]
]

-- The bytes of a row of lines, each with its end.
unfoldable pub lines_of : List Bytes → Bytes
lines_of [] = []
lines_of (l ∷ ls) = l ++ (crlf ++ lines_of ls)

pub lines_of-append : (xs ys : List Bytes) → lines_of (xs ++ ys) ≡ lines_of xs ++ lines_of ys
unfolding lines_of
lines_of-append [] ys = refl
lines_of-append (l ∷ xs) ys = simp (lines_of-append xs ys, append_assoc)

pub message-lines_of :
    (ls : List Bytes) (body : Bytes) → message ls body ≡ lines_of ls ++ (crlf ++ body)
unfolding lines_of
message-lines_of [] body = refl
message-lines_of (l ∷ ls) body = simp (message-lines_of ls body, append_assoc)

Written-path :
    {o o' : Bytes} {a a' b b' : Bool}
    → o ≡ o'
    → a ≡ a'
    → b ≡ b'
    → ◌≡◌ {A = Written}
        (record { out = o; has_host_header = a; has_content_length_header = b })
        (record { out = o'; has_host_header = a'; has_content_length_header = b' })
Written-path p q r =
    λ i. record { out = p i; has_host_header = q i; has_content_length_header = r i }

pub or_false : (b : Bool) → (b || false) ≡ b
or_false true = refl
or_false false = refl

pub or_assoc : (a b c : Bool) → ((a || b) || c) ≡ (a || (b || c))
or_assoc true b c = refl
or_assoc false b c = refl

pub is_hop_by_hop_header-among : (k : Bytes) → is_hop_by_hop_header k ≡ is_among k hop_by_hop
unfolding is_hop_by_hop_header
is_hop_by_hop_header-among k = simp or_false

-- The loop over the headers writes the lines that are passed on, and its flags say what it wrote.
write_headers_lem :
    (h : Headers) (w : Written)
    → write_headers h w ≡ record {
      out = w.out ++ lines_of (end_to_end h);
      has_host_header = w.has_host_header || sends (codes "host") h;
      has_content_length_header = w.has_content_length_header || sends (codes "content-length") h;
    }
unfolding write_headers lines_of
write_headers_lem [] w =
    Written-path (sym (append-nil w.out)) (sym (or_false w.has_host_header))
      (sym (or_false w.has_content_length_header))
write_headers_lem ((k, v) ∷ h) w = elim (Bool-cases (is_among k hop_by_hop)) [
  | inl e ↦ rw (is_hop_by_hop_header-among k, e) (write_headers_lem h w)
  | inr e ↦
      let w' : Written = record {
        out = w.out ++ header_line k v;
        has_host_header = w.has_host_header || k =? codes "host";
        has_content_length_header = w.has_content_length_header || k =? codes "content-length";
      } in
      rw (is_hop_by_hop_header-among k, e)
        (write_headers_lem h w'
          ∙ Written-path (simp append_assoc)
              (or_assoc w.has_host_header (k =? codes "host") (sends (codes "host") h))
              (or_assoc w.has_content_length_header (k =? codes "content-length")
                (sends (codes "content-length") h)))
]

pub lines_of-optional :
    (b : Bool) (l : Bytes) (ls : List Bytes)
    → lines_of ((if b then [] else l ∷ []) ++ ls) ≡ (if b then [] else l ++ crlf) ++ lines_of ls
unfolding lines_of
lines_of-optional true l ls = refl
lines_of-optional false l ls = simp append_assoc

-- The whole request is one head and the body.
pub build_forward_proxy_request-message :
    (req : RequestInfo)
    → is_empty req.method ≡ false
    → is_empty req.host ≡ false
    → req.is_connect ≡ false
    → build_forward_proxy_request req
      ≡ message (forward_head req (build_origin_form req.url)) req.body
unfolding build_forward_proxy_request lines_of
build_forward_proxy_request-message req m h c =
    let head : Written = record {
      out = (forward_line req (build_origin_form req.url)) ++ crlf;
      has_host_header = false;
      has_content_length_header = false;
    } in
    let host = sends (codes "host") req.headers in
    let length_line = sends (codes "content-length") req.headers || is_empty req.body in
    let rest : List Bytes = codes "connection: close" ∷ [] in
    let size = codes "content-length: " ++ to_string (length req.body) in
    let last : List Bytes = (if length_line then [] else size ∷ []) ++ rest in
    let tail : lines_of
          ((if host then [] else (codes "host: " ++ authority_of req.host req.port) ∷ []) ++ last)
        ≡ (if host then [] else (codes "host: " ++ authority_of req.host req.port) ++ crlf)
          ++ ((if length_line then [] else size ++ crlf) ++ lines_of rest) =
      lines_of-optional host (codes "host: " ++ authority_of req.host req.port) last
      ∙ ap
          (λ t.
            (if host then [] else (codes "host: " ++ authority_of req.host req.port) ++ crlf) ++ t)
          (lines_of-optional length_line size rest) in
    rw
      (
        m,
        h,
        c,
        request_line-head req,
        host_value-authority_of req,
        write_headers_lem req.headers head,
        message-lines_of,
        lines_of-append,
        tail,
      )
      (simp append_assoc)
