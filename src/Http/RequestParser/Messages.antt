-- ===== src/Http/RequestParser/Messages.antt =====
-- A whole request, from its pieces.
use hpserver.Prelude.{
  Bool-cases, Option-cases, inl, inr, codes, ◌==◌, ℕ, ◌≡◌, ◌∙◌, refl, ap, Bool, true, false, List,
  [], ◌∷◌, ◌++◌, map, Option, Bytes,
}
use hpserver.Http.Request.{RequestInfo, blank_request, find_header}
use hpserver.Http.Builder.{is_empty}
use hpserver.Http.Fields.{cleared, Field, Piece, on_pieces, all_pieces, join, assemble, HaveNames}
use hpserver.Http.Fields.Laws.{on_pieces-assemble}
use hpserver.Http.Llhttp.{Llhttp, Code}
use hpserver.Http.RequestParser.{
  Event, HttpRequestParser, set_chunked, set_host_port, default_port, parse_host_port,
  reset_for_next_message, blank_parser, message_complete, post_process_headers, pending,
  with_pending, on_event, on_events, has_parse_error, is_message_complete, parse,
}

-- A request as it may arrive: each part in pieces, the headers in their order.
pub record Arrival : Type 0 where
  pub url_pieces : List Bytes
  pub version_pieces : List Bytes
  pub fields : List Field
  pub method_name : Bytes
  pub should_keep_alive : Bool
  pub content_length : ℕ
  pub connect : Bool
  pub body_pieces : List Bytes

abbrev pub piece_event : Piece → Event
piece_event (Piece.name b) = Event.header_field b
piece_event (Piece.value b) = Event.header_value b

abbrev pub head_events : Arrival → List Event
head_events a =
    map Event.url a.url_pieces
    ++ (map Event.version a.version_pieces ++ map piece_event (all_pieces a.fields))

abbrev pub events_of : Arrival → List Event
events_of a =
    Event.message_begin
    ∷ (head_events a
        ++ (Event.headers_complete a.method_name a.should_keep_alive a.content_length a.connect
            ∷ (map Event.body a.body_pieces ++ Event.message_end ∷ [])))

-- What is known of the request when its head is complete.
abbrev pub head_of : Arrival → RequestInfo
head_of a = record blank_request {
  method = a.method_name;
  url = join [] a.url_pieces;
  version = join [] a.version_pieces;
  content_length = a.content_length;
  keep_alive = a.should_keep_alive;
  is_connect = a.connect;
  headers = assemble a.fields [];
}

abbrev pub request_of : Arrival → RequestInfo
request_of a = record (post_process_headers (head_of a)) { body = join [] a.body_pieces }

on_events-append :
    (xs ys : List Event) (p : HttpRequestParser)
    → on_events (xs ++ ys) p ≡ on_events ys (on_events xs p)
on_events-append [] ys p = refl
on_events-append (x ∷ xs) ys p = on_events-append xs ys (on_event x p)

on_urls :
    (us : List Bytes) (p : HttpRequestParser)
    → on_events (map Event.url us) p
      ≡ record p { request = record p.request { url = join p.request.url us } }
on_urls [] p = refl
on_urls (u ∷ us) p = on_urls us (on_event (Event.url u) p)

on_versions :
    (vs : List Bytes) (p : HttpRequestParser)
    → on_events (map Event.version vs) p
      ≡ record p { request = record p.request { version = join p.request.version vs } }
on_versions [] p = refl
on_versions (v ∷ vs) p = on_versions vs (on_event (Event.version v) p)

on_bodies :
    (bs : List Bytes) (p : HttpRequestParser)
    → on_events (map Event.body bs) p
      ≡ record p { request = record p.request { body = join p.request.body bs } }
on_bodies [] p = refl
on_bodies (b ∷ bs) p = on_bodies bs (on_event (Event.body b) p)

on_piece_events :
    (es : List Piece) (p : HttpRequestParser)
    → on_events (map piece_event es) p ≡ with_pending p (on_pieces es (pending p))
on_piece_events [] p = refl
on_piece_events (Piece.name b ∷ es) p = on_piece_events es (on_event (Event.header_field b) p)
on_piece_events (Piece.value b ∷ es) p = on_piece_events es (on_event (Event.header_value b) p)

set_chunked-body : (r : RequestInfo) → (set_chunked r).body ≡ r.body
set_chunked-body r = elim (Option-cases (find_header (codes "transfer-encoding") r.headers)) [
  | inl e ↦ rw (e, set_chunked) refl
  | inr (te, e) ↦ rw (e, set_chunked) refl
]

default_port-body : (r : RequestInfo) → (default_port r).body ≡ r.body
default_port-body r = elim (Bool-cases (r.port == 0)) [
  | inl e ↦ rw (e, default_port) refl
  | inr e ↦ rw (e, default_port) refl
]

post_process_headers-body : (r : RequestInfo) → (post_process_headers r).body ≡ r.body
unfolding post_process_headers
post_process_headers-body r = elim (Bool-cases (set_chunked r).is_connect) [
  | inl e ↦ rw e (set_chunked-body r)
  | inr e ↦ elim (Option-cases (find_header (codes "host") (set_chunked r).headers)) [
    | inl k ↦ rw (e, k) (set_chunked-body r)
    | inr (host, k) ↦
        rw (e, k)
          (default_port-body (set_host_port (parse_host_port host) (set_chunked r))
            ∙ set_chunked-body r)
  ]
]

-- The head, from a parser that has just begun a message.
abbrev begun : HttpRequestParser → HttpRequestParser
begun p = on_event Event.message_begin p

on_head_events :
    (a : Arrival) (p : HttpRequestParser)
    → on_events (head_events a) (begun p)
      ≡ with_pending
          (record (begun p) {
            request = record blank_request {
              url = join [] a.url_pieces;
              version = join [] a.version_pieces;
            };
          })
          (on_pieces (all_pieces a.fields) (cleared []))
on_head_events a p =
    on_events-append (map Event.url a.url_pieces) _ (begun p)
    ∙ rw
        (
          on_urls a.url_pieces (begun p),
          on_events-append (map Event.version a.version_pieces)
              (map piece_event (all_pieces a.fields)),
          on_versions,
        )
        (on_piece_events (all_pieces a.fields) _)

abbrev headed : Arrival → HttpRequestParser → HttpRequestParser
headed a p =
    on_event (Event.headers_complete a.method_name a.should_keep_alive a.content_length a.connect)
      (on_events (head_events a) (begun p))

headed-request :
    (a : Arrival) (p : HttpRequestParser)
    → HaveNames a.fields
    → (headed a p).request ≡ post_process_headers (head_of a)
headed-request a p n = rw (on_head_events a p) (
    ap (λ h. post_process_headers (record (head_of a) { headers = h }))
      (on_pieces-assemble a.fields [] n))

ended :
    (bs : List Bytes) (p : HttpRequestParser)
    → on_events (map Event.body bs ++ Event.message_end ∷ []) p ≡ record p {
      request = record p.request { body = join p.request.body bs };
      parse_state = message_complete;
    }
ended bs p =
    on_events-append (map Event.body bs) (Event.message_end ∷ []) p ∙ rw (on_bodies bs p) refl

on_events-events_of :
    (a : Arrival) (p : HttpRequestParser)
    → on_events (events_of a) p ≡ record (headed a p) {
      request = record (headed a p).request { body = join (headed a p).request.body a.body_pieces };
      parse_state = message_complete;
    }
on_events-events_of a p =
    on_events-append (head_events a) _ (begun p) ∙ ended a.body_pieces (headed a p)

on_events-request :
    (a : Arrival) (p : HttpRequestParser)
    → HaveNames a.fields
    → (on_events (events_of a) p).request ≡ request_of a
on_events-request a p n =
    ap (λ q. q.request) (on_events-events_of a p)
    ∙ rw (headed-request a p n) (
        ap (λ b. record (post_process_headers (head_of a)) { body = join b a.body_pieces })
          (post_process_headers-body (head_of a)))

-- When a parser that is not in error is given bytes in which llhttp finds, after anything else, a
-- whole request, in any pieces and with no empty header name, `parse` succeeds, the message is
-- complete, and the request is that one alone: whole parts, and the later of two headers of one
-- name. Nothing of what came before it is left.
pub parse-last_message :
    (lib : Llhttp Event) (bytes : Bytes) (p : HttpRequestParser) (parser parser' : lib.Parser)
    (before : List Event) (a : Arrival) (name : Bytes) (reason : Option Bytes)
    → has_parse_error p ≡ false
    → is_empty bytes ≡ false
    → HaveNames a.fields
    → lib.execute bytes parser ≡ (
      before ++ events_of a,
      (record { code = Code.hpe_ok; errno_name = name; reason = reason }, parser'),
    )
    → ((parse lib bytes p parser).0 ≡ true)
      × (is_message_complete (parse lib bytes p parser).1.0 ≡ true)
      × ((parse lib bytes p parser).1.0.request ≡ request_of a)
unfolding parse
parse-last_message lib bytes p parser parser' before a name reason ok full n run =
    let q = on_events before p in
    rw (ok, full, run, on_events-append before (events_of a) p)
      (refl, ap (λ q. is_message_complete q) (on_events-events_of a q), on_events-request a q n)

-- Once a parser has failed, `parse` fails and changes neither it nor llhttp's state, whatever the
-- bytes are, until `reset_for_next_message`, which makes it a new parser with llhttp reset.
parse-failed :
    (lib : Llhttp Event) (bytes : Bytes) (p : HttpRequestParser) (parser : lib.Parser)
    → has_parse_error p ≡ true
    → (parse lib bytes p parser ≡ (false, (p, parser)))
      × (reset_for_next_message lib p parser ≡ (blank_parser, lib.reset parser))
unfolding parse
parse-failed lib bytes p parser h = rw h (refl, refl)
