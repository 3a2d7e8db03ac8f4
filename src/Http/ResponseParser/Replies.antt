-- ===== src/Http/ResponseParser/Replies.antt =====
-- A whole response, from its pieces, and one that runs to the end of the stream.
use hpserver.Prelude.{
  Option-cases, inl, inr, codes, ℕ, ◌≡◌, ◌∙◌, refl, ap, Bool, true, false, List, [], ◌∷◌, ◌++◌, map,
  Option, Bytes, if◌then◌else◌,
}
use hpserver.Http.Request.{find_header}
use hpserver.Http.Builder.{is_empty}
use hpserver.Http.Fields.{cleared, Field, Piece, on_pieces, all_pieces, join, assemble, HaveNames}
use hpserver.Http.Fields.Laws.{on_pieces-assemble}
use hpserver.Http.Llhttp.{Llhttp, Code}
use hpserver.Http.ResponseParser.{
  Event, HttpResponseParser, ParseState, ResponseInfo, blank_response, finish, message_complete,
  post_process_headers, pending, with_pending, on_event, on_events, has_parse_error,
  is_message_complete, parse,
}

-- A response as it may arrive: each part in pieces, the headers in their order.
pub record Arrival : Type 0 where
  pub status_pieces : List Bytes
  pub version_pieces : List Bytes
  pub fields : List Field
  pub status_code : ℕ
  pub should_keep_alive : Bool
  pub content_length : ℕ
  pub body_pieces : List Bytes

abbrev pub piece_event : Piece → Event
piece_event (Piece.name b) = Event.header_field b
piece_event (Piece.value b) = Event.header_value b

abbrev pub head_events : Arrival → List Event
head_events a =
    map Event.status a.status_pieces
    ++ (map Event.version a.version_pieces ++ map piece_event (all_pieces a.fields))

abbrev pub events_of : Arrival → List Event
events_of a =
    Event.message_begin
    ∷ (head_events a
        ++ (Event.headers_complete a.status_code a.should_keep_alive a.content_length
            ∷ (map Event.body a.body_pieces ++ Event.message_end ∷ [])))

-- What is known of the response when its head is complete.
abbrev pub head_of : Arrival → ResponseInfo
head_of a = record blank_response {
  status_code = a.status_code;
  reason_phrase = join [] a.status_pieces;
  version = join [] a.version_pieces;
  content_length = a.content_length;
  keep_alive = a.should_keep_alive;
  headers = assemble a.fields [];
}

abbrev pub response_of : Arrival → ResponseInfo
response_of a = record (post_process_headers (head_of a)) { body = join [] a.body_pieces }

on_events-append :
    (xs ys : List Event) (p : HttpResponseParser)
    → on_events (xs ++ ys) p ≡ on_events ys (on_events xs p)
on_events-append [] ys p = refl
on_events-append (x ∷ xs) ys p = on_events-append xs ys (on_event x p)

on_statuses :
    (us : List Bytes) (p : HttpResponseParser)
    → on_events (map Event.status us) p ≡ record p {
      response = record p.response { reason_phrase = join p.response.reason_phrase us };
    }
on_statuses [] p = refl
on_statuses (u ∷ us) p = on_statuses us (on_event (Event.status u) p)

on_versions :
    (vs : List Bytes) (p : HttpResponseParser)
    → on_events (map Event.version vs) p
      ≡ record p { response = record p.response { version = join p.response.version vs } }
on_versions [] p = refl
on_versions (v ∷ vs) p = on_versions vs (on_event (Event.version v) p)

on_bodies :
    (bs : List Bytes) (p : HttpResponseParser)
    → on_events (map Event.body bs) p
      ≡ record p { response = record p.response { body = join p.response.body bs } }
on_bodies [] p = refl
on_bodies (b ∷ bs) p = on_bodies bs (on_event (Event.body b) p)

on_piece_events :
    (es : List Piece) (p : HttpResponseParser)
    → on_events (map piece_event es) p ≡ with_pending p (on_pieces es (pending p))
on_piece_events [] p = refl
on_piece_events (Piece.name b ∷ es) p = on_piece_events es (on_event (Event.header_field b) p)
on_piece_events (Piece.value b ∷ es) p = on_piece_events es (on_event (Event.header_value b) p)

post_process_headers-body : (r : ResponseInfo) → (post_process_headers r).body ≡ r.body
unfolding post_process_headers
post_process_headers-body r =
    elim (Option-cases (find_header (codes "transfer-encoding") r.headers)) [
      | inl e ↦ rw (e, post_process_headers) refl
      | inr (te, e) ↦ rw (e, post_process_headers) refl
    ]

-- The head, from a parser that has just begun a message.
abbrev begun : HttpResponseParser → HttpResponseParser
begun p = on_event Event.message_begin p

on_head_events :
    (a : Arrival) (p : HttpResponseParser)
    → on_events (head_events a) (begun p)
      ≡ with_pending
          (record (begun p) {
            response = record blank_response {
              reason_phrase = join [] a.status_pieces;
              version = join [] a.version_pieces;
            };
          })
          (on_pieces (all_pieces a.fields) (cleared []))
on_head_events a p =
    on_events-append (map Event.status a.status_pieces) _ (begun p)
    ∙ rw
        (
          on_statuses a.status_pieces (begun p),
          on_events-append (map Event.version a.version_pieces)
              (map piece_event (all_pieces a.fields)),
          on_versions,
        )
        (on_piece_events (all_pieces a.fields) _)

abbrev headed : Arrival → HttpResponseParser → HttpResponseParser
headed a p =
    on_event (Event.headers_complete a.status_code a.should_keep_alive a.content_length)
      (on_events (head_events a) (begun p))

headed-response :
    (a : Arrival) (p : HttpResponseParser)
    → HaveNames a.fields
    → (headed a p).response ≡ post_process_headers (head_of a)
headed-response a p n = rw (on_head_events a p) (
    ap (λ h. post_process_headers (record (head_of a) { headers = h }))
      (on_pieces-assemble a.fields [] n))

ended :
    (bs : List Bytes) (p : HttpResponseParser)
    → on_events (map Event.body bs ++ Event.message_end ∷ []) p ≡ record p {
      response = record p.response { body = join p.response.body bs };
      parse_state = message_complete;
    }
ended bs p =
    on_events-append (map Event.body bs) (Event.message_end ∷ []) p ∙ rw (on_bodies bs p) refl

on_events-events_of :
    (a : Arrival) (p : HttpResponseParser)
    → on_events (events_of a) p ≡ record (headed a p) {
      response = record (headed a p).response {
        body = join (headed a p).response.body a.body_pieces;
      };
      parse_state = message_complete;
    }
on_events-events_of a p =
    on_events-append (head_events a) _ (begun p) ∙ ended a.body_pieces (headed a p)

on_events-response :
    (a : Arrival) (p : HttpResponseParser)
    → HaveNames a.fields
    → (on_events (events_of a) p).response ≡ response_of a
on_events-response a p n =
    ap (λ q. q.response) (on_events-events_of a p)
    ∙ rw (headed-response a p n) (
        ap (λ b. record (post_process_headers (head_of a)) { body = join b a.body_pieces })
          (post_process_headers-body (head_of a)))

-- When a parser that is neither in error nor complete is given bytes in which llhttp finds, after
-- anything else, a whole response, in any pieces and with no empty header name, `parse` succeeds,
-- the message is complete, the response is that one, and later bytes change nothing.
pub parse-whole_response :
    (lib : Llhttp Event) (bytes more : Bytes) (p : HttpResponseParser) (parser parser' : lib.Parser)
    (before : List Event) (a : Arrival) (name : Bytes) (reason : Option Bytes)
    → has_parse_error p ≡ false
    → is_message_complete p ≡ false
    → is_empty bytes ≡ false
    → HaveNames a.fields
    → lib.execute bytes parser ≡ (
      before ++ events_of a,
      (record { code = Code.hpe_ok; errno_name = name; reason = reason }, parser'),
    )
    → ((parse lib bytes p parser).0 ≡ true)
      × ((parse lib bytes p parser).1.0.response ≡ response_of a)
      × (parse lib more (parse lib bytes p parser).1.0 parser'
          ≡ (true, (parse lib bytes p parser).1))
unfolding parse
parse-whole_response lib bytes more p parser parser' before a name reason ok open_ full n run =
    let q = on_events before p in
    rw (ok, open_, full, run, on_events-append before (events_of a) p)
      (refl, on_events-response a q n, rw (on_events-events_of a q) refl)

-- A response without an end that llhttp knows: all but the last callback.
abbrev pub open_events : Arrival → List Event
open_events a =
    Event.message_begin
    ∷ (head_events a
        ++ (Event.headers_complete a.status_code a.should_keep_alive a.content_length
            ∷ map Event.body a.body_pieces))

on_events-open_events :
    (a : Arrival) (p : HttpResponseParser)
    → on_events (open_events a) p ≡ record (headed a p) {
      response = record (headed a p).response {
        body = join (headed a p).response.body a.body_pieces;
      };
    }
on_events-open_events a p =
    on_events-append (head_events a) _ (begun p) ∙ on_bodies a.body_pieces (headed a p)

headed-state :
    (a : Arrival) (p : HttpResponseParser) → (headed a p).parse_state ≡ ParseState.reading_response
headed-state a p = rw (on_head_events a p) refl

headed-body :
    (a : Arrival) (p : HttpResponseParser)
    → HaveNames a.fields
    → (record (headed a p).response { body = join (headed a p).response.body a.body_pieces })
      ≡ response_of a
headed-body a p n =
    ap {A = ResponseInfo} {B = ResponseInfo} (λ r. record r { body = join r.body a.body_pieces })
      (headed-response a p n)
    ∙ ap {B = ResponseInfo}
        (λ b. record (post_process_headers (head_of a)) { body = join b a.body_pieces })
        (post_process_headers-body (head_of a))

-- When llhttp has found, after anything else, a response whose body has no known end, in any pieces
-- and with no empty header name, the parser is not complete, and `finish` at the end of the stream,
-- if llhttp accepts it there, with a last callback or without, completes it with the body that has
-- come.
pub finish-open_response :
    (lib : Llhttp Event) (p : HttpResponseParser) (parser parser' : lib.Parser)
    (before : List Event) (a : Arrival) (name : Bytes) (reason : Option Bytes) (calls_back : Bool)
    → HaveNames a.fields
    → lib.finish parser ≡ (
      if calls_back then Event.message_end ∷ [] else [],
      (record { code = Code.hpe_ok; errno_name = name; reason = reason }, parser'),
    )
    → (is_message_complete (on_events (before ++ open_events a) p) ≡ false)
      × ((finish lib (on_events (before ++ open_events a) p) parser).0 ≡ true)
      × (is_message_complete (finish lib (on_events (before ++ open_events a) p) parser).1.0 ≡ true)
      × ((finish lib (on_events (before ++ open_events a) p) parser).1.0.response ≡ response_of a)
unfolding finish
finish-open_response lib p parser parser' before a name reason true n run =
    let q = on_events before p in
    rw (on_events-append before (open_events a) p, on_events-open_events a q, headed-state a q, run)
      (refl, refl, refl, headed-body a q n)
finish-open_response lib p parser parser' before a name reason false n run =
    let q = on_events before p in
    rw (on_events-append before (open_events a) p, on_events-open_events a q, headed-state a q, run)
      (refl, refl, refl, headed-body a q n)
