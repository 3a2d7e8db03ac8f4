-- ===== src/Http/ResponseParser.antt =====
-- src/net/http/http_response_parser.{h,cpp}. The state that the header callbacks work on is that of
-- the request parser, whose callbacks for headers are the same code.
pub mod Replies
use hpserver.Prelude.{
  ℕ, Bool, true, false, not, ◌||◌, Option, none, some, List, [], ◌∷◌, ◌++◌, if◌then◌else◌, Bytes,
  codes,
}
use hpserver.Text.{to_lower_ascii, find_text}
use hpserver.Http.Request.{Headers, find_header}
use hpserver.Http.Builder.{is_empty}
use hpserver.Http.Fields.{Pending, finish_pending_header, on_header_field, on_header_value}
use hpserver.Http.Llhttp.{Llhttp, Errno, Code, error_text}

pub data ParseState : Type 0 where
  reading_response : ParseState
  message_complete : ParseState
  upgraded_tunnel : ParseState
  parse_error : ParseState

pub record ResponseInfo : Type 0 where
  pub status_code : ℕ
  pub reason_phrase : Bytes
  pub version : Bytes
  pub content_length : ℕ
  pub chunked : Bool
  pub keep_alive : Bool
  pub headers : Headers
  pub body : Bytes

-- `response_info{}`
abbrev pub blank_response : ResponseInfo
blank_response = record {
  status_code = 0;
  reason_phrase = [];
  version = [];
  content_length = 0;
  chunked = false;
  keep_alive = false;
  headers = [];
  body = [];
}

-- The callbacks, with what they read from the `llhttp_t`.
pub data Event : Type 0 where
  message_begin : Event
  status : Bytes → Event
  version : Bytes → Event
  header_field : Bytes → Event
  header_value : Bytes → Event
  headers_complete : (status_code : ℕ) (should_keep_alive : Bool) (content_length : ℕ) → Event
  body : Bytes → Event
  message_end : Event

-- All but the `llhttp_t`.
pub record HttpResponseParser : Type 0 where
  pub parse_state : ParseState
  pub error : Bytes
  pub response : ResponseInfo
  pub current_header_field : Bytes
  pub current_header_value : Bytes
  pub parsing_last_was_value : Bool

unfoldable pub post_process_headers : ResponseInfo → ResponseInfo
post_process_headers r = elim (find_header (codes "transfer-encoding") r.headers) [
  | none ↦ r
  | some te ↦ record r {
    chunked = elim (find_text (codes "chunked") (to_lower_ascii te)) [
      | none ↦ false
      | some i ↦ true
    ];
  }
]

-- The fields that the header callbacks work on, and their place in the parser.
abbrev pub pending : HttpResponseParser → Pending
pending p = record {
  headers = p.response.headers;
  current_header_field = p.current_header_field;
  current_header_value = p.current_header_value;
  parsing_last_was_value = p.parsing_last_was_value;
}

abbrev pub with_pending : HttpResponseParser → Pending → HttpResponseParser
with_pending p q = record p {
  response = record p.response { headers = q.headers };
  current_header_field = q.current_header_field;
  current_header_value = q.current_header_value;
  parsing_last_was_value = q.parsing_last_was_value;
}

abbrev pub clear_response_runtime : HttpResponseParser → HttpResponseParser
clear_response_runtime p = record p {
  response = blank_response;
  current_header_field = [];
  current_header_value = [];
  parsing_last_was_value = false;
}

abbrev pub on_headers_complete : ℕ → Bool → ℕ → HttpResponseParser → HttpResponseParser
on_headers_complete status_code keep_alive size p =
    let q = with_pending p (finish_pending_header (pending p)) in
    record q {
      response = post_process_headers (record q.response {
        status_code = status_code;
        keep_alive = keep_alive;
        content_length = size;
      });
    }

abbrev pub on_event : Event → HttpResponseParser → HttpResponseParser
on_event message_begin p = record (clear_response_runtime p) { parse_state = reading_response }
on_event (status at) p = record p {
  response = record p.response { reason_phrase = p.response.reason_phrase ++ at };
}
on_event (version at) p = record p {
  response = record p.response { version = p.response.version ++ at };
}
on_event (header_field at) p = with_pending p (on_header_field at (pending p))
on_event (header_value at) p = with_pending p (on_header_value at (pending p))
on_event (headers_complete code keep_alive size) p = on_headers_complete code keep_alive size p
on_event (body at) p = record p { response = record p.response { body = p.response.body ++ at } }
on_event message_end p = record p { parse_state = message_complete }

abbrev pub on_events : List Event → HttpResponseParser → HttpResponseParser
on_events [] p = p
on_events (e ∷ es) p = on_events es (on_event e p)

abbrev pub has_parse_error : HttpResponseParser → Bool
has_parse_error p = elim p.parse_state [ parse_error ↦ true | _ ↦ false ]

abbrev pub is_message_complete : HttpResponseParser → Bool
is_message_complete p = elim p.parse_state [
  | message_complete ↦ true
  | upgraded_tunnel ↦ true
  | _ ↦ false
]

abbrev pub is_connect_tunnel : HttpResponseParser → Bool
is_connect_tunnel p = elim p.parse_state [ upgraded_tunnel ↦ true | _ ↦ false ]

abbrev pub blank_parser : HttpResponseParser
blank_parser = record {
  parse_state = reading_response;
  error = [];
  response = blank_response;
  current_header_field = [];
  current_header_value = [];
  parsing_last_was_value = false;
}

module _ (lib : Llhttp Event) where
  -- What `parse` does with the outcome of `llhttp_execute`.
  abbrev pub after_execute :
      Errno → HttpResponseParser → lib.Parser → Bool × (HttpResponseParser × lib.Parser)
  after_execute err p parser = elim err.code [
    | Code.hpe_ok ↦ (true, (p, parser))
    | Code.hpe_paused_upgrade ↦
        (true, (record p { parse_state = upgraded_tunnel }, lib.resume_after_upgrade parser))
    | _ ↦ (false, (record p { parse_state = parse_error; error = error_text err }, parser))
  ]

  unfoldable pub parse :
      Bytes → HttpResponseParser → lib.Parser → Bool × (HttpResponseParser × lib.Parser)
  parse data_ p parser =
      if has_parse_error p || (is_message_complete p || is_empty data_)
      then (not (has_parse_error p), (p, parser))
      else let (events, (err, parser')) = lib.execute data_ parser in
        after_execute err (on_events events p) parser'

  abbrev pub completed : HttpResponseParser → HttpResponseParser
  completed p = if is_connect_tunnel p then p else record p { parse_state = message_complete }

  -- What `finish` does with the outcome of `llhttp_finish`.
  abbrev pub after_finish :
      Errno → HttpResponseParser → lib.Parser → Bool × (HttpResponseParser × lib.Parser)
  after_finish err p parser = elim err.code [
    | Code.hpe_ok ↦ (true, (completed p, parser))
    | Code.hpe_paused ↦ (true, (completed p, parser))
    | _ ↦ (false, (record p { parse_state = parse_error; error = err.errno_name }, parser))
  ]

  unfoldable pub finish : HttpResponseParser → lib.Parser → Bool × (HttpResponseParser × lib.Parser)
  finish p parser =
      if has_parse_error p || is_message_complete p
      then (not (has_parse_error p), (p, parser))
      else let (events, (err, parser')) = lib.finish parser in
        after_finish err (on_events events p) parser'

  abbrev pub reset_for_next_message :
      HttpResponseParser → lib.Parser → HttpResponseParser × lib.Parser
  reset_for_next_message p parser = (
    record (clear_response_runtime p) { parse_state = reading_response; error = [] },
    lib.reset parser,
  )
