-- ===== src/Http/RequestParser.antt =====
-- src/net/http/http_request_parser.{h,cpp}.
pub mod Messages
pub mod HostPort
use hpserver.Prelude.{
  ℕ, ◌+◌, ◌-◌, ◌^◌, ◌%◌, Bool, true, false, not, ◌||◌, ◌&&◌, ◌==◌, leb, Option, none, some, List,
  [], ◌∷◌, ◌++◌, if◌then◌else◌, Bytes, codes, length, drop, take, get_or,
}
use hpserver.Text.{to_lower_ascii, is_space, skip_space, find, rfind, find_text, strtoull}
use hpserver.Http.Request.{RequestInfo, blank_request, find_header}
use hpserver.Http.Builder.{is_empty}
use hpserver.Http.Fields.{Pending, finish_pending_header, on_header_field, on_header_value}
use hpserver.Http.Llhttp.{Llhttp, Errno, Code, error_text}

pub data ParseState : Type 0 where
  reading_request : ParseState
  message_complete : ParseState
  upgraded_tunnel : ParseState
  parse_error : ParseState

-- The callbacks, with what they read from the `llhttp_t`.
pub data Event : Type 0 where
  message_begin : Event
  url : Bytes → Event
  version : Bytes → Event
  header_field : Bytes → Event
  header_value : Bytes → Event
  headers_complete :
      (method_name : Bytes) (should_keep_alive : Bool) (content_length : ℕ) (is_connect : Bool)
      → Event
  body : Bytes → Event
  message_end : Event

-- All but the `llhttp_t`.
pub record HttpRequestParser : Type 0 where
  pub parse_state : ParseState
  pub error : Bytes
  pub request : RequestInfo
  pub current_header_field : Bytes
  pub current_header_value : Bytes
  pub parsing_last_was_value : Bool

unfoldable pub skip_space_back : Bytes → Bytes
skip_space_back [] = []
skip_space_back (c ∷ cs) = elim (skip_space_back cs) [
  | [] ↦ if is_space c then [] else c ∷ []
  | d ∷ ds ↦ c ∷ d ∷ ds
]

-- `static_cast<std::uint16_t>(std::strtoul(text, nullptr, 10))`
abbrev pub parse_port : Bytes → ℕ
parse_port text = (strtoull text).0 % 2 ^ 16

-- A text in brackets: `i` is the index of the closing one.
abbrev pub bracketed : Bytes → Option ℕ → Bytes × ℕ
bracketed text none = (text, 0)
bracketed text (some i) = (
  take (i - 1) (drop 1 text),
  if leb (i + 2) (length text) && get_or text (i + 1) 0 == b':'
      then parse_port (drop (i + 2) text)
      else 0,
)

-- `i` is the index of the last colon, `j` of the first.
abbrev pub at_colon : Bytes → Option ℕ → Option ℕ → Bytes × ℕ
at_colon text none j = (text, 0)
at_colon text (some i) none = (text, 0)
at_colon text (some i) (some j) =
    if not (j == i) then (text, 0) else (take i text, parse_port (drop (i + 1) text))

abbrev pub split_host_port : Bytes → Bytes × ℕ
split_host_port [] = ([], 0)
split_host_port (c ∷ cs) =
    if c == b'['
    then bracketed (c ∷ cs) (find b']' (c ∷ cs))
    else at_colon (c ∷ cs) (rfind b':' (c ∷ cs)) (find b':' (c ∷ cs))

-- The host and the port; a port of 0 stands for none.
unfoldable pub parse_host_port : Bytes → Bytes × ℕ
parse_host_port text = split_host_port (skip_space_back (skip_space text))

abbrev pub set_host_port : Bytes × ℕ → RequestInfo → RequestInfo
set_host_port (host, port) r = record r { host = host; port = port }

abbrev pub set_chunked : RequestInfo → RequestInfo
set_chunked r = elim (find_header (codes "transfer-encoding") r.headers) [
  | none ↦ r
  | some te ↦ record r {
    chunked = elim (find_text (codes "chunked") (to_lower_ascii te)) [
      | none ↦ false
      | some i ↦ true
    ];
  }
]

abbrev pub default_port : RequestInfo → RequestInfo
default_port r = if r.port == 0 then record r { port = 80 } else r

unfoldable pub post_process_headers : RequestInfo → RequestInfo
post_process_headers r =
    let r' = set_chunked r in
    if r'.is_connect
    then set_host_port (parse_host_port r'.url) r'
    else elim (find_header (codes "host") r'.headers) [
      | none ↦ r'
      | some host ↦ default_port (set_host_port (parse_host_port host) r')
    ]

-- The fields that the header callbacks work on, and their place in the parser.
abbrev pub pending : HttpRequestParser → Pending
pending p = record {
  headers = p.request.headers;
  current_header_field = p.current_header_field;
  current_header_value = p.current_header_value;
  parsing_last_was_value = p.parsing_last_was_value;
}

abbrev pub with_pending : HttpRequestParser → Pending → HttpRequestParser
with_pending p q = record p {
  request = record p.request { headers = q.headers };
  current_header_field = q.current_header_field;
  current_header_value = q.current_header_value;
  parsing_last_was_value = q.parsing_last_was_value;
}

abbrev pub clear_request_runtime : HttpRequestParser → HttpRequestParser
clear_request_runtime p = record p {
  request = blank_request;
  current_header_field = [];
  current_header_value = [];
  parsing_last_was_value = false;
}

abbrev pub on_headers_complete : Bytes → Bool → ℕ → Bool → HttpRequestParser → HttpRequestParser
on_headers_complete name keep_alive size is_connect p =
    let q = with_pending p (finish_pending_header (pending p)) in
    record q {
      request = post_process_headers (record q.request {
        method = name;
        keep_alive = keep_alive;
        content_length = size;
        is_connect = is_connect;
      });
    }

abbrev pub on_event : Event → HttpRequestParser → HttpRequestParser
on_event message_begin p = record (clear_request_runtime p) { parse_state = reading_request }
on_event (url at) p = record p { request = record p.request { url = p.request.url ++ at } }
on_event (version at) p = record p {
  request = record p.request { version = p.request.version ++ at };
}
on_event (header_field at) p = with_pending p (on_header_field at (pending p))
on_event (header_value at) p = with_pending p (on_header_value at (pending p))
on_event (headers_complete name keep_alive size is_connect) p =
    on_headers_complete name keep_alive size is_connect p
on_event (body at) p = record p { request = record p.request { body = p.request.body ++ at } }
on_event message_end p = record p { parse_state = message_complete }

abbrev pub on_events : List Event → HttpRequestParser → HttpRequestParser
on_events [] p = p
on_events (e ∷ es) p = on_events es (on_event e p)

abbrev pub has_parse_error : HttpRequestParser → Bool
has_parse_error p = elim p.parse_state [ parse_error ↦ true | _ ↦ false ]

abbrev pub is_message_complete : HttpRequestParser → Bool
is_message_complete p = elim p.parse_state [
  | message_complete ↦ true
  | upgraded_tunnel ↦ true
  | _ ↦ false
]

abbrev pub is_connect_tunnel : HttpRequestParser → Bool
is_connect_tunnel p = elim p.parse_state [ upgraded_tunnel ↦ true | _ ↦ false ]

abbrev pub blank_parser : HttpRequestParser
blank_parser = record {
  parse_state = reading_request;
  error = [];
  request = blank_request;
  current_header_field = [];
  current_header_value = [];
  parsing_last_was_value = false;
}

module _ (lib : Llhttp Event) where
  -- What `parse` does with the outcome of `llhttp_execute`.
  abbrev pub after_execute :
      Errno → HttpRequestParser → lib.Parser → Bool × (HttpRequestParser × lib.Parser)
  after_execute err p parser = elim err.code [
    | Code.hpe_ok ↦ (true, (p, parser))
    | Code.hpe_paused_upgrade ↦
        (true, (record p { parse_state = upgraded_tunnel }, lib.resume_after_upgrade parser))
    | _ ↦ (false, (record p { parse_state = parse_error; error = error_text err }, parser))
  ]

  unfoldable pub parse :
      Bytes → HttpRequestParser → lib.Parser → Bool × (HttpRequestParser × lib.Parser)
  parse data_ p parser =
      if has_parse_error p || is_empty data_
      then (not (has_parse_error p), (p, parser))
      else let (events, (err, parser')) = lib.execute data_ parser in
        after_execute err (on_events events p) parser'

  abbrev pub reset_for_next_message :
      HttpRequestParser → lib.Parser → HttpRequestParser × lib.Parser
  reset_for_next_message p parser = (
    record (clear_request_runtime p) { parse_state = reading_request; error = [] },
    lib.reset parser,
  )
