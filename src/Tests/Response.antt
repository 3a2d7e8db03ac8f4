-- ===== src/Tests/Response.antt =====
-- Tests of the response parser, after tests/http_response_parser_test.cpp.
use hpserver.Prelude.{ℕ, ◌≡◌, refl, true, false, none, [], ◌∷◌, codes}
use hpserver.Http.Llhttp.{Llhttp, Errno, Code}
use hpserver.Http.ResponseParser as Parser
use hpserver.Http.ResponseParser.{Event, HttpResponseParser}
use hpserver.Http.ResponseParser.Replies as Replies

abbrev arrival : Replies.Arrival
arrival = record {
  status_pieces = codes "O" ∷ codes "K" ∷ [];
  version_pieces = codes "1.1" ∷ [];
  fields =
      record {
        name_piece = codes "ETag";
        name_pieces = [];
        value_piece = codes "a";
        value_pieces = codes "b" ∷ [];
      }
      ∷ [];
  status_code = 200;
  should_keep_alive = false;
  content_length = 0;
  body_pieces = codes "he" ∷ codes "llo" ∷ [];
}

abbrev fine : Errno
fine = record { code = Code.hpe_ok; errno_name = codes "HPE_OK"; reason = none }

-- A library that finds the same response in all bytes, and ends an open one with a callback.
abbrev found : Llhttp Event
found = record {
  Parser = ℕ;
  init = 0;
  reset = λ n. 0;
  execute = λ bytes n. (Replies.events_of arrival, (fine, 1));
  finish = λ n. (Event.message_end ∷ [], (fine, 2));
  resume_after_upgrade = λ n. n;
}

parse-whole_response_example :
    ((Parser.parse found (codes "HTTP") Parser.blank_parser 0).0 ≡ true)
    × ((Parser.parse found (codes "HTTP") Parser.blank_parser 0).1.0.response
        ≡ Replies.response_of arrival)
    × (Parser.parse found
          (codes "x")
          (Parser.parse found (codes "HTTP") Parser.blank_parser 0).1.0
          1
        ≡ (true, (Parser.parse found (codes "HTTP") Parser.blank_parser 0).1))
parse-whole_response_example =
    Replies.parse-whole_response found (codes "HTTP") (codes "x") Parser.blank_parser 0 1 [] arrival
      (codes "HPE_OK") none refl refl refl (refl, tt) refl

abbrev open_parser : HttpResponseParser
open_parser = Parser.on_events (Replies.open_events arrival) Parser.blank_parser

finish-open_response_example :
    (Parser.is_message_complete open_parser ≡ false)
    × ((Parser.finish found open_parser 1).0 ≡ true)
    × (Parser.is_message_complete (Parser.finish found open_parser 1).1.0 ≡ true)
    × ((Parser.finish found open_parser 1).1.0.response ≡ Replies.response_of arrival)
finish-open_response_example =
    Replies.finish-open_response found Parser.blank_parser 1 2 [] arrival (codes "HPE_OK") none true
      (refl, tt) refl
