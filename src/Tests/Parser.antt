-- ===== src/Tests/Parser.antt =====
-- Tests of the request parser, after tests/http_request_parser_test.cpp.
use hpserver.Prelude.{ℕ, ◌≡◌, refl, true, false, none, List, [], ◌∷◌, ◌++◌, arith, codes}
use hpserver.Text.{to_string}
use hpserver.Http.Llhttp.{Llhttp, Errno, Code}
use hpserver.Http.RequestParser as Parser
use hpserver.Http.RequestParser.{Event, HttpRequestParser, ParseState}
use hpserver.Http.RequestParser.Messages as Messages
use hpserver.Http.RequestParser.HostPort as HostPort

abbrev arrival : Messages.Arrival
arrival = record {
  url_pieces = codes "/in" ∷ codes "dex" ∷ [];
  version_pieces = codes "1.1" ∷ [];
  fields =
      record {
        name_piece = codes "Ho";
        name_pieces = codes "st" ∷ [];
        value_piece = codes "exam";
        value_pieces = codes "ple:81" ∷ [];
      }
      ∷ [];
  method_name = codes "GET";
  should_keep_alive = true;
  content_length = 0;
  connect = false;
  body_pieces = [];
}

abbrev earlier : List Event
earlier = Event.message_begin ∷ Event.url (codes "/a") ∷ []

abbrev fine : Errno
fine = record { code = Code.hpe_ok; errno_name = codes "HPE_OK"; reason = none }

-- A library that finds the same request in all bytes, and counts its runs.
abbrev found : Llhttp Event
found = record {
  Parser = ℕ;
  init = 0;
  reset = λ n. 0;
  execute = λ bytes n. (earlier ++ Messages.events_of arrival, (fine, 1));
  finish = λ n. ([], (fine, n));
  resume_after_upgrade = λ n. n;
}

parse-last_message_example :
    ((Parser.parse found (codes "GET") Parser.blank_parser 0).0 ≡ true)
    × (Parser.is_message_complete (Parser.parse found (codes "GET") Parser.blank_parser 0).1.0
        ≡ true)
    × ((Parser.parse found (codes "GET") Parser.blank_parser 0).1.0.request
        ≡ Messages.request_of arrival)
parse-last_message_example =
    Messages.parse-last_message found (codes "GET") Parser.blank_parser 0 1 earlier arrival
      (codes "HPE_OK") none refl refl (refl, tt) refl

abbrev failed : HttpRequestParser
failed = record Parser.blank_parser { parse_state = ParseState.parse_error; error = codes "HPE_CB" }

parse_host_port-name_example :
    Parser.parse_host_port (codes "example" ++ (b':' ∷ to_string 65616)) ≡ (codes "example", 80)
parse_host_port-name_example =
    HostPort.parse_host_port-name (codes "example") 65616 refl
      (refl, (refl, (refl, (refl, (refl, (refl, (refl, tt))))))) (omega arith)
