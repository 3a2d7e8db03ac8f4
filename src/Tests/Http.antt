-- ===== src/Tests/Http.antt =====
-- Tests of the messages, after tests/http_message_builder_test.cpp.
use hpserver.Prelude.{◌≡◌, true, some, [], ◌∷◌, codes}
use hpserver.Http.Request.{RequestInfo, blank_request}
use hpserver.Http.Builder as B
use hpserver.Http.Builder.Reading as Reading
use hpserver.Http.Builder.Responses as Responses
use hpserver.Http.Builder.Targets as Targets
use hpserver.Http.Builder.Upstream as Upstream

abbrev get_request : RequestInfo
get_request = record blank_request {
  method = codes "GET";
  url = codes "http://example.com/a";
  host = codes "example.com";
  port = 80;
  headers = (codes "proxy-connection", codes "keep-alive") ∷ (codes "accept", codes "a") ∷ [];
}

read_message-plain_text_example :
    Reading.read_message (B.build_plain_text_response 404 (codes "Not\r\nX: y") (codes "gone") true)
    ≡ some (
      Responses.plain_head 404
          (B.sanitize_header_token (codes "Not\r\nX: y") (codes "Unknown"))
          4
          true,
      B.sanitize_body (codes "gone"),
    )
read_message-plain_text_example =
    Responses.read_message-plain_text 404 (codes "Not\r\nX: y") (codes "gone") true
