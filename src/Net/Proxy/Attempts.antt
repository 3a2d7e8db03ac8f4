-- ===== src/Net/Proxy/Attempts.antt =====
-- `forward_request`: what a success has sent and received.
use hpserver.Prelude.{◌≡◌, Bool, true, false, ◌&&◌, ◌||◌, List, [], ◌∷◌, ◌++◌, Bytes}
use hpserver.Os.{concat}
use hpserver.Http.Builder.{build_forward_proxy_request}
use hpserver.Http.Request.{RequestInfo}
use hpserver.Http.Llhttp.{Llhttp}
use hpserver.Http.ResponseParser.{
  Event, HttpResponseParser, blank_parser, parse, finish, is_message_complete,
}
use hpserver.Net.Proxy.Forward.{Attempt, Forwarded}

-- A property of what succeeds.
abbrev When : Bool → Type 0 → Type 0
When true A = A
When false A = Unit

module _ (lib : Llhttp Event) where
  -- The parser takes each piece, and then the message is complete or the end of the stream completes
  -- it.
  abbrev pub settles : List Bytes → HttpResponseParser → lib.Parser → Bool
  settles [] p parser = is_message_complete p || (finish lib p parser).0
  settles (b ∷ bs) p parser =
      let (ok, (p', parser')) = parse lib b p parser in ok && settles bs p' parser'

  abbrev pub IsResponse : HttpResponseParser → lib.Parser → Bytes → Bytes → Type 0
  IsResponse p parser before out =
      (pieces : List Bytes) × (out ≡ before ++ concat pieces) × (settles pieces p parser ≡ true)

  Succeeds : Bytes → Attempt → Type 0
  Succeeds forward a =
      When a.ok ((a.sent ≡ forward) × IsResponse blank_parser lib.init [] a.out_response)

  Answers : RequestInfo → Forwarded → Type 0
  Answers req f =
      (earlier : List Attempt) × (last : Attempt) × (f.attempts ≡ earlier ++ (last ∷ []))
      × (last.sent ≡ build_forward_proxy_request req)
      × IsResponse blank_parser lib.init [] f.out_response
