-- ===== src/Http/Request.antt =====
-- `http_request_parser::request_info`. The headers are the pairs in the order in which a loop over
-- the `unordered_map` meets them; a key stands once.
use hpserver.Prelude.{ℕ, Bool, false, Option, none, some, List, [], ◌∷◌, if◌then◌else◌, Bytes, ◌=?◌}

abbrev pub Headers : Type 0
Headers = List (Bytes × Bytes)

pub record RequestInfo : Type 0 where
  pub method : Bytes
  pub url : Bytes
  pub version : Bytes
  pub host : Bytes
  pub port : ℕ
  pub content_length : ℕ
  pub chunked : Bool
  pub keep_alive : Bool
  pub is_connect : Bool
  pub headers : Headers
  pub body : Bytes

-- `request_info{}`
abbrev pub blank_request : RequestInfo
blank_request = record {
  method = [];
  url = [];
  version = [];
  host = [];
  port = 0;
  content_length = 0;
  chunked = false;
  keep_alive = false;
  is_connect = false;
  headers = [];
  body = [];
}

-- `headers.find(key)`
unfoldable pub find_header : Bytes → Headers → Option Bytes
find_header k [] = none
find_header k ((j, v) ∷ h) = if j =? k then some v else find_header k h

-- `headers[key] = value`
unfoldable pub set_header : Bytes → Bytes → Headers → Headers
set_header k v [] = (k, v) ∷ []
set_header k v ((j, w) ∷ h) = if j =? k then (k, v) ∷ h else (j, w) ∷ set_header k v h
