-- ===== src/Tests/Cache.antt =====
-- Tests of the persistent cache, over a store that is a list of pairs.
use hpserver.Prelude.{
  ℕ, ◌≡◌, refl, true, false, Bool, ltb, ◌&&◌, Option, none, some, List, [], ◌∷◌, ◌++◌, Bytes, codes,
  length, take, drop,
}
use hpserver.Text.{to_string}
use hpserver.Http.Request.{Headers, RequestInfo, blank_request, find_header, set_header}
use hpserver.Http.Llhttp.{Llhttp, Errno, Code}
use hpserver.Http.Builder.Reading.{read_message, has_no_break-NoBreak}
use hpserver.Http.ResponseParser as Parser
use hpserver.Http.ResponseParser.{Event, ResponseInfo}
use hpserver.Http.ResponseParser.Replies as Replies
use hpserver.Http.PersistentCache as Cache
use hpserver.Http.PersistentCache.{HttpCacheEntry, Storage}
use hpserver.Http.PersistentCache.Lookup as Lookup
use hpserver.Http.PersistentCache.Entries as Entries

-- A codec of entries without headers: three numbers, the length of the reason, reason and body.
abbrev encode : Headers → Bytes → Bytes → List Bytes → HttpCacheEntry → Option Bytes
encode [] [] [] [] e = some (
    e.status_code
    ∷ e.stored_at_unix_sec
    ∷ e.ttl_sec
    ∷ length e.reason_phrase
    ∷ (e.reason_phrase ++ e.body))
encode (h ∷ hs) l t v e = none
encode [] (l ∷ ls) t v e = none
encode [] [] (t ∷ ts) v e = none
encode [] [] [] (v ∷ vs) e = none

abbrev decode : Bytes → Option HttpCacheEntry
decode (status ∷ stored ∷ ttl ∷ n ∷ rest) = some (record {
  status_code = status;
  reason_phrase = take n rest;
  stored_at_unix_sec = stored;
  ttl_sec = ttl;
  headers = [];
  last_modified = [];
  etag = [];
  vary_headers = [];
  body = drop n rest;
})
decode _ = none

abbrev pub pairs : Storage
pairs = record {
  Db = Headers;
  get_value = find_header;
  put_value = λ k v db. (set_header k v db, true);
  delete_value = λ k db. (db, true);
  serialize = λ e. encode e.headers e.last_modified e.etag e.vary_headers e;
  parse_entry = decode;
}

-- The texts in ASCII.
abbrev is_ascii : Bytes → Bool
is_ascii [] = true
is_ascii (c ∷ cs) = ltb c 128 && is_ascii cs

abbrev arrival : Replies.Arrival
arrival = record {
  status_pieces = codes "OK" ∷ [];
  version_pieces = codes "1.1" ∷ [];
  fields = [];
  status_code = 200;
  should_keep_alive = false;
  content_length = 0;
  body_pieces = codes "hello" ∷ [];
}

abbrev fine : Errno
fine = record { code = Code.hpe_ok; errno_name = codes "HPE_OK"; reason = none }

abbrev pub found : Llhttp Event
found = record {
  Parser = ℕ;
  init = 0;
  reset = λ n. 0;
  execute = λ bytes n. (Replies.events_of arrival, (fine, 1));
  finish = λ n. ([], (fine, 2));
  resume_after_upgrade = λ n. n;
}

abbrev reply : ResponseInfo
reply = Replies.response_of arrival

abbrev pub get_request : RequestInfo
get_request = record blank_request { method = codes "GET"; host = codes "a"; url = codes "/" }

abbrev filled : Headers
filled = (Cache.store pairs found (codes "k") (codes "HTTP") 1000 []).0

read_message-rebuilt_example :
    read_message (Cache.rebuild_response (Cache.entry_of 1000 reply))
    ≡ some (Entries.rebuilt_head (Cache.entry_of 1000 reply), codes "hello")
unfolding Cache.entry_of Parser.post_process_headers find_header
read_message-rebuilt_example =
    Entries.read_message-rebuilt (Cache.entry_of 1000 reply)
      (has_no_break-NoBreak (codes "OK") refl) tt

abbrev dated : ResponseInfo
dated = record Parser.blank_response {
  headers = (codes "cache-control", codes "max-age=" ++ (to_string 60 ++ codes ", public")) ∷ [];
}
