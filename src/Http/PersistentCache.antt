-- ===== src/Http/PersistentCache.antt =====
-- src/net/http/persistent_cache.cpp. RocksDB and the protobuf codec are parameters, and `now` is the
-- clock's reading in seconds. A sum of two `int64_t` that overflows is taken as negative.
pub mod Entries
pub mod Lookup
pub mod Lifetimes
pub mod Opened
use hpserver.Prelude.{
  ℕ, zero, suc, ◌+◌, ◌-◌, ◌^◌, Bool, true, false, not, ◌||◌, ◌&&◌, ◌==◌, ltb, leb, Option, none,
  some, List, [], ◌∷◌, ◌++◌, if◌then◌else◌, Bytes, codes, ◌=?◌, length, drop, take, get_or,
}
use hpserver.Text.{to_lower_ascii, to_string, is_digit, find, find_text, scan}
use hpserver.Http.Request.{RequestInfo, Headers, find_header}
use hpserver.Http.Builder.{is_empty, is_hop_by_hop_header, header_line, crlf}
use hpserver.Http.Llhttp.{Llhttp}
use hpserver.Http.ResponseParser.{
  Event, ResponseInfo, HttpResponseParser, blank_parser, parse, finish, has_parse_error,
  is_message_complete,
}

-- `hpserver::cache::HttpCacheEntry`
pub record HttpCacheEntry : Type 0 where
  pub status_code : ℕ
  pub reason_phrase : Bytes
  pub stored_at_unix_sec : ℕ
  pub ttl_sec : ℕ
  pub headers : Headers
  pub last_modified : Bytes
  pub etag : Bytes
  pub vary_headers : List Bytes
  pub body : Bytes

abbrev pub take_digits : Bytes → Bytes
take_digits [] = []
take_digits (c ∷ cs) = if is_digit c then c ∷ take_digits cs else []

-- `std::stoll` of digits alone; `none` stands for -1.
abbrev pub read_seconds : Bytes → Option ℕ
read_seconds digits =
    if is_empty digits
    then none
    else if ltb (scan digits).value (2 ^ 63)
    then some (scan digits).value
    else none

abbrev pub valid_start : ℕ → Bytes → Bool
valid_start zero cc = true
valid_start (suc i) cc = let c = get_or cc i 0 in c == b',' || (c == b' ' || c == b';')

-- The loop on fuel; a round moves `pos` on by the length of `max-age=` at least.
max_age_from : ℕ → ℕ → Bytes → Option ℕ
max_age_from zero pos cc = none
max_age_from (suc fuel) pos cc =
    if leb (length cc) pos then none else elim (find_text (codes "max-age=") (drop pos cc)) [
      | none ↦ none
      | some i ↦
          let rest = max_age_from fuel (pos + i + 8) cc in
          if valid_start (pos + i) cc
          then read_seconds (take_digits (drop (pos + i + 8) cc))
          else rest
    ]

unfoldable pub parse_max_age : Bytes → Option ℕ
unfolding max_age_from
parse_max_age cc = max_age_from (suc (length cc)) 0 cc

-- The branch on `expires` returns the same number as the end.
unfoldable pub compute_ttl : ResponseInfo → ℕ
compute_ttl resp = elim (find_header (codes "cache-control") resp.headers) [
  | none ↦ 3600
  | some cc ↦ elim (parse_max_age cc) [ none ↦ 3600 | some max_age ↦ max_age ]
]

abbrev pub is_fresh : ℕ → HttpCacheEntry → Bool
is_fresh now entry =
    let sum = entry.stored_at_unix_sec + entry.ttl_sec in ltb sum (2 ^ 63) && leb now sum

drop_front_quote : Bytes → Bytes
drop_front_quote [] = []
drop_front_quote (c ∷ cs) = if c == b'"' then cs else c ∷ cs

drop_back_quote : Bytes → Bytes
drop_back_quote [] = []
drop_back_quote (c ∷ []) = if c == b'"' then [] else c ∷ []
drop_back_quote (c ∷ d ∷ ds) = c ∷ drop_back_quote (d ∷ ds)

unfoldable pub trim_quotes : Bytes → Bytes
unfolding drop_front_quote drop_back_quote
trim_quotes s = drop_back_quote (drop_front_quote s)

-- A tag of the client, or the absence of one, decides alone where the entry has a tag.
abbrev pub same_date : RequestInfo → HttpCacheEntry → Bool
same_date req entry = elim (find_header (codes "if-modified-since") req.headers) [
  | none ↦ false
  | some date ↦ if is_empty entry.last_modified then false else date =? entry.last_modified
]

unfoldable pub check_not_modified : RequestInfo → HttpCacheEntry → Bool
check_not_modified req entry = elim (find_header (codes "if-none-match") req.headers) [
  | none ↦ same_date req entry
  | some tag ↦
      if is_empty entry.etag
      then same_date req entry
      else trim_quotes (to_lower_ascii tag) =? trim_quotes (to_lower_ascii entry.etag)
]

-- The loop of `rebuild_response`: what it appends, and whether a length is among it.
rebuild_headers : Headers → Bytes × Bool → Bytes × Bool
rebuild_headers [] w = w
rebuild_headers ((key, value) ∷ headers) (response, has_length) = rebuild_headers headers (
    if is_hop_by_hop_header (to_lower_ascii key) then (response, has_length) else (
      response ++ header_line key value,
      has_length || to_lower_ascii key =? codes "content-length",
    ))

unfoldable pub rebuild_response : HttpCacheEntry → Bytes
unfolding rebuild_headers
rebuild_response entry =
    let (response, has_length) = rebuild_headers entry.headers (
      codes "HTTP/1.1 " ++ (to_string entry.status_code ++ (32 ∷ (entry.reason_phrase ++ crlf))),
      false,
    ) in
    response
    ++ ((if has_length
          then []
          else header_line (codes "Content-Length") (to_string (length entry.body)))
        ++ (crlf ++ entry.body))

abbrev pub in_not_modified : Bytes → Bool
in_not_modified key =
    key =? codes "etag"
    || (key =? codes "last-modified"
        || (key =? codes "cache-control" || (key =? codes "expires" || key =? codes "vary")))

abbrev pub not_modified_headers : Headers → Bytes
not_modified_headers [] = []
not_modified_headers ((key, value) ∷ headers) =
    (if in_not_modified (to_lower_ascii key) then header_line key value else [])
    ++ not_modified_headers headers

unfoldable pub build_not_modified_response : HttpCacheEntry → Bytes
build_not_modified_response entry =
    codes "HTTP/1.1 304 Not Modified" ++ (crlf ++ (not_modified_headers entry.headers ++ crlf))

drop_blanks : Bytes → Bytes
drop_blanks [] = []
drop_blanks (c ∷ cs) = if c == b' ' then drop_blanks cs else c ∷ cs

drop_blanks_back : Bytes → Bytes
drop_blanks_back [] = []
drop_blanks_back (c ∷ cs) = elim (drop_blanks_back cs) [
  | [] ↦ if c == b' ' then [] else c ∷ []
  | d ∷ ds ↦ c ∷ d ∷ ds
]

abbrev with_name : Bytes → List Bytes → List Bytes
with_name [] names = names
with_name (c ∷ cs) names = to_lower_ascii (c ∷ cs) ∷ names

-- The loop on fuel, over the text from `start` on; a round takes a byte at least.
vary_from : ℕ → Bytes → List Bytes
unfolding drop_blanks drop_blanks_back
vary_from zero text = []
vary_from (suc fuel) [] = []
vary_from (suc fuel) (c ∷ cs) =
    let text = drop_blanks (c ∷ cs) in
    elim (find b',' text) [
      | none ↦ with_name (drop_blanks_back text) []
      | some i ↦ with_name (drop_blanks_back (take i text)) (vary_from fuel (drop (i + 1) text))
    ]

unfoldable pub parse_vary_headers : Bytes → List Bytes
unfolding vary_from
parse_vary_headers vary_value = vary_from (length vary_value) vary_value

-- One header of the response, written into the entry.
abbrev pub note_header : Bytes → Bytes → HttpCacheEntry → HttpCacheEntry
note_header key value entry =
    if key =? codes "last-modified"
    then record entry { last_modified = value }
    else if key =? codes "etag"
    then record entry { etag = value }
    else if key =? codes "vary"
    then record entry { vary_headers = entry.vary_headers ++ parse_vary_headers value }
    else entry

abbrev pub note_headers : Headers → HttpCacheEntry → HttpCacheEntry
note_headers [] entry = entry
note_headers ((key, value) ∷ headers) entry =
    note_headers headers
      (note_header key value (record entry { headers = entry.headers ++ (key, value) ∷ [] }))

unfoldable pub entry_of : ℕ → ResponseInfo → HttpCacheEntry
entry_of now resp =
    let blank : HttpCacheEntry = record {
      status_code = resp.status_code;
      reason_phrase = resp.reason_phrase;
      stored_at_unix_sec = now;
      ttl_sec = compute_ttl resp;
      headers = [];
      last_modified = [];
      etag = [];
      vary_headers = [];
      body = [];
    } in
    record (note_headers resp.headers blank) { body = resp.body }

pub data LookupStatus : Type 0 where
  miss : LookupStatus
  not_modified : LookupStatus
  hit : LookupStatus

-- What the cache asks of RocksDB and of the generated codec.
pub record Storage : Type 1 where
  pub Db : Type 0
  pub get_value : Bytes → Db → Option Bytes
  pub put_value : Bytes → Bytes → Db → Db × Bool
  pub delete_value : Bytes → Db → Db × Bool
  pub serialize : HttpCacheEntry → Option Bytes
  pub parse_entry : Bytes → Option HttpCacheEntry

module _ (storage : Storage) where
  abbrev pub answer : RequestInfo → HttpCacheEntry → LookupStatus × Bytes
  answer req entry =
      if check_not_modified req entry
      then (not_modified, build_not_modified_response entry)
      else (hit, rebuild_response entry)

  unfoldable pub lookup : Bytes → RequestInfo → ℕ → storage.Db → LookupStatus × Bytes
  lookup cache_key req now db = elim (storage.get_value cache_key db) [
    | none ↦ (miss, [])
    | some raw_value ↦ elim (storage.parse_entry raw_value) [
      | none ↦ (miss, [])
      | some entry ↦ if is_fresh now entry then answer req entry else (miss, [])
    ]
  ]

  unfoldable pub erase : Bytes → storage.Db → storage.Db × Bool
  erase cache_key db = storage.delete_value cache_key db

  module _ (lib : Llhttp Event) where
    -- `finish` is called on a message that is not complete.
    abbrev pub finished : HttpResponseParser → lib.Parser → HttpResponseParser
    finished p parser = if is_message_complete p then p else (finish lib p parser).1.0

    -- The response, where `store` does not return before its status.
    unfoldable pub accepted : Bytes → Option ResponseInfo
    accepted upstream_response =
        let (ok, (p, parser)) = parse lib upstream_response blank_parser lib.init in
        if not ok || has_parse_error p
        then none
        else let q = finished p parser in
          if not (is_message_complete q) || has_parse_error q then none else some q.response

    abbrev pub write_entry : Bytes → HttpCacheEntry → storage.Db → storage.Db × Bool
    write_entry cache_key entry db = elim (storage.serialize entry) [
      | none ↦ (db, false)
      | some serialized ↦ storage.put_value cache_key serialized db
    ]

    unfoldable pub store : Bytes → Bytes → ℕ → storage.Db → storage.Db × Bool
    store cache_key upstream_response now db = elim (accepted upstream_response) [
      | none ↦ (db, false)
      | some resp ↦
          if ltb resp.status_code 200 || leb 300 resp.status_code
          then (db, false)
          else write_entry cache_key (entry_of now resp) db
    ]
