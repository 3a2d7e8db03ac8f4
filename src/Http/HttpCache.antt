-- ===== src/Http/HttpCache.antt =====
-- src/net/http/http_cache.cpp: the memory cache in front of the persistent one. `l2_` is null or a
-- persistent cache that has been opened, since `open` keeps no other.
pub mod Levels
use hpserver.Prelude.{
  bytes_eq, ℕ, ◌*◌, Bool, true, false, not, ◌&&◌, ◌||◌, leb, Option, none, some, List, [], ◌∷◌,
  ◌++◌, if◌then◌else◌, Bytes, codes, ◌=?◌, length,
}
use hpserver.Text.{to_string}
use hpserver.Util.MemoryCache.{MemoryCache}
use hpserver.Util.MemoryCache as Memory
use hpserver.Http.Request.{RequestInfo, find_header}
use hpserver.Http.Llhttp.{Llhttp}
use hpserver.Http.ResponseParser.{Event}
use hpserver.Http.PersistentCache.{Storage}
use hpserver.Http.PersistentCache as Persistent

-- 64 KB
abbrev pub l1_max_body_size : ℕ
l1_max_body_size = 64 * 1024

pub data LookupStatus : Type 0 where
  bypass : LookupStatus
  miss : LookupStatus
  not_modified : LookupStatus
  hit : LookupStatus
  error : LookupStatus

pub record LookupResult : Type 0 where
  pub status : LookupStatus
  pub cache_key : Bytes
  pub response : Bytes
  pub detail : Bytes

abbrev pub is_cacheable_request : RequestInfo → Bool
is_cacheable_request req = not req.is_connect && req.method =? codes "GET"

unfoldable pub build_cache_key : RequestInfo → Bytes
build_cache_key req =
    req.host
    ++ (b':'
        ∷ (to_string req.port
            ++ (b'|'
                ∷ (req.method
                    ++ (b'|'
                        ∷ (req.url ++ (elim (find_header (codes "accept-encoding") req.headers) [
                          | none ↦ []
                          | some encoding ↦ b'|' ∷ encoding
                        ])))))))

module _ (storage : Storage) where
  pub record HttpCache : Type 0 where
    pub l2 : Option storage.Db
    pub l1_cache : MemoryCache Bytes Bytes

  -- `open_db path` is `none` if RocksDB does not open the path.
  abbrev pub open_ : (Bytes → Option storage.Db) → Bytes → HttpCache → HttpCache × Bool
  open_ open_db path c = elim (open_db path) [
    | none ↦ (c, false)
    | some db ↦ (record c { l2 = some db }, true)
  ]

  abbrev pub configure_l1 : ℕ → ℕ → HttpCache → HttpCache
  configure_l1 max_entries max_bytes c = record c {
    l1_cache = Memory.memory_cache length max_entries max_bytes;
  }

  abbrev pub put_small : Bytes → Bytes → HttpCache → HttpCache
  put_small key response c =
      if leb (length response) l1_max_body_size
      then record c { l1_cache = Memory.put length c.l1_cache key response }
      else c

  -- The second level's answer, and a hit that is small goes to the first level.
  abbrev pub from_l2 :
      Bytes → Persistent.LookupStatus × Bytes → HttpCache → HttpCache × LookupResult
  from_l2 key (Persistent.miss, response) c =
      (c, record { status = miss; cache_key = key; response = []; detail = [] })
  from_l2 key (Persistent.not_modified, response) c =
      (c, record { status = not_modified; cache_key = key; response = response; detail = [] })
  from_l2 key (Persistent.hit, response) c = (
    put_small key response c,
    record { status = hit; cache_key = key; response = response; detail = [] },
  )

  -- Behind the test of `ready`.
  abbrev pub lookup_key :
      Bytes → RequestInfo → ℕ → storage.Db → HttpCache → HttpCache × LookupResult
  lookup_key key req now db c =
      let (l1, response, found) =
        Memory.with_value length c.l1_cache key (λ cached response. cached) [] in
      if found
      then (
        record c { l1_cache = l1 },
        record { status = hit; cache_key = key; response = response; detail = [] },
      )
      else from_l2 key (Persistent.lookup storage key req now db) (record c { l1_cache = l1 })

  unfoldable pub lookup : RequestInfo → ℕ → HttpCache → HttpCache × LookupResult
  lookup req now c =
      if not (is_cacheable_request req)
      then (c, record { status = bypass; cache_key = []; response = []; detail = [] })
      else elim c.l2 [
        | none ↦ (
          c,
          record {
            status = error;
            cache_key = build_cache_key req;
            response = [];
            detail = codes "cache module is not initialized";
          },
        )
        | some db ↦ lookup_key (build_cache_key req) req now db c
      ]

  -- After the second level has answered to `store`.
  abbrev pub stored : Bytes → Bytes → storage.Db × Bool → HttpCache → HttpCache × Bool
  stored key response (db, ok) c =
      if ok
      then (put_small key response (record c { l2 = some db }), true)
      else (record c { l2 = some db }, false)

  unfoldable pub store : Llhttp Event → RequestInfo → Bytes → ℕ → HttpCache → HttpCache × Bool
  store lib req upstream_response now c =
      if not (is_cacheable_request req) then (c, false) else elim c.l2 [
        | none ↦ (c, false)
        | some db ↦
            let key = build_cache_key req in
            stored key upstream_response (Persistent.store storage lib key upstream_response now db)
              c
      ]
