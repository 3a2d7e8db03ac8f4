-- ===== src/Http/HttpCache/Levels.antt =====
-- The two levels, and the keys.
use hpserver.Prelude.{bytes_eq, ◌≡◌, refl, none, some, ◌∷◌, ◌++◌, Bytes, codes}
use mathlib.Core.List.{append-nil}
use hpserver.Util.MemoryCache as Memory
use hpserver.Http.Request.{RequestInfo, Headers, find_header}
use hpserver.Http.Llhttp.{Llhttp}
use hpserver.Http.PersistentCache as Persistent
use hpserver.Http.HttpCache.{HttpCache, build_cache_key}

-- A bar in a URL is not told from the bar before the encoding: a request that accepts an encoding
-- has the same key as one without the header whose URL goes on with a bar and that encoding.
build_cache_key-collision :
    (req : RequestInfo) (headers : Headers) (encoding : Bytes)
    → find_header (codes "accept-encoding") req.headers ≡ some encoding
    → find_header (codes "accept-encoding") headers ≡ none
    → build_cache_key (record req { url = req.url ++ (b'|' ∷ encoding); headers = headers })
      ≡ build_cache_key req
unfolding build_cache_key
build_cache_key-collision req headers encoding h k = rw (h, k, append-nil) refl
