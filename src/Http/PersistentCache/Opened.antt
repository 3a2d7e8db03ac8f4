-- ===== src/Http/PersistentCache/Opened.antt =====
-- src/net/http/persistent_cache.cpp: the cache with its handle on the database, which is null until `open`
-- succeeds. `none` of an operation is a call through the null handle.
use hpserver.Prelude.{ℕ, Bool, true, false, Option, none, some, Bytes}
use hpserver.Http.Request.{RequestInfo}
use hpserver.Http.Llhttp.{Llhttp}
use hpserver.Http.ResponseParser.{Event}
use hpserver.Http.PersistentCache.{Storage, LookupStatus, lookup, erase, store}

module _ (storage : Storage) where
  pub record PersistentCache : Type 0 where
    pub db : Option storage.Db

  abbrev pub persistent_cache : PersistentCache
  persistent_cache = record { db = none }

  -- `open_db path` is `none` if RocksDB does not open the path.
  abbrev pub open_ : (Bytes → Option storage.Db) → Bytes → PersistentCache → PersistentCache × Bool
  open_ open_db path c = elim (open_db path) [
    | none ↦ (c, false)
    | some db ↦ (record c { db = some db }, true)
  ]

  abbrev pub ready : PersistentCache → Bool
  ready c = elim c.db [ none ↦ false | some db ↦ true ]

  abbrev pub lookup_in : Bytes → RequestInfo → ℕ → PersistentCache → Option (LookupStatus × Bytes)
  lookup_in cache_key req now c = elim c.db [
    | none ↦ none
    | some db ↦ some (lookup storage cache_key req now db)
  ]

  -- What a call leaves of the database.
  abbrev pub kept : Option (storage.Db × Bool) → PersistentCache → Option (PersistentCache × Bool)
  kept none c = none
  kept (some (db, ok)) c = some (record c { db = some db }, ok)

  abbrev pub erase_in : Bytes → PersistentCache → Option (PersistentCache × Bool)
  erase_in cache_key c =
      kept (elim c.db [ none ↦ none | some db ↦ some (erase storage cache_key db) ]) c

  abbrev pub store_in :
      Llhttp Event → Bytes → Bytes → ℕ → PersistentCache → Option (PersistentCache × Bool)
  store_in lib cache_key upstream_response now c =
      kept
        (elim c.db [
          | none ↦ none
          | some db ↦ some (store storage lib cache_key upstream_response now db)
        ])
        c
