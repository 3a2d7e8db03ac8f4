-- ===== src/Http/PersistentCache/Lookup.antt =====
-- What is stored, and what a later look-up finds.
use hpserver.Prelude.{
  ℕ, ◌^◌, ◌<◌, ◌≡◌, ◌≢◌, ◌∙◌, ◌⊎◌, inl, inr, refl, sym, ap, Bool, List, true, false, ◌||◌, ltb, leb,
  some, [], ◌∷◌, Bytes, Bool-cases, Option-cases,
}
use hpserver.Http.Request.{RequestInfo, Headers}
use hpserver.Http.Llhttp.{Llhttp}
use hpserver.Http.ResponseParser.{Event, ResponseInfo}
use hpserver.Http.PersistentCache.{
  HttpCacheEntry, Storage, entry_of, lookup, store, accepted, write_entry,
}

-- Every name and every value is a text.
abbrev pub AreTexts : (Bytes → Bool) → Headers → Type 0
AreTexts is_utf8 [] = Unit
AreTexts is_utf8 ((key, value) ∷ headers) =
    (is_utf8 key ≡ true) × (is_utf8 value ≡ true) × AreTexts is_utf8 headers

abbrev pub AreUtf8 : (Bytes → Bool) → List Bytes → Type 0
AreUtf8 is_utf8 [] = Unit
AreUtf8 is_utf8 (text ∷ texts) = (is_utf8 text ≡ true) × AreUtf8 is_utf8 texts

-- An entry that fits its message: `uint32` and `int64` fields, and texts that are UTF-8 in every
-- `string` field.
pub record IsStorable (is_utf8 : Bytes → Bool) (e : HttpCacheEntry) : Type 0 where
  pub status_code : e.status_code < 2 ^ 32
  pub stored_at_unix_sec : e.stored_at_unix_sec < 2 ^ 63
  pub ttl_sec : e.ttl_sec < 2 ^ 63
  pub reason_phrase : is_utf8 e.reason_phrase ≡ true
  pub headers : AreTexts is_utf8 e.headers
  pub last_modified : is_utf8 e.last_modified ≡ true
  pub etag : is_utf8 e.etag ≡ true
  pub vary_headers : AreUtf8 is_utf8 e.vary_headers

-- What is documented of RocksDB and of the codec: a value that was put is got, under its key only, a
-- put that fails changes nothing, and an entry that fits its message is read back.
pub record IsStore (storage : Storage) (is_utf8 : Bytes → Bool) : Type 0 where
  pub get-put :
      (k v : Bytes) (db : storage.Db)
      → (storage.put_value k v db).1 ≡ true
      → storage.get_value k (storage.put_value k v db).0 ≡ some v
  pub get-put_other :
      (k j v : Bytes) (db : storage.Db)
      → j ≢ k
      → storage.get_value j (storage.put_value k v db).0 ≡ storage.get_value j db
  pub put-failed :
      (k v : Bytes) (db : storage.Db)
      → (storage.put_value k v db).1 ≡ false
      → (storage.put_value k v db).0 ≡ db
  pub parse_entry-serialize :
      (e : HttpCacheEntry) (raw : Bytes)
      → IsStorable is_utf8 e
      → storage.serialize e ≡ some raw
      → storage.parse_entry raw ≡ some e

module _ (storage : Storage) (is_utf8 : Bytes → Bool) (laws : IsStore storage is_utf8)
    (lib : Llhttp Event) where
  -- A store gives up with no change, or ends with a put of the entry.
  store-cases :
      (key bytes : Bytes) (now : ℕ) (db : storage.Db)
      → (store storage lib key bytes now db ≡ (db, false))
        ⊎ ((resp : ResponseInfo) × (raw : Bytes) × (accepted storage lib bytes ≡ some resp)
            × (storage.serialize (entry_of now resp) ≡ some raw)
            × (store storage lib key bytes now db ≡ storage.put_value key raw db))
  unfolding store
  store-cases key bytes now db = elim (Option-cases (accepted storage lib bytes)) [
    | inl e ↦ inl (rw (e, store) refl)
    | inr (resp, e) ↦ elim (Bool-cases (ltb resp.status_code 200 || leb 300 resp.status_code)) [
      | inl k ↦ inl (rw (e, k, store) refl)
      | inr k ↦ elim (Option-cases (storage.serialize (entry_of now resp))) [
        | inl l ↦ inl (rw (e, k, write_entry, l, store) refl)
        | inr (raw, l) ↦ inr (resp, raw, e, l, rw (e, k, write_entry, l, store) refl)
      ]
    ]
  ]

  -- With RocksDB as documented, whatever a store does, a look-up of another key gives the same
  -- answer as before.
  lookup-store_other :
      (key other bytes : Bytes) (req : RequestInfo) (now later : ℕ) (db : storage.Db)
      → other ≢ key
      → lookup storage other req later (store storage lib key bytes now db).0
        ≡ lookup storage other req later db
  unfolding lookup
  lookup-store_other key other bytes req now later db ne = elim (store-cases key bytes now db) [
    | inl e ↦ rw e refl
    | inr (resp, raw, t, s, e) ↦ rw (e, lookup, laws.get-put_other key other raw db ne) refl
  ]

  -- With RocksDB as documented, a store that reports a failure has changed nothing.
  store-refused :
      (key bytes : Bytes) (now : ℕ) (db : storage.Db)
      → (store storage lib key bytes now db).1 ≡ false
      → (store storage lib key bytes now db).0 ≡ db
  store-refused key bytes now db failed = elim (store-cases key bytes now db) [
    | inl e ↦ ap (λ r. r.0) e
    | inr (resp, raw, t, s, e) ↦ rw e (laws.put-failed key raw db (sym (ap (λ r. r.1) e) ∙ failed))
  ]
