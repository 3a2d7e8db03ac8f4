-- ===== src/Http/Builder/Targets.antt =====
-- Request targets as a client of a proxy writes them, and their origin form.
use hpserver.Prelude.{
  ℕ, ◌≡◌, refl, ap, ◌∙◌, Bool, true, false, ◌==◌, ==_iff, none, some, [], ◌∷◌, ◌++◌, Bytes, codes,
  ◌=?◌, length, drop, drop-length_append, sym, drop-drop, arith,
}
use hpserver.Text.{find, starts_with}
use hpserver.Http.Builder.{is_empty, path_from, build_origin_form}

pub is_empty-=? : (xs : Bytes) → is_empty xs ≡ (xs =? [])
unfolding ◌=?◌
is_empty-=? [] = refl
is_empty-=? (x ∷ xs) = refl

-- A request target as a client of a proxy writes it: a URL with a path behind its authority, one
-- with a query there, one that ends there, a text that begins with a slash, `*`, and any other
-- text. The flag is for `https`.
pub data Target : Type 0 where
  located : Bool → Bytes → Bytes → Target
  queried : Bool → Bytes → Bytes → Target
  site : Bool → Bytes → Target
  path : Bytes → Target
  asterisk : Target
  other : Bytes → Target

abbrev scheme : Bool → Bytes
scheme true = codes "https://"
scheme false = codes "http://"

abbrev pub written : Target → Bytes
written (located secure authority rest) = scheme secure ++ (authority ++ (codes "/" ++ rest))
written (queried secure authority query) = scheme secure ++ (authority ++ (codes "?" ++ query))
written (site secure authority) = scheme secure ++ authority
written (path rest) = codes "/" ++ rest
written asterisk = codes "*"
written (other text) = text

-- No slash.
abbrev pub NoSlash : Bytes → Type 0
NoSlash [] = Unit
NoSlash (c ∷ cs) = (c == b'/' ≡ false) × NoSlash cs

-- An authority ends at the first slash, and so does the query of a URL without a path.
abbrev pub IsTarget : Target → Type 0
IsTarget (located secure authority rest) = NoSlash authority
IsTarget (queried secure authority query) = NoSlash authority × NoSlash query
IsTarget (site secure authority) = NoSlash authority
IsTarget (path rest) = Unit
IsTarget asterisk = Unit
IsTarget (other text) =
    (starts_with (codes "http://") text ≡ false)
    × (starts_with (codes "https://") text ≡ false)
    × (text =? codes "*" ≡ false)
    × (starts_with (codes "/") text ≡ false)

-- The target without the scheme and the authority, behind a slash. A query without a path is lost.
abbrev pub origin : Target → Bytes
origin (located secure authority rest) = codes "/" ++ rest
origin (queried secure authority query) = codes "/"
origin (site secure authority) = codes "/"
origin (path rest) = codes "/" ++ rest
origin asterisk = codes "*"
origin (other text) = codes "/" ++ text

find-NoSlash : (xs : Bytes) → NoSlash xs → find b'/' xs ≡ none
unfolding find
find-NoSlash [] h = refl
find-NoSlash (c ∷ cs) h = rw (h.0, find-NoSlash cs h.1) refl

find_slash : (xs rest : Bytes) → NoSlash xs → find b'/' (xs ++ (b'/' ∷ rest)) ≡ some (length xs)
unfolding find
find_slash [] rest h = refl
find_slash (c ∷ cs) rest h = rw (h.0, find_slash cs rest h.1) (ap some (omega arith))

NoSlash-append : (xs ys : Bytes) → NoSlash xs → NoSlash ys → NoSlash (xs ++ ys)
NoSlash-append [] ys h k = k
NoSlash-append (c ∷ cs) ys h k = (h.0, NoSlash-append cs ys h.1 k)

path_from-slash :
    (n : ℕ) (url authority rest : Bytes)
    → drop n url ≡ authority ++ (b'/' ∷ rest)
    → NoSlash authority
    → path_from n url ≡ b'/' ∷ rest
unfolding path_from
path_from-slash n url a rest e h =
    let f : find b'/' (drop n url) ≡ some (length a) = ap (find b'/') e ∙ find_slash a rest h in
    rw (f, path_from)
      (sym (drop-drop n (length a) url)
        ∙ ap (drop (length a)) e
        ∙ drop-length_append a (b'/' ∷ rest))

path_from-NoSlash :
    (n : ℕ) (url text : Bytes) → drop n url ≡ text → NoSlash text → path_from n url ≡ codes "/"
unfolding path_from
path_from-NoSlash n url text e h =
    let f : find b'/' (drop n url) ≡ none = ap (find b'/') e ∙ find-NoSlash text h in
    rw (f, path_from) refl

NoSlash-query : (a q : Bytes) → NoSlash a → NoSlash q → NoSlash (a ++ (codes "?" ++ q))
NoSlash-query a q h k = NoSlash-append a (codes "?" ++ q) h (refl, k)

-- The target is made the origin form of it.
pub build_origin_form-written : (t : Target) → IsTarget t → build_origin_form (written t) ≡ origin t
unfolding build_origin_form starts_with ◌=?◌
build_origin_form-written (located true a rest) h =
    path_from-slash 8 (written (located true a rest)) a rest refl h
build_origin_form-written (located false a rest) h =
    path_from-slash 7 (written (located false a rest)) a rest refl h
build_origin_form-written (queried true a q) (h, k) =
    path_from-NoSlash 8 (written (queried true a q)) (a ++ (codes "?" ++ q)) refl
      (NoSlash-query a q h k)
build_origin_form-written (queried false a q) (h, k) =
    path_from-NoSlash 7 (written (queried false a q)) (a ++ (codes "?" ++ q)) refl
      (NoSlash-query a q h k)
build_origin_form-written (site true a) h = path_from-NoSlash 8 (written (site true a)) a refl h
build_origin_form-written (site false a) h = path_from-NoSlash 7 (written (site false a)) a refl h
build_origin_form-written (path rest) h = refl
build_origin_form-written asterisk h = refl
build_origin_form-written (other []) h = refl
build_origin_form-written (other (c ∷ cs)) (h, k, l, m) =
    let first : c == b'/' ≡ false = ground (arith, m, ==_iff c b'/', ==_iff b'/' c) in
    rw (h, k, l) (rw first refl)
