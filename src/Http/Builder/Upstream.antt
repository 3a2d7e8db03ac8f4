-- ===== src/Http/Builder/Upstream.antt =====
-- The request that goes upstream, read back by an independent reader.
use hpserver.Prelude.{◌<◌, Bool, true, false, List, [], ◌∷◌, ◌++◌, if◌then◌else◌, Bytes, length}
use hpserver.Http.Request.{RequestInfo}
use hpserver.Http.Builder.Reading.{NoBreak, AreLines}
use hpserver.Http.Builder.Forward.{end_to_end}

-- Every part of the request that is written into the head is on one line.
pub record IsClean (req : RequestInfo) : Type 0 where
  pub method : NoBreak req.method
  pub url : NoBreak req.url
  pub version : NoBreak req.version
  pub host : NoBreak req.host
  pub headers : AreLines (end_to_end req.headers)

pub AreLines-append : (xs ys : List Bytes) → AreLines xs → AreLines ys → AreLines (xs ++ ys)
AreLines-append [] ys h k = k
AreLines-append (x ∷ xs) ys h k = (h.0, h.1, AreLines-append xs ys h.2 k)

pub if-AreLines :
    (b : Bool) (l : Bytes) → NoBreak l → 0 < length l → AreLines (if b then [] else l ∷ [])
if-AreLines true l h k = tt
if-AreLines false l h k = (h, k, tt)
