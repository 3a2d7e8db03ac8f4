-- ===== src/Tests/Levels.antt =====
-- Tests of the cache of two levels.
use hpserver.Prelude.{bytes_eq, none, some, [], Bytes, codes}
use hpserver.Util.MemoryCache.{MemoryCache}
use hpserver.Util.MemoryCache.Invariant as Invariant
use hpserver.Util.MemoryCache.Fit as Fit
use hpserver.Http.ResponseParser as Parser
use hpserver.Http.PersistentCache as Persistent
use hpserver.Http.HttpCache as Cache
use hpserver.Http.HttpCache.Levels as Levels
use hpserver.Tests.Cache.{pairs, found, get_request}

abbrev no_entries : MemoryCache Bytes Bytes
no_entries = record {
  max_entries = 2;
  max_bytes = 100000;
  lru_list = [];
  map = λ k. none;
  map_size = 0;
  total_weight = 0;
  next_address = 0;
}

abbrev both : Cache.HttpCache pairs
both = record { l2 = some []; l1_cache = no_entries }

abbrev after : Cache.HttpCache pairs
after = (Cache.store pairs found get_request (codes "HTTP") 1000 both).0
