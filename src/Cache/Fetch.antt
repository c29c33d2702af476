-- ===== src/Cache/Fetch.antt =====
-- cache.rs: `Cache::fetch`.
use earth_sci_io.Prelude.{Option, Text, if◌then◌else◌, list_eq, none, some, ℕ_eq}
use earth_sci_io.Exec.{Exec, ok, ◌>>=◌, ◌>>◌}
use earth_sci_io.Error.{Error}
use earth_sci_io.External.{External}
use earth_sci_io.Key.{cache_key}
use earth_sci_io.Cache.Request.{Cache, CacheState, CachedBlob, FetchRequest, on_world}
use earth_sci_io.Cache.Hit.{read_offline, try_hit}
use earth_sci_io.Cache.Download.{download_locked}

module _ (X : External) (C : Cache) where
  -- A hit ends the fetch; otherwise it goes on.
  or_go_on : Exec Error CacheState CachedBlob → Option CachedBlob → Exec Error CacheState CachedBlob
  or_go_on next (some b) s = (ok b, s)
  or_go_on next none s = next s

  -- Under the lock the entry is looked up again: another process may have filled it.
  unfoldable pub fetch_locked : Text → FetchRequest → Exec Error CacheState CachedBlob
  unfolding or_go_on try_hit download_locked
  fetch_locked key req = do
    again ← try_hit X C key req
    or_go_on (on_world (download_locked X C key req)) again

  unfoldable pub fetch_online : Text → FetchRequest → Exec Error CacheState CachedBlob
  unfolding or_go_on try_hit fetch_locked
  fetch_online key req = do
    first ← try_hit X C key req
    or_go_on (on_world (C.store.lock key) >> fetch_locked key req) first

  unfoldable pub fetch : FetchRequest → Exec Error CacheState CachedBlob
  unfolding read_offline fetch_online cache_key
  fetch req s =
      if C.offline
      then (read_offline X C (cache_key X req.resolved_url) req.resolved_url s.world, s)
      else fetch_online (cache_key X req.resolved_url) req s
