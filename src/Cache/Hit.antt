-- ===== src/Cache/Hit.antt =====
-- cache.rs: reading an entry that is there, offline (`read_offline`) and online (`try_hit`).
pub mod Laws
pub mod Integrity
use earth_sci_io.Prelude.{
  Bool, List, Option, Text, [], codes, decimal, eq_ignore_ascii_case, false, if◌then◌else◌, list_eq,
  none, prod_eq, some, true, ℕ, ℕ_eq, ◌++◌, ◌==◌, ◌∷◌,
}
use earth_sci_io.Exec.{Exec, Result, and_then, continue, err, map_err, ok, ok_or}
use earth_sci_io.FilePath.{FilePath}
use earth_sci_io.FileSystem.{World, metadata, node_len}
use earth_sci_io.Error.{Error, at_path, cache_miss, integrity, manifest}
use earth_sci_io.Manifest.{Manifest}
use earth_sci_io.External.{External}
use earth_sci_io.Key.{cache_key, sha256_file}
use earth_sci_io.Validate.Ladder.{CacheDecision, decide_at, hit}
use earth_sci_io.Validate.Revalidator.{
  SourceState, current, missing, replaced, revalidate_file_sources, state, unknown,
}
use earth_sci_io.Cache.Url.{ext_from_url, local_source_path}
use earth_sci_io.Cache.Request.{Cache, CacheState, CachedBlob, FetchRequest}

size_mismatch : Text → ℕ → ℕ → Error
size_mismatch key len bytes =
    integrity key
      (codes "on-disk size " ++ (decimal len ++ (codes " != manifest.bytes " ++ decimal bytes)))

hash_mismatch : Text → Text → Text → Error
hash_mismatch key sha content =
    integrity key (codes "sha256 " ++ (sha ++ (codes " != manifest.sha256_content " ++ content)))

-- What the recheck of the source says of an entry that the ladder calls a hit: is it served?
unfoldable pub keeps : SourceState → List Text → Bool
keeps current mirrors = true
keeps replaced mirrors = false
keeps missing [] = false
keeps missing (m ∷ mirrors) = true
keeps unknown mirrors = true

module _ (X : External) where
  compare_len : Text → Manifest → ℕ → Result Error Unit
  unfolding size_mismatch
  compare_len key m len = if len == m.bytes then ok tt else err (size_mismatch key len m.bytes)

  compare_sha : Text → Manifest → Text → Result Error Unit
  unfolding hash_mismatch
  compare_sha key m sha =
      if eq_ignore_ascii_case sha m.sha256_content
      then ok tt
      else err (hash_mismatch key sha m.sha256_content)

  unfoldable pub verify_integrity : Text → FilePath → Manifest → World → Result Error Unit
  unfolding compare_len compare_sha
  verify_integrity key blob m w = and_then (map_err (at_path blob) (metadata blob w)) λ node.
      and_then (compare_len key m (node_len node))
        λ _. and_then (map_err (at_path blob) (sha256_file X blob w)) (compare_sha key m)

  -- The check of an entry before it is returned, where the cache makes one.
  checked : Bool → CachedBlob → World → Result Error CachedBlob
  unfolding verify_integrity
  checked verify b w =
      if verify then and_then (verify_integrity b.key b.path b.manifest w) (λ _. ok b) else ok b

  module _ (C : Cache) where
    unfoldable pub read_offline : Text → Text → World → Result Error CachedBlob
    unfolding checked
    read_offline key url w =
        and_then (ok_or (cache_miss url key) (C.store.get_blob_hinted key (ext_from_url url) w))
          λ path. and_then (C.store.get_meta key w) λ meta.
            and_then (ok_or (cache_miss url key) meta)
              λ m. checked C.verify_on_read (record { key = key; path = path; manifest = m }) w

    -- `Cache::get_offline`
    unfoldable pub get_offline : Text → World → Result Error CachedBlob
    unfolding read_offline cache_key
    get_offline url w = read_offline (cache_key X url) url w

    recheck_at : FetchRequest → Manifest → FilePath → CacheState → Bool × CacheState
    unfolding keeps state
    recheck_at req m src s =
        let (found, rv) = state X src m s.world s.revalidator in
        (keeps found req.mirrors, record s { revalidator = rv })

    recheck_source : FetchRequest → Manifest → Option FilePath → CacheState → Bool × CacheState
    unfolding recheck_at
    recheck_source req m none s = (true, s)
    recheck_source req m (some src) s = recheck_at req m src s

    recheck_if : Bool → FetchRequest → Manifest → CacheState → Bool × CacheState
    unfolding recheck_source local_source_path
    recheck_if true req m s = recheck_source req m (local_source_path req.resolved_url s.world) s
    recheck_if false req m s = (true, s)

    -- Rung 0, for a request whose URL names a local file.
    unfoldable pub recheck : FetchRequest → Manifest → CacheState → Bool × CacheState
    unfolding recheck_if
    recheck req m s = recheck_if C.revalidate_file_sources req m s

    serve_if : Bool × CacheState → CachedBlob → Result Error (Option CachedBlob) × CacheState
    unfolding checked
    serve_if (true, s) b = (and_then (checked C.verify_on_read b s.world) (λ b. ok (some b)), s)
    serve_if (false, s) b = (ok none, s)

    by_decision :
        CacheDecision → FetchRequest → CachedBlob → Exec Error CacheState (Option CachedBlob)
    unfolding recheck serve_if
    by_decision hit req b s = serve_if (recheck req b.manifest s) b
    by_decision _ req b s = (ok none, s)

    with_meta :
        Text → FetchRequest → FilePath → Option Manifest → Exec Error CacheState (Option CachedBlob)
    unfolding by_decision decide_at
    with_meta key req path none s = (ok none, s)
    with_meta key req path (some m) s =
        by_decision (decide_at X m req.temporal req.expected_checksum s.world.now) req
          (record { key = key; path = path; manifest = m }) s

    with_blob : Text → FetchRequest → Option FilePath → Exec Error CacheState (Option CachedBlob)
    unfolding with_meta
    with_blob key req none s = (ok none, s)
    with_blob key req (some path) s =
        continue (C.store.get_meta key s.world) (with_meta key req path) s

    unfoldable pub try_hit : Text → FetchRequest → Exec Error CacheState (Option CachedBlob)
    unfolding with_blob
    try_hit key req s =
        with_blob key req (C.store.get_blob_hinted key (ext_from_url req.resolved_url) s.world) s
