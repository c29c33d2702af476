-- ===== src/Cache/Commit.antt =====
-- cache.rs, `commit_result`: what becomes of a fetched blob.
pub mod Laws
pub mod Mismatch
use earth_sci_io.Prelude.{
  Option, Text, codes, eq_ignore_ascii_case, if◌then◌else◌, list_eq, none, some, ℕ, ℕ_eq, ◌++◌,
}
use earth_sci_io.Exec.{
  Exec, Result, and_then, err, gets, lift, map_err, ok, ok_or, pure, query, ◌>>=◌, ◌>>◌,
}
use earth_sci_io.FilePath.{FilePath}
use earth_sci_io.FileSystem.{IoError, World, metadata, node_len, or_drop, remove_node}
use earth_sci_io.Error.{Error, at_path, integrity, manifest}
use earth_sci_io.Manifest.{Manifest, manifest_schema}
use earth_sci_io.External.{External}
use earth_sci_io.Key.{sha256_file}
use earth_sci_io.Transport.{FetchResult, FetchStatus, downloaded, not_modified}
use earth_sci_io.Cache.Url.{ext_from_url}
use earth_sci_io.Cache.Request.{Cache, CachedBlob, FetchRequest}

-- clock.rs
unfoldable pub now_rfc3339 : External → World → Text
now_rfc3339 X w = elim (X.format_stamp w.now) [ some s ↦ s | none ↦ codes "1970-01-01T00:00:00Z" ]

or_old : Option Text → Option Text → Option Text
or_old (some new) old = some new
or_old none old = old

-- The manifest after a 304: a new stamp, and the validators that the answer carries.
unfoldable pub refreshed : Text → FetchResult → Manifest → Manifest
unfolding or_old
refreshed stamp r m = record m {
  fetched_at = stamp;
  etag = or_old r.etag m.etag;
  last_modified = or_old r.last_modified m.last_modified;
}

module _ (X : External) where
  unfoldable pub check_declared : Text → Option Text → Text → Result Error Unit
  check_declared key none sha = ok tt
  check_declared key (some expected) sha =
      if eq_ignore_ascii_case expected sha
      then ok tt
      else err (
          integrity key
            (codes "declared checksum " ++ (expected ++ (codes " != downloaded " ++ sha))))

  -- The digest from the transport, or one of the staged file.
  unfoldable pub digest : FilePath → Option Text → World → Result IoError Text
  digest staged (some sha) w = ok sha
  digest staged none w = sha256_file X staged w

  module _ (C : Cache) where
    -- Whatever the outcome, the staging file is dropped at the end.
    dropping : {A : Type 0} → FilePath → Exec Error World A → Exec Error World A
    dropping staged m w = ((m w).0, remove_node staged (m w).1)

    commit_not_modified : Text → Text → FetchResult → Option Manifest → Exec Error World CachedBlob
    unfolding refreshed now_rfc3339
    commit_not_modified key chosen r prior = do
      path ← query (λ w.
          ok_or (integrity key (codes "304 Not Modified but no cached blob present"))
            (C.store.get_blob_hinted key (ext_from_url chosen) w))
      m ← lift (ok_or (integrity key (codes "304 Not Modified with no prior manifest")) prior)
      stamp ← gets (now_rfc3339 X)
      C.store.put_meta key (refreshed stamp r m)
      pure (record { key = key; path = path; manifest = refreshed stamp r m })

    unfoldable pub new_manifest : FetchRequest → FetchResult → ℕ → Text → Text → Manifest
    new_manifest req r bytes sha stamp = record {
      auth_realm = req.auth_realm;
      bytes = bytes;
      etag = r.etag;
      fetched_at = stamp;
      last_modified = r.last_modified;
      schema = manifest_schema;
      sha256_content = sha;
      source_loader = req.source_loader;
      url = req.resolved_url;
    }

    -- Length and digest of what was staged, with the digest compared to the declared checksum.
    measured : Text → FetchRequest → Option Text → FilePath → World → Result Error (ℕ × Text)
    unfolding check_declared digest
    measured key req in_transit staged w =
        and_then (map_err (at_path staged) (metadata staged w)) λ node.
          and_then (map_err (at_path staged) (digest staged in_transit w)) λ sha.
            and_then (check_declared key req.expected_checksum sha) λ _. ok (node_len node, sha)

    -- The manifest of what was committed, and the entry.
    describe :
        Text → FetchRequest → FetchResult → ℕ × Text → FilePath → Text → Exec Error World CachedBlob
    unfolding new_manifest
    describe key req r (bytes, sha) path stamp = do
      C.store.put_meta key (new_manifest req r bytes sha stamp)
      pure (record { key = key; path = path; manifest = new_manifest req r bytes sha stamp })

    stamped : Text → FetchRequest → FetchResult → ℕ × Text → FilePath → Exec Error World CachedBlob
    unfolding describe now_rfc3339
    stamped key req r measured path = gets (now_rfc3339 X) >>= describe key req r measured path

    move_in :
        Text → FetchRequest → Text → FetchResult → FilePath → ℕ × Text → Exec Error World CachedBlob
    unfolding stamped
    move_in key req chosen r staged measured =
        C.store.commit_blob key staged (ext_from_url chosen) >>= stamped key req r measured

    unfoldable pub commit_downloaded :
        Text
        → FetchRequest
        → Text
        → FetchResult
        → Option Text
        → FilePath
        → Exec Error World CachedBlob
    unfolding measured move_in
    commit_downloaded key req chosen r in_transit staged =
        or_drop staged (query (measured key req in_transit staged))
        >>= move_in key req chosen r staged

    commit_by_status :
        FetchStatus
        → Text
        → FetchRequest
        → Text
        → FetchResult × Option Text
        → Option Manifest
        → FilePath
        → Exec Error World CachedBlob
    unfolding commit_not_modified commit_downloaded dropping
    commit_by_status not_modified key req chosen (r, sha) prior staged =
        dropping staged (commit_not_modified key chosen r prior)
    commit_by_status downloaded key req chosen (r, sha) prior staged =
        commit_downloaded key req chosen r sha staged

    unfoldable pub commit_result :
        Text
        → FetchRequest
        → Text
        → FetchResult × Option Text
        → Option Manifest
        → FilePath
        → Exec Error World CachedBlob
    unfolding commit_by_status
    commit_result key req chosen fetched prior staged =
        commit_by_status fetched.0.status key req chosen fetched prior staged
