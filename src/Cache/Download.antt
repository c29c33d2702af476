-- ===== src/Cache/Download.antt =====
-- cache.rs: fetching a blob from its sources in turn.
pub mod Mirrors
use earth_sci_io.Prelude.{
  Bool, List, Option, Text, [], codes, false, if◌then◌else◌, list_eq, lowercase, none, some,
  starts_with, true, ℕ_eq, ◌&&◌, ◌∷◌,
}
use earth_sci_io.Exec.{Exec, Result, err, lift, ok, query, ◌>>=◌, ◌>>◌}
use earth_sci_io.FilePath.{FilePath}
use earth_sci_io.FileSystem.{World, remove_node}
use earth_sci_io.Error.{
  Error, all_mirrors_failed, display, integrity, is_not_found, missing_auth, unknown_scheme,
}
use earth_sci_io.Manifest.{Manifest}
use earth_sci_io.External.{External}
use earth_sci_io.Auth.{AuthResolver, get_auth}
use earth_sci_io.Transport.{Conditional, FetchResult, Transport, get_transport, unconditional}
use earth_sci_io.Cache.Url.{scheme_of}
use earth_sci_io.Cache.Request.{Cache, CachedBlob, FetchRequest}
use earth_sci_io.Cache.Commit.{commit_result}

abbrev pub not_modified_prefix : Text
not_modified_prefix = codes "304 Not Modified"

-- Validators survived and the blob did not: such an error is tried once more.
unfoldable pub is_lost_blob : Error → Bool
is_lost_blob (integrity key detail) = starts_with not_modified_prefix detail
is_lost_blob _ = false

-- The validators of the prior manifest, where they are used.
unfoldable pub conditional_of : Bool → Option Manifest → Conditional
conditional_of true (some m) = record { etag = m.etag; last_modified = m.last_modified }
conditional_of _ _ = unconditional

-- What has failed so far: the last error, whether a source was tried, and whether every one of them
-- said that the object does not exist.
pub record Failures : Type 0 where
  pub last_err : Option Error
  pub attempted : Bool
  pub all_not_found : Bool

abbrev pub no_failures : Failures
no_failures = record { last_err = none; attempted = false; all_not_found = true }

unfoldable pub add_failure : Error → Bool → Failures → Failures
add_failure e absent f = record {
  last_err = some e;
  attempted = true;
  all_not_found = f.all_not_found && absent;
}

-- What came of one source: the outcome of the commit, an error after which the next source is
-- tried, with whether it is an absence, or an error that ends the fetch.
pub data Attempt : Type 0 where
  committed : Result Error CachedBlob → Attempt
  failed : (e : Error) → (absent : Bool) → Attempt
  broke : Error → Attempt

module _ (X : External) where
  all_failed : FetchRequest → Failures → Error
  unfolding display
  all_failed req f =
      all_mirrors_failed req.resolved_url
        (elim f.last_err [ some e ↦ display X.debug_str e | none ↦ codes "no sources" ])
        (f.attempted && f.all_not_found)

  module _ (C : Cache) where
    module _ (key : Text) (req : FetchRequest) (prior : Option Manifest) (cond : Conditional) where
      after_fetch :
          Text → FilePath → Result Error (FetchResult × Option Text) × World → Attempt × World
      unfolding commit_result
      after_fetch src staged (ok fetched, w) =
          let (r, w') = commit_result X C key req src fetched prior staged w in (committed r, w')
      after_fetch src staged (err e, w) = (failed e (is_not_found e), remove_node staged w)

      with_staging :
          Text → Transport → Option AuthResolver → Result Error FilePath × World → Attempt × World
      unfolding after_fetch
      with_staging src t auth (ok staged, w) =
          after_fetch src staged (t.fetch_hashed src staged cond auth w)
      with_staging src t auth (err e, w) = (broke e, w)

      with_scheme : Text → Option AuthResolver → Result Error Text → World → Attempt × World
      unfolding with_staging get_transport
      with_scheme src auth (err e) w = (broke e, w)
      with_scheme src auth (ok scheme) w = elim (get_transport C.transports (lowercase scheme)) [
        | none ↦ (failed (unknown_scheme (lowercase scheme) src) false, w)
        | some t ↦ with_staging src t auth (C.store.new_staging w)
      ]

      unfoldable pub attempt : Text → Option AuthResolver → World → Attempt × World
      unfolding with_scheme
      attempt src auth w = with_scheme src auth (scheme_of src) w

      -- After one source: the end, or the next source.
      settle :
          (Failures → Exec Error World CachedBlob)
          → Failures
          → Attempt × World
          → Result Error CachedBlob × World
      unfolding add_failure
      settle next f (committed r, w) = (r, w)
      settle next f (broke e, w) = (err e, w)
      settle next f (failed e absent, w) = next (add_failure e absent f) w

      unfoldable pub try_sources :
          List Text → Option AuthResolver → Failures → Exec Error World CachedBlob
      unfolding attempt all_failed settle
      try_sources [] auth f w = (err (all_failed req f), w)
      try_sources (src ∷ rest) auth f w =
          settle (λ g. try_sources rest auth g) f (attempt src auth w)

    resolve_auth : Option Text → Result Error (Option AuthResolver)
    unfolding get_auth
    resolve_auth none = ok none
    resolve_auth (some realm) = elim (get_auth C.auth realm) [
      | some r ↦ ok (some r)
      | none ↦ err (missing_auth realm)
    ]

    unfoldable pub download_locked_with : Text → FetchRequest → Bool → Exec Error World CachedBlob
    unfolding resolve_auth conditional_of try_sources
    download_locked_with key req use_validators = do
      prior ← query (C.store.get_meta key)
      auth ← lift (resolve_auth req.auth_realm)
      try_sources key req prior (conditional_of use_validators prior)
          (req.resolved_url ∷ req.mirrors) auth no_failures

    unfoldable pub retry_lost :
        Text → FetchRequest → Result Error CachedBlob → Exec Error World CachedBlob
    unfolding download_locked_with is_lost_blob
    retry_lost key req (ok b) w = (ok b, w)
    retry_lost key req (err e) w =
        if is_lost_blob e then download_locked_with key req false w else (err e, w)

    unfoldable pub download_locked : Text → FetchRequest → Exec Error World CachedBlob
    unfolding retry_lost download_locked_with
    download_locked key req w =
        let (r, w') = download_locked_with key req true w in retry_lost key req r w'
