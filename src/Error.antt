-- ===== src/Error.antt =====
-- error.rs: the error type of the crate, its predicates and its messages.
use earth_sci_io.Prelude.{Bool, Option, Text, codes, false, list_eq, none, some, true, ℕ_eq, ◌++◌}
use earth_sci_io.FilePath.{FilePath, display_path}
use earth_sci_io.FileSystem.{ErrorKind, IoError}

pub data Error : Type 0 where
  cache_miss : (url key : Text) → Error
  integrity : (key detail : Text) → Error
  unknown_scheme : (scheme url : Text) → Error
  unknown_store : (name : Text) → Error
  bad_url : (url detail : Text) → Error
  transport : (url detail : Text) → Error
  not_found : (url detail : Text) → Error
  all_mirrors_failed : (url detail : Text) → (not_found : Bool) → Error
  missing_auth : (realm : Text) → Error
  io : (path : Option FilePath) → (source : IoError) → Error
  manifest : (detail : Text) → Error
  unknown_format : (name : Text) → Error
  bad_config : (var detail : Text) → Error
  format : (name detail : Text) → Error
  region_not_shard_aligned : (detail : Text) → Error
  commit : (detail : Text) → Error
  prefetch : (detail : Text) → Error
  bad_period : (period detail : Text) → Error
  esm_source : (code source detail : Text) → Error

abbrev pub at_path : FilePath → IoError → Error
at_path p e = io (some p) e

unfoldable pub is_cache_miss : Error → Bool
is_cache_miss (cache_miss url key) = true
is_cache_miss _ = false

is_kind_not_found : ErrorKind → Bool
is_kind_not_found ErrorKind.not_found = true
is_kind_not_found _ = false

unfoldable pub is_not_found : Error → Bool
unfolding is_kind_not_found
is_not_found (not_found url detail) = true
is_not_found (all_mirrors_failed url detail absent) = absent
is_not_found (io path source) = is_kind_not_found source.kind
is_not_found _ = false

-- The `Display` text; `debug` is the standard library's `{:?}` of a string.
module _ (debug : Text → Text) where
  display_io : Option FilePath → IoError → Text
  display_io (some p) e = codes "io error at " ++ (display_path p ++ (codes ": " ++ e.message))
  display_io none e = codes "io error: " ++ e.message

  unfoldable pub display : Error → Text
  unfolding display_io
  display (cache_miss url key) =
      codes "cache miss: no blob for key " ++ (key ++ (codes " (url " ++ (url ++ codes ")")))
  display (integrity key detail) =
      codes "integrity failure for key " ++ (key ++ (codes ": " ++ detail))
  display (unknown_scheme scheme url) =
      codes "no transport registered for scheme '"
      ++ (scheme ++ (codes "' (url " ++ (url ++ codes ")")))
  display (unknown_store name) = codes "no store registered as '" ++ (name ++ codes "'")
  display (bad_url url detail) = codes "bad url '" ++ (url ++ (codes "': " ++ detail))
  display (transport url detail) = codes "transport error for " ++ (url ++ (codes ": " ++ detail))
  display (not_found url detail) =
      codes "not found: " ++ (url ++ (codes " (" ++ (detail ++ codes ")")))
  display (all_mirrors_failed url detail absent) =
      codes "all sources failed for " ++ (url ++ (codes ": " ++ detail))
  display (missing_auth realm) =
      codes "no auth resolver registered for realm '" ++ (realm ++ codes "'")
  display (io path source) = display_io path source
  display (manifest detail) = codes "manifest error: " ++ detail
  display (bad_config var detail) = var ++ (codes " is unusable: " ++ detail)
  display (unknown_format name) = codes "no reader registered for format '" ++ (name ++ codes "'")
  display (format name detail) = name ++ (codes " decode error: " ++ detail)
  display (region_not_shard_aligned detail) = codes "region not shard-aligned: " ++ detail
  display (commit detail) = codes "commit refused: " ++ detail
  display (prefetch detail) = codes "prefetch: " ++ detail
  display (esm_source code source detail) =
      code ++ (codes ": data source " ++ (debug source ++ (codes ": " ++ detail)))
  display (bad_period period detail) =
      codes "esm_period_invalid: "
      ++ (debug period ++ (codes " is not a calendar period: " ++ detail))
