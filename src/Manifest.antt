-- ===== src/Manifest.antt =====
-- manifest.rs: the record stored beside every blob.
use earth_sci_io.Prelude.{Option, Text, codes, list_eq, ℕ, ℕ_eq}

abbrev pub manifest_schema : Text
manifest_schema = codes "earthsciio/manifest/v1"

pub record Manifest : Type 0 where
  pub auth_realm : Option Text
  pub bytes : ℕ
  pub etag : Option Text
  pub fetched_at : Text
  pub last_modified : Option Text
  pub schema : Text
  pub sha256_content : Text
  pub source_loader : Option Text
  pub url : Text
