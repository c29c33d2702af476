-- ===== src/Examples/Setting.antt =====
-- A cache on a local store that holds one entry.
use earth_sci_io.Prelude.{
  Bool, List, Text, [], codes, list_eq, none, refl, some, true, ℕ, ℕ_eq, ◌∷◌,
}
use earth_sci_io.FilePath.{FilePath}
use earth_sci_io.FileSystem.{World, regular}
use earth_sci_io.Manifest.{Manifest, manifest_schema}
use earth_sci_io.Transport.{file_transport}
use earth_sci_io.Store.Local.{blob_path, local_store, meta_path}
use earth_sci_io.Store.Local.Laws.{IsReliable}
use earth_sci_io.Validate.Revalidator.{empty_revalidator}
use earth_sci_io.Cache.Request.{Cache, CacheState, CachedBlob}
use earth_sci_io.Examples.Codec.{manifest_file, toy}

abbrev pub root : FilePath
root = codes "r" ∷ []

abbrev pub url : Text
url = codes "https://h/a.nc"

abbrev pub key : Text
key = codes "0ec2"

abbrev pub content : List ℕ
content = 1 ∷ 2 ∷ 3 ∷ []

abbrev pub entry_manifest : Manifest
entry_manifest = record {
  auth_realm = none;
  bytes = 3;
  etag = none;
  fetched_at = codes "2024-01-01T00:00:00Z";
  last_modified = none;
  schema = manifest_schema;
  sha256_content = codes "0306";
  source_loader = none;
  url = url;
}

abbrev pub staged : FilePath
staged = codes "r" ∷ codes "v1" ∷ codes "tmp" ∷ codes "a" ∷ []

abbrev pub world : World
world = record {
  files =
      (blob_path root key (codes "nc"), regular content (some 5))
      ∷ (meta_path root key, regular (manifest_file entry_manifest) (some 5))
      ∷ (staged, regular content (some 6))
      ∷ [];
  faults = λ op p. none;
  others = λ p fs. fs;
  env = λ name. none;
  now = 100;
  temp_name = λ n. codes "x";
  temps = 0;
}

pub world-IsReliable : IsReliable world
world-IsReliable p = (refl, refl)

abbrev pub cache_of : (offline verify : Bool) → Cache
cache_of offline verify = record {
  store = local_store toy root;
  transports = (codes "file", file_transport) ∷ [];
  auth = [];
  offline = offline;
  verify_on_read = verify;
  revalidate_file_sources = true;
}

abbrev pub start : CacheState
start = record { world = world; revalidator = empty_revalidator }

abbrev pub entry : CachedBlob
entry = record { key = key; path = blob_path root key (codes "nc"); manifest = entry_manifest }
