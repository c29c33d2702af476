-- ===== src/Cache/Request.antt =====
-- cache.rs: the cache, a request and an entry, and the state that a fetch changes: the world and the
-- memo of the revalidator.
use earth_sci_io.Prelude.{Bool, List, Option, Text, [], list_eq, none, ℕ_eq}
use earth_sci_io.Exec.{Exec}
use earth_sci_io.FilePath.{FilePath}
use earth_sci_io.FileSystem.{World}
use earth_sci_io.Manifest.{Manifest}
use earth_sci_io.Auth.{AuthRegistry}
use earth_sci_io.Transport.{TransportRegistry}
use earth_sci_io.Store.{Store}
use earth_sci_io.Validate.Ladder.{Temporal}
use earth_sci_io.Validate.Revalidator.{SourceRevalidator}

pub record CachedBlob : Type 0 where
  pub key : Text
  pub path : FilePath
  pub manifest : Manifest

pub record FetchRequest : Type 0 where
  pub resolved_url : Text
  pub source_loader : Option Text
  pub auth_realm : Option Text
  pub temporal : Option Temporal
  pub expected_checksum : Option Text
  pub mirrors : List Text

-- `FetchRequest::new`
abbrev pub plain_request : Text → FetchRequest
plain_request url = record {
  resolved_url = url;
  source_loader = none;
  auth_realm = none;
  temporal = none;
  expected_checksum = none;
  mirrors = [];
}

pub record Cache : Type 0 where
  pub store : Store
  pub transports : TransportRegistry
  pub auth : AuthRegistry
  pub offline : Bool
  pub verify_on_read : Bool
  pub revalidate_file_sources : Bool

pub record CacheState : Type 0 where
  pub world : World
  pub revalidator : SourceRevalidator

-- An action of the store or of a transport, as an action of the cache.
abbrev pub on_world : {E A : Type 0} → Exec E World A → Exec E CacheState A
on_world m s = ((m s.world).0, record s { world = (m s.world).1 })
