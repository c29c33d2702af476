-- ===== src/Transport.antt =====
-- transport/mod.rs and transport/file.rs: the interface of a transport, the registry by scheme, and
-- the `file` transport. The others talk to a network and are arguments of what uses them.
use earth_sci_io.Prelude.{
  List, Option, Text, [], codes, drop, eq_ignore_ascii_case, if◌then◌else◌, insert, list_eq, lookup,
  none, some, take, ℕ, ℕ_eq, ◌==◌, ◌∷◌,
}
use earth_sci_io.Exec.{Exec, Result, err, map_err_exec, ok, pure, query, ◌>>=◌}
use earth_sci_io.FilePath.{FilePath, of_text}
use earth_sci_io.FileSystem.{World, copy}
use earth_sci_io.Error.{Error, at_path, bad_url}
use earth_sci_io.Datadir.{expand_datadir}
use earth_sci_io.Auth.{AuthResolver}

pub record Conditional : Type 0 where
  pub etag : Option Text
  pub last_modified : Option Text

-- `Conditional::default`
abbrev pub unconditional : Conditional
unconditional = record { etag = none; last_modified = none }

pub data FetchStatus : Type 0 where
  downloaded not_modified : FetchStatus

pub record FetchResult : Type 0 where
  pub status : FetchStatus
  pub etag : Option Text
  pub last_modified : Option Text
  pub bytes_written : ℕ

-- `fetch_hashed` writes the bytes at the path that it is given, and returns the digest where the
-- transport hashed them on the way.
pub record Transport : Type 0 where
  pub schemes : List Text
  pub fetch_hashed :
      Text
      → FilePath
      → Conditional
      → Option AuthResolver
      → Exec Error World (FetchResult × Option Text)

abbrev pub TransportRegistry : Type 0
TransportRegistry = List (Text × Transport)

register_schemes : List Text → Transport → TransportRegistry → TransportRegistry
register_schemes [] t reg = reg
register_schemes (s ∷ ss) t reg = register_schemes ss t (insert s t reg)

unfoldable pub register_transport : Transport → TransportRegistry → TransportRegistry
unfolding register_schemes
register_transport t reg = register_schemes t.schemes t reg

unfoldable pub get_transport : TransportRegistry → Text → Option Transport
get_transport reg scheme = lookup scheme reg

-- The path of `file://host/abs` begins at the first separator.
from_slash : Text → Option Text
from_slash [] = none
from_slash (c ∷ s) = if c == b'/' then some (c ∷ s) else from_slash s

unfoldable pub file_url_to_path : Text → World → Result Error FilePath
unfolding from_slash of_text expand_datadir
file_url_to_path url w =
    let expanded = expand_datadir url w in
    if eq_ignore_ascii_case (take 7 expanded) (codes "file://")
    then (elim (from_slash (drop 7 expanded)) [
      | some path ↦ ok (of_text path)
      | none ↦ err (bad_url url (codes "file:// URL has no path"))
    ])
    else err (bad_url url (codes "not a file:// URL"))

-- `FileTransport::fetch`
unfoldable pub file_fetch : Text → FilePath → Exec Error World FetchResult
unfolding file_url_to_path
file_fetch url dest = do
  src ← query (file_url_to_path url)
  bytes_written ← map_err_exec (at_path src) (copy src dest)
  pure (record {
    status = downloaded;
    etag = none;
    last_modified = none;
    bytes_written = bytes_written;
  })

-- The trait's own `fetch_hashed`, for a transport that does not hash on the way.
unfoldable pub unhashed :
    Exec Error World FetchResult → Exec Error World (FetchResult × Option Text)
unhashed fetch = do result ← fetch; pure (result, none)

unfoldable pub file_transport : Transport
unfolding file_fetch unhashed
file_transport = record {
  schemes = codes "file" ∷ [];
  fetch_hashed = λ url dest conditional auth. unhashed (file_fetch url dest);
}
