-- ===== src/Examples/Mirrors.antt =====
-- A source that no transport serves, and then one that does.
use earth_sci_io.Key.{sha256_hex}
use earth_sci_io.Manifest.{Manifest}
use earth_sci_io.Store.Local.{blob_path, local_store, meta_path}
use earth_sci_io.Cache.Url.{ext_from_url, scheme_of}
use earth_sci_io.Prelude.{Text, [], codes, false, list_eq, none, refl, some, ℕ_eq, ◌∷◌, ◌≡◌}
use earth_sci_io.Exec.{err, ok}
use earth_sci_io.FileSystem.{World, regular}
use earth_sci_io.Error.{Error, is_not_found, unknown_scheme}
use earth_sci_io.Transport.{file_transport, file_url_to_path, unconditional}
use earth_sci_io.Cache.Request.{Cache, CachedBlob, plain_request}
use earth_sci_io.Cache.Download.{add_failure, attempt, committed, failed, no_failures, try_sources}
use earth_sci_io.Cache.Download.Mirrors.{
  AllFail, exhausted, fails, try_sources_failover, try_sources_not_found,
}
use earth_sci_io.Examples.Codec.{manifest_file, toy}
use earth_sci_io.Examples.Setting.{
  cache_of, content, entry, entry_manifest, key, root, staged, url, world,
}

abbrev mirrored : Cache
mirrored = cache_of false false

abbrev down : Text
down = codes "ftp://h/a.nc"

abbrev mirror : Text
mirror = codes "file:///s/a.nc"

-- The world with the file of the mirror.
abbrev mirrored_world : World
mirrored_world = record world {
  files = (codes "/" ∷ codes "s" ∷ codes "a.nc" ∷ [], regular (9 ∷ 8 ∷ []) (some 7)) ∷ world.files;
}

down_fails :
    attempt toy mirrored key (plain_request url) none unconditional down none mirrored_world
    ≡ (failed (unknown_scheme (codes "ftp") down) false, mirrored_world)
unfolding attempt scheme_of
down_fails = refl

all_down :
    AllFail toy mirrored key
      (plain_request url)
      none
      unconditional
      none
      (down ∷ [])
      no_failures
      mirrored_world
      (add_failure (unknown_scheme (codes "ftp") down) false no_failures)
      mirrored_world
      (false ∷ [])
all_down = fails (unknown_scheme (codes "ftp") down) false down_fails exhausted

try_sources_not_found_example :
    ((try_sources toy mirrored key
        (plain_request url)
        none
        unconditional
        (down ∷ [])
        none
        no_failures
        mirrored_world).1
      ≡ mirrored_world)
    × (e : Error) × ((try_sources toy mirrored key
          (plain_request url)
          none
          unconditional
          (down ∷ [])
          none
          no_failures
          mirrored_world).0
        ≡ err e)
    × (is_not_found e ≡ false)
try_sources_not_found_example =
    try_sources_not_found toy mirrored key (plain_request url) none unconditional none down [] false
      [] all_down

abbrev mirror_manifest : Manifest
mirror_manifest = record entry_manifest { bytes = 2; sha256_content = codes "0211" }

-- The entry is replaced by the bytes of the mirror.
abbrev replaced_entry : CachedBlob
replaced_entry = record entry { manifest = mirror_manifest }

abbrev replaced_world : World
replaced_world = record mirrored_world {
  files =
      (codes "/" ∷ codes "s" ∷ codes "a.nc" ∷ [], regular (9 ∷ 8 ∷ []) (some 7))
      ∷ (blob_path root key (codes "nc"), regular (9 ∷ 8 ∷ []) (some 100))
      ∷ (meta_path root key, regular (manifest_file mirror_manifest) (some 100))
      ∷ (staged, regular content (some 6))
      ∷ [];
  temps = 2;
}

mirror_delivers :
    attempt toy mirrored key (plain_request url) none unconditional mirror none mirrored_world
    ≡ (committed (ok replaced_entry), replaced_world)
unfolding attempt scheme_of local_store file_transport ext_from_url toy sha256_hex manifest_file
    file_url_to_path
mirror_delivers = refl

try_sources_failover_example :
    try_sources toy mirrored key
      (plain_request url)
      none
      unconditional
      (down ∷ mirror ∷ [])
      none
      no_failures
      mirrored_world
    ≡ (ok replaced_entry, replaced_world)
try_sources_failover_example =
    try_sources_failover toy mirrored key (plain_request url) none unconditional none (down ∷ [])
      mirror [] (ok replaced_entry) all_down mirror_delivers
