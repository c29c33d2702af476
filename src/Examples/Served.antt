-- ===== src/Examples/Served.antt =====
-- Entries that are served, and what a download leaves.
use earth_sci_io.FileSystem.{World, regular, remove_node}
use earth_sci_io.Transport.{FetchResult, downloaded}
use earth_sci_io.Store.{StoreLaws}
use earth_sci_io.Store.Local.Stale.{get_blob_hinted-commit_blob_stale}
use earth_sci_io.Store.Local.Laws.{IsReliable, local_store-StoreLaws}
use earth_sci_io.Store.Local.Untouched.{SameIn, put_meta-SameIn}
use earth_sci_io.Cache.Url.{ext_from_url}
use earth_sci_io.Cache.Hit.Integrity.{
  Agrees, IsServedOffline, read_offline_iff, verify_integrity_iff,
}
use earth_sci_io.Error.{integrity}
use earth_sci_io.Cache.Commit.Mismatch.{commit_downloaded_differs}
use earth_sci_io.Cache.Commit.{commit_downloaded, digest}
use earth_sci_io.Cache.Commit.Laws.{
  IsMeasured, IsStored, commit_downloaded-IsStored, read_offline-commit_downloaded,
}
use earth_sci_io.Cache.Fetch.{fetch}
use earth_sci_io.Prelude.{
  Text, codes, false, list_eq, lookup, none, prod_eq, refl, some, true, ℕ_eq, ◌↔◌, ◌≡◌,
}
use earth_sci_io.Exec.Moves.{Moves}
use earth_sci_io.Exec.{err, ok}
use earth_sci_io.Key.{cache_key, sha256_hex}
use earth_sci_io.Store.Local.{
  blob_path, commit_blob, fanout_dir, get_blob_hinted, get_meta, local_store, put_meta,
}
use earth_sci_io.Validate.Ladder.{decide_at}
use earth_sci_io.Cache.Request.{FetchRequest, plain_request}
use earth_sci_io.Cache.Hit.{read_offline, try_hit, verify_integrity}
use earth_sci_io.Cache.Hit.Laws.{IsServed, try_hit-IsServed}
use earth_sci_io.Examples.Codec.{manifest_file, toy, toy-ExternalLaws}
use earth_sci_io.Examples.Setting.{
  cache_of, content, entry, entry_manifest, key, root, staged, start, url, world, world-IsReliable,
}

hit_here :
    (try_hit toy (cache_of false true) (cache_key toy url) (plain_request url) start).0
    ≡ ok (some entry)
unfolding try_hit cache_key local_store get_blob_hinted get_meta toy manifest_file decide_at
    ext_from_url sha256_hex
hit_here = refl

try_hit-IsServed_example :
    IsServed toy (cache_of false true) (plain_request url) (cache_key toy url) start entry
try_hit-IsServed_example =
    try_hit-IsServed toy (cache_of false true) (plain_request url) (cache_key toy url) start entry
      hit_here

offline_here : (fetch toy (cache_of true true) (plain_request url) start).0 ≡ ok entry
unfolding fetch cache_key local_store get_blob_hinted get_meta toy manifest_file ext_from_url
    sha256_hex
offline_here = refl

verify_integrity_iff_example :
    (verify_integrity toy key (blob_path root key (codes "nc")) entry_manifest world ≡ ok tt)
    ↔ Agrees toy key (blob_path root key (codes "nc")) entry_manifest world
verify_integrity_iff_example =
    verify_integrity_iff toy key (blob_path root key (codes "nc")) entry_manifest world

read_offline_iff_example :
    (read_offline toy (cache_of true true) key url world ≡ ok entry)
    ↔ IsServedOffline toy (cache_of true true) key url world entry
read_offline_iff_example = read_offline_iff toy (cache_of true true) key url world entry

local_store-StoreLaws_example : StoreLaws (local_store toy root) IsReliable
local_store-StoreLaws_example = local_store-StoreLaws toy toy-ExternalLaws root

put_meta-SameIn_example :
    Moves (SameIn (fanout_dir root key)) (put_meta toy root key entry_manifest)
put_meta-SameIn_example = put_meta-SameIn root key toy key entry_manifest

abbrev answer : FetchResult
answer = record { status = downloaded; etag = none; last_modified = none; bytes_written = 3 }

abbrev committed_world : World
committed_world =
    (commit_downloaded toy (cache_of false false) key (plain_request url) url answer none staged
      world).1

commits :
    (commit_downloaded toy
      (cache_of false false)
      key
      (plain_request url)
      url
      answer
      none
      staged
      world).0
    ≡ ok entry
unfolding commit_downloaded local_store ext_from_url toy sha256_hex
commits = refl

commit_downloaded-IsStored_example :
    IsMeasured toy
      (cache_of false false)
      key
      (plain_request url)
      url
      answer
      none
      staged
      world
      3
      (codes "0306")
    × IsStored toy
        (cache_of false false)
        key
        (plain_request url)
        url
        answer
        none
        staged
        (3, codes "0306")
        world
        committed_world
        entry
commit_downloaded-IsStored_example =
    commit_downloaded-IsStored toy (cache_of false false) key (plain_request url) url answer none
      staged world entry commits

read_offline-commit_downloaded_example :
    read_offline toy (cache_of false false) key url committed_world ≡ ok entry
read_offline-commit_downloaded_example =
    read_offline-commit_downloaded toy (cache_of false false) key (plain_request url) url answer
      none staged IsReliable (local_store-StoreLaws toy toy-ExternalLaws root) world entry
      world-IsReliable refl refl commits

-- The entry of the setting has the extension `nc`; a commit as `nc4` leaves it.
commits_other :
    (commit_blob root key staged (codes "nc4") world).0 ≡ ok (blob_path root key (codes "nc4"))
unfolding commit_blob
commits_other = refl

get_blob_hinted-commit_blob_stale_example :
    (get_blob_hinted root key (codes "nc") (commit_blob root key staged (codes "nc4") world).1
      ≡ some (blob_path root key (codes "nc")))
    × (lookup
          (blob_path root key (codes "nc"))
          (commit_blob root key staged (codes "nc4") world).1.files
        ≡ some (regular content (some 5)))
get_blob_hinted-commit_blob_stale_example =
    get_blob_hinted-commit_blob_stale root key (codes "nc") (codes "nc4") staged
      (blob_path root key (codes "nc4")) world (regular content (some 5)) world-IsReliable refl refl
      refl commits_other

abbrev declaring : FetchRequest
declaring = record (plain_request url) { expected_checksum = some (codes "ffff") }

digest_here : digest toy staged (some (codes "0306")) world ≡ ok (codes "0306")
unfolding digest
digest_here = refl

commit_downloaded_differs_example :
    (detail : Text) × (commit_downloaded toy
        (cache_of false false)
        key
        declaring
        url
        answer
        (some (codes "0306"))
        staged
        world
      ≡ (err (integrity key detail), remove_node staged world))
commit_downloaded_differs_example =
    commit_downloaded_differs toy (cache_of false false) key declaring url answer
      (some (codes "0306")) staged world (regular content (some 6)) (codes "ffff") (codes "0306")
      refl digest_here refl refl
