-- ===== src/Store/Local.antt =====
-- store/local.rs: the `local` store, a layout of the file system under a root.
pub mod Untouched
pub mod Steps
pub mod Laws
pub mod Stale
use earth_sci_io.Prelude.{
  Bool, List, Option, Text, [], codes, eq, false, if◌then◌else◌, list_eq, none, not, some,
  starts_with, strip_prefix, take, true, ℕ, ℕ_eq, ◌&&◌, ◌++◌, ◌||◌, ◌∷◌,
}
use earth_sci_io.Exec.{Exec, Result, err, lift, map_err_exec, modify, ok, pure, query, ◌>>=◌, ◌>>◌}
use earth_sci_io.FilePath.{FilePath, child_name, join}
use earth_sci_io.FileSystem.{
  ErrorKind, Files, IoError, World, check, create_dir_all, metadata, not_found, open_lock, or_drop,
  persist, read, read_dir, take_lock, tempfile_in, write_all,
}
use earth_sci_io.Error.{Error, at_path, manifest}
use earth_sci_io.Manifest.{Manifest}
use earth_sci_io.External.{External}
use earth_sci_io.Store.{Store}

-- A directory below the root, with the version in between.
abbrev pub version_dir : FilePath → FilePath
version_dir root = join root (codes "v1")

-- `&key[..2]` panics at a key of less than two bytes; a key of the cache has two hexadecimal digits
-- for each byte of a digest.
abbrev pub fanout_dir : FilePath → Text → FilePath
fanout_dir root key = join (join (version_dir root) (codes "blobs")) (take 2 key)

abbrev pub blob_name : Text → Text → Text
blob_name key ext = if eq ext [] then key else key ++ (b'.' ∷ ext)

abbrev pub blob_path : FilePath → Text → Text → FilePath
blob_path root key ext = join (fanout_dir root key) (blob_name key ext)

abbrev pub meta_dir : FilePath → FilePath
meta_dir root = join (version_dir root) (codes "meta")

abbrev pub meta_path : FilePath → Text → FilePath
meta_path root key = join (meta_dir root) (key ++ codes ".json")

abbrev pub lock_dir : FilePath → FilePath
lock_dir root = join (version_dir root) (codes "locks")

abbrev pub lock_path : FilePath → Text → FilePath
lock_path root key = join (lock_dir root) (key ++ codes ".lock")

abbrev pub tmp_dir : FilePath → FilePath
tmp_dir root = join (version_dir root) (codes "tmp")

-- `<key>` itself, or `<key>.` and more
unfoldable pub names_blob : Text → Text → Bool
names_blob key name =
    eq name key
    || (elim (strip_prefix key name) [ none ↦ false | some rest ↦ starts_with (codes ".") rest ])

matching : FilePath → Text → FilePath → Bool
unfolding names_blob
matching dir key p = elim (child_name dir p) [ none ↦ false | some name ↦ names_blob key name ]

-- The first entry of the listing that names the blob.
unfoldable pub scan : FilePath → Text → Files → Option FilePath
unfolding matching
scan dir key [] = none
scan dir key ((p, n) ∷ fs) = if matching dir key p then some p else scan dir key fs

listed : Option IoError → Option FilePath → Option FilePath
listed (some e) found = none
listed none found = found

unfoldable pub find_blob : FilePath → Text → World → Option FilePath
unfolding scan listed
find_blob root key w =
    listed (w.faults read_dir (fanout_dir root key)) (scan (fanout_dir root key) key w.files)

abbrev pub is_ok {ℓ} : {E A : Type ℓ} → Result E A → Bool
is_ok (ok a) = true
is_ok (err e) = false

unfoldable pub get_blob_hinted : FilePath → Text → Text → World → Option FilePath
get_blob_hinted root key ext w =
    let hinted = blob_path root key ext in
    let bare = blob_path root key [] in
    if is_ok (metadata hinted w)
    then some hinted
    else if not (eq ext []) && is_ok (metadata bare w)
    then some bare
    else find_blob root key w

-- A manifest is staged in its own directory and then renamed, so that no reader sees a part of it.
publish_from : FilePath → Text → Text → FilePath → Exec Error World Unit
publish_from root key bytes tmp = do
  or_drop tmp (map_err_exec (at_path tmp) (write_all tmp bytes))
  map_err_exec (at_path (meta_path root key)) (persist tmp (meta_path root key))

pub publish : FilePath → Text → Text → Exec Error World Unit
unfolding publish_from
publish root key bytes = do
  tmp ←
      map_err_exec (at_path (meta_dir root))
        (tempfile_in (codes ".meta-") (codes ".json.part") (meta_dir root))
  publish_from root key bytes tmp

module _ (X : External) where
  parse_meta : List ℕ → Result Error (Option Manifest)
  parse_meta bytes = elim (X.from_slice bytes) [
    | ok m ↦ ok (some m)
    | err detail ↦ err (manifest detail)
  ]

  read_meta : FilePath → Result IoError (List ℕ) → Result Error (Option Manifest)
  unfolding parse_meta
  read_meta p (ok bytes) = parse_meta bytes
  read_meta p (err e) = elim e.kind [ ErrorKind.not_found ↦ ok none | _ ↦ err (at_path p e) ]

  unfoldable pub get_meta : FilePath → Text → World → Result Error (Option Manifest)
  unfolding read_meta
  get_meta root key w = let p = meta_path root key in read_meta p (read p w)

  -- `Manifest::to_json_bytes`
  unfoldable pub to_json_bytes : Manifest → Result Error Text
  to_json_bytes m = elim (X.to_string_pretty m) [
    | ok s ↦ ok (s ++ b'\n' ∷ [])
    | err detail ↦ err (manifest detail)
  ]

  unfoldable pub put_meta : FilePath → Text → Manifest → Exec Error World Unit
  unfolding to_json_bytes publish
  put_meta root key m = do
    map_err_exec (at_path (meta_dir root)) (create_dir_all (meta_dir root))
    bytes ← lift (to_json_bytes m)
    publish root key bytes

unfoldable pub new_staging : FilePath → Exec Error World FilePath
new_staging root = do
  let dir = tmp_dir root
  map_err_exec (at_path dir) (create_dir_all dir)
  map_err_exec (at_path dir) (tempfile_in (codes "dl-") (codes ".part") dir)

-- The staging file is consumed: an error on the way drops it.
unfoldable pub commit_blob : FilePath → Text → FilePath → Text → Exec Error World FilePath
commit_blob root key staged ext = do
  let dir = fanout_dir root key
  or_drop staged (map_err_exec (at_path dir) (create_dir_all dir))
  let dst = blob_path root key ext
  map_err_exec (at_path dst) (persist staged dst)
  pure dst

-- Opening creates the file; the wait for the lock lets other processes run.
unfoldable pub lock : FilePath → Text → Exec Error World Unit
lock root key = do
  let dir = lock_dir root
  let p = lock_path root key
  map_err_exec (at_path dir) (create_dir_all dir)
  map_err_exec (at_path p) (query (check open_lock p))
  map_err_exec (at_path p) (query (check take_lock p))
  modify (λ w. record w { files = w.others p w.files })

unfoldable pub local_store : External → FilePath → Store
unfolding find_blob get_blob_hinted get_meta put_meta new_staging commit_blob lock
local_store X root = record {
  name = codes "local";
  get_blob = find_blob root;
  get_blob_hinted = get_blob_hinted root;
  get_meta = get_meta X root;
  put_meta = put_meta X root;
  new_staging = new_staging root;
  commit_blob = commit_blob root;
  lock = lock root;
}
