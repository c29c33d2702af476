-- ===== src/Store/Local/Laws.antt =====
-- store/local.rs: the laws of a store, for the local one.
use earth_sci_io.Error.{Error, at_path}
use earth_sci_io.Exec.{Result, err, lift, map_err_exec, ok, ◌>>=◌}
use earth_sci_io.Manifest.{Manifest}
use earth_sci_io.External.{External, ExternalLaws}
use earth_sci_io.Store.{Store, StoreLaws}
use earth_sci_io.Prelude.{
  Option, Text, [], ap, arith, list_beq_reflexive, list_eq, lookup, lookup-insert_self, none, refl,
  remove, some, sym, ℕ_eq, ◌++◌, ◌∙◌, ◌∷◌, ◌≡◌,
}
use earth_sci_io.FilePath.{FilePath, child_name, join}
use earth_sci_io.FileSystem.{
  IoError, Op, World, create_dir_all, metadata, open_read, read_dir, stat,
}
use earth_sci_io.Store.Local.{
  blob_name, blob_path, commit_blob, fanout_dir, find_blob, get_blob_hinted, get_meta, listed,
  local_store, meta_dir, meta_path, publish, put_meta, to_json_bytes,
}
use earth_sci_io.Store.Local.Steps.{
  HasManifest, commit_blob-Renamed, commit_blob-faults, publish-HasManifest,
}
use earth_sci_io.Store.Local.Untouched.{SameIn, put_meta-SameIn}
use earth_sci_io.FileSystem.Laws.{Renamed}
use earth_sci_io.Exec.Inversion.{>>=-Chained, ok-injective}
use mathlib.Core.Path.{ap₂}

abbrev pub IsReliable : World → Type 0
IsReliable w = (p : FilePath) → (w.faults stat p ≡ none) × (w.faults open_read p ≡ none)

child_name-join : (dir : FilePath) (n : Text) → child_name dir (join dir n) ≡ some n
unfolding child_name
child_name-join [] n = refl
child_name-join (c ∷ dir) n = ground (arith, list_beq_reflexive c, child_name-join dir n)

module _ (root : FilePath) (key : Text) {w v : World} (s : SameIn (fanout_dir root key) w v) where
  metadata-SameIn :
      (ext : Text) → metadata (blob_path root key ext) v ≡ metadata (blob_path root key ext) w
  metadata-SameIn ext =
      rw (s.faults, s.found _ _ (child_name-join (fanout_dir root key) (blob_name key ext))) refl

  find_blob-SameIn : find_blob root key v ≡ find_blob root key w
  find_blob-SameIn =
      let dir = fanout_dir root key in
      unfold find_blob in
      ap₂ (λ (f : Op → FilePath → Option IoError) (x : Option FilePath). listed (f read_dir dir) x)
        s.faults (s.scanned key)

  get_blob_hinted-SameIn :
      (ext : Text) → get_blob_hinted root key ext v ≡ get_blob_hinted root key ext w
  unfolding get_blob_hinted
  get_blob_hinted-SameIn ext =
      ground (arith, metadata-SameIn ext, metadata-SameIn [], find_blob-SameIn)

module _ (X : External) (L : ExternalLaws X) (root : FilePath) where
  abbrev S : Store
  S = local_store X root

  to_json_bytes-read :
      (m : Manifest) (bytes : Text) → to_json_bytes X m ≡ ok bytes → X.from_slice bytes ≡ ok m
  unfolding to_json_bytes
  to_json_bytes-read m bytes e = from (X.to_string_pretty m) refl e
    where
      from :
          (r : Result Text Text)
          → X.to_string_pretty m ≡ r
          → (elim r [ ok s ↦ ok (s ++ b'\n' ∷ []) | err detail ↦ err (Error.manifest detail) ])
            ≡ ok bytes
          → X.from_slice bytes ≡ ok m
      from (ok t) p q = ap X.from_slice (sym (ok-injective q)) ∙ L.from_slice-to_string_pretty m t p
      from (err d) p q = cc

  get_meta-HasManifest :
      (key : Text) (m : Manifest) (w v : World)
      → IsReliable w
      → (bytes : Text) → X.from_slice bytes ≡ ok m
      → HasManifest root key bytes w v
      → get_meta X root key v ≡ ok (some m)
  unfolding get_meta
  get_meta-HasManifest key m w v r bytes read_back h = ground (
    arith,
    h.there,
    r (meta_path root key),
    ap (λ (f : Op → FilePath → Option IoError). f open_read (meta_path root key)) h.faults,
  )

  -- The manifest that was written is the one that is read.
  get_meta-put_meta :
      (key : Text) (m : Manifest) (w : World)
      → IsReliable w
      → (put_meta X root key m w).0 ≡ ok tt
      → get_meta X root key (put_meta X root key m w).1 ≡ ok (some m)
  get_meta-put_meta key m w r e =
      let dir = meta_dir root in
      let make = map_err_exec (at_path dir) (create_dir_all dir) in
      let send = lift (to_json_bytes X m) in
      let c =
        >>=-Chained (λ (u : Unit {0}). send >>= publish root key) make w (unfold put_meta in e) in
      let d = >>=-Chained (publish root key) send w c.second in
      let done = publish-HasManifest root key d.value w d.second in
      let last : (put_meta X root key m w).1 ≡ (publish root key d.value w).1 =
        unfold put_meta in c.state ∙ d.state in
      rw last (
        get_meta-HasManifest key m w (publish root key d.value w).1 r d.value
          (to_json_bytes-read m d.value d.first) done)

  get_blob_hinted-Renamed :
      (key ext : Text) (staged : FilePath) (w v : World)
      → IsReliable w
      → Renamed staged (blob_path root key ext) w v
      → get_blob_hinted root key ext v ≡ some (blob_path root key ext)
  unfolding get_blob_hinted
  get_blob_hinted-Renamed key ext staged w v r h =
      let p = blob_path root key ext in
      ground (
        arith,
        ap (lookup p) h.files,
        lookup-insert_self p h.node (remove staged w.files),
        r p,
        ap (λ (f : Op → FilePath → Option IoError). f stat p) h.faults,
      )

  get_blob_hinted-commit_blob :
      (key ext : Text) (staged p : FilePath) (w : World)
      → IsReliable w
      → (commit_blob root key staged ext w).0 ≡ ok p
      → get_blob_hinted root key ext (commit_blob root key staged ext w).1 ≡ some p
  get_blob_hinted-commit_blob key ext staged p w r e =
      let (same, moved) = commit_blob-Renamed root key ext staged p w e in
      get_blob_hinted-Renamed key ext staged w _ r moved ∙ ap some same

  commit_blob-IsReliable :
      (key ext : Text) (staged : FilePath) (w : World)
      → IsReliable w
      → IsReliable (commit_blob root key staged ext w).1
  commit_blob-IsReliable key ext staged w r p = rw (commit_blob-faults root key ext staged w) (r p)

  -- The local store keeps the laws of a store, in the worlds where looking at a file and opening
  -- one do not fail.
  pub local_store-StoreLaws : StoreLaws (local_store X root) IsReliable
  unfolding local_store
  local_store-StoreLaws = record {
    get_blob_hinted-commit_blob = get_blob_hinted-commit_blob;
    get_meta-put_meta = get_meta-put_meta;
    get_blob_hinted-put_meta = λ key ext k m w.
        get_blob_hinted-SameIn root key ((put_meta-SameIn root key X k m).at w) ext;
    commit_blob-Good = commit_blob-IsReliable;
  }
