-- ===== src/Store/Local/Stale.antt =====
-- store/local.rs: blobs of one key under two extensions.
use earth_sci_io.Prelude.{
  Option, Text, ap, arith, eq, false, list_eq, lookup, lookup-insert, lookup-remove, none, some,
  ℕ_eq, ◌∙◌, ◌≡◌,
}
use earth_sci_io.Exec.{ok}
use earth_sci_io.FilePath.{FilePath}
use earth_sci_io.FileSystem.{IoError, Node, Op, World, stat}
use earth_sci_io.Store.Local.{blob_path, commit_blob, get_blob_hinted}
use earth_sci_io.Store.Local.Steps.{commit_blob-Renamed}
use earth_sci_io.Store.Local.Laws.{IsReliable}

hinted_there :
    (root : FilePath) (key ext : Text) (node : Node) (v : World)
    → v.faults stat (blob_path root key ext) ≡ none
    → lookup (blob_path root key ext) v.files ≡ some node
    → get_blob_hinted root key ext v ≡ some (blob_path root key ext)
unfolding get_blob_hinted
hinted_there root key ext node v no_fault there = ground (arith, no_fault, there)

module _ (root : FilePath) (key ext new_ext : Text) (staged p : FilePath) (w : World) where
  abbrev old : FilePath
  old = blob_path root key ext

  abbrev after : World
  after = (commit_blob root key staged new_ext w).1

  -- In a world where looking at a file and opening one do not fail, a commit of a key under a new
  -- extension keeps an older blob of the key, and a lookup by the old extension still returns that
  -- blob, with its old content. The staged file is not the old blob.
  pub get_blob_hinted-commit_blob_stale :
      (node : Node)
      → IsReliable w
      → eq (blob_path root key new_ext) old ≡ false
      → eq staged old ≡ false
      → lookup old w.files ≡ some node
      → (commit_blob root key staged new_ext w).0 ≡ ok p
      → (get_blob_hinted root key ext after ≡ some old) × (lookup old after.files ≡ some node)
  get_blob_hinted-commit_blob_stale node r differ apart there e =
      let (same, moved) = commit_blob-Renamed root key new_ext staged p w e in
      let kept : lookup old after.files ≡ some node =
        ap (lookup old) moved.files
        ∙ lookup-insert (blob_path root key new_ext) old _ _
        ∙ rw differ (lookup-remove staged old w.files ∙ rw apart there) in
      let no_fault : after.faults stat old ≡ none =
        ap (λ (f : Op → FilePath → Option IoError). f stat old) moved.faults ∙ (r old).0 in
      (hinted_there root key ext node after no_fault kept, kept)
