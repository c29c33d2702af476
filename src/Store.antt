-- ===== src/Store.antt =====
-- store/mod.rs: the interface of a store. A staging file is its path; dropping one removes it.
pub mod Local
use earth_sci_io.Prelude.{
  Bool, List, Option, Text, insert, is_some, list_eq, lookup, some, ℕ_eq, ◌≡◌,
}
use earth_sci_io.Exec.{Exec, Result, ok}
use earth_sci_io.FilePath.{FilePath}
use earth_sci_io.FileSystem.{World}
use earth_sci_io.Error.{Error}
use earth_sci_io.Manifest.{Manifest}

pub record Store : Type 0 where
  pub name : Text
  pub get_blob : Text → World → Option FilePath
  pub get_blob_hinted : Text → Text → World → Option FilePath
  pub get_meta : Text → World → Result Error (Option Manifest)
  pub put_meta : Text → Manifest → Exec Error World Unit
  pub new_staging : Exec Error World FilePath
  pub commit_blob : Text → FilePath → Text → Exec Error World FilePath
  pub lock : Text → Exec Error World Unit

-- `exists`
abbrev pub exists : Store → Text → World → Bool
exists s key w = is_some (s.get_blob key w)

-- What a client relies on, in worlds that satisfy `Good`.
pub record StoreLaws (s : Store) (Good : World → Type 0) : Type 0 where
  pub get_blob_hinted-commit_blob :
      (key ext : Text) (staged p : FilePath) (w : World)
      → Good w
      → (s.commit_blob key staged ext w).0 ≡ ok p
      → s.get_blob_hinted key ext (s.commit_blob key staged ext w).1 ≡ some p
  pub get_meta-put_meta :
      (key : Text) (m : Manifest) (w : World)
      → Good w
      → (s.put_meta key m w).0 ≡ ok tt
      → s.get_meta key (s.put_meta key m w).1 ≡ ok (some m)
  pub get_blob_hinted-put_meta :
      (key ext k : Text) (m : Manifest) (w : World)
      → s.get_blob_hinted key ext (s.put_meta k m w).1 ≡ s.get_blob_hinted key ext w
  pub commit_blob-Good :
      (key ext : Text) (staged : FilePath) (w : World)
      → Good w
      → Good (s.commit_blob key staged ext w).1

-- The stores by name.
abbrev pub StoreRegistry : Type 0
StoreRegistry = List (Text × Store)

unfoldable pub register_store : Store → StoreRegistry → StoreRegistry
register_store s reg = insert s.name s reg

unfoldable pub get_store : StoreRegistry → Text → Option Store
get_store reg name = lookup name reg
