-- ===== src/External.antt =====
-- What the program takes from other packages: sha2, serde_json and the `time` crate, and the `{:?}`
-- of the standard library. `ExternalLaws` is what their documentation promises.
use earth_sci_io.Prelude.{List, Option, Text, [], list_eq, ℕ, ℕ_eq, ◌++◌, ◌∷◌, ◌≡◌}
use earth_sci_io.Exec.{Result, ok}
use earth_sci_io.Manifest.{Manifest}

pub record External : Type 0 where
  -- sha2::Sha256::digest
  pub sha256 : List ℕ → List ℕ
  -- serde_json on the manifest's derived implementation; an error is its text
  pub to_string_pretty : Manifest → Result Text Text
  pub from_slice : List ℕ → Result Text Manifest
  -- time::OffsetDateTime, in nanoseconds from the first representable instant
  pub parse_rfc3339 : Text → Option ℕ
  pub format_stamp : ℕ → Option Text
  pub debug_str : Text → Text
  -- `{:?}` of a character, by its bytes
  pub debug_char : Text → Text

-- Reading back what serde_json has printed gives the value; trailing white space is skipped.
pub record ExternalLaws (X : External) : Type 0 where
  pub from_slice-to_string_pretty :
      (m : Manifest) (t : Text)
      → X.to_string_pretty m ≡ ok t
      → X.from_slice (t ++ b'\n' ∷ []) ≡ ok m
