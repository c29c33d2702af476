-- ===== src/Key.antt =====
-- key.rs: the cache key and the content digest, as lower-case hexadecimal.
pub mod Hexadecimal
use earth_sci_io.Prelude.{
  List, Text, [], codes, decimal, if◌then◌else◌, list_eq, ltb, ℕ, ℕ_eq, ◌%◌, ◌++◌, ◌+◌, ◌-◌, ◌/◌,
  ◌∷◌,
}
use earth_sci_io.Exec.{Result, and_then, ok}
use earth_sci_io.FilePath.{FilePath}
use earth_sci_io.FileSystem.{IoError, World, read}
use earth_sci_io.External.{External}

hex_digit : ℕ → ℕ
hex_digit n = if ltb n 10 then b'0' + n else b'a' + (n - 10)

unfoldable pub hex_lower : List ℕ → Text
unfolding hex_digit
hex_lower [] = []
hex_lower (b ∷ bytes) = hex_digit (b / 16) ∷ hex_digit (b % 16) ∷ hex_lower bytes

module _ (X : External) where
  unfoldable pub sha256_hex : List ℕ → Text
  unfolding hex_lower
  sha256_hex bytes = hex_lower (X.sha256 bytes)

  unfoldable pub cache_key : Text → Text
  unfolding hex_lower
  cache_key url = hex_lower (X.sha256 url)

  unfoldable pub cache_key_range : Text → ℕ → ℕ → Text
  unfolding cache_key decimal
  cache_key_range url start end =
      cache_key (url ++ (codes "#bytes=" ++ (decimal start ++ (codes "-" ++ decimal end))))

  -- The streamed digest is that of the whole file.
  abbrev pub sha256_file : FilePath → World → Result IoError Text
  sha256_file p w = and_then (read p w) λ bytes. ok (sha256_hex bytes)
