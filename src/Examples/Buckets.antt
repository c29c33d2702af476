-- ===== src/Examples/Buckets.antt =====
-- Tests and the witness of the options of S3 buckets.
use earth_sci_io.Prelude.{
  Option, Text, [], codes, list_eq, none, prod_eq, refl, some, suc, trim, true, zero, ℕ, ℕ_eq, ◌∷◌,
  ◌≡◌,
}
use earth_sci_io.Exec.{ok}
use earth_sci_io.S3Config.{
  JsonCrate, Shape, boolean, object, options_for_bucket, options_for_url, stated_signing, string,
}
use earth_sci_io.S3Config.Lookup.{Says, options_for_bucket-Says}

-- The values of `{" Tiles ": {"AWS_Region": "us-east-2"}, "own": {"token": true}}`, by number.
abbrev shapes : ℕ → Shape ℕ
shapes zero = object ((codes " Tiles ", 1) ∷ (codes "own", 2) ∷ [])
shapes (suc zero) = object ((codes "AWS_Region", 3) ∷ [])
shapes (suc (suc zero)) = object ((codes "token", 4) ∷ [])
shapes (suc (suc (suc zero))) = string (codes "us-east-2")
shapes (suc (suc (suc (suc n)))) = boolean true

abbrev two_buckets : JsonCrate ℕ
two_buckets = record { from_str = λ s. ok 0; shape = shapes; trim = trim }

abbrev configured : Text → Option Text
configured name = some (codes "{}")

pinned :
    options_for_url two_buckets configured (codes "s3://TILES/a/b")
    ≡ (codes "aws_region", codes "us-east-2") ∷ []
unfolding options_for_url
pinned = refl

anonymous : stated_signing two_buckets ((codes "aws_region", codes "us-east-2") ∷ []) ≡ none
unfolding stated_signing
anonymous = refl

signed :
    stated_signing two_buckets (options_for_bucket two_buckets configured (codes "own")) ≡ some true
unfolding stated_signing options_for_bucket
signed = refl

options_for_bucket-Says_example :
    Says two_buckets (some 2) (options_for_bucket two_buckets configured (codes "OWN"))
options_for_bucket-Says_example = options_for_bucket-Says two_buckets configured (codes "OWN")
