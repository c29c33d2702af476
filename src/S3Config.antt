-- ===== src/S3Config.antt =====
-- s3_config.rs: the options of S3 buckets, from the environment and by URL. The JSON parser is
-- serde_json's, whose values are read by their kinds; `trim` is that of the standard library.
pub mod Latest
pub mod Lookup
use mathlib.Core.Option
use earth_sci_io.Prelude.{
  Bool, List, Option, Text, [], codes, false, if◌then◌else◌, insert, list_eq, lookup, lowercase,
  map, member, none, not, prod_eq, some, split, strip_prefix, true, ℕ_eq, ◌++◌, ◌||◌, ◌∷◌,
}
use earth_sci_io.Exec.{Result, and_then, err, map_err, ok, option_then}

-- serde_json::Value, of which a number is given as it is printed
pub data Shape (Json : Type 0) : Type 0 where
  null : Shape Json
  boolean : Bool → Shape Json
  number : Text → Shape Json
  string : Text → Shape Json
  array : Shape Json
  object : List (Text × Json) → Shape Json

pub record JsonCrate (Json : Type 0) : Type 0 where
  pub from_str : Text → Result Text Json
  pub shape : Json → Shape Json
  pub trim : Text → Text

abbrev pub Options : Type 0
Options = List (Text × Text)

abbrev pub bucket_options_env : Text
bucket_options_env = codes "EARTHSCI_S3_BUCKET_OPTIONS"

abbrev pub s3_signing_keys : List Text
s3_signing_keys = codes "aws_skip_signature" ∷ codes "skip_signature" ∷ []

abbrev pub s3_credential_keys : List Text
s3_credential_keys =
    codes "aws_access_key_id"
    ∷ codes "access_key_id"
    ∷ codes "aws_secret_access_key"
    ∷ codes "secret_access_key"
    ∷ codes "aws_session_token"
    ∷ codes "session_token"
    ∷ codes "aws_token"
    ∷ codes "token"
    ∷ codes "aws_container_credentials_relative_uri"
    ∷ codes "container_credentials_relative_uri"
    ∷ codes "aws_container_credentials_full_uri"
    ∷ codes "container_credentials_full_uri"
    ∷ codes "aws_web_identity_token_file"
    ∷ codes "web_identity_token_file"
    ∷ codes "aws_role_arn"
    ∷ codes "role_arn"
    ∷ []

abbrev pub s3_region_keys : List Text
s3_region_keys = codes "aws_region" ∷ codes "region" ∷ []

unfoldable pub has_any : Options → (keys : List Text) → Bool
has_any [] keys = false
has_any ((k, v) ∷ options) keys = member k keys || has_any options keys

unfoldable pub option_value : Options → (keys : List Text) → Option Text
option_value [] keys = none
option_value ((k, v) ∷ options) keys = if member k keys then some v else option_value options keys

abbrev pub is_empty : Text → Bool
is_empty [] = true
is_empty (c ∷ s) = false

first_piece : List Text → Text
first_piece [] = []
first_piece (p ∷ ps) = p

or_else : Option Text → Option Text → Option Text
or_else none o = o
or_else (some t) o = some t

unfoldable pub bucket_of_url : Text → Option Text
unfolding or_else first_piece
bucket_of_url url =
    option_then (or_else (strip_prefix (codes "s3://") url) (strip_prefix (codes "s3a://") url))
      λ rest.
        let bucket = first_piece (split b'/' rest) in
        if is_empty bucket then none else some (lowercase bucket)

kind_of : {Json : Type 0} → Shape Json → Text
kind_of null = codes "null"
kind_of (boolean b) = codes "a boolean"
kind_of (number n) = codes "a number"
kind_of (string s) = codes "a string"
kind_of array = codes "an array"
kind_of (object fields) = codes "an object"

bad_option : (bucket key kind : Text) → Text
bad_option bucket key kind =
    codes "'"
    ++ (bucket
        ++ (codes "'.'"
            ++ (key
                ++ (codes "' is "
                    ++ (kind
                        ++ codes ", and an option value must be a string, boolean or number")))))

unfoldable pub option_text : {Json : Type 0} → (bucket key : Text) → Shape Json → Result Text Text
unfolding bad_option kind_of
option_text bucket key (string s) = ok s
option_text bucket key (boolean true) = ok (codes "true")
option_text bucket key (boolean false) = ok (codes "false")
option_text bucket key (number n) = ok n
option_text bucket key s = err (bad_option bucket key (kind_of s))

unfoldable pub object_of :
    {Json : Type 0} → (refusal : Text) → Shape Json → Result Text (List (Text × Json))
object_of refusal (object fields) = ok fields
object_of refusal _ = err refusal

module _ {Json : Type 0} (J : JsonCrate Json) where
  abbrev pub folded : Text → Text
  folded name = lowercase (J.trim name)

  -- The options of one bucket.
  unfoldable pub pairs_of : (bucket : Text) → List (Text × Json) → Result Text Options
  unfolding option_text
  pairs_of bucket [] = ok []
  pairs_of bucket ((key, value) ∷ fields) =
      and_then (option_text bucket key (J.shape value))
        λ text. and_then (pairs_of bucket fields) λ pairs. ok ((folded key, text) ∷ pairs)

  -- The options of a bucket by its value, which must be an object.
  unfoldable pub options_in : (bucket : Text) → Shape Json → Result Text Options
  unfolding object_of pairs_of
  options_in bucket s =
      and_then
        (object_of (codes "'" ++ (bucket ++ codes "' does not map to a JSON object of options")) s)
        (pairs_of bucket)

  -- The loop over the buckets; a later entry of the same name takes the place of an earlier one.
  unfoldable pub buckets_of :
      List (Text × Json) → List (Text × Options) → Result Text (List (Text × Options))
  unfolding options_in
  buckets_of [] out = ok out
  buckets_of ((name, value) ∷ buckets) out =
      let bucket = folded name in
      if is_empty bucket
      then err (codes "a bucket name is empty")
      else (and_then (options_in bucket (J.shape value))
          λ pairs. buckets_of buckets (insert bucket pairs out))

  unfoldable pub parse_bucket_options : Text → Result Text (List (Text × Options))
  unfolding buckets_of object_of
  parse_bucket_options spec =
      if is_empty (J.trim spec)
      then ok []
      else (and_then (map_err (λ e. codes "not valid JSON: " ++ e) (J.from_str spec)) λ root.
          and_then
            (object_of (codes "expected a JSON object of {\"bucket\": {options}}") (J.shape root))
            λ buckets. buckets_of buckets [])

  unfoldable pub from_variable : Option Text → Result Text (List (Text × Options))
  unfolding parse_bucket_options
  from_variable (some spec) = parse_bucket_options spec
  from_variable none = ok []

  -- `env` is `std::env::var`.
  unfoldable pub bucket_options_from_env :
      (env : Text → Option Text) → Result Text (List (Text × Options))
  unfolding from_variable
  bucket_options_from_env env = from_variable (env bucket_options_env)

  abbrev pub or_none : Result Text (List (Text × Options)) → List (Text × Options)
  or_none (ok m) = m
  or_none (err e) = []

  abbrev pub or_empty : Option Options → Options
  or_empty none = []
  or_empty (some o) = o

  unfoldable pub options_for_bucket : (env : Text → Option Text) → Text → Options
  unfolding bucket_options_from_env
  options_for_bucket env bucket =
      or_empty (lookup (lowercase bucket) (or_none (bucket_options_from_env env)))

  unfoldable pub options_for_url : (env : Text → Option Text) → Text → Options
  unfolding options_for_bucket bucket_of_url
  options_for_url env url = or_empty (Option.map (options_for_bucket env) (bucket_of_url url))

  unfoldable pub stated_signing : Options → Option Bool
  unfolding option_value has_any
  stated_signing options = elim (option_value options s3_signing_keys) [
    | some value ↦
        some
          (not (member (folded value) (codes "true" ∷ codes "1" ∷ codes "yes" ∷ codes "on" ∷ [])))
    | none ↦ if has_any options s3_credential_keys then some true else none
  ]

unfoldable pub stated_region : Options → Option Text
unfolding option_value
stated_region options =
    option_then (option_value options s3_region_keys) λ r. if is_empty r then none else some r
