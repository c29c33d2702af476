-- ===== src/S3Config/Latest.antt =====
-- s3_config.rs: the options of a bucket, by what the variable's JSON says of it.
use earth_sci_io.Prelude.{
  Bool, Bool-cases, List, Option, Text, [], and_both, codes, eq, false, if◌then◌else◌, inl, inr,
  list_eq, lowercase, none, not, prod_eq, refl, some, true, ℕ_eq, ◌&&◌, ◌∷◌, ◌≡◌,
}
use earth_sci_io.Exec.{err, ok}
use earth_sci_io.S3Config.{
  JsonCrate, Options, Shape, array, boolean, folded, is_empty, null, number, object, object_of,
  option_text, options_in, pairs_of, string,
}

-- The text of an option's value: a string as it is, a boolean and a number as they print.
abbrev pub Reads : {Json : Type 0} → Shape Json → Text → Type 0
Reads (string s) t = t ≡ s
Reads (boolean true) t = t ≡ codes "true"
Reads (boolean false) t = t ≡ codes "false"
Reads (number n) t = t ≡ n
Reads _ t = ⊥

abbrev pub is_scalar : {Json : Type 0} → Shape Json → Bool
is_scalar (string s) = true
is_scalar (boolean b) = true
is_scalar (number n) = true
is_scalar _ = false

option_text-ok :
    {Json : Type 0} (bucket key : Text) (s : Shape Json)
    → is_scalar s ≡ true
    → (t : Text) × (option_text bucket key s ≡ ok t) × Reads s t
unfolding option_text
option_text-ok bucket key (string s) h = (s, refl, refl)
option_text-ok bucket key (boolean true) h = (_, refl, refl)
option_text-ok bucket key (boolean false) h = (_, refl, refl)
option_text-ok bucket key (number n) h = (n, refl, refl)
option_text-ok bucket key null h = cc h
option_text-ok bucket key array h = cc h
option_text-ok bucket key (object fields) h = cc h

option_text-err :
    {Json : Type 0} (bucket key : Text) (s : Shape Json)
    → is_scalar s ≡ false
    → (e : Text) × (option_text bucket key s ≡ err e)
unfolding option_text
option_text-err bucket key (string s) h = cc h
option_text-err bucket key (boolean b) h = cc h
option_text-err bucket key (number n) h = cc h
option_text-err bucket key null h = (_, refl)
option_text-err bucket key array h = (_, refl)
option_text-err bucket key (object fields) h = (_, refl)

module _ {Json : Type 0} (J : JsonCrate Json) where
  -- One option for each field, in order: the key without white space around it and in lower case,
  -- with the value's text.
  abbrev pub States : List (Text × Json) → Options → Type 0
  States [] [] = Unit
  States ((key, value) ∷ fields) ((name, text) ∷ options) =
      (name ≡ lowercase (J.trim key)) × Reads (J.shape value) text × States fields options
  States _ _ = ⊥

  abbrev pub all_scalar : List (Text × Json) → Bool
  all_scalar [] = true
  all_scalar ((key, value) ∷ fields) = is_scalar (J.shape value) && all_scalar fields

  abbrev pub is_table : Shape Json → Bool
  is_table (object fields) = all_scalar fields
  is_table _ = false

  -- A bucket has a name and an object of scalars.
  abbrev pub all_entries : List (Text × Json) → Bool
  all_entries [] = true
  all_entries ((name, value) ∷ buckets) =
      (not (is_empty (folded J name)) && is_table (J.shape value)) && all_entries buckets

  -- The value of the last entry that names the bucket.
  abbrev pub latest : List (Text × Json) → (bucket : Text) → Option Json
  latest [] bucket = none
  latest ((name, value) ∷ buckets) bucket = elim (latest buckets bucket) [
    | some later ↦ some later
    | none ↦ if eq (folded J name) bucket then some value else none
  ]

  pairs_of-ok :
      (bucket : Text) (fields : List (Text × Json))
      → all_scalar fields ≡ true
      → (pairs : Options) × (pairs_of J bucket fields ≡ ok pairs) × States fields pairs
  unfolding pairs_of
  pairs_of-ok bucket [] h = ([], refl, tt)
  pairs_of-ok bucket ((key, value) ∷ fields) h =
      let v = and_both (is_scalar (J.shape value)) (all_scalar fields) h in
      let (text, e, reads) = option_text-ok bucket key (J.shape value) v.0 in
      let (pairs, f, states) = pairs_of-ok bucket fields v.1 in
      ((folded J key, text) ∷ pairs, rw (e, f) refl, (refl, reads, states))

  pairs_of-err :
      (bucket : Text) (fields : List (Text × Json))
      → all_scalar fields ≡ false
      → (e : Text) × (pairs_of J bucket fields ≡ err e)
  unfolding pairs_of
  pairs_of-err bucket [] h = cc h
  pairs_of-err bucket ((key, value) ∷ fields) h = elim (Bool-cases (is_scalar (J.shape value))) [
    | inr bad ↦ let (e, f) = option_text-err bucket key (J.shape value) bad in (e, rw f refl)
    | inl good ↦
        let (text, f, reads) = option_text-ok bucket key (J.shape value) good in
        let (e, g) = pairs_of-err bucket fields (rw good at h) in (e, rw (f, g) refl)
  ]

  -- The value states the options.
  abbrev pub Values : Json → Options → Type 0
  Values value options =
      (fields : List (Text × Json)) × (J.shape value ≡ object fields) × States fields options

  pub options_in-ok :
      (name : Text) (value : Json) (s : Shape Json)
      → J.shape value ≡ s
      → is_table s ≡ true
      → (pairs : Options) × (options_in J name s ≡ ok pairs) × Values value pairs
  unfolding options_in object_of
  options_in-ok name value (object fields) e h =
      let (pairs, f, states) = pairs_of-ok name fields h in (pairs, f, (fields, e, states))
  options_in-ok name value null e h = cc h
  options_in-ok name value (boolean b) e h = cc h
  options_in-ok name value (number n) e h = cc h
  options_in-ok name value (string t) e h = cc h
  options_in-ok name value array e h = cc h

  pub options_in-err :
      (name : Text) (s : Shape Json)
      → is_table s ≡ false
      → (e : Text) × (options_in J name s ≡ err e)
  unfolding options_in object_of
  options_in-err name (object fields) h = pairs_of-err name fields h
  options_in-err name null h = (_, refl)
  options_in-err name (boolean b) h = (_, refl)
  options_in-err name (number n) h = (_, refl)
  options_in-err name (string t) h = (_, refl)
  options_in-err name array h = (_, refl)
