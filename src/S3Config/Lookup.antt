-- ===== src/S3Config/Lookup.antt =====
-- s3_config.rs: the loop over the buckets, and the lookup in what it builds.
use earth_sci_io.Prelude.{
  Bool-cases, List, Option, Text, [], and_both, arith, codes, eq, false, if◌then◌else◌, inl, inr,
  insert, list_eq, lookup, lookup-insert, lowercase, none, not, prod_eq, refl, some, true, ℕ_eq,
  ◌++◌, ◌∙◌, ◌∷◌, ◌≡◌,
}
use earth_sci_io.Exec.{Result, and_then, err, map_err, ok}
use earth_sci_io.S3Config.{
  JsonCrate, Options, Shape, array, boolean, bucket_options_env, bucket_options_from_env,
  buckets_of, folded, from_variable, is_empty, null, number, object, object_of, options_for_bucket,
  or_empty, or_none, parse_bucket_options, string,
}
use earth_sci_io.S3Config.Latest.{
  Values, all_entries, is_table, latest, options_in-err, options_in-ok,
}

module _ {Json : Type 0} (J : JsonCrate Json) where
  -- The options that a lookup finds, by the value of the last entry that names the bucket, if there
  -- is one, and by what was there before.
  abbrev Found : (value : Option Json) → (before found : Option Options) → Type 0
  Found none before found = found ≡ before
  Found (some value) before found =
      (options : Options) × (found ≡ some options) × Values J value options

  -- The first entry, before the others: `m` is what is built in the end.
  Found-first :
      (name bucket : Text) (value : Json) (pairs : Options) (later : Option Json)
      (out : List (Text × Options)) (found : Option Options)
      → Values J value pairs
      → Found later (lookup bucket (insert (folded J name) pairs out)) found
      → Found
          (elim later [
            | some v ↦ some v
            | none ↦ if eq (folded J name) bucket then some value else none
          ])
          (lookup bucket out)
          found
  Found-first name bucket value pairs (some v) out found h later = later
  Found-first name bucket value pairs none out found h later =
      elim (Bool-cases (eq (folded J name) bucket)) [
        | inl same ↦
            rw same
              (pairs, later ∙ (lookup-insert (folded J name) bucket pairs out ∙ rw same refl), h)
        | inr apart ↦
            rw apart (later ∙ (lookup-insert (folded J name) bucket pairs out ∙ rw apart refl))
      ]

  -- The map that the loop returns.
  abbrev Built : List (Text × Json) → List (Text × Options) → Type 0
  Built buckets out =
      (m : List (Text × Options)) × (buckets_of J buckets out ≡ ok m)
      × ((bucket : Text) → Found (latest J buckets bucket) (lookup bucket out) (lookup bucket m))

  buckets_of-ok :
      (buckets : List (Text × Json)) (out : List (Text × Options))
      → all_entries J buckets ≡ true
      → Built buckets out
  unfolding buckets_of
  buckets_of-ok [] out h = (out, refl, λ b. refl)
  buckets_of-ok ((name, value) ∷ buckets) out h =
      let v = and_both _ (all_entries J buckets) h in
      let u = and_both (not (is_empty (folded J name))) (is_table J (J.shape value)) v.0 in
      let named : is_empty (folded J name) ≡ false = ground (arith, u.0) in
      let (pairs, e, values) = options_in-ok J (folded J name) value (J.shape value) refl u.1 in
      let (m, f, found) = buckets_of-ok buckets (insert (folded J name) pairs out) v.1 in
      (
        m,
        rw (named, e) f,
        λ b. Found-first name b value pairs (latest J buckets b) out (lookup b m) values (found b),
      )

  buckets_of-err :
      (buckets : List (Text × Json)) (out : List (Text × Options))
      → all_entries J buckets ≡ false
      → (e : Text) × (buckets_of J buckets out ≡ err e)
  unfolding buckets_of
  buckets_of-err [] out h = cc h
  buckets_of-err ((name, value) ∷ buckets) out h = elim (Bool-cases (is_empty (folded J name))) [
    | inl blank ↦ (codes "a bucket name is empty", rw blank refl)
    | inr named ↦ elim (Bool-cases (is_table J (J.shape value))) [
      | inr other ↦
          let (e, f) = options_in-err J (folded J name) (J.shape value) other in
          (e, rw (named, f) refl)
      | inl table ↦
          let (pairs, f, values) =
            options_in-ok J (folded J name) value (J.shape value) refl table in
          let (e, g) =
            buckets_of-err buckets (insert (folded J name) pairs out) (rw (named, table) at h) in
          (e, rw (named, f, g) refl)
    ]
  ]

  -- The entries of the variable's JSON object, in order; none where it is not set, blank, or no
  -- JSON object.
  abbrev pub entries : Shape Json → List (Text × Json)
  entries (object fields) = fields
  entries _ = []

  abbrev pub read_entries : Result Text Json → List (Text × Json)
  read_entries (ok root) = entries (J.shape root)
  read_entries (err e) = []

  abbrev pub set_entries : Option Text → List (Text × Json)
  set_entries none = []
  set_entries (some spec) = if is_empty (J.trim spec) then [] else read_entries (J.from_str spec)

  -- What the options are by the last entry that names the bucket.
  abbrev pub Says : Option Json → Options → Type 0
  Says none options = options ≡ []
  Says (some value) options = Values J value options

  abbrev pub last_entry : List (Text × Json) → Text → Option Json
  last_entry buckets bucket = if all_entries J buckets then latest J buckets bucket else none

  Found-Says :
      (value : Option Json) (found : Option Options)
      → Found value none found
      → Says value (or_empty J found)
  Found-Says none found h = rw h refl
  Found-Says (some value) found (options, e, h) = rw e h

  built-Says :
      (buckets : List (Text × Json)) (bucket : Text)
      → Says
          (last_entry buckets bucket)
          (or_empty J (lookup bucket (or_none J (buckets_of J buckets []))))
  built-Says buckets bucket = elim (Bool-cases (all_entries J buckets)) [
    | inl good ↦
        let (m, e, found) = buckets_of-ok buckets [] good in
        rw (good, e) (Found-Says (latest J buckets bucket) (lookup bucket m) (found bucket))
    | inr bad ↦ let (x, e) = buckets_of-err buckets [] bad in rw (bad, e) refl
  ]

  abbrev shaped_options : Text → Shape Json → Options
  shaped_options bucket s = or_empty J (
      lookup bucket (
        or_none J (
          and_then (object_of (codes "expected a JSON object of {\"bucket\": {options}}") s)
            λ buckets. buckets_of J buckets [])))

  shaped-Says :
      (s : Shape Json) (bucket : Text)
      → Says (last_entry (entries s) bucket) (shaped_options bucket s)
  unfolding object_of
  shaped-Says (object fields) bucket = built-Says fields bucket
  shaped-Says null bucket = refl
  shaped-Says (boolean b) bucket = refl
  shaped-Says (number n) bucket = refl
  shaped-Says (string t) bucket = refl
  shaped-Says array bucket = refl

  read-Says :
      (r : Result Text Json) (bucket : Text)
      → Says (last_entry (read_entries r) bucket) (
          or_empty J (
            lookup bucket (
              or_none J (
                and_then (map_err (λ e. codes "not valid JSON: " ++ e) r) λ root.
                  and_then
                    (object_of
                      (codes "expected a JSON object of {\"bucket\": {options}}")
                      (J.shape root))
                    λ buckets. buckets_of J buckets []))))
  read-Says (ok root) bucket = shaped-Says (J.shape root) bucket
  read-Says (err e) bucket = refl

  set-Says :
      (v : Option Text) (bucket : Text)
      → Says
          (last_entry (set_entries v) bucket)
          (or_empty J (lookup bucket (or_none J (from_variable J v))))
  unfolding from_variable parse_bucket_options
  set-Says none bucket = refl
  set-Says (some spec) bucket = elim (Bool-cases (is_empty (J.trim spec))) [
    | inl blank ↦ rw blank refl
    | inr filled ↦ rw filled (read-Says (J.from_str spec) bucket)
  ]

  -- The options for a bucket, named in any letter case, are those of the last entry of the
  -- variable's JSON object whose name is that of the bucket, up to white space around it and letter
  -- case: one for each of its fields, in order. There are none where no entry names the bucket,
  -- where the variable is not set, blank or no JSON object, and where any entry has no name or is
  -- not an object of strings, booleans and numbers.
  pub options_for_bucket-Says :
      (env : Text → Option Text) (bucket : Text)
      → Says
          (last_entry (set_entries (env bucket_options_env)) (lowercase bucket))
          (options_for_bucket J env bucket)
  unfolding options_for_bucket bucket_options_from_env
  options_for_bucket-Says env bucket = set-Says (env bucket_options_env) (lowercase bucket)
