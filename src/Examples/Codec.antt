-- ===== src/Examples/Codec.antt =====
-- A concrete choice for what the program takes from other packages: manifests as length-prefixed
-- fields, and a digest of two bytes.
use earth_sci_io.Prelude.{
  List, Option, Text, [], ap, codes, drop, drop-append, length, list_eq, none, prod_eq, refl, some,
  subst, suc, sum, take, take-append, zero, ℕ, ℕ_eq, ◌%◌, ◌++◌, ◌∙◌, ◌∷◌, ◌≡◌,
}
use earth_sci_io.Exec.{Result, err, ok}
use earth_sci_io.Exec.Inversion.{ok-injective}
use earth_sci_io.Manifest.{Manifest}
use earth_sci_io.External.{External, ExternalLaws}

put_text : Text → Text → Text
put_text t rest = length t ∷ (t ++ rest)

put_option : Option Text → Text → Text
unfolding put_text
put_option none rest = 0 ∷ rest
put_option (some t) rest = 1 ∷ put_text t rest

get_text : {B : Type 0} → Text → (Text → Text → Option B) → Option B
get_text [] k = none
get_text (n ∷ s) k = k (take n s) (drop n s)

get_option : {B : Type 0} → Text → (Option Text → Text → Option B) → Option B
unfolding get_text
get_option [] k = none
get_option (zero ∷ s) k = k none s
get_option (suc n ∷ s) k = get_text s λ t rest. k (some t) rest

get_number : {B : Type 0} → Text → (ℕ → Text → Option B) → Option B
get_number [] k = none
get_number (n ∷ s) k = k n s

get_text-put_text :
    {B : Type 0} (t rest : Text) (k : Text → Text → Option B)
    → get_text (put_text t rest) k ≡ k t rest
unfolding get_text put_text
get_text-put_text t rest k = rw (take-append t rest, drop-append t rest) refl

get_option-put_option :
    {B : Type 0} (o : Option Text) (rest : Text) (k : Option Text → Text → Option B)
    → get_option (put_option o rest) k ≡ k o rest
unfolding get_option put_option
get_option-put_option none rest k = refl
get_option-put_option (some t) rest k = get_text-put_text t rest (λ t rest. k (some t) rest)

encode : Manifest → Text
unfolding put_text put_option
encode m = put_option m.auth_realm (
    m.bytes
    ∷ put_option m.etag (
        put_text m.fetched_at (
          put_option m.last_modified (
            put_text m.schema
              (put_text m.sha256_content (put_option m.source_loader (put_text m.url [])))))))

decode : Text → Option Manifest
unfolding get_text get_option get_number
decode s = get_option s λ auth_realm s. get_number s λ bytes s. get_option s λ etag s.
    get_text s λ fetched_at s. get_option s λ last_modified s. get_text s λ schema s.
      get_text s λ sha256_content s. get_option s λ source_loader s. get_text s λ url s.
        some (record {
          auth_realm = auth_realm;
          bytes = bytes;
          etag = etag;
          fetched_at = fetched_at;
          last_modified = last_modified;
          schema = schema;
          sha256_content = sha256_content;
          source_loader = source_loader;
          url = url;
        })

decode-encode : (m : Manifest) → decode (encode m) ≡ some m
unfolding decode encode get_number
decode-encode m = simp (get_option-put_option, get_text-put_text)

abbrev pub toy_digest : List ℕ → List ℕ
toy_digest b = (length b % 256) ∷ (sum b % 256) ∷ []

parsed : Option Manifest → Result Text Manifest
parsed none = err []
parsed (some m) = ok m

read_manifest : Text → Result Text Manifest
unfolding decode parsed
read_manifest [] = err []
read_manifest (n ∷ s) = parsed (decode (take n s))

unfoldable pub toy : External
unfolding read_manifest encode
toy = record {
  sha256 = toy_digest;
  to_string_pretty = λ m. ok (length (encode m) ∷ encode m);
  from_slice = read_manifest;
  parse_rfc3339 = λ s. some (length s);
  format_stamp = λ n. some (codes "2024-01-01T00:00:00Z");
  debug_str = λ s. s;
  debug_char = λ s. s;
}

read_manifest-encode :
    (m : Manifest) (x : Text) → read_manifest (length (encode m) ∷ (encode m ++ x)) ≡ ok m
unfolding read_manifest parsed
read_manifest-encode m x =
    ap (λ t. parsed (decode t)) (take-append (encode m) x) ∙ ap parsed (decode-encode m)

-- What the local store writes for a manifest.
unfoldable pub manifest_file : Manifest → Text
unfolding encode
manifest_file m = (length (encode m) ∷ encode m) ++ b'\n' ∷ []

pub toy-ExternalLaws : ExternalLaws toy
unfolding toy
toy-ExternalLaws = record {
  from_slice-to_string_pretty = λ m t h.
      subst (λ u. read_manifest (u ++ b'\n' ∷ []) ≡ ok m) (ok-injective h)
        (read_manifest-encode m (b'\n' ∷ []));
}
