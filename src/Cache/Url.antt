-- ===== src/Cache/Url.antt =====
-- cache.rs: what the cache reads off a URL.
use earth_sci_io.Prelude.{
  Bool, Option, Text, [], all, codes, eq, eq_ignore_ascii_case, false, if◌then◌else◌,
  is_alphanumeric, leb, length, list_eq, lowercase, none, not, refl, rsplit_once, some,
  strip_prefix, ℕ_eq, ◌&&◌, ◌==◌, ◌||◌, ◌∷◌, ◌≡◌,
}
use earth_sci_io.Exec.{Result, err, ok}
use earth_sci_io.FilePath.{FilePath}
use earth_sci_io.FileSystem.{World}
use earth_sci_io.Error.{Error, bad_url}
use earth_sci_io.Transport.{file_url_to_path}

-- The parts around the first `://`.
split_scheme : Text → Option (Text × Text)
split_scheme [] = none
split_scheme (c ∷ s) =
    let later = split_scheme s in
    elim (strip_prefix (codes "://") (c ∷ s)) [
      | some rest ↦ some ([], rest)
      | none ↦ elim later [ none ↦ none | some (l, r) ↦ some (c ∷ l, r) ]
    ]

checked_scheme : Text → Option (Text × Text) → Result Error Text
checked_scheme url (some ((c ∷ scheme), rest)) = ok (c ∷ scheme)
checked_scheme url _ = err (bad_url url (codes "missing scheme"))

unfoldable pub scheme_of : Text → Result Error Text
unfolding split_scheme checked_scheme
scheme_of url = checked_scheme url (split_scheme url)

-- The URL before its query and its fragment.
before_query : Text → Text
before_query [] = []
before_query (c ∷ s) = if c == b'?' || c == b'#' then [] else c ∷ before_query s

last_segment : Text → Text
last_segment path = elim (rsplit_once b'/' path) [ some (l, r) ↦ r | none ↦ path ]

checked_ext : Option (Text × Text) → Text
checked_ext none = []
checked_ext (some (stem, ext)) =
    if (not (eq stem []) && not (eq ext [])) && (leb (length ext) 8 && all is_alphanumeric ext)
    then lowercase ext
    else []

unfoldable pub ext_from_url : Text → Text
unfolding before_query last_segment checked_ext
ext_from_url url = checked_ext (rsplit_once b'.' (last_segment (before_query url)))

is_file_scheme : Result Error Text → Bool
is_file_scheme (ok s) = eq_ignore_ascii_case s (codes "file")
is_file_scheme (err e) = false

to_option : {A : Type 0} → Result Error A → Option A
to_option (ok a) = some a
to_option (err e) = none

unfoldable pub local_source_path : Text → World → Option FilePath
unfolding scheme_of is_file_scheme to_option file_url_to_path
local_source_path url w =
    if is_file_scheme (scheme_of url) then to_option (file_url_to_path url w) else none

scheme_parsing :
    (scheme_of (codes "https://x/y") ≡ ok (codes "https"))
    × (scheme_of (codes "file:///a/b") ≡ ok (codes "file"))
    × (scheme_of (codes "no-scheme") ≡ err (bad_url (codes "no-scheme") (codes "missing scheme")))
unfolding scheme_of
scheme_parsing = (refl, refl, refl)

ext_extraction :
    (ext_from_url (codes "https://x/y/20181108.nc") ≡ codes "nc")
    × (ext_from_url (codes "https://x/y.csv?token=abc") ≡ codes "csv")
    × (ext_from_url (codes "https://x/y/data.NC4") ≡ codes "nc4")
    × (ext_from_url (codes "https://x/y/no-extension") ≡ [])
    × (ext_from_url (codes "https://x/.hidden") ≡ [])
unfolding ext_from_url
ext_extraction = (refl, refl, refl, refl, refl)
