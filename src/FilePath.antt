-- ===== src/FilePath.antt =====
-- Paths: the components of a `PathBuf`, which is how the standard library compares them.
pub mod Laws
use earth_sci_io.Prelude.{
  List, Option, Text, [], codes, eq, if◌then◌else◌, list_eq, map, none, refl, some, split,
  starts_with, ℕ_eq, ◌++◌, ◌||◌, ◌∷◌, ◌≡◌,
}

abbrev pub FilePath : Type 0
FilePath = List Text

abbrev pub join : FilePath → Text → FilePath
join p name = p ++ name ∷ []

-- The name of an entry of a directory, if the path is one.
unfoldable pub child_name : FilePath → FilePath → Option Text
child_name [] [] = none
child_name [] (n ∷ []) = some n
child_name [] (n ∷ m ∷ p) = none
child_name (d ∷ ds) [] = none
child_name (d ∷ ds) (n ∷ p) = if eq d n then child_name ds p else none

components : List Text → FilePath
components [] = []
components (c ∷ cs) = if eq c [] || eq c (codes ".") then components cs else c ∷ components cs

-- `PathBuf::from`: repeated separators and `.` do not count, a leading separator is the root.
unfoldable pub of_text : Text → FilePath
unfolding components
of_text t =
    if starts_with (codes "/") t
    then codes "/" ∷ components (split b'/' t)
    else components (split b'/' t)

intercalate : FilePath → Text
intercalate [] = []
intercalate (c ∷ []) = c
intercalate (c ∷ d ∷ p) = c ++ (b'/' ∷ intercalate (d ∷ p))

-- `Path::display`
unfoldable pub display_path : FilePath → Text
unfolding intercalate
display_path [] = []
display_path (c ∷ p) = if eq c (codes "/") then codes "/" ++ intercalate p else intercalate (c ∷ p)

of_text_runs :
    of_text (codes "/scratch.local//u/./x.nc")
    ≡ map codes ("/" ∷ "scratch.local" ∷ "u" ∷ "x.nc" ∷ [])
unfolding of_text
of_text_runs = refl

display_path_runs : display_path (of_text (codes "/a//b")) ≡ codes "/a/b"
unfolding of_text display_path
display_path_runs = refl
