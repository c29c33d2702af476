-- ===== src/Ff10/Members.antt =====
-- format/ff10.rs: which members of an archive are read, and in what order.
pub mod Laws
use earth_sci_io.Prelude.{
  Bool, List, Option, Text, [], codes, eq, false, if◌then◌else◌, list_eq, ltb, member, none,
  prod_eq, some, true, ℕ, ℕ_eq, ◌&&◌, ◌++◌, ◌==◌, ◌||◌, ◌∷◌,
}
use earth_sci_io.Exec.{Result, and_then, err, ok}
use earth_sci_io.Error.{Error, format}
use earth_sci_io.Ff10.Glob.{GlobTok, glob_match, glob_tokens}

-- What is taken from the `zip` crate and the standard library: an open archive with the names of its
-- entries, in its order, and the text of each; the characters of a text; and `{:?}`.
pub record Archive : Type 0 where
  pub file_names : Result Error (List Text)
  pub text_of : Text → Result Error Text

pub record Printing : Type 0 where
  pub chars : Text → List ℕ
  pub debug : Text → Text
  pub debug_list : List Text → Text
  pub path : Text

abbrev pub fmt_err : Text → Error
fmt_err detail = format (codes "ff10") detail

-- The order of bytes, which is that of strings.
abbrev pub text_lt : Text → Text → Bool
text_lt [] [] = false
text_lt [] (c ∷ t) = true
text_lt (b ∷ s) [] = false
text_lt (b ∷ s) (c ∷ t) = ltb b c || ((b == c) && text_lt s t)

-- BTreeSet::insert, on the sorted list of the elements
unfoldable pub set_insert : Text → List Text → List Text
set_insert t [] = t ∷ []
set_insert t (s ∷ ss) =
    let rest = set_insert t ss in
    if eq t s then s ∷ ss else if text_lt t s then t ∷ s ∷ ss else s ∷ rest

unfoldable pub set_extend : List Text → List Text → List Text
unfolding set_insert
set_extend [] sel = sel
set_extend (t ∷ ts) sel = set_extend ts (set_insert t sel)

ends_with_slash : Text → Bool
ends_with_slash [] = false
ends_with_slash (c ∷ []) = c == b'/'
ends_with_slash (c ∷ d ∷ t) = ends_with_slash (d ∷ t)

-- Directory entries are left out.
unfoldable pub file_members : List Text → List Text
unfolding ends_with_slash
file_members [] = []
file_members (n ∷ ns) = let rest = file_members ns in if ends_with_slash n then rest else n ∷ rest

abbrev pub said : Option Bool → Bool
said none = false
said (some b) = b

unfoldable pub glob_hits : Printing → List GlobTok → List Text → List Text
unfolding glob_match
glob_hits p toks [] = []
glob_hits p toks (n ∷ ns) =
    let rest = glob_hits p toks ns in if said (glob_match toks (p.chars n)) then n ∷ rest else rest

no_member : Printing → Text → List Text → Error
no_member p m names = fmt_err (
    codes "zip member "
    ++ (p.debug m
        ++ (codes " not found in " ++ (p.path ++ (codes "; members: " ++ p.debug_list names)))))

no_hit : Printing → Text → List Text → Error
no_hit p g names = fmt_err (
    codes "member_glob "
    ++ (p.debug g
        ++ (codes " matched no members in "
            ++ (p.path ++ (codes "; members: " ++ p.debug_list names)))))

unfoldable pub add_members : Printing → List Text → List Text → List Text → Result Error (List Text)
unfolding no_member
add_members p names [] sel = ok sel
add_members p names (m ∷ ms) sel =
    let rest = add_members p names ms (set_insert m sel) in
    if member m names then rest else err (no_member p m names)

unfoldable pub add_hits :
    Printing → List Text → Text → List Text → List Text → Result Error (List Text)
unfolding no_hit
add_hits p names g [] sel = err (no_hit p g names)
add_hits p names g (h ∷ hits) sel = ok (set_extend (h ∷ hits) sel)

unfoldable pub add_glob : Printing → List Text → Option Text → List Text → Result Error (List Text)
unfolding add_hits
add_glob p names none sel = ok sel
add_glob p names (some g) sel = add_hits p names g (glob_hits p (glob_tokens (p.chars g)) names) sel

unfoldable pub not_empty : List Text → Result Error (List Text)
not_empty [] = err (fmt_err (codes "members/member_glob selected no zip members"))
not_empty (s ∷ ss) = ok (s ∷ ss)

unfoldable pub select_members :
    Printing → List Text → List Text → Option Text → Result Error (List Text)
unfolding add_members add_glob not_empty
select_members p names members glob =
    and_then (add_members p names members []) λ sel. and_then (add_glob p names glob sel) not_empty

texts_of : Archive → List Text → Result Error (List Text)
texts_of a [] = ok []
texts_of a (n ∷ ns) = and_then (a.text_of n) λ t. and_then (texts_of a ns) λ rest. ok (t ∷ rest)

-- The texts of the selected members, in the byte order of their names.
unfoldable pub read_zip_selected :
    Archive → Printing → List Text → Option Text → Result Error (List Text)
unfolding file_members select_members texts_of
read_zip_selected a p members glob =
    and_then a.file_names
      λ names. and_then (select_members p (file_members names) members glob) (texts_of a)
