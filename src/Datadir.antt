-- ===== src/Datadir.antt =====
-- datadir.rs: the cache root and the one variable that `file://` templates may name.
use earth_sci_io.Prelude.{
  Bool, Option, Text, [], codes, eq, if◌then◌else◌, length, list_eq, none, refl, some, starts_with,
  suc, zero, ℕ, ℕ_eq, ◌++◌, ◌-◌, ◌||◌, ◌∷◌, ◌≡◌,
}
use earth_sci_io.FileSystem.{World}

abbrev pub datadir_env : Text
datadir_env = codes "EARTHSCIDATADIR"

or_else : Option Text → Option Text → Option Text
or_else (some a) b = some a
or_else none b = b

unwrap_or : Text → Option Text → Text
unwrap_or t none = t
unwrap_or t (some s) = s

unfoldable pub default_data_dir : World → Text
unfolding or_else unwrap_or
default_data_dir w =
    let user =
      unwrap_or (codes "shared") (or_else (w.env (codes "USER")) (w.env (codes "LOGNAME"))) in
    codes "/scratch.local/" ++ (user ++ codes "/earthsci-cache")

unfoldable pub data_dir : World → Text
unfolding default_data_dir
data_dir w = elim (w.env datadir_env) [
  | some dir ↦ if eq dir [] then default_data_dir w else dir
  | none ↦ default_data_dir w
]

contains : Text → Text → Bool
contains p [] = starts_with p []
contains p (c ∷ s) = starts_with p (c ∷ s) || contains p s

-- `str::replace`, for a pattern that is not empty: `skip` bytes belong to the match just replaced.
replace_from : Text → Text → ℕ → Text → Text
replace_from p r skip [] = []
replace_from p r (suc skip) (c ∷ s) = replace_from p r skip s
replace_from p r zero (c ∷ s) =
    let replaced = replace_from p r (length p - 1) s in
    let kept = replace_from p r zero s in if starts_with p (c ∷ s) then r ++ replaced else c ∷ kept

unfoldable pub replace : Text → Text → Text → Text
unfolding replace_from
replace p r s = replace_from p r 0 s

unfoldable pub expand_datadir_with : Text → Text → Text
unfolding contains replace
expand_datadir_with template root =
    if contains datadir_env template
    then replace (codes "$EARTHSCIDATADIR") root
        (replace (codes "${EARTHSCIDATADIR}") root template)
    else template

unfoldable pub expand_datadir : Text → World → Text
unfolding expand_datadir_with data_dir
expand_datadir template w = expand_datadir_with template (data_dir w)

expand_datadir_with_runs :
    expand_datadir_with (codes "file://${EARTHSCIDATADIR}/$EARTHSCIDATADIR/x.nc") (codes "/u")
    ≡ codes "file:///u//u/x.nc"
unfolding expand_datadir_with
expand_datadir_with_runs = refl
