-- ===== src/Offline.antt =====
-- offline.rs: is the cache offline?
use earth_sci_io.Prelude.{
  Bool, Option, Text, [], codes, false, list_eq, lowercase, map, member, none, refl, some, trim,
  true, ℕ_eq, ◌∷◌, ◌≡◌,
}
use earth_sci_io.FileSystem.{World}

abbrev pub offline_env : Text
offline_env = codes "EARTHSCI_OFFLINE"

is_truthy : Text → Bool
is_truthy s = member (lowercase (trim s)) (map codes ("1" ∷ "true" ∷ "yes" ∷ []))

unfoldable pub is_offline : Option Bool → World → Bool
unfolding is_truthy
is_offline (some v) w = v
is_offline none w = elim (w.env offline_env) [ some s ↦ is_truthy s | none ↦ false ]

truthy_table :
    map (λ s. is_truthy (codes s)) ("1" ∷ "TRUE" ∷ "Yes" ∷ " yes " ∷ "0" ∷ "" ∷ "off" ∷ [])
    ≡ true ∷ true ∷ true ∷ true ∷ false ∷ false ∷ false ∷ []
unfolding is_truthy
truthy_table = refl
