-- ===== src/FilePath/Laws.antt =====
-- The entries of a directory.
use earth_sci_io.Prelude.{[], arith, list_beq_reflexive, list_eq, refl, ℕ_eq, ◌++◌, ◌∷◌, ◌≡◌}
use earth_sci_io.FilePath.{FilePath, child_name}

-- A common beginning does not matter.
pub child_name-append : (p ds q : FilePath) → child_name (p ++ ds) (p ++ q) ≡ child_name ds q
unfolding child_name
child_name-append [] ds q = refl
child_name-append (c ∷ p) ds q = ground (arith, list_beq_reflexive c, child_name-append p ds q)
