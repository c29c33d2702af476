-- ===== src/Prelude/Dictionary.antt =====
-- Keys in pairs, membership, and what an insertion and a removal keep of a property of entries.
use Prim.Native.Nat.{ℕ, ◌+◌}
use mathlib.Core.Path.{◌≡◌, refl, subst}
use mathlib.Core.Logic.{inl, inr}
use mathlib.Core.Bool.{Bool, true, false, ◌&&◌, ◌||◌}
use mathlib.Core.Option.{Option, none, some}
use mathlib.Core.List.{List, [], ◌∷◌, ◌++◌}
use native.Mathlib.Omega.{arith}
use earth_sci_io.Prelude.Tests.{Bool-cases, if◌then◌else◌}
use earth_sci_io.Prelude.Equality.{
  Eq, eq, insert, list_eq, lookup, lookup-insert, lookup-remove, remove, ℕ_eq,
}

module _ {A B : Type 0} ⦃d : Eq A⦄ ⦃e : Eq B⦄ where
  abbrev pub prod_beq : A × B → A × B → Bool
  prod_beq (a, b) (x, y) = d.eq a x && e.eq b y

  pub prod_beq_sound : (p q : A × B) → prod_beq p q ≡ true → p ≡ q
  prod_beq_sound (a, b) (x, y) h = ground (arith, d.sound a x, e.sound b y)

  pub prod_beq_reflexive : (p : A × B) → prod_beq p p ≡ true
  prod_beq_reflexive (a, b) = ground (arith, d.reflexive a, e.reflexive b)

instance abbrev pub prod_eq : {A B : Type 0} ⦃d : Eq A⦄ ⦃e : Eq B⦄ → Eq (A × B)
prod_eq = record { eq = prod_beq; sound = prod_beq_sound; reflexive = prod_beq_reflexive }

module _ {A : Type 0} ⦃e : Eq A⦄ where
  abbrev pub includes : A → List A → Bool
  includes x [] = false
  includes x (y ∷ ys) = eq y x || includes x ys

  -- How often a value occurs.
  abbrev pub occurrences : A → List A → ℕ
  occurrences x [] = 0
  occurrences x (y ∷ ys) = (if eq y x then 1 else 0) + occurrences x ys

  pub includes-append :
      (x : A) (xs ys : List A) → includes x (xs ++ ys) ≡ (includes x xs || includes x ys)
  includes-append x [] ys = refl
  includes-append x (y ∷ xs) ys = ground (arith, includes-append x xs ys)

  pub eq_self : (x : A) → eq x x ≡ true
  eq_self x = e.reflexive x

module _ {κ} {K V : Type 0} ⦃e : Eq K⦄ (P : K → Option V → Type κ) where
  -- A property of every entry, the missing ones included, after a write at one key.
  pub insert-holds :
      (k : K) (v : V) (m : List (K × V))
      → P k (some v)
      → ((j : K) → e.eq k j ≡ false → P j (lookup j m))
      → (j : K) → P j (lookup j (insert k v m))
  insert-holds k v m h other j = elim (Bool-cases (e.eq k j)) [
    | inl same ↦ rw (lookup-insert k j v m, same) (subst (λ i. P i (some v)) (e.sound k j same) h)
    | inr apart ↦ rw (lookup-insert k j v m, apart) (other j apart)
  ]

  pub remove-holds :
      (k : K) (m : List (K × V))
      → P k none
      → ((j : K) → e.eq k j ≡ false → P j (lookup j m))
      → (j : K) → P j (lookup j (remove k m))
  remove-holds k m h other j = elim (Bool-cases (e.eq k j)) [
    | inl same ↦ rw (lookup-remove k j m, same) (subst (λ i. P i none) (e.sound k j same) h)
    | inr apart ↦ rw (lookup-remove k j m, apart) (other j apart)
  ]
