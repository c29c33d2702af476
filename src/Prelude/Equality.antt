-- ===== src/Prelude/Equality.antt =====
-- Equality tests as an interface, and dictionaries on the keys that have one.
use Prim.Native.Nat.{ℕ}
use mathlib.Core.Path.{◌≡◌, refl}
use mathlib.Core.Bool.{Bool, true, false, ◌&&◌}
use mathlib.Core.Option.{Option, none, some}
use mathlib.Core.List.{List, [], ◌∷◌}
use native.Mathlib.Omega.{arith}
use earth_sci_io.Prelude.Tests.{==-refl, ==→eq, if◌then◌else◌, ◌==◌}

pub record Eq {ℓ} (A : Type ℓ) : Type ℓ where
  pub eq : A → A → Bool
  pub sound : (a b : A) → eq a b ≡ true → a ≡ b
  pub reflexive : (a : A) → eq a a ≡ true

instance abbrev pub ℕ_eq : Eq ℕ
ℕ_eq = record { eq = ◌==◌; sound = ==→eq; reflexive = ==-refl }

abbrev pub eq {ℓ} : {A : Type ℓ} ⦃e : Eq A⦄ → A → A → Bool
eq ⦃e⦄ = e.eq

module _ {ℓ} {A : Type ℓ} ⦃e : Eq A⦄ where
  abbrev pub list_beq : List A → List A → Bool
  list_beq [] [] = true
  list_beq [] (y ∷ ys) = false
  list_beq (x ∷ xs) [] = false
  list_beq (x ∷ xs) (y ∷ ys) = e.eq x y && list_beq xs ys

  pub list_beq_sound : (xs ys : List A) → list_beq xs ys ≡ true → xs ≡ ys
  list_beq_sound [] [] h = refl
  list_beq_sound [] (y ∷ ys) h = cc
  list_beq_sound (x ∷ xs) [] h = cc
  list_beq_sound (x ∷ xs) (y ∷ ys) h = ground (arith, e.sound x y, list_beq_sound xs ys)

  pub list_beq_reflexive : (xs : List A) → list_beq xs xs ≡ true
  list_beq_reflexive [] = refl
  list_beq_reflexive (x ∷ xs) = ground (arith, e.reflexive x, list_beq_reflexive xs)

instance abbrev pub list_eq {ℓ} : {A : Type ℓ} ⦃e : Eq A⦄ → Eq (List A)
list_eq ⦃e⦄ = record { eq = list_beq; sound = list_beq_sound; reflexive = list_beq_reflexive }

-- A dictionary: an insertion replaces the value of a key in place, or adds the key at the end.
module _ {ℓ κ} {K : Type ℓ} {V : Type κ} ⦃e : Eq K⦄ where
  abbrev pub lookup : K → List (K × V) → Option V
  lookup k [] = none
  lookup k ((j, v) ∷ m) = if e.eq j k then some v else lookup k m

  abbrev pub insert : K → V → List (K × V) → List (K × V)
  insert k v [] = (k, v) ∷ []
  insert k v ((j, w) ∷ m) =
      let rest = insert k v m in if e.eq j k then (j, v) ∷ m else (j, w) ∷ rest

  abbrev pub remove : K → List (K × V) → List (K × V)
  remove k [] = []
  remove k ((j, w) ∷ m) = let rest = remove k m in if e.eq j k then rest else (j, w) ∷ rest

  pub lookup-insert :
      (k j : K) (v : V) (m : List (K × V))
      → lookup j (insert k v m) ≡ (if e.eq k j then some v else lookup j m)
  lookup-insert k j v [] = refl
  lookup-insert k j v ((i, w) ∷ m) = ground (
    arith,
    lookup-insert k j v m,
    e.sound i k,
    e.sound i j,
    e.sound k j,
    e.reflexive j,
    e.reflexive k,
  )

  pub lookup-remove :
      (k j : K) (m : List (K × V)) → lookup j (remove k m) ≡ (if e.eq k j then none else lookup j m)
  lookup-remove k j [] = ground arith
  lookup-remove k j ((i, w) ∷ m) =
      ground (arith, lookup-remove k j m, e.sound i k, e.sound i j, e.sound k j, e.reflexive j)

  pub lookup-insert_self : (k : K) (v : V) (m : List (K × V)) → lookup k (insert k v m) ≡ some v
  lookup-insert_self k v m = ground (arith, lookup-insert k k v m, e.reflexive k)
