-- ===== src/Exec/Inversion.antt =====
-- A chain that succeeds has succeeded at each step.
use earth_sci_io.Prelude.{Option, ap, list_eq, none, refl, some, subst, ℕ_eq, ◌≡◌}
use earth_sci_io.Exec.{
  Exec, Result, and_then, continue, err, map_err, ok, ok_or, option_then, ◌>>=◌,
}

pub record Chained {ℓ} {E S A B : Type ℓ} (m : Exec E S A) (f : A → Exec E S B) (s : S) (b : B)
    : Type ℓ where
  pub value : A
  pub first : (m s).0 ≡ ok value
  pub second : (f value (m s).1).0 ≡ ok b
  pub state : ((m >>= f) s).1 ≡ (f value (m s).1).1

module _ {ℓ} {E S A B : Type ℓ} (f : A → Exec E S B) where
  continue-state : (r : Result E A) (a : A) (s : S) → r ≡ ok a → continue r f s ≡ f a s
  continue-state r a s e = rw e refl

  pub >>=-Chained : (m : Exec E S A) (s : S) {b : B} → ((m >>= f) s).0 ≡ ok b → Chained m f s b
  >>=-Chained m s {b} h = from (m s).0 refl
    where
      from : (r : Result E A) → (m s).0 ≡ r → Chained m f s b
      from (ok a) e = record {
        value = a;
        first = e;
        second = rw (← continue-state (m s).0 a (m s).1 e) h;
        state = ap (λ (x : Result E B × S). x.1) (continue-state (m s).0 a (m s).1 e);
      }
      from (err x) e =
          let failed : ◌≡◌ {A = Result E B} (err x) (ok b) =
            subst (λ r. (continue r f (m s).1).0 ≡ ok b) e h in
          absurd (cc failed)

module _ {ℓ} {E A B : Type ℓ} where
  pub and_then-eq-ok :
      (r : Result E A) (g : A → Result E B) {b : B}
      → and_then r g ≡ ok b
      → (a : A) × (r ≡ ok a) × (g a ≡ ok b)
  and_then-eq-ok (ok a) g h = (a, refl, h)
  and_then-eq-ok (err e) g h = cc

pub map_err-eq_ok {ℓ} :
    {E F A : Type ℓ} (f : E → F) (r : Result E A) (a : A) → map_err f r ≡ ok a → r ≡ ok a
map_err-eq_ok f (ok b) a h = cc
map_err-eq_ok f (err e) a h = cc

pub pair_eq {ℓ} : {A B : Type ℓ} {x : A × B} {a : A} {b : B} → x.0 ≡ a → x.1 ≡ b → x ≡ (a, b)
pair_eq h k = λ i. (h i, k i)

pub some-injective {ℓ} : {A : Type ℓ} {a b : A} → ◌≡◌ {A = Option A} (some a) (some b) → a ≡ b
some-injective h = cc

pub ok-injective {ℓ} : {E A : Type ℓ} {a b : A} → ◌≡◌ {A = Result E A} (ok a) (ok b) → a ≡ b
ok-injective h = cc

pub option_then-some {ℓ} :
    {A B : Type ℓ} (o : Option A) (g : A → Option B) {b : B}
    → option_then o g ≡ some b
    → (a : A) × (o ≡ some a) × (g a ≡ some b)
option_then-some (some a) g h = (a, refl, h)
option_then-some none g h = cc

pub ok_or-eq_ok {ℓ} : {E A : Type ℓ} (e : E) (o : Option A) (a : A) → ok_or e o ≡ ok a → o ≡ some a
ok_or-eq_ok e none a h = cc
ok_or-eq_ok e (some b) a h = ap some (ok-injective h)
