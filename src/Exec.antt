-- ===== src/Exec.antt =====
-- Fallible and stateful code: `Result` is Rust's, and an action of `Exec` returns the state beside
-- its result, since what was written before an early return stays written.
pub mod Moves
pub mod Inversion
use earth_sci_io.Prelude.{Option, list_eq, none, some, ℕ_eq}

pub data Result {ℓ} (E A : Type ℓ) : Type ℓ where
  ok : A → Result E A
  err : E → Result E A

abbrev pub Exec {ℓ} : Type ℓ → Type ℓ → Type ℓ → Type ℓ
Exec E S A = S → Result E A × S

module _ {ℓ} {E S A : Type ℓ} where
  abbrev pub pure : A → Exec E S A
  pure a s = (ok a, s)

  abbrev pub raise : E → Exec E S A
  raise e s = (err e, s)

  abbrev pub lift : Result E A → Exec E S A
  lift r s = (r, s)

  abbrev pub gets : (S → A) → Exec E S A
  gets f s = (ok (f s), s)

-- A function of the state that may fail.
abbrev pub query {ℓ} : {E S A : Type ℓ} → (S → Result E A) → Exec E S A
query f s = (f s, s)

abbrev pub modify : {E S : Type 0} → (S → S) → Exec E S Unit
modify f s = (ok tt, f s)

module _ {ℓ} {E S A B : Type ℓ} where
  abbrev pub continue : Result E A → (A → Exec E S B) → Exec E S B
  continue (ok a) f s = f a s
  continue (err e) f s = (err e, s)

  infixl 5 ◌>>=◌ ◌>>◌
  abbrev pub ◌>>=◌ : Exec E S A → (A → Exec E S B) → Exec E S B
  ◌>>=◌ m f s = continue (m s).0 f (m s).1

  abbrev pub ◌>>◌ : Exec E S A → Exec E S B → Exec E S B
  m >> n = m >>= λ _. n

-- `map_err`
module _ {ℓ} {E F A : Type ℓ} where
  abbrev pub map_err : (E → F) → Result E A → Result F A
  map_err f (ok a) = ok a
  map_err f (err e) = err (f e)

  abbrev pub map_err_exec : {S : Type ℓ} → (E → F) → Exec E S A → Exec F S A
  map_err_exec f m s = (map_err f (m s).0, (m s).1)

-- Option::ok_or_else
abbrev pub ok_or {ℓ} : {E A : Type ℓ} → E → Option A → Result E A
ok_or e none = err e
ok_or e (some a) = ok a

-- A chain of results without a state.
abbrev pub and_then {ℓ} : {E A B : Type ℓ} → Result E A → (A → Result E B) → Result E B
and_then (ok a) f = f a
and_then (err e) f = err e

abbrev pub option_then {ℓ} : {A B : Type ℓ} → Option A → (A → Option B) → Option B
option_then (some a) f = f a
option_then none f = none
