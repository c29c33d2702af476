-- ===== src/Exec/Moves.antt =====
-- What an action does to the state, whether it succeeds or fails: a relation between the states
-- before and after, by one rule for each way to build an action.
use earth_sci_io.Prelude.{list_eq, ℕ_eq}
use earth_sci_io.Exec.{
  Exec, Result, continue, err, lift, map_err_exec, ok, pure, query, raise, ◌>>=◌,
}

-- A relation that an action which does nothing satisfies, and a chain of actions too.
pub record IsPreorder {ℓ} {S : Type ℓ} (R : S → S → Type ℓ) : Type ℓ where
  pub same : (s : S) → R s s
  pub chain : {s t u : S} → R s t → R t u → R s u

pub record Moves {ℓ} {E S A : Type ℓ} (R : S → S → Type ℓ) (m : Exec E S A) : Type ℓ where
  pub at : (s : S) → R s (m s).1

module _ {ℓ} {E S A : Type ℓ} {R : S → S → Type ℓ} (o : IsPreorder R) where
  -- an action that leaves the state alone
  pub Moves-still : (f : S → Result E A) → Moves R (query f)
  Moves-still f = record { at = λ s. o.same s }

  pub Moves-pure : (a : A) → Moves R (pure {E = E} a)
  Moves-pure a = record { at = λ s. o.same s }

  pub Moves-raise : (e : E) → Moves R (raise {A = A} e)
  Moves-raise e = record { at = λ s. o.same s }

  pub Moves-lift : (r : Result E A) → Moves R (lift r)
  Moves-lift r = record { at = λ s. o.same s }

module _ {ℓ} {E F S A : Type ℓ} {R : S → S → Type ℓ} where
  pub Moves-map_err_exec : (f : E → F) (m : Exec E S A) → Moves R m → Moves R (map_err_exec f m)
  Moves-map_err_exec f m h = record { at = λ s. h.at s }

module _ {ℓ} {E S A B : Type ℓ} {R : S → S → Type ℓ} (o : IsPreorder R) where
  Moves-continue :
      (r : Result E A) (f : A → Exec E S B) (s : S)
      → ((a : A) → Moves R (f a))
      → R s (continue r f s).1
  Moves-continue (ok a) f s h = (h a).at s
  Moves-continue (err e) f s h = o.same s

  pub Moves-bind :
      (m : Exec E S A) (f : A → Exec E S B)
      → Moves R m
      → ((a : A) → Moves R (f a))
      → Moves R (m >>= f)
  Moves-bind m f hm hf = record {
    at = λ s. o.chain (hm.at s) (Moves-continue (m s).0 f (m s).1 hf);
  }
