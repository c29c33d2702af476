-- ===== src/Array/Gather.antt =====
-- format/mod.rs: `gather`, which takes cells of a row-major array by the indices wanted of each axis.
-- An index out of range, at which the code panics, gives nothing.
pub mod Odometer
pub mod Product
use mathlib.Core.Option
use earth_sci_io.Prelude.{
  Bool, List, Option, [], false, get_elem?, if◌then◌else◌, length, list_eq, ltb, map, none, product,
  some, suc, true, zero, ℕ, ℕ_eq, ◌*◌, ◌+◌, ◌∷◌,
}

-- Of each axis, the distance of neighbours along it.
unfoldable pub strides : List ℕ → List ℕ
strides [] = []
strides (d ∷ []) = 1 ∷ []
strides (d ∷ e ∷ shape) = elim (strides (e ∷ shape)) [ [] ↦ [] | s ∷ ss ↦ s * e ∷ s ∷ ss ]

plus : Option ℕ → Option ℕ → Option ℕ
plus (some m) (some n) = some (m + n)
plus _ _ = none

-- The offset of the cell at the places `idx` in the lists of indices.
unfoldable pub offset : List ℕ → List (List ℕ) → List ℕ → Option ℕ
unfolding plus
offset [] wanted steps = some 0
offset (k ∷ idx) [] steps = none
offset (k ∷ idx) (t ∷ wanted) [] = none
offset (k ∷ idx) (t ∷ wanted) (s ∷ steps) =
    plus (Option.map (λ g. g * s) (get_elem? t k)) (offset idx wanted steps)

-- The next places, the last axis first; true when every axis is back at its start.
unfoldable pub advance : List ℕ → List ℕ → List ℕ × Bool
advance (k ∷ idx) (d ∷ out_shape) =
    let (idx', wrapped) = advance idx out_shape in
    if wrapped
    then (if ltb (suc k) d then (suc k ∷ idx', false) else (0 ∷ idx', true))
    else (k ∷ idx', false)
advance idx out_shape = (idx, true)

module _ {A : Type 0} where
  fetch_cell : List A → Option ℕ → Option A
  fetch_cell flat none = none
  fetch_cell flat (some off) = get_elem? flat off

  cons : Option A → Option (List A) → Option (List A)
  cons (some x) (some xs) = some (x ∷ xs)
  cons _ _ = none

  -- `n` cells from the places `idx` on.
  unfoldable pub gather_from :
      ℕ → List ℕ → List A → List ℕ → List (List ℕ) → List ℕ → Option (List A)
  unfolding offset advance fetch_cell cons
  gather_from zero idx flat steps wanted out_shape = some []
  gather_from (suc n) idx flat steps wanted out_shape =
      cons (fetch_cell flat (offset idx wanted steps))
        (gather_from n (advance idx out_shape).0 flat steps wanted out_shape)

  unfoldable pub gather : List A → List ℕ → List (List ℕ) → Option (List A)
  unfolding gather_from strides
  gather flat shape wanted =
      let out_shape = map length wanted in
      gather_from (product out_shape) (map (λ _. 0) out_shape) flat (strides shape) wanted out_shape
