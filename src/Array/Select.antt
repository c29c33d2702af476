-- ===== src/Array/Select.antt =====
-- format/mod.rs: `AxisSelect`, the selector of one dimension.
pub mod Bounds
pub mod Agreement
use earth_sci_io.Prelude.{
  List, Option, Text, [], codes, decimal, if◌then◌else◌, list_eq, ltb, none, refl, some, suc, zero,
  ℕ, ℕ_eq, ◌++◌, ◌+◌, ◌-◌, ◌∷◌, ◌≡◌,
}
use earth_sci_io.Exec.{Result, and_then, err, ok}
use earth_sci_io.Error.{Error, format}

pub data AxisSelect : Type 0 where
  whole : AxisSelect
  indices : List ℕ → AxisSelect
  range : (start stop step : ℕ) → AxisSelect

-- `(start..stop).step_by(step)`: one index takes one unit of fuel.
unfoldable pub step_by : ℕ → ℕ → ℕ → ℕ → List ℕ
step_by zero start stop step = []
step_by (suc fuel) start stop step =
    let rest = step_by fuel (start + step) stop step in if ltb start stop then start ∷ rest else []

-- As many units as a range of step 1 takes.
unfoldable pub stepped : ℕ → ℕ → ℕ → List ℕ
unfolding step_by
stepped start stop step = step_by (stop - start) start stop step

unfoldable pub last : List ℕ → Option ℕ
last [] = none
last (x ∷ []) = some x
last (x ∷ y ∷ xs) = last (y ∷ xs)

format_err : Text → Text → Error
format_err name detail = Error.format name detail

bad_step : Text → ℕ → Error
unfolding format_err decimal
bad_step name step = format_err name (codes "slice step must be >= 1, got " ++ decimal step)

bad_index : Text → ℕ → ℕ → Error
unfolding format_err decimal
bad_index name g dim_len = format_err name (
    codes "index "
    ++ (decimal g ++ (codes " out of range for dimension length " ++ decimal dim_len)))

bad_range : Text → ℕ → ℕ → ℕ → ℕ → ℕ → Error
unfolding format_err decimal
bad_range name start stop step g dim_len = format_err name (
    codes "slice ["
    ++ (decimal start
        ++ (codes ", "
            ++ (decimal stop
                ++ (codes ") by "
                    ++ (decimal step
                        ++ (codes " reaches index "
                            ++ (decimal g
                                ++ (codes ", out of range for dimension length "
                                    ++ decimal dim_len)))))))))

-- The first index that is not below the length is the one an error names.
unfoldable pub check_indices : Text → ℕ → List ℕ → Result Error Unit
unfolding bad_index
check_indices name dim_len [] = ok tt
check_indices name dim_len (g ∷ v) =
    let later = check_indices name dim_len v in
    if ltb g dim_len then later else err (bad_index name g dim_len)

-- Of a range, only the last index is tested.
unfoldable pub check_last : Text → ℕ → ℕ → ℕ → ℕ → Option ℕ → Result Error Unit
unfolding bad_range
check_last name start stop step dim_len none = ok tt
check_last name start stop step dim_len (some g) =
    if ltb g dim_len then ok tt else err (bad_range name start stop step g dim_len)

-- `(start..stop).step_by(step)` where the step is tested first
pub stepped_from : Text → ℕ → ℕ → ℕ → Result Error (List ℕ)
unfolding stepped bad_step
stepped_from name start stop step =
    if ltb step 1 then err (bad_step name step) else ok (stepped start stop step)

unfoldable pub unbounded_indices : AxisSelect → Text → Result Error (Option (List ℕ))
unfolding stepped_from
unbounded_indices whole name = ok none
unbounded_indices (indices v) name = ok (some v)
unbounded_indices (range start stop step) name =
    and_then (stepped_from name start stop step) λ v. ok (some v)

unfoldable pub resolve_in : AxisSelect → ℕ → Text → Result Error (List ℕ)
unfolding stepped stepped_from check_indices check_last last
resolve_in whole dim_len name = ok (stepped 0 dim_len 1)
resolve_in (indices v) dim_len name = and_then (check_indices name dim_len v) λ _. ok v
resolve_in (range start stop step) dim_len name =
    and_then (stepped_from name start stop step)
      λ v. and_then (check_last name start stop step dim_len (last v)) λ _. ok v

unfoldable pub resolve : AxisSelect → ℕ → Result Error (List ℕ)
unfolding resolve_in
resolve s dim_len = resolve_in s dim_len (codes "zarr")

resolve_runs :
    (resolve (range 1 8 3) 10 ≡ ok (1 ∷ 4 ∷ 7 ∷ []))
    × (resolve whole 3 ≡ ok (0 ∷ 1 ∷ 2 ∷ []))
    × (resolve (range 5 2 1) 3 ≡ ok [])
    × (resolve (range 0 5 2) 4
        ≡ err (
            Error.format
              (codes "zarr")
              (codes "slice [0, 5) by 2 reaches index 4, out of range for dimension length 4")))
unfolding resolve
resolve_runs = (refl, refl, refl, refl)
