-- ===== src/Examples/Arrays.antt =====
-- Selectors, records of a field, and periods.
use earth_sci_io.Prelude.{
  All, List, [], codes, list_eq, none, pos, prod_eq, refl, some, ℕ, ℕ_eq, ◌<◌, ◌∷◌, ◌≡◌,
}
use earth_sci_io.Exec.{Result, ok}
use earth_sci_io.Error.{Error}
use earth_sci_io.Array.Select.{range, resolve_in, unbounded_indices}
use earth_sci_io.Array.Select.Agreement.{unbounded_indices-resolve_in}
use earth_sci_io.Array.Select.Bounds.{resolve_in-All}
use earth_sci_io.Array.Gather.{gather, strides}
use earth_sci_io.Array.Gather.Odometer.{cells, offsets}
use earth_sci_io.Array.Gather.Product.{gather-cells}
use earth_sci_io.Array.Field.{NativeField, data_len, f64, float64}
use earth_sci_io.Array.Field.Records.{IsField, IsRecord, select_leading-IsRecord}
use earth_sci_io.Calendar.{components, parse}
use earth_sci_io.Calendar.Grammar.{Written, components-Written}
use earth_sci_io.Calendar.Bounds.{IsStep, parse-IsStep}
use earth_sci_io.Examples.Codec.{toy}

range_here : resolve_in (range 1 8 3) 8 (codes "netcdf") ≡ ok (1 ∷ 4 ∷ 7 ∷ [])
unfolding resolve_in
range_here = refl

resolve_in-All_example : All (λ g. g < 8) (1 ∷ 4 ∷ 7 ∷ [])
resolve_in-All_example = resolve_in-All (range 1 8 3) 8 (codes "netcdf") (1 ∷ 4 ∷ 7 ∷ []) range_here

abbrev two_records : NativeField ℕ ℕ ℕ
two_records = record {
  dtype = float64;
  dims = codes "time" ∷ codes "lat" ∷ [];
  shape = 2 ∷ 3 ∷ [];
  contents = f64 (1 ∷ 2 ∷ 3 ∷ 4 ∷ 5 ∷ 6 ∷ []);
  fill_value = none;
}

two_records-IsField : IsField two_records
unfolding data_len
two_records-IsField = record { dims_ok = refl; data_ok = refl }

select_leading-IsRecord_example : (r : Result Error (NativeField ℕ ℕ ℕ)) × IsRecord two_records 1 r
select_leading-IsRecord_example = select_leading-IsRecord two_records 1 two_records-IsField

day_and_second : parse toy (codes "P1DT1S") ≡ ok (record { months = pos 0; seconds = pos 86401 })
unfolding parse
day_and_second = refl

parse-IsStep_example : IsStep toy (record { months = pos 0; seconds = pos 86401 })
parse-IsStep_example =
    parse-IsStep toy (codes "P1DT1S") (record { months = pos 0; seconds = pos 86401 })
      day_and_second

abbrev flat : List ℕ
flat = 10 ∷ 11 ∷ 12 ∷ 20 ∷ 21 ∷ 22 ∷ []

gather-cells_example :
    gather flat (2 ∷ 3 ∷ []) ((1 ∷ 0 ∷ []) ∷ (2 ∷ 2 ∷ []) ∷ []) ≡ cells flat (5 ∷ 5 ∷ 2 ∷ 2 ∷ [])
unfolding offsets strides
gather-cells_example = gather-cells flat (2 ∷ 3 ∷ []) ((1 ∷ 0 ∷ []) ∷ (2 ∷ 2 ∷ []) ∷ []) refl

gather_runs :
    gather {A = ℕ}
      (10 ∷ 11 ∷ 12 ∷ 20 ∷ 21 ∷ 22 ∷ [])
      (2 ∷ 3 ∷ [])
      ((1 ∷ 0 ∷ []) ∷ (2 ∷ 2 ∷ 0 ∷ []) ∷ [])
    ≡ some (22 ∷ 22 ∷ 20 ∷ 12 ∷ 12 ∷ 10 ∷ [])
unfolding gather
gather_runs = refl

named_here : unbounded_indices (range 1 8 3) (codes "zarr") ≡ ok (some (1 ∷ 4 ∷ 7 ∷ []))
unfolding unbounded_indices
named_here = refl

unbounded_indices-resolve_in_example : ◌≡◌ {A = List ℕ} (1 ∷ 4 ∷ 7 ∷ []) (1 ∷ 4 ∷ 7 ∷ [])
unbounded_indices-resolve_in_example =
    unbounded_indices-resolve_in (range 1 8 3) 8 (codes "netcdf") (codes "zarr") (1 ∷ 4 ∷ 7 ∷ [])
      (1 ∷ 4 ∷ 7 ∷ []) named_here range_here

components-Written_example : Written (b'H' ∷ b'M' ∷ b'S' ∷ []) (codes "12H30S") (12 ∷ 0 ∷ 30 ∷ [])
unfolding components
components-Written_example =
    (components-Written toy (codes "PT12H30S") (codes "12H30S") (b'H' ∷ b'M' ∷ b'S' ∷ [])
        (12 ∷ 0 ∷ 30 ∷ []) (refl, refl, (refl, refl, (refl, refl, tt)))).0
      refl
