-- ===== src/Array/Field.antt =====
-- format/mod.rs: `ArrayData`, `NativeField` and a field's records. What the code panics at gives nothing.
pub mod Records
use mathlib.Core.Option
use earth_sci_io.Prelude.{
  Bool, List, Option, Text, [], codes, decimal, drop, if◌then◌else◌, leb, length, list_eq, ltb, map,
  none, product, some, sum, take, ℕ, ℕ_eq, ◌*◌, ◌++◌, ◌+◌, ◌∷◌,
}
use earth_sci_io.Exec.{Result, err, ok}
use earth_sci_io.Error.{Error, format}
use earth_sci_io.Array.Gather.{gather}

pub data DType : Type 0 where
  float64 : DType
  int64 : DType
  int32 : DType
  str : DType
  boolean : DType

-- The types of the numbers are the machine's; nothing here looks into one.
pub data ArrayData (F64 I64 I32 : Type 0) : Type 0 where
  f64 : List F64 → ArrayData F64 I64 I32
  i64 : List I64 → ArrayData F64 I64 I32
  i32 : List I32 → ArrayData F64 I64 I32
  text : List Text → ArrayData F64 I64 I32
  flags : List Bool → ArrayData F64 I64 I32

-- `flat[start..start + len]`
unfoldable pub slice : {A : Type 0} → ℕ → ℕ → List A → Option (List A)
slice start len flat =
    if leb (start + len) (length flat) then some (take len (drop start flat)) else none

module _ {F64 I64 I32 : Type 0} where
  unfoldable pub data_len : ArrayData F64 I64 I32 → ℕ
  data_len (f64 v) = length v
  data_len (i64 v) = length v
  data_len (i32 v) = length v
  data_len (text v) = length v
  data_len (flags v) = length v

  unfoldable pub dtype_of : ArrayData F64 I64 I32 → DType
  dtype_of (f64 v) = float64
  dtype_of (i64 v) = int64
  dtype_of (i32 v) = int32
  dtype_of (text v) = str
  dtype_of (flags v) = boolean

  unfoldable pub block : ℕ → ℕ → ArrayData F64 I64 I32 → Option (ArrayData F64 I64 I32)
  unfolding slice
  block start len (f64 v) = Option.map f64 (slice start len v)
  block start len (i64 v) = Option.map i64 (slice start len v)
  block start len (i32 v) = Option.map i32 (slice start len v)
  block start len (text v) = Option.map text (slice start len v)
  block start len (flags v) = Option.map flags (slice start len v)

  unfoldable pub gathered :
      List ℕ → List (List ℕ) → ArrayData F64 I64 I32 → Option (ArrayData F64 I64 I32)
  unfolding gather
  gathered shape wanted (f64 v) = Option.map f64 (gather v shape wanted)
  gathered shape wanted (i64 v) = Option.map i64 (gather v shape wanted)
  gathered shape wanted (i32 v) = Option.map i32 (gather v shape wanted)
  gathered shape wanted (text v) = Option.map text (gather v shape wanted)
  gathered shape wanted (flags v) = Option.map flags (gather v shape wanted)

  unfoldable pub budget_bytes : ArrayData F64 I64 I32 → ℕ
  budget_bytes (f64 v) = 8 * length v
  budget_bytes (i64 v) = 8 * length v
  budget_bytes (i32 v) = 4 * length v
  budget_bytes (text v) = sum (map length v)
  budget_bytes (flags v) = length v

pub record NativeField (F64 I64 I32 : Type 0) : Type 0 where
  pub dtype : DType
  pub dims : List Text
  pub shape : List ℕ
  pub contents : ArrayData F64 I64 I32
  pub fill_value : Option F64

native_err : Text → Error
native_err detail = Error.format (codes "native") detail

no_leading : Error
unfolding native_err
no_leading = native_err (codes "cannot select a record from a scalar field")

bad_record : ℕ → ℕ → Error
unfolding native_err decimal
bad_record i lead = native_err (
    codes "record index "
    ++ (decimal i ++ (codes " out of range (leading dim = " ++ (decimal lead ++ codes ")"))))

module _ {F64 I64 I32 : Type 0} where
  -- `dims[1..]` panics where there is no name
  record_of :
      NativeField F64 I64 I32
      → List Text
      → List ℕ
      → Option (ArrayData F64 I64 I32)
      → Option (Result Error (NativeField F64 I64 I32))
  record_of f (d ∷ dims) rest (some values) = some (
      ok (record {
        dtype = f.dtype;
        dims = dims;
        shape = rest;
        contents = values;
        fill_value = f.fill_value;
      }))
  record_of f _ rest _ = none

  leading_of :
      NativeField F64 I64 I32 → ℕ → List ℕ → Option (Result Error (NativeField F64 I64 I32))
  unfolding record_of block no_leading bad_record
  leading_of f i [] = some (err no_leading)
  leading_of f i (lead ∷ rest) =
      if ltb i lead
      then record_of f f.dims rest (block (i * product rest) (product rest) f.contents)
      else some (err (bad_record i lead))

  unfoldable pub select_leading :
      NativeField F64 I64 I32 → ℕ → Option (Result Error (NativeField F64 I64 I32))
  unfolding leading_of
  select_leading f i = leading_of f i f.shape
