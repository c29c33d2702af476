-- ===== src/Array/Field/Records.antt =====
-- format/mod.rs, `select_leading`: the records of a field.
use earth_sci_io.Exec.Inversion.{ok-injective}
use earth_sci_io.Prelude.{
  Bool-cases, List, Text, [], ap, arith, drop, false, inl, inr, length, le→leb, list_eq, ltb,
  ltb→lt, lt→ltb, product, refl, some, subst, suc, take, zero, ℕ, ℕ_eq, ◌*◌, ◌+◌, ◌-◌, ◌<◌, ◌∙◌,
  ◌∷◌, ◌≡◌, ◌≤◌,
}
use earth_sci_io.Exec.{Result, err, ok}
use earth_sci_io.Error.{Error}
use earth_sci_io.Array.Field.{
  ArrayData, NativeField, bad_record, block, data_len, f64, flags, i32, i64, leading_of, no_leading,
  record_of, select_leading, slice, text,
}

length-take : {A : Type 0} (n : ℕ) (xs : List A) → n ≤ length xs → length (take n xs) ≡ n
length-take zero xs h = refl
length-take (suc n) [] h = absurd (omega (arith, h))
length-take (suc n) (x ∷ xs) h = ap suc (length-take n xs (omega (arith, h)))

length-drop : {A : Type 0} (n : ℕ) (xs : List A) → length (drop n xs) ≡ length xs - n
length-drop zero xs = omega arith
length-drop (suc n) [] = omega arith
length-drop (suc n) (x ∷ xs) = rw (length-drop n xs) (omega arith)

-- A slice within a list is there and has its length.
slice-some :
    {A : Type 0} (start len : ℕ) (xs : List A)
    → start + len ≤ length xs
    → (ys : List A) × (slice start len xs ≡ some ys) × (length ys ≡ len)
unfolding slice
slice-some start len xs h = (
  take len (drop start xs),
  rw (le→leb (start + len) (length xs) h) refl,
  length-take len (drop start xs) (rw (length-drop start xs) (omega (arith, h))),
)

-- The place of record `i` among `lead` records of `p` cells.
record_fits : (i lead p : ℕ) → i < lead → i * p + p ≤ lead * p
record_fits i zero p h = absurd (omega (arith, h))
record_fits zero (suc lead) p h = omega arith
record_fits (suc i) (suc lead) p h = omega (arith, record_fits i lead p (omega (arith, h)))

module _ {F64 I64 I32 : Type 0} where
  block-some :
      (start len : ℕ) (d : ArrayData F64 I64 I32)
      → start + len ≤ data_len d
      → (e : ArrayData F64 I64 I32) × (block start len d ≡ some e) × (data_len e ≡ len)
  unfolding block data_len
  block-some start len (f64 v) h =
      let (ys, e, l) = slice-some start len v h in (f64 ys, rw e refl, l)
  block-some start len (i64 v) h =
      let (ys, e, l) = slice-some start len v h in (i64 ys, rw e refl, l)
  block-some start len (i32 v) h =
      let (ys, e, l) = slice-some start len v h in (i32 ys, rw e refl, l)
  block-some start len (text v) h =
      let (ys, e, l) = slice-some start len v h in (text ys, rw e refl, l)
  block-some start len (flags v) h =
      let (ys, e, l) = slice-some start len v h in (flags ys, rw e refl, l)

  -- A name for each dimension, and as many values as the shape says.
  pub record IsField (f : NativeField F64 I64 I32) : Type 0 where
    pub dims_ok : length f.dims ≡ length f.shape
    pub data_ok : data_len f.contents ≡ product f.shape

  -- What `select_leading` answers for a field.
  pub record IsRecord (f : NativeField F64 I64 I32) (i : ℕ)
      (r : Result Error (NativeField F64 I64 I32)) : Type 0 where
    pub result : select_leading f i ≡ some r
    pub on_ok :
        (g : NativeField F64 I64 I32)
        → r ≡ ok g
        → IsField g × (lead : ℕ) × (f.shape ≡ lead ∷ g.shape) × (i < lead)
    pub on_err :
        (e : Error) → r ≡ err e → (lead : ℕ) (rest : List ℕ) → f.shape ≡ lead ∷ rest → lead ≤ i

  within :
      (f : NativeField F64 I64 I32) (i : ℕ) (d : Text) (dims : List Text) (lead : ℕ) (rest : List ℕ)
      → f.dims ≡ d ∷ dims
      → f.shape ≡ lead ∷ rest
      → IsField f
      → i < lead
      → (r : Result Error (NativeField F64 I64 I32)) × IsRecord f i r
  within f i d dims lead rest e q h below =
      let p = product rest in
      let size : data_len f.contents ≡ lead * p = h.data_ok ∙ ap product q in
      let (values, found, len) =
        block-some (i * p) p f.contents (rw size (record_fits i lead p below)) in
      let g : NativeField F64 I64 I32 = record {
        dtype = f.dtype;
        dims = dims;
        shape = rest;
        contents = values;
        fill_value = f.fill_value;
      } in
      (
        ok g,
        record {
          result =
              unfold select_leading leading_of record_of in
              rw (q, lt→ltb i lead below, e, found) refl;
          on_ok = λ k same.
              subst (λ k. IsField k × (lead : ℕ) × (f.shape ≡ lead ∷ k.shape) × (i < lead))
                (ok-injective same)
                (
                  record {
                    dims_ok = omega (arith, ap length e, ap length q, h.dims_ok);
                    data_ok = len;
                  },
                  lead,
                  q,
                  below,
                );
          on_err = λ x same l r s. cc;
        },
      )

  beyond_last :
      (f : NativeField F64 I64 I32) (i lead : ℕ) (rest : List ℕ)
      → f.shape ≡ lead ∷ rest
      → ltb i lead ≡ false
      → (r : Result Error (NativeField F64 I64 I32)) × IsRecord f i r
  beyond_last f i lead rest q above = (
    err (bad_record i lead),
    record {
      result = unfold select_leading leading_of in rw (q, above) refl;
      on_ok = λ g p. cc;
      on_err = λ x p l r s. let same : lead ≡ l = cc in ground (arith, above, same);
    },
  )

  from_shape :
      (f : NativeField F64 I64 I32) (i : ℕ) (dims : List Text) (shape : List ℕ)
      → f.dims ≡ dims
      → f.shape ≡ shape
      → IsField f
      → (r : Result Error (NativeField F64 I64 I32)) × IsRecord f i r
  from_shape f i dims [] e q h = (
    err no_leading,
    record {
      result = unfold select_leading leading_of in rw q refl;
      on_ok = λ g p. cc;
      on_err = λ x p lead rest s. cc;
    },
  )
  from_shape f i [] (lead ∷ rest) e q h =
      absurd (omega (arith, ap length e, ap length q, h.dims_ok))
  from_shape f i (d ∷ dims) (lead ∷ rest) e q h = elim (Bool-cases (ltb i lead)) [
    | inl below ↦ within f i d dims lead rest e q h (ltb→lt i lead below)
    | inr above ↦ beyond_last f i lead rest q above
  ]

  -- Selecting a record of a well-formed field never panics: it gives a well-formed field of the
  -- remaining dimensions where the index is below the leading one, and an error otherwise.
  pub select_leading-IsRecord :
      (f : NativeField F64 I64 I32) (i : ℕ)
      → IsField f
      → (r : Result Error (NativeField F64 I64 I32)) × IsRecord f i r
  select_leading-IsRecord f i h = from_shape f i f.dims f.shape refl refl h
