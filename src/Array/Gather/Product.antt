-- ===== src/Array/Gather/Product.antt =====
-- format/mod.rs: `gather` and the product of the index lists.
use earth_sci_io.Prelude.{
  Bool, List, [], ap, arith, false, get_elem?, inl, inr, length, length-append, list_eq, map,
  product, refl, some, suc, sym, true, zero, ℕ, ℕ_eq, ◌*◌, ◌+◌, ◌∙◌, ◌∷◌, ◌≡◌, ◌⊎◌,
}
use earth_sci_io.Array.Gather.{advance, cons, fetch_cell, gather, gather_from, offset, strides}
use earth_sci_io.Array.Gather.Odometer.{
  Placed, Turn, cells, last_cell, next_cell, offsets, remaining, remaining-starts, row, starts,
  turn,
}

gather_step :
    {A : Type 0} (n : ℕ) (flat : List A) (idx : List ℕ) (wanted : List (List ℕ)) (steps : List ℕ)
    (o : ℕ) (idx' : List ℕ) (wrapped : Bool)
    → offset idx wanted steps ≡ some o
    → advance idx (map length wanted) ≡ (idx', wrapped)
    → gather_from (suc n) idx flat steps wanted (map length wanted)
      ≡ cons (get_elem? flat o) (gather_from n idx' flat steps wanted (map length wanted))
unfolding gather_from fetch_cell
gather_step n flat idx wanted steps o idx' wrapped off adv = rw (off, adv) refl

none_left :
    {A : Type 0} (n : ℕ) (flat : List A) (idx : List ℕ) (wanted : List (List ℕ)) (steps : List ℕ)
    → n ≡ 0
    → gather_from n idx flat steps wanted (map length wanted) ≡ some []
unfolding gather_from
none_left zero flat idx wanted steps h = refl
none_left (suc n) flat idx wanted steps h = absurd (omega (arith, h))

-- As many cells as there are offsets are gathered, in the order of the offsets.
gather_from-cells :
    {A : Type 0} (n : ℕ) (flat : List A) (idx : List ℕ) (wanted : List (List ℕ)) (steps : List ℕ)
    → Placed idx wanted steps
    → n ≡ length (remaining idx wanted steps)
    → gather_from n idx flat steps wanted (map length wanted)
      ≡ cells flat (remaining idx wanted steps)
gather_from-cells zero flat idx wanted steps h count = absurd (no_cell (turn idx wanted steps h))
  where
    no_cell : Turn idx wanted steps → ⊥
    no_cell (last_cell o off adv rem) = omega (arith, count, ap length rem)
    no_cell (next_cell o idx' off adv placed rem) = omega (arith, count, ap length rem)
gather_from-cells (suc n) flat idx wanted steps h count = elim (turn idx wanted steps h) [
  | last_cell o off adv rem ↦
      gather_step n flat idx wanted steps o (starts wanted) true off adv
      ∙ ap (cons (get_elem? flat o))
          (none_left n flat (starts wanted) wanted steps (omega (arith, count, ap length rem)))
      ∙ sym (ap (cells flat) rem ∙ unfold cells in refl)
  | next_cell o idx' off adv placed rem ↦
      gather_step n flat idx wanted steps o idx' false off adv
      ∙ ap (cons (get_elem? flat o))
          (gather_from-cells n flat idx' wanted steps placed (omega (arith, count, ap length rem)))
      ∙ sym (ap (cells flat) rem ∙ unfold cells in refl)
]

length-map : {A B : Type 0} (f : A → B) (xs : List A) → length (map f xs) ≡ length xs
length-map f [] = refl
length-map f (x ∷ xs) = ap suc (length-map f xs)

length-row :
    (t : List ℕ) (s : ℕ) (below : List ℕ) → length (row t s below) ≡ length t * length below
unfolding row
length-row [] s below = omega arith
length-row (g ∷ t) s below =
    length-append (map (λ o. g * s + o) below) (row t s below)
    ∙ omega (arith, length-map (λ o. g * s + o) below, length-row t s below)

length-offsets :
    (wanted : List (List ℕ)) (steps : List ℕ)
    → length wanted ≡ length steps
    → length (offsets wanted steps) ≡ product (map length wanted)
unfolding offsets
length-offsets [] steps h = refl
length-offsets (t ∷ wanted) [] h = absurd (omega (arith, h))
length-offsets (t ∷ wanted) (s ∷ steps) h =
    length-row t s (offsets wanted steps)
    ∙ ap (λ n. length t * n) (length-offsets wanted steps (omega (arith, h)))

row_nil : (t : List ℕ) (s : ℕ) → row t s [] ≡ []
unfolding row
row_nil [] s = refl
row_nil (g ∷ t) s = row_nil t s

-- There is a first cell, or one of the lists is empty.
Placed-or_nil :
    (wanted : List (List ℕ)) (steps : List ℕ)
    → length wanted ≡ length steps
    → Placed (starts wanted) wanted steps ⊎ (offsets wanted steps ≡ [])
unfolding Placed starts offsets
Placed-or_nil [] [] h = inl tt
Placed-or_nil [] (s ∷ steps) h = absurd (omega (arith, h))
Placed-or_nil (t ∷ wanted) [] h = absurd (omega (arith, h))
Placed-or_nil ([] ∷ wanted) (s ∷ steps) h = inr (unfold row in refl)
Placed-or_nil ((g ∷ t) ∷ wanted) (s ∷ steps) h =
    elim (Placed-or_nil wanted steps (omega (arith, h))) [
      | inl placed ↦ inl (omega arith, placed)
      | inr empty ↦ inr (ap (row (g ∷ t) s) empty ∙ row_nil (g ∷ t) s)
    ]

length-strides : (shape : List ℕ) → length (strides shape) ≡ length shape
unfolding strides
length-strides [] = refl
length-strides (d ∷ []) = refl
length-strides (d ∷ e ∷ shape) = from (strides (e ∷ shape)) (length-strides (e ∷ shape))
  where
    from :
        (l : List ℕ)
        → length l ≡ suc (length shape)
        → length (elim l [ [] ↦ [] | s ∷ ss ↦ s * e ∷ s ∷ ss ]) ≡ suc (suc (length shape))
    from [] h = absurd (omega (arith, h))
    from (s ∷ ss) h = ap suc h

-- Where there is one list of indices for each axis, `gather` gives the cells at all combinations of
-- the indices, in the order of the lists with the last axis fastest. A cell out of range makes it
-- give nothing.
pub gather-cells :
    {A : Type 0} (flat : List A) (shape : List ℕ) (wanted : List (List ℕ))
    → length wanted ≡ length shape
    → gather flat shape wanted ≡ cells flat (offsets wanted (strides shape))
gather-cells flat shape wanted h =
    let steps = strides shape in
    let same : length wanted ≡ length steps = h ∙ sym (length-strides shape) in
    let count : product (map length wanted) ≡ length (offsets wanted steps) =
      sym (length-offsets wanted steps same) in
    elim (Placed-or_nil wanted steps same) [
      | inl placed ↦
          let start = remaining-starts wanted steps placed in
          unfold gather starts in
          gather_from-cells (product (map length wanted)) flat (starts wanted) wanted steps placed
            (count ∙ ap length (sym start))
          ∙ ap (cells flat) start
      | inr empty ↦
          unfold gather starts in
          none_left (product (map length wanted)) flat (starts wanted) wanted steps
            (count ∙ ap length empty)
          ∙ sym (ap (cells flat) empty ∙ unfold cells in refl)
    ]
