-- ===== src/Array/Gather/Odometer.antt =====
-- format/mod.rs: the places that `gather` visits, and the offsets of the product of the index lists.
use earth_sci_io.Prelude.{
  Bool-cases, List, Option, [], ap, arith, drop, false, get_elem?, inl, inr, length, list_eq, ltb,
  ltb→lt, map, refl, some, suc, sym, true, zero, ℕ, ℕ_eq, ◌*◌, ◌++◌, ◌+◌, ◌<◌, ◌∙◌, ◌∷◌, ◌≡◌, ◌≤◌,
}
use earth_sci_io.Array.Gather.{advance, cons, offset, plus}

-- The offsets of one axis: for each of its indices, those of the axes below it.
unfoldable pub row : List ℕ → ℕ → List ℕ → List ℕ
row [] s below = []
row (g ∷ t) s below = map (λ o. g * s + o) below ++ row t s below

-- The offsets of the cells at all combinations of the indices wanted, by recursion on the axes.
unfoldable pub offsets : List (List ℕ) → List ℕ → List ℕ
unfolding row
offsets [] steps = 0 ∷ []
offsets (t ∷ wanted) [] = []
offsets (t ∷ wanted) (s ∷ steps) = row t s (offsets wanted steps)

-- The cells at some offsets; an offset out of range gives nothing.
unfoldable pub cells : {A : Type 0} → List A → List ℕ → Option (List A)
unfolding cons
cells flat [] = some []
cells flat (o ∷ os) = cons (get_elem? flat o) (cells flat os)

-- The places are within the lists, one place for each axis.
unfoldable pub Placed : List ℕ → List (List ℕ) → List ℕ → Type 0
Placed [] [] [] = Unit
Placed (k ∷ idx) (t ∷ wanted) (s ∷ steps) = (k < length t) × Placed idx wanted steps
Placed _ _ _ = ⊥

from_place : List ℕ → ℕ → List ℕ → List ℕ → List ℕ
unfolding row
from_place [] s here below = []
from_place (g ∷ t) s here below = map (λ o. g * s + o) here ++ row t s below

-- The offsets that are still to come at some places.
pub remaining : List ℕ → List (List ℕ) → List ℕ → List ℕ
unfolding from_place offsets
remaining (k ∷ idx) (t ∷ wanted) (s ∷ steps) =
    from_place (drop k t) s (remaining idx wanted steps) (offsets wanted steps)
remaining (k ∷ idx) _ _ = []
remaining [] wanted steps = 0 ∷ []

unfoldable pub starts : List (List ℕ) → List ℕ
starts wanted = map (λ _. 0) (map length wanted)

pub remaining-starts :
    (wanted : List (List ℕ)) (steps : List ℕ)
    → Placed (starts wanted) wanted steps
    → remaining (starts wanted) wanted steps ≡ offsets wanted steps
unfolding remaining starts offsets Placed from_place row
remaining-starts [] steps h = refl
remaining-starts (t ∷ wanted) [] h = absurd h
remaining-starts ([] ∷ wanted) (s ∷ steps) h = refl
remaining-starts ((g ∷ t) ∷ wanted) (s ∷ steps) (k, h) = rw (remaining-starts wanted steps h) refl

-- The start is a place wherever there is a place.
Placed-starts :
    (idx : List ℕ) (wanted : List (List ℕ)) (steps : List ℕ)
    → Placed idx wanted steps
    → Placed (starts wanted) wanted steps
unfolding Placed starts
Placed-starts [] [] [] h = tt
Placed-starts [] [] (s ∷ steps) h = h
Placed-starts [] (t ∷ wanted) steps h = absurd h
Placed-starts (k ∷ idx) [] steps h = absurd h
Placed-starts (k ∷ idx) (t ∷ wanted) [] h = absurd h
Placed-starts (k ∷ idx) (t ∷ wanted) (s ∷ steps) (below, h) =
    (omega (arith, below), Placed-starts idx wanted steps h)

-- One turn of the odometer: the cell under it, and whether it was the last one.
pub data Turn (idx : List ℕ) (wanted : List (List ℕ)) (steps : List ℕ) : Type 0 where
  last_cell :
      (o : ℕ)
      → offset idx wanted steps ≡ some o
      → advance idx (map length wanted) ≡ (starts wanted, true)
      → remaining idx wanted steps ≡ o ∷ []
      → Turn idx wanted steps
  next_cell :
      (o : ℕ)
      → (idx' : List ℕ) → offset idx wanted steps ≡ some o
      → advance idx (map length wanted) ≡ (idx', false)
      → Placed idx' wanted steps
      → remaining idx wanted steps ≡ o ∷ remaining idx' wanted steps
      → Turn idx wanted steps

-- The element at a place, and the list from there.
at_place :
    (k : ℕ) (t : List ℕ)
    → k < length t
    → (g : ℕ) × (get_elem? t k ≡ some g) × (drop k t ≡ g ∷ drop (suc k) t)
at_place k [] h = absurd (omega (arith, h))
at_place zero (g ∷ t) h = (g, refl, refl)
at_place (suc k) (x ∷ t) h = at_place k t (omega (arith, h))

drop-end : (k : ℕ) (t : List ℕ) → length t ≤ k → drop k t ≡ []
drop-end zero [] h = refl
drop-end zero (g ∷ t) h = absurd (omega (arith, h))
drop-end (suc k) [] h = refl
drop-end (suc k) (g ∷ t) h = drop-end k t (omega (arith, h))

from_place-row : (t : List ℕ) (s : ℕ) (below : List ℕ) → from_place t s below below ≡ row t s below
unfolding from_place row
from_place-row [] s below = refl
from_place-row (g ∷ t) s below = refl

-- A turn of the axes below is one of all the axes, with the place on the first one kept or moved on.
module _ (k s : ℕ) (idx : List ℕ) (t : List ℕ) (wanted : List (List ℕ)) (steps : List ℕ)
    (below : k < length t) (h : Placed idx wanted steps) (g : ℕ) (found : get_elem? t k ≡ some g)
    (suffix : drop k t ≡ g ∷ drop (suc k) t) where
  here :
      (o : ℕ)
      → offset idx wanted steps ≡ some o
      → offset (k ∷ idx) (t ∷ wanted) (s ∷ steps) ≡ some (g * s + o)
  unfolding offset plus
  here o off = rw (found, off) refl

  -- What remains, once the element at the place is known.
  left :
      (os : List ℕ)
      → remaining idx wanted steps ≡ os
      → remaining (k ∷ idx) (t ∷ wanted) (s ∷ steps)
        ≡ map (λ o. g * s + o) os ++ row (drop (suc k) t) s (offsets wanted steps)
  unfolding remaining from_place
  left os rem = rw (suffix, rem) refl

  keep_place :
      (o : ℕ) (idx' : List ℕ)
      → offset idx wanted steps ≡ some o
      → advance idx (map length wanted) ≡ (idx', false)
      → Placed idx' wanted steps
      → remaining idx wanted steps ≡ o ∷ remaining idx' wanted steps
      → Turn (k ∷ idx) (t ∷ wanted) (s ∷ steps)
  unfolding Placed
  keep_place o idx' off adv placed rem =
      next_cell (g * s + o) (k ∷ idx') (here o off) (unfold advance in rw adv refl) (below, placed)
        (left (o ∷ remaining idx' wanted steps) rem ∙ unfold remaining from_place in rw suffix refl)

  move_place :
      (o : ℕ)
      → offset idx wanted steps ≡ some o
      → advance idx (map length wanted) ≡ (starts wanted, true)
      → remaining idx wanted steps ≡ o ∷ []
      → ltb (suc k) (length t) ≡ true
      → Turn (k ∷ idx) (t ∷ wanted) (s ∷ steps)
  unfolding Placed
  move_place o off adv rem more =
      let placed = Placed-starts idx wanted steps h in
      let rest : remaining (suc k ∷ starts wanted) (t ∷ wanted) (s ∷ steps)
          ≡ row (drop (suc k) t) s (offsets wanted steps) =
        unfold remaining in
        ap (λ b. from_place (drop (suc k) t) s b (offsets wanted steps))
          (remaining-starts wanted steps placed)
        ∙ from_place-row (drop (suc k) t) s (offsets wanted steps) in
      next_cell (g * s + o) (suc k ∷ starts wanted) (here o off)
        (unfold advance in rw (adv, more) refl) (ltb→lt (suc k) (length t) more, placed)
        (left (o ∷ []) rem ∙ ap (λ os. (g * s + o) ∷ os) (sym rest))

  end_axis :
      (o : ℕ)
      → offset idx wanted steps ≡ some o
      → advance idx (map length wanted) ≡ (starts wanted, true)
      → remaining idx wanted steps ≡ o ∷ []
      → ltb (suc k) (length t) ≡ false
      → Turn (k ∷ idx) (t ∷ wanted) (s ∷ steps)
  end_axis o off adv rem done =
      last_cell (g * s + o) (here o off) (unfold advance starts in rw (adv, done) refl) (
        left (o ∷ []) rem
        ∙ ap (λ l. (g * s + o) ∷ row l s (offsets wanted steps))
            (drop-end (suc k) t (ground (arith, done)))
        ∙ unfold row in refl)

  Turn-axis : Turn idx wanted steps → Turn (k ∷ idx) (t ∷ wanted) (s ∷ steps)
  Turn-axis (next_cell o idx' off adv placed rem) = keep_place o idx' off adv placed rem
  Turn-axis (last_cell o off adv rem) = elim (Bool-cases (ltb (suc k) (length t))) [
    | inl more ↦ move_place o off adv rem more
    | inr done ↦ end_axis o off adv rem done
  ]

pub turn :
    (idx : List ℕ) (wanted : List (List ℕ)) (steps : List ℕ)
    → Placed idx wanted steps
    → Turn idx wanted steps
unfolding Placed
turn [] [] [] h =
    last_cell 0 (unfold offset in refl) (unfold advance starts in refl) (unfold remaining in refl)
turn [] [] (s ∷ steps) h = absurd h
turn [] (t ∷ wanted) steps h = absurd h
turn (k ∷ idx) [] steps h = absurd h
turn (k ∷ idx) (t ∷ wanted) [] h = absurd h
turn (k ∷ idx) (t ∷ wanted) (s ∷ steps) (below, h) =
    let (g, found, suffix) = at_place k t below in
    Turn-axis k s idx t wanted steps below h g found suffix (turn idx wanted steps h)
