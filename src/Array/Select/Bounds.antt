-- ===== src/Array/Select/Bounds.antt =====
-- format/mod.rs: the indices that a selector resolves to.
use earth_sci_io.Error.{Error}
use earth_sci_io.Exec.Inversion.{and_then-eq-ok, ok-injective, some-injective}
use earth_sci_io.Prelude.{
  All, Bool, Bool-cases, List, Option, Text, [], arith, false, get_elem?, if◌then◌else◌, inl, inr,
  list_eq, ltb, ltb→lt, none, refl, some, subst, suc, true, zero, ℕ, ℕ_eq, ◌*◌, ◌+◌, ◌-◌, ◌<◌, ◌∷◌,
  ◌≡◌, ◌≤◌, ◌⊎◌,
}
use earth_sci_io.Exec.{Result, err, ok}
use earth_sci_io.Array.Select.{
  AxisSelect, bad_index, bad_range, bad_step, check_indices, check_last, indices, last, range,
  resolve_in, step_by, stepped, stepped_from, whole,
}

-- One step of a range.
step_by_more :
    (fuel start stop step : ℕ)
    → ltb start stop ≡ true
    → step_by (suc fuel) start stop step ≡ start ∷ step_by fuel (start + step) stop step
unfolding step_by
step_by_more fuel start stop step h = rw h refl

step_by_end :
    (fuel start stop step : ℕ) → ltb start stop ≡ false → step_by (suc fuel) start stop step ≡ []
unfolding step_by
step_by_end fuel start stop step h = rw h refl

-- The last of a list with one more at its front.
last_cases : (x g : ℕ) (xs : List ℕ) → last (x ∷ xs) ≡ some g → (x ≡ g) ⊎ (last xs ≡ some g)
unfolding last
last_cases x g [] h = inl (some-injective h)
last_cases x g (y ∷ ys) h = inr h

last_later : (x g : ℕ) (xs : List ℕ) → last xs ≡ some g → last (x ∷ xs) ≡ some g
unfolding last
last_later x g [] h = cc
last_later x g (y ∷ ys) h = h

last_exists : (x : ℕ) (xs : List ℕ) → (g : ℕ) × (last (x ∷ xs) ≡ some g)
unfolding last
last_exists x [] = (x, refl)
last_exists x (y ∷ ys) = last_exists y ys

-- The last index of a range is between its ends.
last-step_by :
    (fuel start stop step g : ℕ)
    → last (step_by fuel start stop step) ≡ some g
    → (start ≤ g) × (g < stop)
last-step_by zero start stop step g h = absurd (no_last h)
  where
    no_last : last (step_by zero start stop step) ≡ some g → ⊥
    no_last q = unfold step_by last in cc
last-step_by (suc fuel) start stop step g h = elim (Bool-cases (ltb start stop)) [
  | inl e ↦
      elim (last_cases start g (step_by fuel (start + step) stop step)
        (rw (← step_by_more fuel start stop step e) h)) [
          | inl q ↦ ground (arith, q, e)
          | inr q ↦
              let (above, below) = last-step_by fuel (start + step) stop step g q in
              (omega (arith, above), below)
        ]
  | inr e ↦ absurd (no_last (rw (← step_by_end fuel start stop step e) h))
]
  where
    no_last : last [] ≡ some g → ⊥
    no_last q = unfold last in cc

-- Every index of a range is below a bound of its last one.
step_by-All :
    (fuel start stop step bound : ℕ)
    → ((g : ℕ) → last (step_by fuel start stop step) ≡ some g → g < bound)
    → All (λ g. g < bound) (step_by fuel start stop step)
step_by-All zero start stop step bound h = unfold step_by in tt
step_by-All (suc fuel) start stop step bound h = elim (Bool-cases (ltb start stop)) [
  | inl e ↦
      let rest = step_by fuel (start + step) stop step in
      let more = step_by_more fuel start stop step e in
      let h' : (g : ℕ) → last (start ∷ rest) ≡ some g → g < bound = λ g q. h g (rw more q) in
      rw more (
        from rest h' (last_exists start rest)
            (λ g q. (last-step_by fuel (start + step) stop step g q).0),
        step_by-All fuel (start + step) stop step bound (λ g q. h' g (last_later start g rest q)),
      )
  | inr e ↦ rw (step_by_end fuel start stop step e) tt
]
  where
    from :
        (rest : List ℕ)
        → ((g : ℕ) → last (start ∷ rest) ≡ some g → g < bound)
        → (g : ℕ) × (last (start ∷ rest) ≡ some g)
        → ((g : ℕ) → last rest ≡ some g → start + step ≤ g)
        → start < bound
    from rest below (g, q) above = elim (last_cases start g rest q) [
      | inl same ↦ omega (arith, same, below g q)
      | inr later ↦ omega (arith, above g later, below g q)
    ]

if-ok :
    {A : Type 0} (b : Bool) (later : Result Error A) (e : Error) (a : A)
    → (if b then later else err e) ≡ ok a
    → (b ≡ true) × (later ≡ ok a)
if-ok true later e a h = (refl, h)
if-ok false later e a h = cc

check_indices-All :
    (name : Text) (dim_len : ℕ) (v : List ℕ)
    → check_indices name dim_len v ≡ ok tt
    → All (λ g. g < dim_len) v
unfolding check_indices
check_indices-All name dim_len [] h = tt
check_indices-All name dim_len (g ∷ v) h =
    let (below, later) =
      if-ok (ltb g dim_len) (check_indices name dim_len v) (bad_index name g dim_len) tt h in
    (ltb→lt g dim_len below, check_indices-All name dim_len v later)

beyond : (start stop more : ℕ) → ltb start stop ≡ false → ltb (start + more) stop ≡ false
beyond start stop more h = ground (arith, h)

get_elem?-step_by :
    (fuel start stop step : ℕ)
    → stop - start ≤ fuel
    → 1 ≤ step
    → (k : ℕ)
    → get_elem? (step_by fuel start stop step) k
      ≡ (if ltb (start + k * step) stop then some (start + k * step) else none)
get_elem?-step_by zero start stop step enough positive k =
    rw (beyond start stop (k * step) (ground (arith, enough))) (unfold step_by in refl)
get_elem?-step_by (suc fuel) start stop step enough positive k =
    elim (Bool-cases (ltb start stop)) [
      | inl e ↦ rw (step_by_more fuel start stop step e) (
          from e
            (λ j.
              get_elem?-step_by fuel (start + step) stop step (omega (arith, enough, positive))
                positive j)
            k)
      | inr e ↦ rw (step_by_end fuel start stop step e, beyond start stop (k * step) e) refl
    ]
  where
    from :
        ltb start stop ≡ true
        → ((j : ℕ)
            → get_elem? (step_by fuel (start + step) stop step) j ≡ (
                if ltb (start + step + j * step) stop
                then some (start + step + j * step)
                else none))
        → (k : ℕ)
        → get_elem? (start ∷ step_by fuel (start + step) stop step) k
          ≡ (if ltb (start + k * step) stop then some (start + k * step) else none)
    from e later zero = let same : start + 0 * step ≡ start = omega arith in rw (same, e) refl
    from e later (suc j) =
        let same : start + suc j * step ≡ start + step + j * step = omega arith in rw same (later j)

-- The list of a range holds, at each place, the start and so many steps, as far as that is below
-- the stop, and nothing more.
pub get_elem?-stepped :
    (start stop step : ℕ)
    → 1 ≤ step
    → (k : ℕ)
    → get_elem? (stepped start stop step) k
      ≡ (if ltb (start + k * step) stop then some (start + k * step) else none)
get_elem?-stepped start stop step positive k =
    unfold stepped in get_elem?-step_by (stop - start) start stop step (omega arith) positive k

pub stepped_from-ok :
    (name : Text) (start stop step : ℕ) (l : List ℕ)
    → stepped_from name start stop step ≡ ok l
    → stepped start stop step ≡ l
stepped_from-ok name start stop step l h = unfold stepped_from in from (ltb step 1) h
  where
    from :
        (b : Bool)
        → (if b then err (bad_step name step) else ok (stepped start stop step)) ≡ ok l
        → stepped start stop step ≡ l
    from true q = cc
    from false q = ok-injective q

check_last-ok :
    (name : Text) (start stop step dim_len : ℕ) (o : Option ℕ)
    → check_last name start stop step dim_len o ≡ ok tt
    → (g : ℕ) → o ≡ some g
    → g < dim_len
unfolding check_last
check_last-ok name start stop step dim_len none h g e = cc
check_last-ok name start stop step dim_len (some x) h g e =
    let (below, later) =
      if-ok (ltb x dim_len) (ok tt) (bad_range name start stop step x dim_len) tt h in
    subst (λ y. y < dim_len) (some-injective e) (ltb→lt x dim_len below)

-- What a selector resolves to are indices of the dimension. Of a range only the last index is
-- tested, and of the whole dimension none is.
pub resolve_in-All :
    (s : AxisSelect) (dim_len : ℕ) (name : Text) (v : List ℕ)
    → resolve_in s dim_len name ≡ ok v
    → All (λ g. g < dim_len) v
unfolding resolve_in
resolve_in-All whole dim_len name v h =
    subst (λ l. All (λ g. g < dim_len) l) (ok-injective h)
      (unfold stepped in
        step_by-All (dim_len - 0) 0 dim_len 1 dim_len
          (λ g q. (last-step_by (dim_len - 0) 0 dim_len 1 g q).1))
resolve_in-All (indices l) dim_len name v h =
    let (u, fits, same) = and_then-eq-ok (check_indices name dim_len l) _ h in
    subst (λ l. All (λ g. g < dim_len) l) (ok-injective same)
      (check_indices-All name dim_len l fits)
resolve_in-All (range start stop step) dim_len name v h =
    let (l, from, h₁) = and_then-eq-ok (stepped_from name start stop step) _ h in
    let (u, fits, same) = and_then-eq-ok (check_last name start stop step dim_len (last l)) _ h₁ in
    let listed : step_by (stop - start) start stop step ≡ l =
      unfold stepped in stepped_from-ok name start stop step l from in
    subst (λ l. All (λ g. g < dim_len) l) (ok-injective same)
      (subst (λ l. All (λ g. g < dim_len) l) listed
        (step_by-All (stop - start) start stop step dim_len (λ g q.
          check_last-ok name start stop step dim_len (last l) fits g
            (subst (λ m. last m ≡ some g) listed q))))
