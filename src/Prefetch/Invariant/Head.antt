-- ===== src/Prefetch/Invariant/Head.antt =====
-- prefetch.rs: the head slot of `take`: done, waited for, or failed.
use earth_sci_io.Prelude.{
  Bool, Bool-cases, List, Option, [], arith, eq, eq_self, false, if◌then◌else◌, includes, inl, inr,
  list_eq, lookup, none, occurrences, or_true, prod_beq_sound, prod_eq, refl, some, subst, true,
  ℕ_eq, ◌∷◌, ◌≡◌,
}
use earth_sci_io.Exec.Inversion.{some-injective}
use earth_sci_io.Prefetch.State.{
  Cell, CellKey, CellStatus, all_at, finished, is_failed, queued, ready, running,
}
use earth_sci_io.Prefetch.Take.{find_failed}
use earth_sci_io.Prefetch.Invariant.Slots.{LiveKeys}
use earth_sci_io.Prefetch.Invariant.Give.{ReadyAt, ReadyAt-le, is_usable}

module _ {T : Type 0} (cells : List (CellKey × Cell T)) where
  usable_of : (st : CellStatus T) → finished st ≡ true → is_failed st ≡ false → is_usable st ≡ true
  usable_of (ready d b) h k = refl
  usable_of queued h k = cc
  usable_of running h k = cc
  usable_of (CellStatus.failed e) h k = cc

  all_at-cons :
      (p : CellStatus T → Bool) (k : CellKey) (ks : List CellKey) (c : Cell T)
      → lookup k cells ≡ some c
      → all_at p cells (k ∷ ks) ≡ (if p c.status then all_at p cells ks else some false)
  all_at-cons p k ks c e = rw e

  find_failed-cons :
      (k : CellKey) (ks : List CellKey) (c : Cell T)
      → lookup k cells ≡ some c
      → find_failed cells (k ∷ ks)
        ≡ (if is_failed c.status then some (some k) else find_failed cells ks)
  unfolding find_failed
  find_failed-cons k ks c e = rw e

  all_at-true :
      (p : CellStatus T → Bool) (k : CellKey) (ks : List CellKey) (c : Cell T)
      → lookup k cells ≡ some c
      → all_at p cells (k ∷ ks) ≡ some true
      → (p c.status ≡ true) × (all_at p cells ks ≡ some true)
  all_at-true p k ks c e h = elim (Bool-cases (p c.status)) [
    | inl met ↦ (met, rw (all_at-cons p k ks c e, met) at h)
    | inr not_met ↦
        let f : ◌≡◌ {A = Option Bool} (some false) (some true) =
          rw (all_at-cons p k ks c e, not_met) at h in
        absurd (cc f)
  ]

  none_failed :
      (k : CellKey) (ks : List CellKey) (c : Cell T)
      → lookup k cells ≡ some c
      → find_failed cells (k ∷ ks) ≡ some none
      → (is_failed c.status ≡ false) × (find_failed cells ks ≡ some none)
  none_failed k ks c e h = elim (Bool-cases (is_failed c.status)) [
    | inr well ↦ (well, rw (find_failed-cons k ks c e, well) at h)
    | inl bad ↦
        let f : ◌≡◌ {A = Option (Option CellKey)} (some (some k)) (some none) =
          rw (find_failed-cons k ks c e, bad) at h in
        absurd (cc f)
  ]

  pub head_ready :
      (ks : List CellKey)
      → LiveKeys cells ks
      → all_at finished cells ks ≡ some true
      → find_failed cells ks ≡ some none
      → (j : CellKey) → ReadyAt (occurrences j ks) (lookup j cells)
  head_ready [] l h f j = never (lookup j cells)
    where
      never : (o : Option (Cell T)) → ReadyAt 0 o
      never none = tt
      never (some c) = λ p. absurd (omega arith)
  head_ready (k ∷ ks) ((c, e), l) h f j =
      let a = all_at-true finished k ks c e h in
      let b = none_failed k ks c e f in
      elim (Bool-cases (eq k j)) [
        | inl same ↦
            subst (λ i. ReadyAt (occurrences i (k ∷ ks)) (lookup i cells)) (prod_beq_sound k j same)
              (rw e (λ _. usable_of c.status a.0 b.0))
        | inr apart ↦
            ReadyAt-le (occurrences j ks) (occurrences j (k ∷ ks)) (lookup j cells)
              (rw apart (omega arith)) (head_ready ks l a.1 b.1 j)
      ]

  -- A key of the slot whose cell is not finished.
  pub unfinished :
      (ks : List CellKey)
      → LiveKeys cells ks
      → all_at finished cells ks ≡ some false
      → (k : CellKey) × (c : Cell T) × (includes k ks ≡ true)
        × (lookup k cells ≡ some c)
        × (finished c.status ≡ false)
  unfinished [] l h = cc
  unfinished (k ∷ ks) ((c, e), l) h = elim (Bool-cases (finished c.status)) [
    | inr waiting ↦ (k, c, rw (eq_self k), e, waiting)
    | inl done ↦
        let r = unfinished ks l (rw (all_at-cons finished k ks c e, done) at h) in
        (r.0, r.1, rw r.2 (or_true _), r.3, r.4)
  ]

  pub first_failed :
      (ks : List CellKey) (bad : CellKey)
      → LiveKeys cells ks
      → find_failed cells ks ≡ some (some bad)
      → (c : Cell T) × (includes bad ks ≡ true)
        × (lookup bad cells ≡ some c)
        × (is_failed c.status ≡ true)
  unfolding find_failed
  first_failed [] bad l h = cc
  first_failed (k ∷ ks) bad ((c, e), l) h = elim (Bool-cases (is_failed c.status)) [
    | inl failing ↦
        let f : ◌≡◌ {A = Option (Option CellKey)} (some (some k)) (some (some bad)) =
          rw (find_failed-cons k ks c e, failing) at h in
        let same : k ≡ bad = some-injective (some-injective f) in
        (c, rw (← same, eq_self k), rw (← same) e, failing)
    | inr well ↦
        let r = first_failed ks bad l (rw (find_failed-cons k ks c e, well) at h) in
        (r.0, rw r.1 (or_true _), r.2, r.3)
  ]

  pub find_failed-Live :
      (ks : List CellKey)
      → LiveKeys cells ks
      → (o : Option CellKey) × (find_failed cells ks ≡ some o)
  find_failed-Live [] l = (none, unfold find_failed in refl)
  find_failed-Live (k ∷ ks) ((c, e), l) = elim (Bool-cases (is_failed c.status)) [
    | inl failing ↦ (some k, rw (find_failed-cons k ks c e, failing))
    | inr well ↦ let r = find_failed-Live ks l in (r.0, rw (find_failed-cons k ks c e, well) r.1)
  ]
