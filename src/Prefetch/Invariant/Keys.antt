-- ===== src/Prefetch/Invariant/Keys.antt =====
-- prefetch.rs: the keys of an epoch that the group has, and the entries of an order.
use earth_sci_io.Prelude.{
  All, Bool-cases, List, Option, Text, [], arith, false, inl, inr, leb, length, list_eq, ltb,
  ltb→lt, lt→ltb, none, prod_eq, range_from, refl, some, subst, suc, sym, zero, ℕ, ℕ_eq, ◌+◌, ◌<◌,
  ◌==◌, ◌∙◌, ◌∷◌, ◌≡◌,
}
use earth_sci_io.Exec.{ok}
use earth_sci_io.Exec.Inversion.{and_then-eq-ok, ok-injective, ok_or-eq_ok, some-injective}
use earth_sci_io.Prefetch.State.{CellKey, Config}
use earth_sci_io.Prefetch.Admit.{anchor_at, keys_from, keys_in, keys_of}
use earth_sci_io.Prefetch.Group.{
  Order, checked_explicit, declared, drop_until, explicit, find_bad, forward, not_in_order,
  range_down, reverse, sequence, start, trimmed,
}

module _ (cfg : Config) where
  keys_in-keys_from :
      (epoch : ℕ)
      → epoch < length cfg.boundaries
      → (i : ℕ) (ms : List Text) → keys_in cfg epoch i ms ≡ some (keys_from cfg epoch i ms)
  unfolding keys_in keys_from anchor_at
  keys_in-keys_from epoch h i [] = refl
  keys_in-keys_from epoch h i (m ∷ ms) =
      rw (lt→ltb epoch (length cfg.boundaries) h, keys_in-keys_from epoch h (suc i) ms) refl

  pub keys_in-keys_of :
      (epoch : ℕ)
      → epoch < length cfg.boundaries
      → keys_in cfg epoch 0 cfg.members ≡ some (keys_of cfg epoch)
  unfolding keys_of
  keys_in-keys_of epoch h = keys_in-keys_from epoch h 0 cfg.members

  keys_in-eq_from :
      (epoch i : ℕ) (ms : List Text) (keys : List CellKey)
      → keys_in cfg epoch i ms ≡ some keys
      → keys ≡ keys_from cfg epoch i ms
  unfolding keys_in keys_from anchor_at
  keys_in-eq_from epoch i ms keys h = elim (Bool-cases (ltb epoch (length cfg.boundaries))) [
    | inl inside ↦
        some-injective
          (sym h ∙ keys_in-keys_from epoch (ltb→lt epoch (length cfg.boundaries) inside) i ms)
    | inr outside ↦ by_members ms h outside
  ]
    where
      by_members :
          (ms : List Text)
          → keys_in cfg epoch i ms ≡ some keys
          → ltb epoch (length cfg.boundaries) ≡ false
          → keys ≡ keys_from cfg epoch i ms
      by_members [] h outside = sym (some-injective h)
      by_members (m ∷ ms) h outside =
          let f : ◌≡◌ {A = Option (List CellKey)} none (some keys) = rw outside at h in
          absurd (cc f)

  -- Keys that are collected are those of the epoch.
  pub keys_in-eq :
      (epoch : ℕ) (keys : List CellKey)
      → keys_in cfg epoch 0 cfg.members ≡ some keys
      → keys ≡ keys_of cfg epoch
  unfolding keys_of
  keys_in-eq epoch keys h = keys_in-eq_from epoch 0 cfg.members keys h

  keys_from-known :
      (epoch i : ℕ) (ms : List Text)
      → All (λ (k : CellKey). k.0 < i + length ms) (keys_from cfg epoch i ms)
  unfolding keys_from
  keys_from-known epoch i [] = tt
  keys_from-known epoch i (m ∷ ms) =
      let n : suc i + length ms ≡ i + suc (length ms) = omega arith in
      (
        omega arith,
        subst (λ n. All (λ (k : CellKey). k.0 < n) (keys_from cfg epoch (suc i) ms)) n
            (keys_from-known epoch (suc i) ms),
      )

  pub keys_of-known :
      (epoch : ℕ) → All (λ (k : CellKey). k.0 < length cfg.members) (keys_of cfg epoch)
  unfolding keys_of
  keys_of-known epoch =
      let n : 0 + length cfg.members ≡ length cfg.members = omega arith in
      subst (λ n. All (λ (k : CellKey). k.0 < n) (keys_from cfg epoch 0 cfg.members)) n
        (keys_from-known epoch 0 cfg.members)

abbrev Below : ℕ → List ℕ → Type 0
Below n = All (λ e. e < n)

range_from-Below : (start count : ℕ) → Below (start + count) (range_from start count)
range_from-Below start zero = tt
range_from-Below start (suc count) =
    let n : suc start + count ≡ start + suc count = omega arith in
    (
      omega arith,
      subst (λ n. Below n (range_from (suc start) count)) n (range_from-Below (suc start) count),
    )

Below-suc : (n : ℕ) (xs : List ℕ) → Below n xs → Below (suc n) xs
Below-suc n [] h = tt
Below-suc n (x ∷ xs) h = (omega (arith, h.0), Below-suc n xs h.1)

range_down-Below : (n : ℕ) → Below n (range_down n)
unfolding range_down
range_down-Below zero = tt
range_down-Below (suc n) = (omega arith, Below-suc n (range_down n) (range_down-Below n))

find_bad-Below : (n : ℕ) (es : List ℕ) → find_bad n es ≡ none → Below n es
unfolding find_bad
find_bad-Below n [] h = tt
find_bad-Below n (e ∷ es) h = elim (Bool-cases (leb n e)) [
  | inl bad ↦ let f : ◌≡◌ {A = Option ℕ} (some e) none = rw bad at h in absurd (cc f)
  | inr good ↦ (ground (arith, good), find_bad-Below n es (rw good at h))
]

sequence-Below : (n : ℕ) (order : Order) (seq : List ℕ) → sequence n order ≡ ok seq → Below n seq
unfolding sequence checked_explicit
sequence-Below n forward seq h =
    let m : 0 + n ≡ n = omega arith in
    rw (← ok-injective h) (subst (λ m. Below m (range_from 0 n)) m (range_from-Below 0 n))
sequence-Below n reverse seq h = rw (← ok-injective h) (range_down-Below n)
sequence-Below n (explicit []) seq h = cc h
sequence-Below n (explicit (e ∷ es)) seq h = by_bad (find_bad n (e ∷ es)) refl h
  where
    by_bad :
        (o : Option ℕ)
        → find_bad n (e ∷ es) ≡ o
        → checked_explicit n (e ∷ es) o ≡ ok seq
        → Below n seq
    by_bad none f h = rw (← ok-injective h) (find_bad-Below n (e ∷ es) f)
    by_bad (some bad) f h = cc h

drop_until-Below :
    (n from : ℕ) (es rest : List ℕ) → drop_until from es ≡ some rest → Below n es → Below n rest
unfolding drop_until
drop_until-Below n from [] rest h b = cc h
drop_until-Below n from (e ∷ es) rest h b = elim (Bool-cases (e == from)) [
  | inl here ↦
      let f : ◌≡◌ {A = Option (List ℕ)} (some (e ∷ es)) (some rest) = rw here at h in
      subst (Below n) (some-injective f) b
  | inr later ↦ drop_until-Below n from es rest (rw later at h) b.1
]

-- An order that `start` declares names epochs of the group.
pub declared-Below :
    (cfg : Config) (order : Order) (from : Option ℕ) (seq : List ℕ)
    → declared cfg order from ≡ ok seq
    → All (λ e. e < length cfg.boundaries) seq
unfolding declared trimmed
declared-Below cfg order none seq h =
    let (whole, e, f) = and_then-eq-ok (sequence (length cfg.boundaries) order) _ h in
    sequence-Below (length cfg.boundaries) order seq (e ∙ f)
declared-Below cfg order (some from) seq h =
    let (whole, e, f) = and_then-eq-ok (sequence (length cfg.boundaries) order) _ h in
    drop_until-Below (length cfg.boundaries) from whole seq
      (ok_or-eq_ok (not_in_order from) (drop_until from whole) seq f)
      (sequence-Below (length cfg.boundaries) order whole e)
