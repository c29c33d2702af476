-- ===== src/Prefetch/Invariant/Slots.antt =====
-- prefetch.rs: the live slots: each key of a slot has a cell, so the scans over them do not panic.
use earth_sci_io.Prefetch.Settle.{settle_one, settle_slot, settle_slots, slot_bytes, tally}
use earth_sci_io.Prelude.{
  Bool, Bool-cases, List, Option, [], ap, arith, eq_self, false, inl, inr, length, list_eq, lookup,
  none, occurrences, prod_eq, refl, some, subst, suc, sym, true, ℕ, ℕ_eq, ◌++◌, ◌+◌, ◌<◌, ◌∷◌, ◌≡◌,
}
use earth_sci_io.Prefetch.State.{
  Cell, CellKey, CellStatus, Config, PrefetchStats, Slot, all_at, any_at, any_slot_failed,
  is_failed,
}
use earth_sci_io.Prefetch.Invariant.{CountedAt, Lined, Placed, outline, references}

pub outline-append : (xs ys : List Slot) → outline (xs ++ ys) ≡ outline xs ++ outline ys
outline-append [] ys = refl
outline-append (x ∷ xs) ys = ap (λ o. (x.pos, x.keys) ∷ o) (outline-append xs ys)

pub references-append :
    (k : CellKey) (xs ys : List (ℕ × List CellKey))
    → references k (xs ++ ys) ≡ references k xs + references k ys
references-append k [] ys = omega arith
references-append k ((at, keys) ∷ xs) ys = omega (arith, references-append k xs ys)

-- One more slot, at the end of the window.
pub Lined-push :
    (cfg : Config) (order : List ℕ) (at admitted : ℕ) (o : List (ℕ × List CellKey))
    (keys : List CellKey)
    → Lined cfg order at admitted o
    → Placed cfg order admitted keys
    → Lined cfg order at (suc admitted) (o ++ (admitted, keys) ∷ [])
Lined-push cfg order at admitted [] keys h p =
    (sym h, subst (λ n. Placed cfg order n keys) (sym h) p, ap suc h)
Lined-push cfg order at admitted ((q, ks) ∷ o) keys h p =
    (h.0, h.1, Lined-push cfg order (suc at) admitted o keys h.2 p)

pub Lined-length :
    (cfg : Config) (order : List ℕ) (at admitted : ℕ) (o : List (ℕ × List CellKey))
    → Lined cfg order at admitted o
    → at + length o ≡ admitted
Lined-length cfg order at admitted [] h = omega (arith, h)
Lined-length cfg order at admitted ((q, ks) ∷ o) h =
    omega (arith, Lined-length cfg order (suc at) admitted o h.2)

module _ {T : Type 0} (cells : List (CellKey × Cell T)) where
  abbrev pub LiveKeys : List CellKey → Type 0
  LiveKeys [] = Unit
  LiveKeys (k ∷ ks) = ((c : Cell T) × (lookup k cells ≡ some c)) × LiveKeys ks

  abbrev pub LiveSlots : List (ℕ × List CellKey) → Type 0
  LiveSlots [] = Unit
  LiveSlots ((at, keys) ∷ o) = LiveKeys keys × LiveSlots o

  pub counted-Live :
      (n : ℕ) (o : Option (Cell T)) → CountedAt n o → 0 < n → (c : Cell T) × (o ≡ some c)
  counted-Live n none h p = absurd (omega arith)
  counted-Live n (some c) h p = (c, refl)

  pub live_keys :
      (ks : List CellKey)
      → ((k : CellKey) → 0 < occurrences k ks → (c : Cell T) × (lookup k cells ≡ some c))
      → LiveKeys ks
  live_keys [] h = tt
  live_keys (k ∷ ks) h =
      (h k (rw (eq_self k) (omega arith)), live_keys ks (λ j p. h j (omega arith)))

  LiveSlots-from :
      (o : List (ℕ × List CellKey))
      → ((k : CellKey) → 0 < references k o → (c : Cell T) × (lookup k cells ≡ some c))
      → LiveSlots o
  LiveSlots-from [] h = tt
  LiveSlots-from ((at, keys) ∷ o) h =
      (live_keys keys (λ j p. h j (omega arith)), LiveSlots-from o (λ j p. h j (omega arith)))

  pub live_slots :
      (o : List (ℕ × List CellKey))
      → ((k : CellKey) → CountedAt (references k o) (lookup k cells))
      → LiveSlots o
  live_slots o h = LiveSlots-from o (λ k p. counted-Live (references k o) (lookup k cells) (h k) p)

  pub any_at-Live :
      (p : CellStatus T → Bool) (ks : List CellKey)
      → LiveKeys ks
      → (b : Bool) × (any_at p cells ks ≡ some b)
  any_at-Live p [] h = (false, refl)
  any_at-Live p (k ∷ ks) ((c, e), h) = elim (Bool-cases (p c.status)) [
    | inl met ↦ (true, rw (e, met))
    | inr not_met ↦ let r = any_at-Live p ks h in (r.0, rw (e, not_met, r.1))
  ]

  pub all_at-Live :
      (p : CellStatus T → Bool) (ks : List CellKey)
      → LiveKeys ks
      → (b : Bool) × (all_at p cells ks ≡ some b)
  all_at-Live p [] h = (true, refl)
  all_at-Live p (k ∷ ks) ((c, e), h) = elim (Bool-cases (p c.status)) [
    | inl met ↦ let r = all_at-Live p ks h in (r.0, rw (e, met, r.1))
    | inr not_met ↦ (false, rw (e, not_met))
  ]

  pub any_slot_failed-Live :
      (slots : List Slot)
      → LiveSlots (outline slots)
      → (b : Bool) × (any_slot_failed cells slots ≡ some b)
  unfolding any_slot_failed
  any_slot_failed-Live [] h = (false, refl)
  any_slot_failed-Live (s ∷ slots) h =
      let r = any_at-Live is_failed s.keys h.0 in
      elim (Bool-cases r.0) [
        | inl met ↦ (true, rw (r.1, met))
        | inr not_met ↦
            let more = any_slot_failed-Live slots h.1 in (more.0, rw (r.1, not_met, more.1))
      ]

  slot_bytes-Live :
      (ks : List CellKey) (total : ℕ × Bool)
      → LiveKeys ks
      → (x : ℕ × Bool) × (slot_bytes cells ks total ≡ some x)
  unfolding slot_bytes
  slot_bytes-Live [] total h = (total, refl)
  slot_bytes-Live (k ∷ ks) total ((c, e), h) =
      let r = slot_bytes-Live ks (tally c.status total) h in (r.0, rw (e, r.1))

-- A slot that settles keeps its position and its keys.
module _ {T : Type 0} (cfg : Config) (cells : List (CellKey × Cell T)) where
  settle_slot-keeps :
      (x : ℕ × Bool) (s : Slot) (stats : PrefetchStats)
      → outline ((settle_slot cfg x s stats).0 ∷ []) ≡ outline (s ∷ [])
  unfolding settle_slot
  settle_slot-keeps (bytes, true) s stats = refl
  settle_slot-keeps (bytes, false) s stats = refl

  settle_one-Live :
      (s : Slot) (stats : PrefetchStats)
      → LiveKeys cells s.keys
      → (x : Slot × PrefetchStats) × (settle_one cfg cells s stats ≡ some x)
        × (outline (x.0 ∷ []) ≡ outline (s ∷ []))
  unfolding settle_one
  settle_one-Live s stats h = elim (Bool-cases s.settled) [
    | inl done ↦ ((s, stats), rw done, refl)
    | inr open_yet ↦
        let r = slot_bytes-Live cells s.keys (0, true) h in
        (settle_slot cfg r.0 s stats, rw (open_yet, r.1), settle_slot-keeps r.0 s stats)
  ]

  pub settle_slots-Live :
      (slots : List Slot) (stats : PrefetchStats)
      → LiveSlots cells (outline slots)
      → (x : List Slot × PrefetchStats) × (settle_slots cfg cells slots stats ≡ some x)
        × (outline x.0 ≡ outline slots)
  unfolding settle_slots
  settle_slots-Live [] stats h = (([], stats), refl, refl)
  settle_slots-Live (s ∷ slots) stats h =
      let a = settle_one-Live s stats h.0 in
      let r = settle_slots-Live slots a.0.1 h.1 in
      ((a.0.0 ∷ r.0.0, r.0.1), rw (a.1, r.1), λ i. a.2 i ++ r.2 i)
