-- ===== src/Prefetch/Settle.antt =====
-- prefetch.rs: `State::settle`. `none` is a panic, at a key that has no cell.
use earth_sci_io.Prelude.{
  Bool, List, Option, [], false, if◌then◌else◌, list_eq, lookup, ltb, max, none, prod_eq, some,
  true, ℕ, ℕ_eq, ◌+◌, ◌∷◌,
}
use earth_sci_io.Exec.{option_then}
use earth_sci_io.Prefetch.State.{
  Cell, CellKey, CellStatus, Config, PrefetchStats, Slot, State, ready,
}

exceeds : Option ℕ → ℕ → Bool
exceeds none bytes = false
exceeds (some budget) bytes = ltb budget bytes

unfoldable pub settle_slot : Config → ℕ × Bool → Slot → PrefetchStats → Slot × PrefetchStats
unfolding exceeds
settle_slot cfg (bytes, false) s stats = (s, stats)
settle_slot cfg (bytes, true) s stats = (
  record s { settled = true },
  record stats {
    epochs_decoded = stats.epochs_decoded + 1;
    oversize_epochs = stats.oversize_epochs + (if exceeds cfg.max_bytes bytes then 1 else 0);
  },
)

module _ {T : Type 0} where
  -- The bytes of a slot's ready samples, and whether they all are.
  pub tally : CellStatus T → ℕ × Bool → ℕ × Bool
  tally (ready d b) total = (total.0 + b, total.1)
  tally _ total = (total.0, false)

  unfoldable pub slot_bytes : List (CellKey × Cell T) → List CellKey → ℕ × Bool → Option (ℕ × Bool)
  unfolding tally
  slot_bytes cells [] total = some total
  slot_bytes cells (k ∷ ks) total =
      option_then (lookup k cells) (λ c. slot_bytes cells ks (tally c.status total))

  unfoldable pub settle_one :
      Config → List (CellKey × Cell T) → Slot → PrefetchStats → Option (Slot × PrefetchStats)
  unfolding settle_slot slot_bytes
  settle_one cfg cells s stats =
      if s.settled
      then some (s, stats)
      else option_then (slot_bytes cells s.keys (0, true)) (λ b. some (settle_slot cfg b s stats))

  unfoldable pub settle_slots :
      Config
      → List (CellKey × Cell T)
      → List Slot
      → PrefetchStats
      → Option (List Slot × PrefetchStats)
  unfolding settle_one settle_slot slot_bytes exceeds
  settle_slots cfg cells [] stats = some ([], stats)
  settle_slots cfg cells (s ∷ slots) stats = option_then (settle_one cfg cells s stats) λ head.
      option_then (settle_slots cfg cells slots head.1) λ rest. some (head.0 ∷ rest.0, rest.1)

  held_bytes : List (CellKey × Cell T) → ℕ
  held_bytes [] = 0
  held_bytes ((k, c) ∷ cells) = elim c.status [ ready d b ↦ b | _ ↦ 0 ] + held_bytes cells

  pub peak : List (CellKey × Cell T) → PrefetchStats → PrefetchStats
  peak cells stats = record stats { peak_bytes = max stats.peak_bytes (held_bytes cells) }

  unfoldable pub settle : Config → State T → Option (State T)
  unfolding settle_slots held_bytes peak
  settle cfg s =
      option_then (settle_slots cfg s.cells s.slots s.stats)
        λ x. some (record s { slots = x.0; stats = peak s.cells x.1 })
