-- ===== src/Prefetch/Admit.antt =====
-- prefetch.rs: `State::admit`. `none` is a panic, at a key that has no cell.
use earth_sci_io.Prelude.{
  Bool, List, Option, Text, [], drop, false, if◌then◌else◌, insert, is_some, leb, length, list_eq,
  lookup, ltb, none, prod_eq, some, suc, true, ℕ, ℕ_eq, ◌++◌, ◌+◌, ◌-◌, ◌==◌, ◌∷◌,
}
use earth_sci_io.Exec.{option_then}
use earth_sci_io.Prefetch.Settle.{settle}
use earth_sci_io.Prefetch.WarmUp.{warm_up}
use earth_sci_io.Prefetch.State.{
  Cell, CellKey, Config, PrefetchStats, State, any_failed, committed_bytes, is_active, queued,
  ready,
}

unfoldable pub keys_from : Config → (epoch i : ℕ) → List Text → List CellKey
keys_from cfg epoch i [] = []
keys_from cfg epoch i (m ∷ ms) = (i, cfg.anchors i epoch) ∷ keys_from cfg epoch (suc i) ms

-- `cfg.anchors[i][epoch]`
unfoldable pub anchor_at : Config → (i epoch : ℕ) → Option ℕ
anchor_at cfg i epoch =
    if ltb epoch (length cfg.boundaries) then some (cfg.anchors i epoch) else none

-- The keys of the members from the `i`-th on, as `admit` collects them.
unfoldable pub keys_in : Config → (epoch i : ℕ) → List Text → Option (List CellKey)
unfolding anchor_at
keys_in cfg epoch i [] = some []
keys_in cfg epoch i (m ∷ ms) =
    option_then (anchor_at cfg i epoch)
      λ a. option_then (keys_in cfg epoch (suc i) ms) λ keys. some ((i, a) ∷ keys)

-- One key per member, in member order.
unfoldable pub keys_of : Config → (epoch : ℕ) → List CellKey
unfolding keys_from
keys_of cfg epoch = keys_from cfg epoch 0 cfg.members

add_sizes : Option ℕ → Option ℕ → Option ℕ
add_sizes (some a) (some b) = some (a + b)
add_sizes (some a) none = none
add_sizes none b = none

fits : (budget : ℕ) → (estimate committed : Option ℕ) → Bool
fits budget (some e) (some c) = leb (c + e) budget
fits budget _ _ = false

module _ {T : Type 0} where
  -- The size of a sample not held yet: the real one of the last taken at its anchor, or the
  -- member's last.
  known_size : Option (ℕ × T × ℕ) → (anchor : ℕ) → Option ℕ → Option ℕ
  known_size none anchor size = size
  known_size (some (a, d, bytes)) anchor size = if a == anchor then some bytes else size

  estimate_from : State T → Option ℕ → List CellKey → Option ℕ
  estimate_from s estimate [] = estimate
  estimate_from s estimate (k ∷ ks) =
      estimate_from s
        (if is_some (lookup k s.cells)
          then estimate
          else add_sizes estimate (known_size (s.last_taken k.0) k.1 (s.last_size k.0)))
        ks

  within : Option ℕ → State T → List CellKey → Bool
  within none s keys = true
  within (some budget) s keys = fits budget (estimate_from s (some 0) keys) (committed_bytes s)

  -- The head slot is always admitted; behind it, a slot must fit.
  unfoldable pub has_room : Config → State T → List CellKey → Bool
  unfolding known_size add_sizes estimate_from fits within
  has_room cfg s keys = if ltb s.next s.admitted then within cfg.max_bytes s keys else true

  -- The sample that the last `take` delivered, if it has this anchor.
  unfoldable pub revived : Option (ℕ × T × ℕ) → (anchor : ℕ) → Option (T × ℕ)
  revived none anchor = none
  revived (some (a, d, bytes)) anchor = if a == anchor then some (d, bytes) else none

  reused : State T → PrefetchStats
  reused s = record s.stats { samples_reused = s.stats.samples_reused + 1 }

  unfoldable pub add_fresh : Option (T × ℕ) → CellKey → State T → State T
  unfolding reused
  add_fresh (some (d, bytes)) k s = record s {
    cells = insert k (record { status = ready d bytes; slots = 1; estimate = some bytes }) s.cells;
    stats = reused s;
  }
  add_fresh none k s = record s {
    cells = insert k (record { status = queued; slots = 1; estimate = s.last_size k.0 }) s.cells;
    queue = s.queue ++ (s.generation, k) ∷ [];
  }

  unfoldable pub add_cell : Option (Cell T) → CellKey → State T → State T
  unfolding reused add_fresh revived
  add_cell (some c) k s = record s {
    cells = insert k (record c { slots = c.slots + 1 }) s.cells;
    stats = reused s;
  }
  add_cell none k s = add_fresh (revived (s.last_taken k.0) k.1) k s

  unfoldable pub add_key : CellKey → State T → State T
  unfolding add_cell
  add_key k s = add_cell (lookup k s.cells) k s

  unfoldable pub add_keys : List CellKey → State T → State T
  unfolding add_key
  add_keys [] s = s
  add_keys (k ∷ ks) s = add_keys ks (add_key k s)

  unfoldable pub push_slot : List CellKey → State T → State T
  push_slot keys s = record s {
    slots = s.slots ++ (record { pos = s.admitted; keys = keys; settled = false }) ∷ [];
    admitted = s.admitted + 1;
  }

  unfoldable pub admit_slot : List CellKey → State T → State T
  unfolding add_keys push_slot
  admit_slot keys s = push_slot keys (add_keys keys s)

  -- The `while` over the entries of the order from `admitted` on.
  unfoldable pub admit_loop : Config → List ℕ → State T → Option (State T)
  unfolding admit_slot has_room keys_in
  admit_loop cfg [] s = some s
  admit_loop cfg (epoch ∷ rest) s =
      let filled : Option (State T) =
        option_then (keys_in cfg epoch 0 cfg.members)
          λ keys. if has_room cfg s keys then admit_loop cfg rest (admit_slot keys s) else some s in
      if ltb (s.admitted - s.next) cfg.depth
      then option_then (any_failed s) (λ b. if b then some s else filled)
      else some s

  -- Admits slots behind the consumer while `depth` and `max_bytes` allow, settles, and queues the
  -- warm-up past them.
  unfoldable pub admit : Config → State T → Option (State T)
  unfolding admit_loop settle warm_up
  admit cfg s =
      if is_active s.phase
      then option_then (admit_loop cfg (drop s.admitted s.order) s)
          (λ t. option_then (settle cfg t) (warm_up cfg))
      else some s
