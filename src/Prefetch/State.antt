-- ===== src/Prefetch/State.antt =====
-- prefetch.rs: what the consumer and the workers share. An instant is a number, wall-clock times are
-- left out of the statistics, and a type `T` stands for what a sample carries.
use earth_sci_io.Prelude.{
  Bool, List, Option, Text, [], false, if◌then◌else◌, list_eq, lookup, none, prod_eq, some, true, ℕ,
  ℕ_eq, ◌+◌, ◌∷◌,
}
use earth_sci_io.Error.{Error}
use earth_sci_io.Exec.{option_then}

-- A member and its cadence anchor.
abbrev pub CellKey : Type 0
CellKey = ℕ × ℕ

pub data CellStatus (T : Type 0) : Type 0 where
  queued : CellStatus T
  running : CellStatus T
  ready : T → (bytes : ℕ) → CellStatus T
  failed : Option Error → CellStatus T

pub record Cell (T : Type 0) : Type 0 where
  pub status : CellStatus T
  -- live slots that reference this sample
  pub slots : ℕ
  pub estimate : Option ℕ

pub record Slot : Type 0 where
  pub pos : ℕ
  pub keys : List CellKey
  pub settled : Bool

pub data Phase : Type 0 where
  idle : Phase
  active : Phase
  cancelled : Phase
  failed : (epoch : ℕ) → Phase
  closed : Phase

abbrev pub is_active : Phase → Bool
is_active Phase.active = true
is_active _ = false

abbrev pub is_closed : Phase → Bool
is_closed Phase.closed = true
is_closed _ = false

pub record FileRef : Type 0 where
  pub url : Text
  pub mirrors : List Text

pub record PrefetchStats : Type 0 where
  pub peak_bytes : ℕ
  pub epochs_decoded : ℕ
  pub samples_decoded : ℕ
  pub samples_reused : ℕ
  pub oversize_epochs : ℕ
  pub overlap : Bool

-- Fixed at construction. `members` are the keys in order. Each row of `anchors` has one anchor for
-- each boundary, `anchors member epoch`; an epoch behind the boundaries is out of range, which the
-- operations test. `warm_files member epoch` is the provider's.
pub record Config : Type 0 where
  pub members : List Text
  pub boundaries : List ℕ
  pub anchors : ℕ → ℕ → ℕ
  pub depth : ℕ
  pub max_bytes : Option ℕ
  pub fetch_ahead : ℕ
  pub warm_files : ℕ → ℕ → List FileRef

pub record State (T : Type 0) : Type 0 where
  pub phase : Phase
  pub generation : ℕ
  pub order : List ℕ
  -- the position that `take` returns next
  pub next : ℕ
  -- positions `next..admitted` hold the live slots
  pub admitted : ℕ
  pub slots : List Slot
  pub cells : List (CellKey × Cell T)
  pub queue : List (ℕ × CellKey)
  pub fetch_queue : List (ℕ × ℕ × FileRef)
  pub fetch_end : ℕ
  pub fetched : List (ℕ × Text)
  -- by member
  pub prev_anchor : ℕ → Option ℕ
  pub last_taken : ℕ → Option (ℕ × T × ℕ)
  pub last_size : ℕ → Option ℕ
  pub running : ℕ
  pub shutdown : Bool
  pub stats : PrefetchStats

abbrev pub no_stats : PrefetchStats
no_stats = record {
  peak_bytes = 0;
  epochs_decoded = 0;
  samples_decoded = 0;
  samples_reused = 0;
  oversize_epochs = 0;
  overlap = true;
}

unfoldable pub new_state : {T : Type 0} → State T
new_state = record {
  phase = Phase.idle;
  generation = 0;
  order = [];
  next = 0;
  admitted = 0;
  slots = [];
  cells = [];
  queue = [];
  fetch_queue = [];
  fetch_end = 0;
  fetched = [];
  prev_anchor = λ _. none;
  last_taken = λ _. none;
  last_size = λ _. none;
  running = 0;
  shutdown = false;
  stats = no_stats;
}

module _ {T : Type 0} where
  -- Drops the order and all that is held for it; what runs on lands in an older generation.
  unfoldable pub end_order : Phase → State T → State T
  end_order phase s = record s {
    phase = phase;
    generation = s.generation + 1;
    order = [];
    next = 0;
    admitted = 0;
    slots = [];
    cells = [];
    queue = [];
    fetch_queue = [];
    fetch_end = 0;
    fetched = [];
    prev_anchor = λ _. none;
  }

  abbrev pub finished : CellStatus T → Bool
  finished (ready d bytes) = true
  finished (CellStatus.failed e) = true
  finished _ = false

  abbrev pub is_failed : CellStatus T → Bool
  is_failed (CellStatus.failed e) = true
  is_failed _ = false

  -- Iterator::all and Iterator::any over the statuses at some keys, in order and as far as they
  -- read; `none` is the panic of `self.cells[k]` where there is no such cell.
  abbrev pub all_at : (CellStatus T → Bool) → List (CellKey × Cell T) → List CellKey → Option Bool
  all_at p cells [] = some true
  all_at p cells (k ∷ ks) =
      let rest = all_at p cells ks in
      option_then (lookup k cells) (λ c. if p c.status then rest else some false)

  abbrev pub any_at : (CellStatus T → Bool) → List (CellKey × Cell T) → List CellKey → Option Bool
  any_at p cells [] = some false
  any_at p cells (k ∷ ks) =
      let rest = any_at p cells ks in
      option_then (lookup k cells) (λ c. if p c.status then some true else rest)

  unfoldable pub head_done_of : List (CellKey × Cell T) → List Slot → Option Bool
  head_done_of cells [] = some false
  head_done_of cells (s ∷ slots) = all_at finished cells s.keys

  unfoldable pub head_done : State T → Option Bool
  unfolding head_done_of
  head_done s = head_done_of s.cells s.slots

  unfoldable pub any_slot_failed : List (CellKey × Cell T) → List Slot → Option Bool
  any_slot_failed cells [] = some false
  any_slot_failed cells (s ∷ slots) =
      let rest = any_slot_failed cells slots in
      option_then (any_at is_failed cells s.keys) (λ b. if b then some true else rest)

  unfoldable pub any_failed : State T → Option Bool
  unfolding any_slot_failed
  any_failed s = any_slot_failed s.cells s.slots

  committed_size : Cell T → Option ℕ
  committed_size c = elim c.status [
    | queued ↦ c.estimate
    | running ↦ c.estimate
    | ready d bytes ↦ some bytes
    | CellStatus.failed e ↦ some 0
  ]

  committed_from : ℕ → List (CellKey × Cell T) → Option ℕ
  committed_from total [] = some total
  committed_from total ((k, c) ∷ cells) =
      option_then (committed_size c) (λ b. committed_from (total + b) cells)

  -- Bytes held or in flight, each sample once.
  unfoldable pub committed_bytes : State T → Option ℕ
  unfolding committed_size committed_from
  committed_bytes s = committed_from 0 s.cells
