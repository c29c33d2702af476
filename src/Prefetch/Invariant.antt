-- ===== src/Prefetch/Invariant.antt =====
-- prefetch.rs: what the shared state keeps to, between the calls and the rounds of the workers.
pub mod Keys
mod Cells
pub mod Slots
pub mod Frame
pub mod Admission
pub mod Loop
pub mod Whole
pub mod Calls
mod Give
pub mod Handover
mod Epoch
mod Head
pub mod Advance
pub mod Taking
pub mod Rounds
pub mod Outcomes
use mathlib.Core.Option
use earth_sci_io.Prelude.{
  All, List, Option, [], get_elem?, includes, length, list_eq, lookup, map, none, occurrences, pos,
  prod_eq, some, suc, true, zero, ℕ, ℕ_eq, ◌+◌, ◌<◌, ◌∷◌, ◌≡◌, ◌≤◌,
}
use earth_sci_io.Exec.{err}
use earth_sci_io.Prefetch.State.{
  Cell, CellKey, CellStatus, Config, Slot, State, failed, queued, ready, running,
}
use earth_sci_io.Prefetch.Admit.{keys_of}
use earth_sci_io.Prefetch.Worker.{Job, Produce, Wording, caught, produced}

-- The positions of the slots with their keys.
abbrev pub outline : List Slot → List (ℕ × List CellKey)
outline [] = []
outline (s ∷ slots) = (s.pos, s.keys) ∷ outline slots

-- How many slots reference a sample.
abbrev pub references : CellKey → List (ℕ × List CellKey) → ℕ
references k [] = 0
references k ((at, keys) ∷ slots) = occurrences k keys + references k slots

module _ {T : Type 0} where
  abbrev pub CountedAt : ℕ → Option (Cell T) → Type 0
  CountedAt n none = n ≡ 0
  CountedAt n (some c) = (c.slots ≡ n) × (0 < n)

  abbrev pub TrackedStatus :
      (generation : ℕ) (queue jobs : List Job) → CellKey → CellStatus T → Type 0
  TrackedStatus generation queue jobs k queued = includes (generation, k) queue ≡ true
  TrackedStatus generation queue jobs k running = includes (generation, k) jobs ≡ true
  TrackedStatus generation queue jobs k _ = Unit

  abbrev pub TrackedAt :
      (generation : ℕ) (queue jobs : List Job) → CellKey → Option (Cell T) → Type 0
  TrackedAt generation queue jobs k none = Unit
  TrackedAt generation queue jobs k (some c) = TrackedStatus generation queue jobs k c.status

module _ (cfg : Config) where
  abbrev pub Placed : List ℕ → ℕ → List CellKey → Type 0
  Placed order at keys =
      (epoch : ℕ) × (get_elem? order at ≡ some epoch) × (keys ≡ keys_of cfg epoch)

  -- The slots are those of the positions `at..admitted`, each with the keys of its epoch.
  abbrev pub Lined : List ℕ → (at admitted : ℕ) → List (ℕ × List CellKey) → Type 0
  Lined order at admitted [] = at ≡ admitted
  Lined order at admitted ((p, keys) ∷ slots) =
      (p ≡ at) × Placed order at keys × Lined order (suc at) admitted slots

  -- The member's anchor of the entry before a position of the order.
  abbrev pub preceding : (i : ℕ) → List ℕ → (at : ℕ) → Option ℕ
  preceding i order zero = none
  preceding i order (suc at) = Option.map (cfg.anchors i) (get_elem? order at)

  -- A job is of one of the members.
  abbrev pub IsMembers : Job → Type 0
  IsMembers j = j.1.0 < length cfg.members

  -- The slots from `next` on, at most `depth` of them.
  pub record Window {T : Type 0} (s : State T) : Type 0 where
    pub lined : Lined s.order s.next s.admitted (outline s.slots)
    pub narrow : s.admitted ≤ s.next + cfg.depth
    pub ranged : All (λ e. e < length cfg.boundaries) s.order
    pub previous : (i : ℕ) → i < length cfg.members → s.prev_anchor i ≡ preceding i s.order s.next

module _ {T : Type 0} (Made : ℕ → ℕ → Produce T → Type 0) where
  abbrev pub KeptAt : ℕ → Option (ℕ × T × ℕ) → Type 0
  KeptAt i none = Unit
  KeptAt i (some (anchor, d, bytes)) = Made i anchor (produced d bytes)

-- `Made member anchor` are the outcomes that the member's decode at the anchor may have.
module _ {T : Type 0} (cfg : Config) (w : Wording) (Made : ℕ → ℕ → Produce T → Type 0) where
  -- The status of a finished cell is an outcome of its member at its anchor.
  abbrev pub GenuineStatus : CellKey → CellStatus T → Type 0
  GenuineStatus k (ready d bytes) = Made k.0 k.1 (produced d bytes)
  GenuineStatus k (CellStatus.failed (some e)) =
      (p : Produce T) × Made k.0 k.1 p × (caught w cfg k p ≡ some (err e))
  GenuineStatus k (CellStatus.failed none) = ⊥
  GenuineStatus k _ = Unit

  abbrev pub GenuineAt : CellKey → Option (Cell T) → Type 0
  GenuineAt k none = Unit
  GenuineAt k (some c) = GenuineStatus k c.status

  -- The samples, with `count k` slots that hold sample `k`.
  pub record Samples (count : CellKey → ℕ) (jobs : List Job) (s : State T) : Type 0 where
    pub counted : (k : CellKey) → CountedAt (count k) (lookup k s.cells)
    pub genuine : (k : CellKey) → GenuineAt k (lookup k s.cells)
    pub tracked : (k : CellKey) → TrackedAt s.generation s.queue jobs k (lookup k s.cells)
    pub kept : (i : ℕ) → KeptAt Made i (s.last_taken i)
    pub listed : All (IsMembers cfg) s.queue
    pub staff : All (IsMembers cfg) jobs

  pub record IsSound (jobs : List Job) (s : State T) : Type 0 where
    pub samples : Samples (λ k. references k (outline s.slots)) jobs s
    pub window : Window cfg s
