-- ===== src/Prefetch/Take.antt =====
-- prefetch.rs: `PrefetchGroup::take`.
use earth_sci_io.Prelude.{
  Bool, List, Option, Text, [], codes, decimal, false, get_elem?, if◌then◌else◌, insert, length,
  list_eq, lookup, none, not, prod_eq, remove, some, suc, true, zero, ℕ, ℕ_eq, ◌++◌, ◌+◌, ◌==◌, ◌∷◌,
}
use earth_sci_io.Exec.{option_then}
use earth_sci_io.Error.{Error}
use earth_sci_io.Prefetch.State.{
  Cell, CellKey, CellStatus, Config, Phase, Slot, State, end_order, head_done, is_failed, ready,
}
use earth_sci_io.Prefetch.Admit.{admit}
use earth_sci_io.Prefetch.Group.{Outcome, after, blocks, closed_err, panics, prefetch_err, raises}

pub record Sample (T : Type 0) : Type 0 where
  pub value : T
  pub anchor : ℕ
  pub changed : Bool

-- The samples in key order, as the map holds them: the members are sorted by key.
pub record EpochSample (T : Type 0) : Type 0 where
  pub epoch : ℕ
  pub samples : List (Text × Sample T)

unfoldable pub taking : ℕ → Text → Error
taking k detail = prefetch_err (codes "take(" ++ (decimal k ++ detail))

-- What refuses the call in a phase.
unfoldable pub refusal : ℕ → Phase → Option Error
refusal k Phase.active = none
refusal k Phase.idle =
    some (taking k (codes ") before any start: declare the order with start first"))
refusal k Phase.cancelled =
    some (taking k (codes ") after cancel: the order was dropped; call start again"))
refusal k (Phase.failed epoch) = some (
    taking k (
      codes "): the order ended when take("
      ++ (decimal epoch
          ++ (codes ") raised its stored error; call start again (start(order, Some("
              ++ (decimal (epoch + 1) ++ codes ")) resumes past it)")))))
refusal k Phase.closed = some closed_err

unfoldable pub exhausted : (k entries : ℕ) → Error
exhausted k entries = taking k (
    codes "): the order is exhausted (all "
    ++ (decimal entries ++ codes " entries taken); call start again"))

unfoldable pub not_next : (k expected : ℕ) → Error
not_next k expected =
    taking k (codes "): the next epoch in the current order is " ++ decimal expected)

unfoldable pub differs : Option ℕ → ℕ → Bool
differs none anchor = true
differs (some a) anchor = not (a == anchor)

unfoldable pub update : {A : Type 0} → (ℕ → A) → ℕ → A → ℕ → A
update f i v j = if i == j then v else f j

unfoldable pub or_default : ℕ → Option Error → Error
or_default k (some e) = e
or_default k none = taking k (codes "): a member decode failed")

module _ {T : Type 0} where
  -- The first key, in member order, whose cell failed.
  unfoldable pub find_failed : List (CellKey × Cell T) → List CellKey → Option (Option CellKey)
  find_failed cells [] = some none
  find_failed cells (k ∷ ks) =
      let rest = find_failed cells ks in
      option_then (lookup k cells) (λ c. if is_failed c.status then some (some k) else rest)

  unfoldable pub stored : Option (Cell T) → Option Error
  stored none = none
  stored (some c) = elim c.status [ CellStatus.failed e ↦ e | _ ↦ none ]

  -- One slot less; the cell is dropped with its last. `none` is the overflow of `slots -= 1`.
  unfoldable pub release : CellKey → Cell T → ℕ → State T → Option (State T)
  release k c zero s = none
  release k c (suc zero) s = some (record s { cells = remove k s.cells })
  release k c (suc (suc n)) s =
      some (record s { cells = insert k (record c { slots = suc n }) s.cells })

  -- `prev_anchor` and `last_taken` of the member
  unfoldable pub remember_taken : ℕ → ℕ → T → ℕ → State T → State T
  unfolding update
  remember_taken i anchor d bytes s = record s {
    prev_anchor = update s.prev_anchor i (some anchor);
    last_taken = update s.last_taken i (some (anchor, d, bytes));
  }

  unfoldable pub sample_at : ℕ → ℕ → T → State T → Sample T
  sample_at i anchor d s = record {
    value = d;
    anchor = anchor;
    changed = differs (s.prev_anchor i) anchor;
  }

  unfoldable pub give :
      ℕ → CellKey → Option (Cell T) → CellStatus T → State T → Option (Sample T × State T)
  give i k (some c) (ready d bytes) s =
      option_then (release k c c.slots s)
        λ t. some (sample_at i k.1 d s, remember_taken i k.1 d bytes t)
  give i k _ _ s = none

  unfoldable pub status_of : Option (Cell T) → CellStatus T
  status_of none = CellStatus.queued
  status_of (some c) = c.status

  unfoldable pub give_at : ℕ → CellKey → State T → Option (Sample T × State T)
  unfolding differs sample_at give status_of
  give_at i k s = give i k (lookup k s.cells) (status_of (lookup k s.cells)) s

  -- The loop over the head's keys; `none` is a panic.
  unfoldable pub give_all :
      ℕ → List CellKey → List Text → State T → Option (List (Text × Sample T) × State T)
  unfolding give_at
  give_all i [] ms s = some ([], s)
  give_all i (k ∷ ks) [] s = none
  give_all i (k ∷ ks) (m ∷ ms) s =
      option_then (give_at i k s)
        λ x. option_then (give_all (suc i) ks ms x.1) λ rest. some ((m, x.0) ∷ rest.0, rest.1)

  unfoldable pub advanced :
      Config
      → ℕ
      → Option (List (Text × Sample T) × State T)
      → State T
      → Outcome (EpochSample T) × State T
  advanced cfg k none s = (panics, s)
  advanced cfg k (some (samples, t)) s =
      after (record { epoch = k; samples = samples }) s (admit cfg (record t { next = t.next + 1 }))

  unfoldable pub by_failure :
      Config
      → ℕ
      → List CellKey
      → Option (Option CellKey)
      → State T
      → Outcome (EpochSample T) × State T
  by_failure cfg k keys none s = (panics, s)
  by_failure cfg k keys (some (some bad)) s =
      (raises (or_default k (stored (lookup bad s.cells))), end_order (Phase.failed k) s)
  by_failure cfg k keys (some none) s = advanced cfg k (give_all 0 keys cfg.members s) s

  -- From the head that is popped on.
  unfoldable pub deliver : Config → ℕ → List Slot → State T → Outcome (EpochSample T) × State T
  deliver cfg k [] s = (panics, s)
  deliver cfg k (head ∷ rest) s =
      by_failure cfg k head.keys (find_failed s.cells head.keys) (record s { slots = rest })

  unfoldable pub when_done : Config → ℕ → Option Bool → State T → Outcome (EpochSample T) × State T
  when_done cfg k none s = (panics, s)
  when_done cfg k (some false) s = (blocks, s)
  when_done cfg k (some true) s = deliver cfg k s.slots s

  unfoldable pub take_next : Config → ℕ → Option ℕ → State T → Outcome (EpochSample T) × State T
  take_next cfg k none s = (raises (exhausted k (length s.order)), s)
  take_next cfg k (some expected) s =
      if k == expected then when_done cfg k (head_done s) s else (raises (not_next k expected), s)

  unfoldable pub take_in : Config → ℕ → Option Error → State T → Outcome (EpochSample T) × State T
  take_in cfg k (some e) s = (raises e, s)
  take_in cfg k none s = take_next cfg k (get_elem? s.order s.next) s

  unfoldable pub take : Config → ℕ → State T → Outcome (EpochSample T) × State T
  unfolding taking refusal exhausted not_next differs find_failed stored or_default sample_at
      give_all advanced by_failure deliver when_done take_next take_in
  take cfg k s = take_in cfg k (refusal k s.phase) s
