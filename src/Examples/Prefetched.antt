-- ===== src/Examples/Prefetched.antt =====
-- Witnesses of the prefetch group: a schedule step by step, and what holds at its states.
use earth_sci_io.Prefetch.Take.{release, remember_taken, take}
use earth_sci_io.Prelude.{
  [], arith, get_elem?, length, list_eq, lookup, none, prod_eq, refl, some, ℕ, ℕ_eq, ◌+◌, ◌∷◌, ◌≡◌,
  ◌≢◌, ◌≤◌,
}
use earth_sci_io.Error.{Error}
use earth_sci_io.Prefetch.State.{any_failed, committed_bytes, end_order, head_done, new_state}
use earth_sci_io.Prefetch.Admit.{admit}
use earth_sci_io.Prefetch.Group.{blocks, declared, forward, start}
use earth_sci_io.Prefetch.Worker.{caught, conclude, pick}
use earth_sci_io.Prefetch.System.{
  Reach, System, Turn, finishes, new_system, opened, picks, starts, stepped, takes, works_on,
}
use earth_sci_io.Prefetch.System.Promises.{cells_counted, take_delivers, take_raises, window_bounds}
use earth_sci_io.Prefetch.System.Progress.{Turns, take_answered}
use earth_sci_io.Prefetch.Invariant.{CountedAt, Lined, outline, preceding, references}
use earth_sci_io.Prefetch.Invariant.Handover.{Delivered}
use earth_sci_io.Prefetch.Invariant.Advance.{Raised}
use earth_sci_io.Examples.Prefetching.{
  Decodes, after_first, at_10, at_10_done, at_20, at_both, at_first, at_late, at_pick, at_second,
  at_start, at_u, at_v, config, decoded, finished_v, first_epoch, job_10, job_20, job_u, job_v,
  stopped, wording,
}

reach_start : Reach config wording Decodes at_start
unfolding new_system take start new_state pick conclude declared admit end_order any_failed caught
    committed_bytes head_done release remember_taken
reach_start = stepped (opened refl) (starts forward none refl refl)

pick-Turn : Turn config wording Decodes at_start at_pick
unfolding take start new_state pick conclude declared admit end_order any_failed caught
    committed_bytes head_done release remember_taken
pick-Turn = picks job_u refl refl

reach_pick : Reach config wording Decodes at_pick
reach_pick = stepped reach_start (works_on pick-Turn)

reach_both : Reach config wording Decodes at_both
unfolding take start new_state pick conclude declared admit end_order any_failed caught
    committed_bytes head_done release remember_taken
reach_both = stepped reach_pick (works_on (picks job_v refl refl))

reach_u : Reach config wording Decodes at_u
unfolding take start new_state pick conclude declared admit end_order any_failed caught
    committed_bytes head_done release remember_taken
reach_u =
    stepped reach_both (works_on (finishes [] (job_v ∷ []) job_u (decoded 0 0) refl refl refl refl))

reach_v : Reach config wording Decodes at_v
unfolding take start new_state pick conclude declared admit end_order any_failed caught
    committed_bytes head_done release remember_taken
reach_v = stepped reach_u (works_on (finishes [] [] job_v (decoded 1 0) refl refl refl refl))

reach_first : Reach config wording Decodes at_first
unfolding take start new_state pick conclude declared admit end_order any_failed caught
    committed_bytes head_done release remember_taken
reach_first = stepped reach_v (takes 0 refl refl)

reach_10 : Reach config wording Decodes at_10
unfolding take start new_state pick conclude declared admit end_order any_failed caught
    committed_bytes head_done release remember_taken
reach_10 = stepped reach_first (works_on (picks job_10 refl refl))

reach_20 : Reach config wording Decodes at_20
unfolding take start new_state pick conclude declared admit end_order any_failed caught
    committed_bytes head_done release remember_taken
reach_20 = stepped reach_10 (works_on (picks job_20 refl refl))

reach_late : Reach config wording Decodes at_late
unfolding take start new_state pick conclude declared admit end_order any_failed caught
    committed_bytes head_done release remember_taken
reach_late =
    stepped reach_20
      (works_on (finishes (job_10 ∷ []) [] job_20 (decoded 0 20) refl refl refl refl))

reach_10_done : Reach config wording Decodes at_10_done
unfolding take start new_state pick conclude declared admit end_order any_failed caught
    committed_bytes head_done release remember_taken
reach_10_done =
    stepped reach_late (works_on (finishes [] [] job_10 (decoded 0 10) refl refl refl refl))

reach_second : Reach config wording Decodes at_second
unfolding take start new_state pick conclude declared admit end_order any_failed caught
    committed_bytes head_done release remember_taken
reach_second = stepped reach_10_done (takes 1 refl refl)

take_delivers_example :
    (first_epoch.epoch ≡ 0)
    × (get_elem? finished_v.order finished_v.next ≡ some 0)
    × Delivered config Decodes
        (λ i. preceding config i finished_v.order finished_v.next)
        0
        0
        config.members
        first_epoch.samples
    × (after_first.next ≡ finished_v.next + 1)
    × (after_first.order ≡ finished_v.order)
unfolding take start new_state pick conclude declared admit end_order any_failed caught
    committed_bytes head_done release remember_taken
take_delivers_example =
    take_delivers config wording Decodes at_v (omega arith) reach_v 0 first_epoch after_first refl

take_raises_example : Raised config wording Decodes [] 2 (Error.transport [] [])
unfolding take start new_state pick conclude declared admit end_order any_failed caught
    committed_bytes head_done release remember_taken
take_raises_example =
    take_raises config wording Decodes at_second (omega arith) reach_second 2
      (Error.transport [] []) stopped refl refl refl

cells_counted_example :
    CountedAt (references (1, 0) (outline after_first.slots)) (lookup (1, 0) after_first.cells)
cells_counted_example =
    cells_counted config wording Decodes at_first (omega arith) reach_first (1, 0)

window_bounds_example :
    (length after_first.slots ≤ 2)
    × Lined config after_first.order after_first.next after_first.admitted
        (outline after_first.slots)
window_bounds_example = window_bounds config wording Decodes at_first (omega arith) reach_first

take_answered_example :
    (t : System ℕ) × Turns config wording Decodes at_start t × ((take config 0 t.state).0 ≢ blocks)
take_answered_example =
    take_answered config wording Decodes at_start 0 (omega arith) reach_start
      (λ i anchor. (decoded i anchor, refl))
