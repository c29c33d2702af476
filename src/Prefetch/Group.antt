-- ===== src/Prefetch/Group.antt =====
-- prefetch.rs: the calls of the consumer. Each holds the lock from start to end, but for the waits
-- on `done`: `blocks` says that the call waits there, and it is made again after a later wake-up.
use earth_sci_io.Prelude.{
  Bool, List, Option, Text, [], codes, decimal, false, get_elem?, if◌then◌else◌, leb, length,
  list_eq, none, prod_eq, range_from, some, suc, true, zero, ℕ, ℕ_eq, ◌&&◌, ◌++◌, ◌==◌, ◌∷◌,
}
use earth_sci_io.Exec.{Result, and_then, err, ok, ok_or}
use earth_sci_io.Error.{Error, prefetch}
use earth_sci_io.Prefetch.State.{Config, Phase, State, end_order, head_done, is_active, is_closed}
use earth_sci_io.Prefetch.Admit.{admit}

pub data Order : Type 0 where
  forward : Order
  reverse : Order
  explicit : List ℕ → Order

pub data Outcome (A : Type 0) : Type 0 where
  blocks : Outcome A
  panics : Outcome A
  raises : Error → Outcome A
  returns : A → Outcome A

abbrev pub prefetch_err : Text → Error
prefetch_err detail = prefetch detail

unfoldable pub closed_err : Error
closed_err = prefetch_err (codes "the group is closed")

unfoldable pub range_down : ℕ → List ℕ
range_down zero = []
range_down (suc n) = n ∷ range_down n

-- The first epoch out of range.
unfoldable pub find_bad : ℕ → List ℕ → Option ℕ
find_bad n [] = none
find_bad n (e ∷ es) = if leb n e then some e else find_bad n es

pub out_of_range : (bad n : ℕ) → Error
out_of_range bad n = prefetch_err (
    codes "epoch "
    ++ (decimal bad
        ++ (codes " is out of range: the group has "
            ++ (decimal n ++ (codes " epochs (0.." ++ (decimal n ++ codes ")"))))))

unfoldable pub checked_explicit : ℕ → List ℕ → Option ℕ → Result Error (List ℕ)
checked_explicit n v (some bad) = err (out_of_range bad n)
checked_explicit n v none = ok v

unfoldable pub sequence : ℕ → Order → Result Error (List ℕ)
sequence n forward = ok (range_from 0 n)
sequence n reverse = ok (range_down n)
sequence n (explicit []) =
    err (prefetch_err (codes "an explicit order must name at least one epoch"))
sequence n (explicit (e ∷ es)) = checked_explicit n (e ∷ es) (find_bad n (e ∷ es))

-- The order from its first entry equal to `from` on.
unfoldable pub drop_until : ℕ → List ℕ → Option (List ℕ)
drop_until from [] = none
drop_until from (e ∷ es) = if e == from then some (e ∷ es) else drop_until from es

pub not_in_order : ℕ → Error
not_in_order from = prefetch_err (
    codes "start(from = "
    ++ (decimal from ++ (codes "): epoch " ++ (decimal from ++ codes " is not in the order"))))

unfoldable pub trimmed : Option ℕ → List ℕ → Result Error (List ℕ)
trimmed none seq = ok seq
trimmed (some from) seq = ok_or (not_in_order from) (drop_until from seq)

-- The order that `start` declares.
unfoldable pub declared : Config → Order → Option ℕ → Result Error (List ℕ)
unfolding closed_err range_down find_bad out_of_range checked_explicit sequence drop_until
    not_in_order trimmed
declared cfg order from = and_then (sequence (length cfg.boundaries) order) (trimmed from)

is_next : Option ℕ → ℕ → Bool
is_next none k = false
is_next (some e) k = e == k

module _ {T : Type 0} where
  unfoldable pub after : {A : Type 0} → A → State T → Option (State T) → Outcome A × State T
  after a s (some t) = (returns a, t)
  after a s none = (panics, s)

  unfoldable pub begin : Config → List ℕ → State T → Outcome Unit × State T
  unfolding after
  begin cfg seq s =
      if is_closed s.phase
      then (raises closed_err, s)
      else after tt s (admit cfg (record (end_order Phase.active s) { order = seq }))

  unfoldable pub start_with : Config → Result Error (List ℕ) → State T → Outcome Unit × State T
  unfolding begin
  start_with cfg (err e) s = (raises e, s)
  start_with cfg (ok seq) s = begin cfg seq s

  -- PrefetchGroup::start
  unfoldable pub start : Config → Order → Option ℕ → State T → Outcome Unit × State T
  unfolding closed_err after begin start_with
  start cfg order from s = start_with cfg (declared cfg order from) s

  -- PrefetchGroup::ready
  unfoldable pub is_ready : ℕ → State T → Option Bool
  unfolding is_next
  is_ready k s =
      if is_active s.phase && is_next (get_elem? s.order s.next) k then head_done s else some false

  unfoldable pub cancel_if : Bool → State T → State T
  cancel_if true s = s
  cancel_if false s = end_order Phase.cancelled s

  -- PrefetchGroup::cancel
  unfoldable pub cancel : State T → State T
  unfolding cancel_if
  cancel s = cancel_if (is_closed s.phase) s

  -- The wait of `cancel(true)` and of `close`.
  unfoldable pub is_drained : State T → Bool
  is_drained s = s.running == 0

  unfoldable pub close_if : Bool → State T → State T
  close_if true s = s
  close_if false s = end_order Phase.closed s

  -- PrefetchGroup::close, before its wait
  unfoldable pub close_order : State T → State T
  unfolding close_if
  close_order s = close_if (is_closed s.phase) s

  -- PrefetchGroup::close, after its wait
  unfoldable pub shut_down : State T → State T
  shut_down s = record s { shutdown = true }

  -- The destructor does not wait.
  unfoldable pub drop_group : State T → State T
  unfolding close_order shut_down
  drop_group s = shut_down (close_order s)
