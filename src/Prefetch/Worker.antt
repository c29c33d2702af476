-- ===== src/Prefetch/Worker.antt =====
-- prefetch.rs: the decode worker and the fetcher. Each round of a worker holds the lock twice: `pick`
-- is the part before the decode, `finish` the part after it.
use earth_sci_io.Prelude.{
  List, Option, Text, [], codes, get_elem?, if◌then◌else◌, insert, length, list_eq, lookup, ltb,
  none, prod_eq, some, suc, zero, ℕ, ℕ_eq, ◌++◌, ◌+◌, ◌==◌, ◌∷◌,
}
use earth_sci_io.Exec.{Result, err, ok, option_then}
use earth_sci_io.Error.{Error}
use earth_sci_io.Prefetch.Take.{update}
use earth_sci_io.Prefetch.State.{Cell, CellKey, CellStatus, Config, FileRef, State, ready}
use earth_sci_io.Prefetch.Settle.{settle}
use earth_sci_io.Prefetch.Admit.{admit}
use earth_sci_io.Prefetch.Group.{prefetch_err}

-- What `produce` comes to under `catch_unwind`: a sample with its bytes, an error, or a panic.
pub data Produce (T : Type 0) : Type 0 where
  produced : T → (bytes : ℕ) → Produce T
  refused : Error → Produce T
  panicked : Text → Produce T

pub data Round (A : Type 0) : Type 0 where
  stops : Round A
  waits : Round A
  skips : Round A
  works : A → Round A

abbrev pub Job : Type 0
Job = ℕ × CellKey

module _ {T : Type 0} where
  unfoldable pub run_cell : Job → Option (Cell T) → State T → Round Job × State T
  run_cell j none s = (skips, s)
  run_cell j (some c) s = (
    works j,
    record s {
      cells = insert j.1 (record c { status = CellStatus.running }) s.cells;
      running = s.running + 1;
    },
  )

  unfoldable pub pick_from : List Job → State T → Round Job × State T
  unfolding run_cell
  pick_from [] s = (waits, s)
  pick_from (j ∷ rest) s =
      let t : State T = record s { queue = rest } in
      if j.0 == s.generation then run_cell j (lookup j.1 s.cells) t else (skips, t)

  -- The round of a worker up to its decode.
  unfoldable pub pick : State T → Round Job × State T
  unfolding run_cell pick_from
  pick s = if s.shutdown then (stops, s) else pick_from s.queue s

-- `running -= 1`; `none` is the overflow.
unfoldable pub fewer : ℕ → Option ℕ
fewer zero = none
fewer (suc n) = some n

-- The texts of a panic: `{:?}` of the member's key, and the anchor as it prints.
pub record Wording : Type 0 where
  pub debug : Text → Text
  pub instant : ℕ → Text

pub panic_err : Wording → (key : Text) → (anchor : ℕ) → (text : Text) → Error
panic_err w key anchor text = prefetch_err (
    codes "producing member "
    ++ (w.debug key
        ++ (codes "'s sample at anchor " ++ (w.instant anchor ++ (codes " panicked: " ++ text)))))

module _ {T : Type 0} where
  -- What the worker has in hand after `unwrap_or_else`.
  -- `none` is the panic of `cfg.members[key.0]`.
  unfoldable pub caught : Wording → Config → CellKey → Produce T → Option (Result Error (T × ℕ))
  unfolding panic_err
  caught w cfg k (produced d bytes) = some (ok (d, bytes))
  caught w cfg k (refused e) = some (err e)
  caught w cfg k (panicked text) =
      option_then (get_elem? cfg.members k.0) λ key. some (err (panic_err w key k.1 text))

  unfoldable pub sized : CellKey → Cell T → T → ℕ → State T → State T
  unfolding update
  sized k c d bytes s = record s {
    cells = insert k (record c { status = ready d bytes }) s.cells;
    last_size = update s.last_size k.0 (some bytes);
    stats = record s.stats { samples_decoded = s.stats.samples_decoded + 1 };
  }

  -- The cell takes the outcome; `none` is the panic of `last_size[key.0]`, which has a place for
  -- each member.
  unfoldable pub store :
      Config → CellKey → Cell T → Result Error (T × ℕ) → State T → Option (State T)
  unfolding sized
  store cfg k c (ok (d, bytes)) s =
      if ltb k.0 (length cfg.members) then some (sized k c d bytes s) else none
  store cfg k c (err e) s =
      some
        (record s { cells = insert k (record c { status = CellStatus.failed (some e) }) s.cells })

  unfoldable pub finish_at :
      Config → CellKey → Option (Cell T) → Result Error (T × ℕ) → State T → Option (State T)
  unfolding store
  finish_at cfg k none outcome s = some s
  finish_at cfg k (some c) outcome s =
      option_then (store cfg k c outcome s) λ t. option_then (settle cfg t) (admit cfg)

  unfoldable pub finish_live : Config → Job → Result Error (T × ℕ) → State T → Option (State T)
  unfolding finish_at
  finish_live cfg j outcome s =
      if j.0 == s.generation then finish_at cfg j.1 (lookup j.1 s.cells) outcome s else some s

  -- The round of a worker from its outcome on; `none` is a panic.
  unfoldable pub finish : Config → Job → Result Error (T × ℕ) → State T → Option (State T)
  unfolding store finish_at finish_live fewer
  finish cfg j outcome s =
      option_then (fewer s.running) λ n. finish_live cfg j outcome (record s { running = n })

  -- The round from what the decode comes to.
  unfoldable pub conclude : Wording → Config → Job → Produce T → State T → Option (State T)
  unfolding caught finish
  conclude w cfg j p s = option_then (caught w cfg j.1 p) λ outcome. finish cfg j outcome s

  unfoldable pub fetch_from : List (ℕ × ℕ × FileRef) → State T → Round (ℕ × FileRef) × State T
  fetch_from [] s = (waits, s)
  fetch_from ((generation, i, file) ∷ rest) s = (
    if generation == s.generation then works (i, file) else skips,
    record s { fetch_queue = rest },
  )

  -- The round of the fetcher up to its download, whose result is dropped.
  unfoldable pub fetch_next : State T → Round (ℕ × FileRef) × State T
  unfolding fetch_from
  fetch_next s = if s.shutdown then (stops, s) else fetch_from s.fetch_queue s
