-- ===== src/Examples/Prefetching.antt =====
-- Tests and witnesses of the prefetch group: two members, three epochs, one of them with a longer
-- cadence, so that two epochs share its sample.
use earth_sci_io.Prefetch.Settle.{peak}
use earth_sci_io.Prefetch.System.{System}
use earth_sci_io.Prefetch.Take.{EpochSample, update}
use earth_sci_io.Prelude.{
  Bool, Option, [], codes, false, if◌then◌else◌, list_eq, none, prod_eq, some, true, ℕ, ℕ_eq, ◌*◌,
  ◌+◌, ◌==◌, ◌∷◌, ◌≡◌,
}
use earth_sci_io.Error.{Error}
use earth_sci_io.Prefetch.State.{
  Cell, CellStatus, Config, Phase, PrefetchStats, Slot, State, end_order, queued, ready,
}
use earth_sci_io.Prefetch.Worker.{Job, Produce, Wording, produced, refused}

abbrev pub config : Config
config = record {
  members = codes "U" ∷ codes "V" ∷ [];
  boundaries = 0 ∷ 10 ∷ 20 ∷ [];
  anchors = λ i epoch. if i == 0 then epoch * 10 else 0;
  depth = 2;
  max_bytes = some 100;
  fetch_ahead = 1;
  warm_files = λ i epoch. [];
}

abbrev pub wording : Wording
wording = record { debug = λ t. t; instant = λ n. [] }

-- The decode of `U` fails at the anchor 20, and yields numbers elsewhere.
abbrev pub decoded : ℕ → ℕ → Produce ℕ
decoded i anchor =
    if anchor == 20 then refused (Error.transport [] []) else produced (1000 * i + anchor) 8

abbrev pub Decodes : ℕ → ℕ → Produce ℕ → Type 0
Decodes i anchor p = p ≡ decoded i anchor

abbrev pub job_u : Job
job_u = (1, (0, 0))

abbrev pub job_v : Job
job_v = (1, (1, 0))

abbrev pub job_10 : Job
job_10 = (1, (0, 10))

abbrev pub job_20 : Job
job_20 = (1, (0, 20))

abbrev pub cell : CellStatus ℕ → ℕ → Option ℕ → Cell ℕ
cell status slots estimate = record { status = status; slots = slots; estimate = estimate }

abbrev pub slot : ℕ → ℕ → Bool → Slot
slot at anchor settled = record { pos = at; keys = (0, anchor) ∷ (1, 0) ∷ []; settled = settled }

abbrev pub counts : (peak decoded samples reused : ℕ) → PrefetchStats
counts peak decoded samples reused = record {
  peak_bytes = peak;
  epochs_decoded = decoded;
  samples_decoded = samples;
  samples_reused = reused;
  oversize_epochs = 0;
  overlap = true;
}

-- After `start`: with no size known, the first epoch alone is admitted.
abbrev pub started : State ℕ
started = record {
  phase = Phase.active;
  generation = 1;
  order = 0 ∷ 1 ∷ 2 ∷ [];
  next = 0;
  admitted = 1;
  slots = slot 0 0 false ∷ [];
  cells = ((0, 0), cell queued 1 none) ∷ ((1, 0), cell queued 1 none) ∷ [];
  queue = job_u ∷ job_v ∷ [];
  fetch_queue = [];
  fetch_end = 2;
  fetched = [];
  prev_anchor = λ _. none;
  last_taken = λ _. none;
  last_size = λ _. none;
  running = 0;
  shutdown = false;
  stats = counts 0 0 0 0;
}

abbrev pub picked : State ℕ
picked = record started {
  cells = ((0, 0), cell CellStatus.running 1 none) ∷ ((1, 0), cell queued 1 none) ∷ [];
  queue = job_v ∷ [];
  running = 1;
}

abbrev pub picked_twice : State ℕ
picked_twice = record started {
  cells = ((0, 0), cell CellStatus.running 1 none) ∷ ((1, 0), cell CellStatus.running 1 none) ∷ [];
  queue = [];
  running = 2;
}

abbrev pub finished_u : State ℕ
finished_u = record started {
  cells = ((0, 0), cell (ready 0 8) 1 none) ∷ ((1, 0), cell CellStatus.running 1 none) ∷ [];
  queue = [];
  last_size = update (λ _. none) 0 (some 8);
  running = 1;
  stats = counts 8 0 1 0;
}

-- The second epoch shares the sample of `V`.
abbrev pub finished_v : State ℕ
finished_v = record finished_u {
  admitted = 2;
  slots = slot 0 0 true ∷ slot 1 10 false ∷ [];
  cells =
      ((0, 0), cell (ready 0 8) 1 none)
      ∷ ((1, 0), cell (ready 1000 8) 2 none)
      ∷ ((0, 10), cell queued 1 (some 8))
      ∷ [];
  queue = job_10 ∷ [];
  fetch_end = 3;
  last_size = update (update (λ _. none) 0 (some 8)) 1 (some 8);
  running = 0;
  stats = counts 16 1 2 1;
}

abbrev pub after_first : State ℕ
after_first = record finished_v {
  next = 1;
  admitted = 3;
  slots = slot 1 10 false ∷ slot 2 20 false ∷ [];
  cells =
      ((1, 0), cell (ready 1000 8) 2 none)
      ∷ ((0, 10), cell queued 1 (some 8))
      ∷ ((0, 20), cell queued 1 (some 8))
      ∷ [];
  queue = job_10 ∷ job_20 ∷ [];
  prev_anchor = update (update (λ _. none) 0 (some 0)) 1 (some 0);
  last_taken = update (update (λ _. none) 0 (some (0, 0, 8))) 1 (some (0, 1000, 8));
  stats = counts 16 1 2 2;
}

abbrev pub picked_10 : State ℕ
picked_10 = record after_first {
  cells =
      ((1, 0), cell (ready 1000 8) 2 none)
      ∷ ((0, 10), cell CellStatus.running 1 (some 8))
      ∷ ((0, 20), cell queued 1 (some 8))
      ∷ [];
  queue = job_20 ∷ [];
  running = 1;
}

abbrev pub picked_20 : State ℕ
picked_20 = record after_first {
  cells =
      ((1, 0), cell (ready 1000 8) 2 none)
      ∷ ((0, 10), cell CellStatus.running 1 (some 8))
      ∷ ((0, 20), cell CellStatus.running 1 (some 8))
      ∷ [];
  queue = [];
  running = 2;
}

abbrev pub failed_20 : Cell ℕ
failed_20 = cell (CellStatus.failed (some (Error.transport [] []))) 1 (some 8)

abbrev pub finished_20 : State ℕ
finished_20 = record after_first {
  cells =
      ((1, 0), cell (ready 1000 8) 2 none)
      ∷ ((0, 10), cell CellStatus.running 1 (some 8))
      ∷ ((0, 20), failed_20)
      ∷ [];
  queue = [];
  running = 1;
}

abbrev pub finished_10 : State ℕ
finished_10 = record after_first {
  slots = slot 1 10 true ∷ slot 2 20 false ∷ [];
  cells =
      ((1, 0), cell (ready 1000 8) 2 none)
      ∷ ((0, 10), cell (ready 10 8) 1 (some 8))
      ∷ ((0, 20), failed_20)
      ∷ [];
  queue = [];
  last_size = update (update (update (λ _. none) 0 (some 8)) 1 (some 8)) 0 (some 8);
  stats = counts 16 2 3 2;
}

abbrev pub after_second : State ℕ
after_second = record finished_10 {
  next = 2;
  slots = slot 2 20 false ∷ [];
  cells = ((1, 0), cell (ready 1000 8) 1 none) ∷ ((0, 20), failed_20) ∷ [];
  prev_anchor =
      update (update (update (update (λ _. none) 0 (some 0)) 1 (some 0)) 0 (some 10)) 1 (some 0);
  last_taken = update (update after_first.last_taken 0 (some (10, 10, 8))) 1 (some (0, 1000, 8));
}

abbrev pub stopped : State ℕ
stopped = end_order (Phase.failed 2) after_second

abbrev pub at_start : System ℕ
at_start = record { state = started; jobs = [] }

abbrev pub at_pick : System ℕ
at_pick = record { state = picked; jobs = job_u ∷ [] }

abbrev pub at_both : System ℕ
at_both = record { state = picked_twice; jobs = job_u ∷ job_v ∷ [] }

abbrev pub at_u : System ℕ
at_u = record { state = finished_u; jobs = job_v ∷ [] }

abbrev pub at_v : System ℕ
at_v = record { state = finished_v; jobs = [] }

abbrev pub at_first : System ℕ
at_first = record { state = after_first; jobs = [] }

abbrev pub at_10 : System ℕ
at_10 = record { state = picked_10; jobs = job_10 ∷ [] }

abbrev pub at_20 : System ℕ
at_20 = record { state = picked_20; jobs = job_10 ∷ job_20 ∷ [] }

-- The later epoch is ready before the earlier one.
abbrev pub at_late : System ℕ
at_late = record { state = finished_20; jobs = job_10 ∷ [] }

abbrev pub at_10_done : System ℕ
at_10_done = record { state = finished_10; jobs = [] }

abbrev pub at_second : System ℕ
at_second = record { state = after_second; jobs = [] }

abbrev pub first_epoch : EpochSample ℕ
first_epoch = record {
  epoch = 0;
  samples =
      (codes "U", record { value = 0; anchor = 0; changed = true })
      ∷ (codes "V", record { value = 1000; anchor = 0; changed = true })
      ∷ [];
}
