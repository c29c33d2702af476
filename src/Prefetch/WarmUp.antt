-- ===== src/Prefetch/WarmUp.antt =====
-- prefetch.rs: the disk warm-up that `State::admit` queues past the decode window.
use earth_sci_io.Prelude.{
  List, Option, Text, [], drop, if◌then◌else◌, includes, length, list_eq, ltb, max, min, none,
  prod_eq, some, suc, take, ℕ, ℕ_eq, ◌++◌, ◌+◌, ◌-◌, ◌∷◌,
}
use earth_sci_io.Exec.{option_then}
use earth_sci_io.Prefetch.State.{Config, FileRef, State, any_failed}

-- `fetched.insert`, and the file is queued where it was not in.
warm_file :
    (generation i : ℕ)
    → FileRef
    → List (ℕ × ℕ × FileRef) × List (ℕ × Text)
    → List (ℕ × ℕ × FileRef) × List (ℕ × Text)
warm_file generation i file (queue, fetched) =
    if includes (i, file.url) fetched
    then (queue, fetched)
    else (queue ++ (generation, i, file) ∷ [], (i, file.url) ∷ fetched)

warm_all :
    (generation i : ℕ)
    → List FileRef
    → List (ℕ × ℕ × FileRef) × List (ℕ × Text)
    → List (ℕ × ℕ × FileRef) × List (ℕ × Text)
warm_all generation i [] q = q
warm_all generation i (file ∷ files) q = warm_all generation i files (warm_file generation i file q)

pub warm_members :
    Config
    → (generation epoch i : ℕ) → List Text
    → List (ℕ × ℕ × FileRef) × List (ℕ × Text)
    → List (ℕ × ℕ × FileRef) × List (ℕ × Text)
warm_members cfg generation epoch i [] q = q
warm_members cfg generation epoch i (m ∷ ms) q =
    warm_members cfg generation epoch (suc i) ms (warm_all generation i (cfg.warm_files i epoch) q)

-- `none` is the panic of `cfg.boundaries[epoch]`.
unfoldable pub warm_epochs :
    Config
    → (generation : ℕ) → List ℕ
    → List (ℕ × ℕ × FileRef) × List (ℕ × Text)
    → Option (List (ℕ × ℕ × FileRef) × List (ℕ × Text))
unfolding warm_members warm_all warm_file
warm_epochs cfg generation [] q = some q
warm_epochs cfg generation (epoch ∷ epochs) q =
    let more =
      warm_epochs cfg generation epochs (warm_members cfg generation epoch 0 cfg.members q) in
    if ltb epoch (length cfg.boundaries) then more else none

module _ {T : Type 0} where
  -- Positions `start..end` of the order, where `start` is the first not warmed up yet.
  unfoldable pub warmed : (end : ℕ) → State T → List (ℕ × ℕ × FileRef) × List (ℕ × Text) → State T
  warmed end s q = record s { fetch_queue = q.0; fetched = q.1; fetch_end = max s.fetch_end end }

  unfoldable pub warm_queued : Config → State T → Option (State T)
  unfolding warm_epochs warm_members warm_all warm_file warmed
  warm_queued cfg s =
      let end : ℕ = min (s.admitted + cfg.fetch_ahead) (length s.order) in
      let start : ℕ = max s.fetch_end s.admitted in
      option_then
        (warm_epochs cfg s.generation (take (end - start) (drop start s.order))
          (s.fetch_queue, s.fetched))
        (λ q. some (warmed end s q))

  unfoldable pub warm_up : Config → State T → Option (State T)
  unfolding warm_queued warm_epochs warm_members warm_all warm_file
  warm_up cfg s =
      if ltb 0 cfg.fetch_ahead
      then option_then (any_failed s) (λ b. if b then some s else warm_queued cfg s)
      else some s
