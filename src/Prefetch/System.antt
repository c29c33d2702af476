-- ===== src/Prefetch/System.antt =====
-- prefetch.rs: the group with its threads. A step is one hold of the lock: a call of the consumer, or
-- a round of a worker, whose decode runs between `pick` and `finish` with the lock free.
pub mod Work
pub mod Laws
pub mod Promises
pub mod Progress
use earth_sci_io.Prefetch.Take.{take}
use earth_sci_io.Prelude.{List, Option, [], list_eq, prod_eq, some, true, ℕ, ℕ_eq, ◌++◌, ◌∷◌, ◌≡◌}
use earth_sci_io.Prefetch.State.{Config, State, is_closed, new_state}
use earth_sci_io.Prefetch.Group.{
  Order, after, cancel, close_order, drop_group, is_drained, shut_down, start,
}
use earth_sci_io.Prefetch.Worker.{Job, Produce, Wording, conclude, fetch_next, pick, skips, works}

pub record System (T : Type 0) : Type 0 where
  pub state : State T
  -- the decodes that run now
  pub jobs : List Job

unfoldable pub new_system : {T : Type 0} → System T
unfolding new_state
new_system = record { state = new_state; jobs = [] }

module _ {T : Type 0} (cfg : Config) (w : Wording) (Made : ℕ → ℕ → Produce T → Type 0) where
  -- A round of a decode worker.
  pub data Turn : System T → System T → Type 0 where
    picks :
        {s t : System T} (j : Job)
        → pick s.state ≡ (works j, t.state)
        → t.jobs ≡ s.jobs ++ j ∷ []
        → Turn s t
    passes : {s t : System T} → pick s.state ≡ (skips, t.state) → t.jobs ≡ s.jobs → Turn s t
    finishes :
        {s t : System T} (before after : List Job) (j : Job) (p : Produce T)
        → s.jobs ≡ before ++ j ∷ after
        → Made j.1.0 j.1.1 p
        → conclude w cfg j p s.state ≡ some t.state
        → t.jobs ≡ before ++ after
        → Turn s t

  pub data Step : System T → System T → Type 0 where
    works_on : {s t : System T} → Turn s t → Step s t
    fetches : {s t : System T} → t.state ≡ (fetch_next s.state).1 → t.jobs ≡ s.jobs → Step s t
    starts :
        {s t : System T} (order : Order) (from : Option ℕ)
        → t.state ≡ (start cfg order from s.state).1
        → t.jobs ≡ s.jobs
        → Step s t
    takes : {s t : System T} (k : ℕ) → t.state ≡ (take cfg k s.state).1 → t.jobs ≡ s.jobs → Step s t
    cancels : {s t : System T} → t.state ≡ cancel s.state → t.jobs ≡ s.jobs → Step s t
    closes : {s t : System T} → t.state ≡ close_order s.state → t.jobs ≡ s.jobs → Step s t
    -- the end of `close`, which has waited until no decode runs
    shuts :
        {s t : System T}
        → is_closed s.state.phase ≡ true
        → is_drained s.state ≡ true
        → t.state ≡ shut_down s.state
        → t.jobs ≡ s.jobs
        → Step s t
    drops : {s t : System T} → t.state ≡ drop_group s.state → t.jobs ≡ s.jobs → Step s t

  -- What the threads may come to from a new group.
  pub data Reach : System T → Type 0 where
    opened : {s : System T} → s ≡ new_system → Reach s
    stepped : {s t : System T} → Reach s → Step s t → Reach t
