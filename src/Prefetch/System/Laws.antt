-- ===== src/Prefetch/System/Laws.antt =====
-- prefetch.rs: the group with its threads, under every schedule.
use earth_sci_io.Prefetch.Take.{take}
use earth_sci_io.Prelude.{
  Bool-cases, List, [], arith, false, if◌then◌else◌, inl, inr, list_eq, prod_eq, refl, subst, sym,
  true, ℕ, ℕ_eq, ◌<◌, ◌∙◌, ◌∷◌, ◌≡◌,
}
use earth_sci_io.Exec.Inversion.{some-injective}
use earth_sci_io.Prefetch.State.{Config, FileRef, State, end_order, is_closed, new_state}
use earth_sci_io.Prefetch.Group.{after, close_if, close_order, drop_group, shut_down}
use earth_sci_io.Prefetch.Worker.{Job, Produce, Wording, fetch_from, fetch_next, stops}
use earth_sci_io.Prefetch.System.{
  Reach, Step, System, Turn, cancels, closes, drops, fetches, finishes, new_system, opened, passes,
  picks, shuts, starts, stepped, takes, works_on,
}
use earth_sci_io.Prefetch.Invariant.Calls.{
  IsConsistent, cancel-IsConsistent, close_order-IsConsistent, start-Answers,
}
use earth_sci_io.Prefetch.Invariant.Taking.{take-Takes}
use earth_sci_io.Prefetch.Invariant.Advance.{Takes}
use earth_sci_io.Prefetch.Invariant.Rounds.{Picks, pick-Picks}
use earth_sci_io.Prefetch.Invariant.Outcomes.{conclude-Finishes}

module _ {T : Type 0} where
  close_order-closed : (s : State T) → is_closed (close_order s).phase ≡ true
  unfolding close_order close_if end_order
  close_order-closed s = elim (Bool-cases (is_closed s.phase)) [
    | inl shut ↦ simp shut
    | inr usable ↦ simp usable
  ]

module _ {T : Type 0} (cfg : Config) (w : Wording) (Made : ℕ → ℕ → Produce T → Type 0) where
  new_state-IsConsistent : IsConsistent cfg w Made [] (new_state {T = T})
  unfolding new_state
  new_state-IsConsistent = record {
    sound = record {
      samples = record {
        counted = λ k. refl;
        genuine = λ k. tt;
        tracked = λ k. tt;
        kept = λ i. tt;
        listed = tt;
        staff = tt;
      };
      window = record { lined = refl; narrow = omega arith; ranged = tt; previous = λ i _. refl };
    };
    headed = λ d h. absurd (omega arith);
    busy = refl;
    staffed = λ _. refl;
  }

  fetch_from-IsConsistent :
      (jobs : List Job) (s : State T) (q : List (ℕ × ℕ × FileRef))
      → IsConsistent cfg w Made jobs s
      → IsConsistent cfg w Made jobs (fetch_from q s).1
  unfolding fetch_from
  fetch_from-IsConsistent jobs s [] v = v
  fetch_from-IsConsistent jobs s ((g, i, file) ∷ rest) v = record {
    sound = record {
      samples = record {
        counted = v.sound.samples.counted;
        genuine = v.sound.samples.genuine;
        tracked = v.sound.samples.tracked;
        kept = v.sound.samples.kept;
        listed = v.sound.samples.listed;
        staff = v.sound.samples.staff;
      };
      window = record {
        lined = v.sound.window.lined;
        narrow = v.sound.window.narrow;
        ranged = v.sound.window.ranged;
        previous = v.sound.window.previous;
      };
    };
    headed = v.headed;
    busy = v.busy;
    staffed = v.staffed;
  }

  fetch_next-IsConsistent :
      (jobs : List Job) (s : State T)
      → IsConsistent cfg w Made jobs s
      → IsConsistent cfg w Made jobs (fetch_next s).1
  unfolding fetch_next
  fetch_next-IsConsistent jobs s v =
      elim s.shutdown
        as (λ b.
          IsConsistent cfg w Made jobs (if b then (stops, s) else fetch_from s.fetch_queue s).1) [
            | true ↦ v
            | false ↦ fetch_from-IsConsistent jobs s s.fetch_queue v
          ]

  shut_down-IsConsistent :
      (jobs : List Job) (s : State T)
      → is_closed s.phase ≡ true
      → IsConsistent cfg w Made jobs s
      → IsConsistent cfg w Made jobs (shut_down s)
  unfolding shut_down
  shut_down-IsConsistent jobs s c v = record {
    sound = record {
      samples = record {
        counted = v.sound.samples.counted;
        genuine = v.sound.samples.genuine;
        tracked = v.sound.samples.tracked;
        kept = v.sound.samples.kept;
        listed = v.sound.samples.listed;
        staff = v.sound.samples.staff;
      };
      window = record {
        lined = v.sound.window.lined;
        narrow = v.sound.window.narrow;
        ranged = v.sound.window.ranged;
        previous = v.sound.window.previous;
      };
    };
    headed = v.headed;
    busy = v.busy;
    staffed = λ h. let f : true ≡ false = sym c ∙ h in absurd (cc f);
  }

  drop_group-IsConsistent :
      (jobs : List Job) (s : State T)
      → IsConsistent cfg w Made jobs s
      → IsConsistent cfg w Made jobs (drop_group s)
  unfolding drop_group
  drop_group-IsConsistent jobs s v =
      shut_down-IsConsistent jobs (close_order s) (close_order-closed s)
        (close_order-IsConsistent cfg w Made jobs s v)

  pub take-Takes_any :
      (jobs : List Job) (s : State T) (k : ℕ)
      → 0 < cfg.depth
      → IsConsistent cfg w Made jobs s
      → Takes cfg w Made jobs s k (take cfg k s)
  unfolding take
  take-Takes_any jobs s k d v = take-Takes cfg w Made jobs s k s.phase refl d v

  Turn-IsConsistent :
      {s t : System T}
      → Turn cfg w Made s t
      → IsConsistent cfg w Made s.jobs s.state
      → IsConsistent cfg w Made t.jobs t.state
  Turn-IsConsistent {s} {t} (picks j e f) v =
      rw f (subst (Picks cfg w Made s.jobs) e (pick-Picks cfg w Made s.jobs s.state v))
  Turn-IsConsistent {s} {t} (passes e f) v =
      rw f (subst (Picks cfg w Made s.jobs) e (pick-Picks cfg w Made s.jobs s.state v))
  Turn-IsConsistent {s} {t} (finishes before after j p q made e f) v =
      let held = subst (λ jobs. IsConsistent cfg w Made jobs s.state) q v in
      let r = conclude-Finishes cfg w Made before after j p s.state made held in
      rw (f, ← some-injective (sym r.result ∙ e)) r.consistent

  Step-IsConsistent :
      {s t : System T}
      → 0 < cfg.depth
      → Step cfg w Made s t
      → IsConsistent cfg w Made s.jobs s.state
      → IsConsistent cfg w Made t.jobs t.state
  Step-IsConsistent d (works_on turn) v = Turn-IsConsistent turn v
  Step-IsConsistent {s} d (fetches e f) v = rw (f, e) (fetch_next-IsConsistent s.jobs s.state v)
  Step-IsConsistent {s} d (starts order from e f) v =
      rw (f, e) (start-Answers cfg w Made s.jobs order from s.state v).consistent
  Step-IsConsistent {s} d (takes k e f) v =
      rw (f, e) (take-Takes_any s.jobs s.state k d v).consistent
  Step-IsConsistent {s} d (cancels e f) v =
      rw (f, e) (cancel-IsConsistent cfg w Made s.jobs s.state v)
  Step-IsConsistent {s} d (closes e f) v =
      rw (f, e) (close_order-IsConsistent cfg w Made s.jobs s.state v)
  Step-IsConsistent {s} d (shuts c n e f) v = rw (f, e) (shut_down-IsConsistent s.jobs s.state c v)
  Step-IsConsistent {s} d (drops e f) v = rw (f, e) (drop_group-IsConsistent s.jobs s.state v)

  pub Reach-IsConsistent :
      {s : System T} → 0 < cfg.depth → Reach cfg w Made s → IsConsistent cfg w Made s.jobs s.state
  unfolding new_system
  Reach-IsConsistent d (opened e) = rw e new_state-IsConsistent
  Reach-IsConsistent d (stepped r st) = Step-IsConsistent d st (Reach-IsConsistent d r)
