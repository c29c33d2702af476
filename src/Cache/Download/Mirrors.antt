-- ===== src/Cache/Download/Mirrors.antt =====
-- cache.rs, `download_locked_with`: the sources are tried in order.
use earth_sci_io.Prelude.{
  Bool, List, Option, Text, [], all, and_assoc, and_true, ap, append_nil, get_elem?, is_none,
  list_eq, not, or_false, or_true, refl, subst, sym, ℕ_eq, ◌&&◌, ◌++◌, ◌||◌, ◌∙◌, ◌∷◌, ◌≡◌,
}
use earth_sci_io.Exec.{Exec, Result, err}
use earth_sci_io.FileSystem.{World}
use earth_sci_io.Error.{Error, is_not_found}
use earth_sci_io.Manifest.{Manifest}
use earth_sci_io.External.{External}
use earth_sci_io.Auth.{AuthResolver}
use earth_sci_io.Transport.{Conditional}
use earth_sci_io.Cache.Request.{Cache, CachedBlob, FetchRequest}
use earth_sci_io.Cache.Download.{
  Failures, add_failure, all_failed, attempt, committed, failed, no_failures, settle, try_sources,
}

module _ (X : External) (C : Cache) (key : Text) (req : FetchRequest) (prior : Option Manifest)
    (cond : Conditional) (auth : Option AuthResolver) where
  abbrev sources : List Text → Failures → Exec Error World CachedBlob
  sources srcs f = try_sources X C key req prior cond srcs auth f

  -- Each of the sources fails in turn, in the worlds and with the failures that result; the last
  -- index says of each whether it reported that the object does not exist.
  pub data AllFail : List Text → Failures → World → Failures → World → List Bool → Type 0 where
    exhausted : {f : Failures} {w : World} → AllFail [] f w f w []
    fails :
        {src : Text} {srcs : List Text} {f f' : Failures} {w w' v : World} {absents : List Bool}
        → (e : Error) → (absent : Bool)
        → attempt X C key req prior cond src auth w ≡ (failed e absent, w')
        → AllFail srcs (add_failure e absent f) w' f' v absents
        → AllFail (src ∷ srcs) f w f' v (absent ∷ absents)

  next :
      (src : Text) (rest : List Text) (f : Failures) (w : World)
      → sources (src ∷ rest) f w
        ≡ settle X C key req prior cond (sources rest) f (attempt X C key req prior cond src auth w)
  next src rest f w = unfold try_sources in refl

  failing :
      (rest : List Text) (f : Failures) (e : Error) (absent : Bool) (w : World)
      → settle X C key req prior cond (sources rest) f (failed e absent, w)
        ≡ sources rest (add_failure e absent f) w
  failing rest f e absent w = unfold settle in refl

  delivering :
      (rest : List Text) (f : Failures) (r : Result Error CachedBlob) (w : World)
      → settle X C key req prior cond (sources rest) f (committed r, w) ≡ (r, w)
  delivering rest f r w = unfold settle in refl

  -- Sources that fail are passed over: the rest are tried as if they stood alone, in the world and
  -- with the failures that are left.
  try_sources-AllFail :
      (srcs rest : List Text) {f f' : Failures} {w w' : World} {absents : List Bool}
      → AllFail srcs f w f' w' absents
      → sources (srcs ++ rest) f w ≡ sources rest f' w'
  try_sources-AllFail [] rest exhausted = refl
  try_sources-AllFail (src ∷ srcs) rest {f = f} {w = w} (fails e absent h later) =
      next src (srcs ++ rest) f w
      ∙ ap (settle X C key req prior cond (sources (srcs ++ rest)) f) h
      ∙ failing (srcs ++ rest) f e absent _
      ∙ try_sources-AllFail srcs rest later

  -- After sources that failed, the first one that delivers decides the result and the world, whatever
  -- sources come after it.
  pub try_sources_failover :
      (srcs : List Text) (src : Text) (rest : List Text) {f f' : Failures} {w w' v : World}
      {absents : List Bool} (r : Result Error CachedBlob)
      → AllFail srcs f w f' w' absents
      → attempt X C key req prior cond src auth w' ≡ (committed r, v)
      → sources (srcs ++ src ∷ rest) f w ≡ (r, v)
  try_sources_failover srcs src rest {f' = f'} {w' = w'} {v = v} r all_fail h =
      try_sources-AllFail srcs (src ∷ rest) all_fail
      ∙ next src rest f' w'
      ∙ ap (settle X C key req prior cond (sources rest) f') h
      ∙ delivering rest f' r v

  -- What the failures say once every source has failed.
  AllFail-failures :
      (srcs : List Text) {f f' : Failures} {w w' : World} {absents : List Bool}
      → AllFail srcs f w f' w' absents
      → (f'.all_not_found ≡ (f.all_not_found && all (λ a. a) absents))
        × (f'.attempted ≡ (f.attempted || not (is_none (get_elem? absents 0))))
  unfolding add_failure
  AllFail-failures [] {f = f} exhausted = (and_true f.all_not_found, or_false f.attempted)
  AllFail-failures (src ∷ srcs) {f = f} (fails {absents = absents} e a h later) =
      let (nf, tried) = AllFail-failures srcs later in
      (nf ∙ and_assoc f.all_not_found a (all (λ a. a) absents), tried ∙ sym (or_true f.attempted))

  -- When every source fails, the error says that the object was not found exactly when each of
  -- them reported its absence.
  pub try_sources_not_found :
      (src : Text) (srcs : List Text) {f : Failures} {w w' : World} (absent : Bool)
      (absents : List Bool)
      → AllFail (src ∷ srcs) no_failures w f w' (absent ∷ absents)
      → ((sources (src ∷ srcs) no_failures w).1 ≡ w')
        × (e : Error) × ((sources (src ∷ srcs) no_failures w).0 ≡ err e)
        × (is_not_found e ≡ all (λ a. a) (absent ∷ absents))
  try_sources_not_found src srcs {f = f} {w = w} {w' = w'} absent absents h =
      let all_tried : sources (src ∷ srcs) no_failures w ≡ (err (all_failed X req f), w') =
        subst (λ l. sources l no_failures w ≡ (err (all_failed X req f), w'))
          (append_nil (src ∷ srcs))
          (try_sources-AllFail (src ∷ srcs) [] h ∙ unfold try_sources in refl) in
      let (nf, tried) = AllFail-failures (src ∷ srcs) h in
      (ap (λ r. r.1) all_tried, all_failed X req f, ap (λ r. r.0) all_tried, not_found f nf tried)
    where
      not_found :
          (g : Failures)
          → g.all_not_found ≡ all (λ a. a) (absent ∷ absents)
          → g.attempted ≡ not (is_none (get_elem? (absent ∷ absents) 0))
          → is_not_found (all_failed X req g) ≡ all (λ a. a) (absent ∷ absents)
      not_found g nf tried = unfold all_failed is_not_found in rw (nf, tried) refl
