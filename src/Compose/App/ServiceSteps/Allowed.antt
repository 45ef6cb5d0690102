-- ===== src/Compose/App/ServiceSteps/Allowed.antt =====
-- compose/app.ts: what holds whenever a step is emitted for a pair of services.
use balena_supervisor.Common.{
  String, Bool, true, false, ◌&&◌, Option, none, some, ◌≡◌, refl, ap, sym, subst, ◌⊎◌, inl, inr,
  arith, some_and, Bool-cases, IfSome, eq_iff,
}
use balena_supervisor.Common.Results.{Result, ok, thrown, Ensures, Ensures-imp, ◌>>=◌}
use balena_supervisor.Compose.Service.{Service}
use balena_supervisor.Compose.Steps.{
  CompositionStep, stop, kill, update_metadata, handover, start, fetch, noop,
}
use balena_supervisor.Compose.Strategies.{to_fetch, fetch_for, kills_early}
use balena_supervisor.Compose.Strategies.Laws.{Waits, get_steps_from_strategy-Ensures}
use balena_supervisor.Compose.App.Types.{ContainerIds, ChangingPair}
use balena_supervisor.Compose.App.Components.{is_stopping}
use balena_supervisor.Compose.App.ServiceSteps.{
  Context, is_dead, strategy_of, needs_download, is_downloading, dependencies_met_for_service_kill,
  dependencies_met_for_service_start, generate_fetch_or_start_step, generate_container_step,
  strategy_context, replace_step, same_container, update_step, active_step,
  generate_steps_for_service, service_has_network_or_volume,
}

module _ (x : Context) where
  abbrev pub Allowed : ChangingPair Service → CompositionStep → Type 0
  Allowed pair (kill s) =
      (pair.current ≡ some s)
      × ((kills_early (strategy_of pair s) ≡ true)
          ⊎ ((dependencies_met_for_service_kill x ≡ true) × (needs_download x pair.target ≡ false)))
  Allowed pair (handover s t) =
      (pair.current ≡ some s)
      × (pair.target ≡ some t)
      × (dependencies_met_for_service_start t x ≡ true)
      × (needs_download x pair.target ≡ false)
      × ((service_has_network_or_volume s x && dependencies_met_for_service_kill x) ≡ false)
  Allowed pair (fetch image name) =
      (t : Service) × (pair.target ≡ some t)
      × (fetch image name ≡ fetch_for t)
      × (needs_download x pair.target ≡ true)
      × (is_downloading x pair.target ≡ false)
  Allowed pair (start t) =
      (pair.target ≡ some t)
      × ((dependencies_met_for_service_start t x ≡ true)
          ⊎ ((c : Service) × (pair.current ≡ some c)
              × (c.config.running ≡ false)
              × (t.config.running ≡ true)
              × (c.commit ≡ t.commit)))
  Allowed pair (stop s) =
      (pair.current ≡ some s)
      × ((t : Service) × (pair.target ≡ some t) × (t.config.running ≡ false))
  Allowed pair (update_metadata s t) = (pair.current ≡ some s) × (pair.target ≡ some t)
  Allowed pair noop = Unit
  Allowed pair _ = ⊥

  abbrev NotDownloading : Option Service → Type 0
  NotDownloading target = (needs_download x target && is_downloading x target) ≡ false

  abbrev paired : Service → Option Service → ChangingPair Service
  paired c target = record { current = some c; target = target }

  Waits-Allowed :
      (c : Service) (target : Option Service) (strategy : String)
      → strategy_of (paired c target) c ≡ strategy
      → NotDownloading target
      → (step : CompositionStep)
      → Waits strategy (strategy_context c target x (service_has_network_or_volume c x)) step
      → Allowed (paired c target) step
  unfolding to_fetch needs_download
  Waits-Allowed c target strategy e n (kill s) w = ground arith
  Waits-Allowed c target strategy e n (handover s t) (same, meant, starts, ready, kept) = (
    ap some (sym same),
    meant,
    rw meant at starts,
    ready,
    subst (λ o. (service_has_network_or_volume o x && dependencies_met_for_service_kill x) ≡ false)
        (sym same) kept,
  )
  Waits-Allowed c target strategy e n (fetch image name) (t, et, d, same) =
      (t, et, same, d, ground arith)
  Waits-Allowed c target strategy e n noop w = w
  Waits-Allowed c target strategy e n _ w = absurd w

  replace_step-Allowed :
      (c : Service) (target : Option Service)
      → NotDownloading target
      → Ensures (Allowed (paired c target)) (replace_step c target x)
  unfolding replace_step
  replace_step-Allowed c target n =
      let strategy = strategy_of (paired c target) c in
      let special = service_has_network_or_volume c x in
      Ensures-imp (Waits strategy (strategy_context c target x special)) _
        (Waits-Allowed c target strategy refl n) _
        (get_steps_from_strategy-Ensures strategy (strategy_context c target x special))

  some_step-Allowed :
      (pair : ChangingPair Service) (r : Result CompositionStep)
      → Ensures (Allowed pair) r
      → Ensures (IfSome (Allowed pair)) (r >>= λ step. ok (some step))
  some_step-Allowed pair (ok step) h = h
  some_step-Allowed pair (thrown e) h = tt

  container_step-Allowed :
      (c t : Service) → IfSome (Allowed (paired c (some t))) (generate_container_step c t)
  unfolding generate_container_step
  container_step-Allowed c t = grind (arith, eq_iff c.commit t.commit)

  fetch_or_start-Allowed :
      (t : Service)
      → NotDownloading (some t)
      → IfSome
          (Allowed (record { current = none; target = some t }))
          (generate_fetch_or_start_step t (needs_download x (some t)) x)
  unfolding generate_fetch_or_start_step
  fetch_or_start-Allowed t n = grind arith

module _ (same_config : Service → Service → ContainerIds → Bool) (x : Context) where
  update_step-Allowed :
      (c : Service) (target : Option Service)
      → NotDownloading x target
      → Ensures (IfSome (Allowed x (paired x c target))) (update_step same_config c target x)
  update_step-Allowed c none n =
      some_step-Allowed x (paired x c none) (replace_step c none x)
        (replace_step-Allowed x c none n)
  update_step-Allowed c (some t) n = elim (Bool-cases (same_container same_config c (some t) x)) [
    | inl e ↦ rw e (container_step-Allowed x c t)
    | inr e ↦ rw e (
        some_step-Allowed x (paired x c (some t)) (replace_step c (some t) x)
          (replace_step-Allowed x c (some t) n))
  ]

  active_step-Allowed :
      (current target : Option Service)
      → NotDownloading x target
      → Ensures
          (IfSome (Allowed x (record { current = current; target = target })))
          (active_step same_config (record { current = current; target = target }) x)
  active_step-Allowed none none n = tt
  active_step-Allowed none (some t) n = fetch_or_start-Allowed x t n
  active_step-Allowed (some c) target n = update_step-Allowed c target n

  -- Whatever the pair, the step that is emitted for it, if any, is about its container and its
  -- target and is allowed: a kill if the strategy is to kill early or the images of the target are
  -- there; a handover to a target that may start and needs no download, of a container that need not
  -- go first for a volume or network that changes; a fetch for a target whose
  -- image is neither there nor being downloaded; the start of a target that may start, or of a
  -- stopped container of the same commit; the stop of a container that the target does not let run;
  -- a change of metadata; or no operation.
  pub generate_steps_for_service-Allowed :
      (pair : ChangingPair Service)
      → Ensures (IfSome (Allowed x pair)) (generate_steps_for_service same_config pair x)
  unfolding generate_steps_for_service
  generate_steps_for_service-Allowed pair =
      elim (Bool-cases (some_and pair.current (λ c. is_stopping c.status))) [
        | inl e ↦ rw e tt
        | inr e ↦ rw e (elim (Bool-cases (some_and pair.current (λ c. is_dead c.status))) [
          | inl d ↦ rw d tt
          | inr d ↦
              rw d
                (elim (Bool-cases (needs_download x pair.target && is_downloading x pair.target)) [
                  | inl w ↦ rw w tt
                  | inr w ↦ rw w (active_step-Allowed pair.current pair.target w)
                ])
        ])
      ]
