-- ===== src/Compose/App/ServiceSteps/Proceeds.antt =====
-- compose/app.ts: a step can be computed for each pair that has a container or a target.
use balena_supervisor.Common.{
  Bool, true, ◌&&◌, ◌||◌, Option, none, some, ◌≡◌, refl, inl, inr, is_some, some_and, Bool-cases,
}
use balena_supervisor.Common.Results.{Result, Returns}
use balena_supervisor.Compose.Service.{Service}
use balena_supervisor.Compose.Steps.{CompositionStep}
use balena_supervisor.Compose.Strategies.Laws.{get_steps_from_strategy_total}
use balena_supervisor.Compose.App.Types.{ContainerIds, ChangingPair}
use balena_supervisor.Compose.App.Components.{is_stopping}
use balena_supervisor.Compose.App.ServiceSteps.{
  Context, is_dead, strategy_context, needs_download, is_downloading, replace_step, same_container,
  update_step, active_step, some_step, generate_steps_for_service, service_has_network_or_volume,
}

-- a container or a target
abbrev pub has_side : ChangingPair Service → Bool
has_side pair = is_some pair.current || is_some pair.target

some_step-Returns : (r : Result CompositionStep) → Returns r → Returns (some_step r)
some_step-Returns r (step, e) = (some step, rw e)

replace_step-Returns :
    (c : Service) (target : Option Service) (x : Context) → Returns (replace_step c target x)
unfolding replace_step
replace_step-Returns c none x =
    get_steps_from_strategy_total c (strategy_context c none x (service_has_network_or_volume c x))
replace_step-Returns c (some t) x =
    get_steps_from_strategy_total t
      (strategy_context c (some t) x (service_has_network_or_volume c x))

module _ (same_config : Service → Service → ContainerIds → Bool) where
  update_step-Returns :
      (c : Service) (target : Option Service) (x : Context)
      → Returns (update_step same_config c target x)
  update_step-Returns c none x = some_step-Returns _ (replace_step-Returns c none x)
  update_step-Returns c (some t) x = elim (Bool-cases (same_container same_config c (some t) x)) [
    | inl e ↦ rw e (_, refl)
    | inr e ↦ rw e (some_step-Returns _ (replace_step-Returns c (some t) x))
  ]

  active_step-Returns :
      (current target : Option Service) (x : Context)
      → (is_some current || is_some target) ≡ true
      → Returns (active_step same_config (record { current = current; target = target }) x)
  active_step-Returns none none x h = cc
  active_step-Returns none (some t) x h = (_, refl)
  active_step-Returns (some c) target x h = update_step-Returns c target x

  -- A step, or none, is computed for every pair that has a container or a target.
  pub generate_steps_for_service-Returns :
      (x : Context) (pair : ChangingPair Service)
      → has_side pair ≡ true
      → Returns (generate_steps_for_service same_config pair x)
  unfolding generate_steps_for_service
  generate_steps_for_service-Returns x pair h =
      elim (Bool-cases (some_and pair.current (λ c. is_stopping c.status))) [
        | inl e ↦ rw e (_, refl)
        | inr e ↦ rw e (elim (Bool-cases (some_and pair.current (λ c. is_dead c.status))) [
          | inl d ↦ rw d (_, refl)
          | inr d ↦
              rw d
                (elim (Bool-cases (needs_download x pair.target && is_downloading x pair.target)) [
                  | inl w ↦ rw w (_, refl)
                  | inr w ↦ rw w (active_step-Returns pair.current pair.target x h)
                ])
        ])
      ]
