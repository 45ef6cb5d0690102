-- ===== src/Compose/App/Plan/Volumes.antt =====
-- compose/app.ts: when an update removes a volume or a network.
use balena_supervisor.Common.{Bool, false, List, ◌≡◌, All, Member, any}
use balena_supervisor.Common.Results.{ok, at_ok}
use balena_supervisor.Compose.Service.{Service, has_network, has_volume}
use balena_supervisor.Compose.Steps.{CompositionStep, remove_network, remove_volume}
use balena_supervisor.Compose.App.Types.{App, ContainerIds, UpdateState}
use balena_supervisor.Compose.App.Plan.{all_pairs, commit_steps, next_steps_for_app_update}
use balena_supervisor.Compose.App.Plan.Steps.{
  IsServiceStep, IsReplaced, steps_for_pairs-All, next_steps-IsPlanned,
}
use mathlib.Core.List.{[], ◌∷◌}
use native.Mathlib.Omega.{arith}

-- When a volume or a network may be removed.
module _ (this target : App) where
  abbrev pub RemovesSafely : CompositionStep → Type 0
  RemovesSafely (remove_volume v) =
      IsReplaced this target v × (any (λ s. has_volume s v.name) this.services ≡ false)
  RemovesSafely (remove_network n) =
      Member n this.networks × (any (λ s. has_network s n.name) this.services ≡ false)
  RemovesSafely _ = Unit

  service_step-RemovesSafely : (step : CompositionStep) → IsServiceStep step → RemovesSafely step
  service_step-RemovesSafely (remove_volume v) h = absurd h
  service_step-RemovesSafely (remove_network n) h = absurd h
  service_step-RemovesSafely _ h = tt

  commit_steps-RemovesSafely :
      (steps : List CompositionStep)
      → All RemovesSafely steps
      → All RemovesSafely (commit_steps this target steps)
  unfolding commit_steps
  commit_steps-RemovesSafely [] h = ground arith
  commit_steps-RemovesSafely (s ∷ steps) h = h

-- An update removes a volume only if the target has one of its name that is configured otherwise,
-- and a volume or a network only if no container of the app uses it.
pub next_steps-RemovesSafely :
    (same_config : Service → Service → ContainerIds → Bool) (state : UpdateState)
    (this target : App) (steps : List CompositionStep)
    → next_steps_for_app_update same_config state this target ≡ ok steps
    → All (RemovesSafely this target) steps
next_steps-RemovesSafely same_config state this target steps e =
    let p = next_steps-IsPlanned same_config state this target steps e in
    let planned =
      at_ok (All (RemovesSafely this target)) _ p.planned
        (steps_for_pairs-All same_config state this (record target { services = p.migrated })
          (RemovesSafely this target) (service_step-RemovesSafely this target) (λ s. tt) (λ v. tt)
          (λ n. tt) (λ v r u. (r, u)) (λ n m u. (m, u)) (all_pairs p.pairs))
        p.computed in
    rw (← p.finished) (commit_steps-RemovesSafely this target p.planned planned)
