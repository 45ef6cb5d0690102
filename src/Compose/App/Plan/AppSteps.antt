-- ===== src/Compose/App/Plan/AppSteps.antt =====
-- compose/app.ts: the kinds of steps that the planner of one app emits.
use balena_supervisor.Common.{Bool, List, [], ◌∷◌, ◌≡◌, arith, All, All_imp}
use balena_supervisor.Common.Results.{ok, at_ok}
use balena_supervisor.Compose.Service.{Service}
use balena_supervisor.Compose.Steps.{
  CompositionStep, kill, save_image, remove_image, cleanup, ensure_supervisor_network,
  remove_network, remove_volume,
}
use balena_supervisor.Compose.App.Types.{App, ContainerIds, UpdateState}
use balena_supervisor.Compose.App.Plan.{
  all_pairs, commit_steps, next_steps_for_app_update, steps_to_remove_app,
}
use balena_supervisor.Compose.App.Plan.Steps.{
  IsServiceStep, steps_for_pairs-All, next_steps-IsPlanned,
}
use balena_supervisor.Compose.App.Plan.Removal.{InOrder, steps_to_remove_app-InOrder}

-- A step on the services, networks, volumes or the commit of an app, or a fetch for it.
abbrev pub IsAppStep : CompositionStep → Type 0
IsAppStep (save_image i) = ⊥
IsAppStep (remove_image i) = ⊥
IsAppStep cleanup = ⊥
IsAppStep ensure_supervisor_network = ⊥
IsAppStep _ = Unit

service_step-IsAppStep : (step : CompositionStep) → IsServiceStep step → IsAppStep step
service_step-IsAppStep (save_image i) h = absurd h
service_step-IsAppStep (remove_image i) h = absurd h
service_step-IsAppStep cleanup h = absurd h
service_step-IsAppStep ensure_supervisor_network h = absurd h
service_step-IsAppStep _ h = tt

commit_steps-IsAppStep :
    (this target : App) (steps : List CompositionStep)
    → All IsAppStep steps
    → All IsAppStep (commit_steps this target steps)
unfolding commit_steps
commit_steps-IsAppStep this target [] h = ground arith
commit_steps-IsAppStep this target (s ∷ steps) h = h

-- The update of an app never touches images of the database or the network of the supervisor.
pub next_steps-IsAppStep :
    (same_config : Service → Service → ContainerIds → Bool) (state : UpdateState)
    (this target : App) (steps : List CompositionStep)
    → next_steps_for_app_update same_config state this target ≡ ok steps
    → All IsAppStep steps
next_steps-IsAppStep same_config state this target steps e =
    let p = next_steps-IsPlanned same_config state this target steps e in
    let planned =
      at_ok (All IsAppStep) _ p.planned
        (steps_for_pairs-All same_config state this (record target { services = p.migrated })
          IsAppStep service_step-IsAppStep (λ s. tt) (λ v. tt) (λ n. tt) (λ v r u. tt) (λ n m u. tt)
          (all_pairs p.pairs))
        p.computed in
    rw (← p.finished) (commit_steps-IsAppStep this target p.planned planned)

removal-IsAppStep :
    (app : App) (keep : Bool) (step : CompositionStep) → InOrder app keep step → IsAppStep step
removal-IsAppStep app keep (kill s) h = tt
removal-IsAppStep app keep (remove_network n) h = tt
removal-IsAppStep app keep (remove_volume v) h = tt
removal-IsAppStep app keep _ h = absurd h

pub steps_to_remove_app-IsAppStep :
    (app : App) (keep : Bool) → All IsAppStep (steps_to_remove_app app keep)
steps_to_remove_app-IsAppStep app keep =
    All_imp (InOrder app keep) IsAppStep (removal-IsAppStep app keep) _
      (steps_to_remove_app-InOrder app keep)
