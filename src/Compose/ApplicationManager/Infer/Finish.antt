-- ===== src/Compose/ApplicationManager/Infer/Finish.antt =====
-- compose/application-manager.ts: `inferNextSteps` finishes the steps that it has planned.
use balena_supervisor.Common.{Bool, List, ◌≡◌, All}
use balena_supervisor.Common.Results.{ok, >>=-eq-ok, ok_injective}
use balena_supervisor.Compose.Service.{Service}
use balena_supervisor.Compose.Steps.{CompositionStep, noop}
use balena_supervisor.Compose.App.Types.{ContainerIds}
use balena_supervisor.Compose.ApplicationManager.Types.{Apps}
use balena_supervisor.Compose.ApplicationManager.Downloads.Bounds.{limit_deltas-All, keep_alive-All}
use balena_supervisor.Compose.ApplicationManager.Infer.{
  Options, planned_steps, finish, infer_next_steps,
}

pub infer_next_steps-finish :
    (same_config : Service → Service → ContainerIds → Bool) (o : Options) (current target : Apps)
    (steps : List CompositionStep)
    → infer_next_steps same_config o current target ≡ ok steps
    → (planned : List CompositionStep) × (planned_steps same_config o current target ≡ ok planned)
      × (finish o planned ≡ steps)
unfolding infer_next_steps
infer_next_steps-finish same_config o current target steps e =
    let (planned, computed, same) =
      >>=-eq-ok (planned_steps same_config o current target) (λ s. ok (finish o s)) e in
    (planned, computed, ok_injective same)

-- what holds of the planned steps and of waiting holds of all steps
pub finish-All :
    (P : CompositionStep → Type 0)
    → P noop
    → (o : Options) (steps : List CompositionStep) → All P steps
    → All P (finish o steps)
unfolding finish
finish-All P idle o steps h =
    keep_alive-All P idle _ _ (limit_deltas-All o.available_images P o.delta _ steps h)
