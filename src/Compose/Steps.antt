-- ===== src/Compose/Steps.antt =====
-- compose/composition-steps.ts: the steps that the planner emits, with their arguments.
use balena_supervisor.Common.{ℕ, String, Bool, true, false}
use balena_supervisor.Compose.Service.{Service}
use balena_supervisor.Compose.Volume.{Volume}
use balena_supervisor.Compose.Network.{Network}
use balena_supervisor.Compose.Images.{Image}

-- `{ action, ...args }`, as `generateStep` builds it
pub data CompositionStep : Type 0 where
  stop kill remove : (current : Service) → CompositionStep
  update_metadata restart handover : (current target : Service) → CompositionStep
  start : (target : Service) → CompositionStep
  update_commit : (target : String) (app_id : ℕ) → CompositionStep
  fetch : (image : Image) (service_name : String) → CompositionStep
  remove_image save_image : (image : Image) → CompositionStep
  create_network : (target : Network) → CompositionStep
  create_volume : (target : Volume) → CompositionStep
  remove_network : (current : Network) → CompositionStep
  remove_volume : (current : Volume) → CompositionStep
  cleanup ensure_supervisor_network noop : CompositionStep

-- step.action === 'fetch'
abbrev pub is_fetch : CompositionStep → Bool
is_fetch (fetch image name) = true
is_fetch _ = false
