-- ===== src/Compose/ApplicationManager/Infer/Network.antt =====
-- compose/application-manager.ts: what comes before everything else while the network of the
-- supervisor is missing.
use balena_supervisor.Common.{
  Bool, true, false, List, [], ◌∷◌, ◌≡◌, refl, subst, inl, inr, Bool-cases, All, All-flat_map_of,
  All_of_Member, Member, is_empty, any,
}
use mathlib.Core.List.{flat_map}
use balena_supervisor.Common.Results.{ok, ok_injective}
use balena_supervisor.Compose.Service.{Service}
use balena_supervisor.Compose.Steps.{CompositionStep, kill, noop, ensure_supervisor_network}
use balena_supervisor.Compose.App.Types.{ContainerIds}
use balena_supervisor.Compose.App.Components.{is_stopping}
use balena_supervisor.Compose.ApplicationManager.Types.{Apps, all_services}
use balena_supervisor.Compose.ApplicationManager.Infer.Finish.{infer_next_steps-finish, finish-All}
use balena_supervisor.Compose.ApplicationManager.Infer.{
  Options, uses_api, api_step, kill_services_using_api, network_steps, planned_steps,
  infer_next_steps,
}

-- A service that uses the API is killed, or waited for; the network is created once there is none.
abbrev pub IsNetworkStep : Apps → CompositionStep → Type 0
IsNetworkStep current (kill s) = Member s (all_services current) × (uses_api s ≡ true)
IsNetworkStep current ensure_supervisor_network = any uses_api (all_services current) ≡ false
IsNetworkStep current noop = Unit
IsNetworkStep current _ = ⊥

api_step-IsNetworkStep :
    (current : Apps) (s : Service)
    → Member s (all_services current)
    → All (IsNetworkStep current) (api_step s)
unfolding api_step
api_step-IsNetworkStep current s m = elim (Bool-cases (uses_api s)) [
  | inr e ↦ rw e tt
  | inl e ↦ elim (Bool-cases (is_stopping s.status)) [
    | inl d ↦ rw (e, d) (tt, tt)
    | inr d ↦ rw (e, d) ((m, e), tt)
  ]
]

no_api :
    (services : List Service)
    → is_empty (flat_map api_step services) ≡ true
    → any uses_api services ≡ false
unfolding flat_map api_step
no_api [] h = refl
no_api (s ∷ services) h = elim (Bool-cases (uses_api s)) [
  | inr e ↦ rw e (no_api services (rw e at h))
  | inl e ↦ elim (Bool-cases (is_stopping s.status)) [
    | inl d ↦ absurd (let k = rw (e, d) at h in cc k)
    | inr d ↦ absurd (let k = rw (e, d) at h in cc k)
  ]
]

pub network_steps-All : (current : Apps) → All (IsNetworkStep current) (network_steps current)
unfolding network_steps kill_services_using_api
network_steps-All current = elim (Bool-cases (is_empty (kill_services_using_api current))) [
  | inl e ↦ let done = no_api (all_services current) e in rw e (done, tt)
  | inr e ↦ rw e (
      All-flat_map_of (IsNetworkStep current) api_step (all_services current)
        (All_of_Member _ _ (api_step-IsNetworkStep current)))
]

-- While the network of the supervisor is missing, the only steps are to kill the services that use
-- its API, to wait for them, and, where no service uses it, to create the network.
pub infer_next_steps-IsNetworkStep :
    (same_config : Service → Service → ContainerIds → Bool) (o : Options) (current target : Apps)
    (steps : List CompositionStep)
    → infer_next_steps same_config o current target ≡ ok steps
    → o.supervisor_network_ready ≡ false
    → All (IsNetworkStep current) steps
unfolding planned_steps
infer_next_steps-IsNetworkStep same_config o current target steps e missing =
    let (planned, computed, finished) =
      infer_next_steps-finish same_config o current target steps e in
    let first = rw missing at computed in
    rw (← finished) (
      finish-All (IsNetworkStep current) tt o planned
        (subst (All (IsNetworkStep current)) (ok_injective first) (network_steps-All current)))
