-- ===== src/Compose/App/ServiceSteps.antt =====
-- compose/app.ts: `generateStepsForService` and the tests that it makes.
-- `same_config` is `isEqualConfig` of compose/service.ts.
pub mod Allowed
pub mod Safety
pub mod Proceeds
use mathlib.Core.Bool.{beq}
use balena_supervisor.Common.{
  String, Bool, true, false, ◌&&◌, ◌||◌, not, List, Option, none, some, str_eq, any, every, is_some,
  some_and, if◌then◌else◌,
}
use balena_supervisor.Common.Texts.{includes}
use balena_supervisor.Common.Results.{Result, ok, thrown, type_error, ◌>>=◌}
use balena_supervisor.Compose.Service.{
  Service, ServiceStatus, has_network, has_network_mode, has_volume,
}
use balena_supervisor.Compose.Volume.{Volume}
use balena_supervisor.Compose.Network.{Network}
use balena_supervisor.Compose.Images.{Image, is_same_image}
use balena_supervisor.Compose.Steps.{CompositionStep, stop, update_metadata, start, noop}
use balena_supervisor.Compose.Strategies.{
  StrategyContext, fetch_for, kills_early, get_strategy_from_service, get_steps_from_strategy,
}
use balena_supervisor.Compose.App.Types.{App, ContainerIds, ChangingPair}
use balena_supervisor.Compose.App.Components.{is_stopping}

pub record Context : Type 0 where
  pub available_images : List Image
  pub downloading : List String
  pub target_app : App
  pub container_ids : ContainerIds
  pub network_pairs : List (ChangingPair Network)
  pub volume_pairs : List (ChangingPair Volume)
  pub service_pairs : List (ChangingPair Service)

-- Is this the image of the service, by its id in the engine or by its name?
abbrev pub is_image_of : Service → Image → Bool
is_image_of s image =
    some_and image.docker_image_id (λ id. str_eq id s.config.image)
    || is_same_image image.name s.image_name

abbrev pub has_image : List Image → Service → Bool
has_image available s = any (is_image_of s) available

unfoldable pub target_images_ready : List Service → List Image → Bool
target_images_ready services available = every (has_image available) services

unfoldable pub dependencies_met_for_service_kill : Context → Bool
unfolding target_images_ready
dependencies_met_for_service_kill x = target_images_ready x.target_app.services x.available_images

-- dependsOn?.includes(name)
abbrev depends_on : Service → String → Bool
depends_on s name = some_and s.depends_on (λ deps. includes deps name)

-- a dependency that the target does not let run
unfoldable pub dependency_not_running : Service → App → Bool
dependency_not_running target app =
    any (λ (s : Service). depends_on target s.service_name && not s.config.running) app.services

abbrev target_is_named : String → ChangingPair Service → Bool
target_is_named name pair = some_and pair.target (λ t. str_eq t.service_name name)

-- a dependency that is among the changing services
unfoldable pub dependency_unmet : Service → List (ChangingPair Service) → Bool
dependency_unmet target pairs =
    some_and target.depends_on (any (λ dep. any (target_is_named dep) pairs))

unfoldable pub waits_for_network : Service → List (ChangingPair Network) → Bool
waits_for_network target pairs =
    any (λ pair. some_and pair.target (λ n. has_network_mode target n.name)) pairs

unfoldable pub waits_for_volume : Service → List (ChangingPair Volume) → Bool
waits_for_volume target pairs =
    any (λ pair. some_and pair.target (λ v. has_volume target v.name)) pairs

unfoldable pub dependencies_met_for_service_start : Service → Context → Bool
unfolding dependency_not_running dependency_unmet waits_for_network waits_for_volume
    target_images_ready
dependencies_met_for_service_start target x =
    if dependency_not_running target x.target_app
    then false
    else if dependency_unmet target x.service_pairs
    then false
    else if waits_for_network target x.network_pairs
    then false
    else if waits_for_volume target x.volume_pairs
    then false
    else target_images_ready x.target_app.services x.available_images

-- a target service that has no container yet
abbrev is_new : Service → ChangingPair Service → Bool
is_new target pair =
    not (is_some pair.current)
    && some_and pair.target (λ t. str_eq target.service_name t.service_name)

-- pair.target ?? pair.current
abbrev pub strategy_of : ChangingPair Service → Service → String
strategy_of pair current = elim pair.target [
  | some t ↦ get_strategy_from_service t
  | none ↦ get_strategy_from_service current
]

-- a container that has to be killed before anything is downloaded, and that runs
abbrev blocks_fetch : ChangingPair Service → Bool
blocks_fetch pair =
    some_and pair.current (λ c. kills_early (strategy_of pair c) && c.config.running)

unfoldable pub dependencies_met_for_service_fetch : Service → List (ChangingPair Service) → Bool
dependencies_met_for_service_fetch target pairs =
    if any (is_new target) pairs then true else every (λ pair. not (blocks_fetch pair)) pairs

unfoldable pub service_has_network_or_volume : Service → Context → Bool
service_has_network_or_volume s x =
    any (λ pair. some_and pair.current (λ v. has_volume s v.name)) x.volume_pairs
    || any (λ pair. some_and pair.current (λ n. has_network s n.name)) x.network_pairs

unfoldable pub generate_container_step : Service → Service → Option CompositionStep
generate_container_step current target =
    if not (str_eq current.commit target.commit)
    then some (update_metadata current target)
    else if not (beq target.config.running current.config.running)
    then (if target.config.running then some (start target) else some (stop current))
    else none

unfoldable pub generate_fetch_or_start_step : Service → Bool → Context → Option CompositionStep
unfolding dependencies_met_for_service_fetch dependencies_met_for_service_start
generate_fetch_or_start_step target needs_download x =
    if needs_download && dependencies_met_for_service_fetch target x.service_pairs
    then some (fetch_for target)
    else if dependencies_met_for_service_start target x
    then some (start target)
    else none

unfoldable pub needs_download : Context → Option Service → Bool
needs_download x target = some_and target (λ t. not (has_image x.available_images t))

-- context.downloading.includes(target.imageName!)
unfoldable pub is_downloading : Context → Option Service → Bool
is_downloading x target =
    some_and target (λ t. some_and t.image_name (λ name. includes x.downloading name))

-- the strategy and what it may do, for a container whose service changes
abbrev pub strategy_context : Service → Option Service → Context → Bool → StrategyContext
strategy_context current target x special = record {
  current = current;
  target = target;
  needs_download = needs_download x target;
  dependencies_met_for_start = some_and target (λ t. dependencies_met_for_service_start t x);
  dependencies_met_for_kill = dependencies_met_for_service_kill x;
  needs_special_kill = special;
}

abbrev pub is_dead : ServiceStatus → Bool
is_dead ServiceStatus.dead = true
is_dead _ = false

-- the branch for a container that is there
unfoldable pub replace_step : Service → Option Service → Context → Result CompositionStep
unfolding service_has_network_or_volume
replace_step current target x =
    get_steps_from_strategy
      (strategy_of (record { current = some current; target = target }) current)
      (strategy_context current target x (service_has_network_or_volume current x))

abbrev pub some_step : Result CompositionStep → Result (Option CompositionStep)
some_step r = r >>= λ step. ok (some step)

module _ (same_config : Service → Service → ContainerIds → Bool) where
  -- only the release or the run state of the service changes
  unfoldable pub same_container : Service → Option Service → Context → Bool
  unfolding service_has_network_or_volume
  same_container current target x =
      not (service_has_network_or_volume current x)
      && some_and target (λ t. same_config current t x.container_ids)

  abbrev pub update_step : Service → Option Service → Context → Result (Option CompositionStep)
  update_step current none x = some_step (replace_step current none x)
  update_step current (some t) x =
      if same_container current (some t) x
      then ok (generate_container_step current t)
      else some_step (replace_step current (some t) x)

  -- what is done for a pair that is neither stopping nor dead nor downloading
  abbrev pub active_step : ChangingPair Service → Context → Result (Option CompositionStep)
  active_step pair x = elim pair.current [
    | none ↦ elim pair.target [
      | none ↦ thrown type_error
      | some t ↦ ok (generate_fetch_or_start_step t (needs_download x (some t)) x)
    ]
    | some c ↦ update_step c pair.target x
  ]

  unfoldable pub generate_steps_for_service :
      ChangingPair Service → Context → Result (Option CompositionStep)
  unfolding generate_fetch_or_start_step generate_container_step replace_step same_container
      needs_download is_downloading
  generate_steps_for_service pair x =
      if some_and pair.current (λ c. is_stopping c.status)
      then ok (some noop)
      else if some_and pair.current (λ c. is_dead c.status)
      then ok none
      else if needs_download x pair.target && is_downloading x pair.target
      then ok (some noop)
      else active_step pair x
