-- ===== src/Compose/ApplicationManager/Infer.antt =====
-- compose/application-manager.ts: `inferNextSteps`, `getRequiredSteps`, `killServicesUsingApi`.
-- `same_config` is `isEqualConfig` of compose/service.ts.
pub mod Order
pub mod Network
pub mod Finish
pub mod Progress
pub mod Totality
use balena_supervisor.Common.{
  ℕ, String, Bool, true, false, ◌&&◌, not, List, [], ◌∷◌, ◌++◌, map, flat_map, Option, none, some,
  length, is_empty, compact, any, is_some, ◌||◌, if◌then◌else◌,
}
use balena_supervisor.Common.Results.{Result, ok, thrown, type_error, map_result, ◌>>=◌}
use balena_supervisor.Compose.Service.NetworkMode.{service_mode, container_mode}
use balena_supervisor.Compose.App.Services.{Candidate, candidate, key_by, key_by_from, shared_with}
use balena_supervisor.Compose.Labels.{label, check_truthy}
use balena_supervisor.Compose.Service.{Service}
use balena_supervisor.Compose.Images.{Image}
use balena_supervisor.Compose.Steps.{
  CompositionStep, kill, noop, cleanup, ensure_supervisor_network,
}
use balena_supervisor.Compose.App.Types.{App, ContainerIds, UpdateState}
use balena_supervisor.Compose.App.Components.{is_stopping}
use balena_supervisor.Compose.App.Plan.{next_steps_for_app_update, steps_to_remove_app}
use balena_supervisor.Compose.ApplicationManager.Types.{
  Apps, find_by_id, only_in, all_services, get_app_container_ids,
}
use balena_supervisor.Compose.ApplicationManager.ImageSteps.{save_and_remove_images}
use balena_supervisor.Compose.ApplicationManager.Downloads.{limit_deltas, keep_alive}

-- The options of the planner, and what it asks of the engine: whether the network of the supervisor
-- is ready and whether images have to be cleaned up.
pub record Options : Type 0 where
  pub keep_images : Bool
  pub keep_volumes : Bool
  pub delta : Bool
  pub downloading : List String
  pub available_images : List Image
  pub container_ids_by_app_id : List (ℕ × ContainerIds)
  pub supervisor_network_ready : Bool
  pub is_cleanup_needed : Bool

abbrev pub uses_api : Service → Bool
uses_api s = check_truthy (label "io.balena.features.supervisor-api" s.config.labels)

-- what is done with a service before the network is created
unfoldable pub api_step : Service → List CompositionStep
api_step s = if uses_api s then (if is_stopping s.status then noop ∷ [] else kill s ∷ []) else []

unfoldable pub kill_services_using_api : Apps → List CompositionStep
unfolding all_services api_step
kill_services_using_api current = flat_map api_step (all_services current)

-- the network of the supervisor is missing
unfoldable pub network_steps : Apps → List CompositionStep
unfolding kill_services_using_api
network_steps current =
    let kills = kill_services_using_api current in
    if is_empty kills then ensure_supervisor_network ∷ [] else kills

-- what is done with images before anything else
unfoldable pub image_steps : Options → Apps → Apps → List CompositionStep
unfolding save_and_remove_images
image_steps o current target =
    if is_empty o.downloading
    then (if not o.keep_images && o.is_cleanup_needed then cleanup ∷ [] else [])
      ++ save_and_remove_images current target o.available_images o.keep_images
    else []

-- containerIdsByAppId[id] ?? {}
unfoldable pub ids_of : Options → ℕ → ContainerIds
unfolding find_by_id
ids_of o id = elim (find_by_id id o.container_ids_by_app_id) [ none ↦ [] | some ids ↦ ids ]

abbrev pub state_of : Options → ContainerIds → UpdateState
state_of o ids = record {
  available_images = o.available_images;
  container_ids = ids;
  downloading = o.downloading;
}

-- isEqualConfig reads an id where one mode names a service and the other one a container.
unfoldable pub reads_id : (mode other : String) → Bool
reads_id mode other =
    is_some (service_mode mode)
    && not (is_some (service_mode other))
    && is_some (container_mode other)

-- Does the comparison of a container with its target read an id?
abbrev compares_id : Candidate → Bool
compares_id c =
    reads_id c.current.config.network_mode c.target.config.network_mode
    || reads_id c.target.config.network_mode c.current.config.network_mode

-- Does compareServices read one? It compares each service that both states have.
unfoldable pub compares_ids : App → App → Bool
unfolding reads_id candidate key_by_from
compares_ids app target =
    elim (map_result (candidate app.services)
      (shared_with (key_by app.services) (key_by target.services))) [
        | thrown e ↦ false
        | ok candidates ↦ any compares_id candidates
      ]

-- an app that contains nothing
unfoldable pub empty_app : ℕ → App
empty_app id = record {
  app_id = id;
  app_uuid = none;
  app_name = none;
  commit = none;
  source = none;
  is_host = false;
  services = [];
  networks = [];
  volumes = [];
}

abbrev concat : List (List CompositionStep) → List CompositionStep
concat [] = []
concat (s ∷ rest) = s ++ concat rest

-- the apps that are in both states, with their targets
unfoldable pub shared_apps : Apps → Apps → List (ℕ × App × App)
unfolding find_by_id
shared_apps [] target = []
shared_apps ((id, app) ∷ rest) target = elim (find_by_id id target) [
  | none ↦ shared_apps rest target
  | some t ↦ (id, app, t) ∷ shared_apps rest target
]

-- the limit on downloads, and the step that waits for downloads
unfoldable pub finish : Options → List CompositionStep → List CompositionStep
unfolding limit_deltas keep_alive
finish o steps =
    keep_alive (length o.downloading)
      (limit_deltas o.delta (length o.downloading) o.available_images steps)

module _ (same_config : Service → Service → ContainerIds → Bool) where
  -- Without an entry the ids are undefined, which throws where a comparison reads an id.
  unfoldable pub update_app : Options → ℕ × App × App → Result (List CompositionStep)
  unfolding find_by_id compares_ids next_steps_for_app_update
  update_app o (id, app, target) = elim (find_by_id id o.container_ids_by_app_id) [
    | some ids ↦ next_steps_for_app_update same_config (state_of o ids) app target
    | none ↦
        if compares_ids app target
        then thrown type_error
        else next_steps_for_app_update same_config (state_of o []) app target
  ]

  abbrev create_app : Options → ℕ × App → Result (List CompositionStep)
  create_app o (id, target) =
      next_steps_for_app_update same_config (state_of o (ids_of o id)) (empty_app target.app_id)
        target

  abbrev pub remove_app : Options → ℕ × App → List CompositionStep
  remove_app o (id, app) = steps_to_remove_app app o.keep_volumes

  -- the steps of the three loops over the apps
  unfoldable pub app_steps : Options → Apps → Apps → Result (List CompositionStep)
  unfolding update_app next_steps_for_app_update steps_to_remove_app empty_app shared_apps only_in
  app_steps o current target = do
    updates ← map_result (update_app o) (shared_apps current target)
    creations ← map_result (create_app o) (only_in current target)
    ok (concat updates ++ flat_map (remove_app o) (only_in target current) ++ concat creations)

  -- all steps but for the limit on downloads
  unfoldable pub planned_steps : Options → Apps → Apps → Result (List CompositionStep)
  unfolding network_steps image_steps app_steps
  planned_steps o current target =
      if not o.supervisor_network_ready
      then ok (network_steps current)
      else if is_empty (image_steps o current target)
      then app_steps o current target
      else ok (image_steps o current target)

  unfoldable pub infer_next_steps : Options → Apps → Apps → Result (List CompositionStep)
  unfolding planned_steps finish
  infer_next_steps o current target = do steps ← planned_steps o current target; ok (finish o steps)

-- What `getRequiredSteps` reads: the configuration, the images, and what it asks of the engine.
pub record Environment : Type 0 where
  pub local_mode : Bool
  pub delta : Bool
  pub downloading : List String
  pub available_images : List Image
  pub supervisor_network_ready : Bool
  pub is_cleanup_needed : Bool

-- local mode decides what is kept, unless the caller does
abbrev pub chosen : Option Bool → Bool → Bool
chosen none local_mode = local_mode
chosen (some keep) local_mode = keep

unfoldable pub options_of : Environment → Apps → Option Bool → Option Bool → Options
unfolding get_app_container_ids
options_of e current keep_images keep_volumes = record {
  keep_images = chosen keep_images e.local_mode;
  keep_volumes = chosen keep_volumes e.local_mode;
  delta = e.delta;
  downloading = e.downloading;
  available_images = e.available_images;
  container_ids_by_app_id = get_app_container_ids current;
  supervisor_network_ready = e.supervisor_network_ready;
  is_cleanup_needed = e.is_cleanup_needed;
}

unfoldable pub get_required_steps :
    (Service → Service → ContainerIds → Bool)
    → Environment
    → Apps
    → Apps
    → Option Bool
    → Option Bool
    → Result (List CompositionStep)
unfolding infer_next_steps options_of
get_required_steps same_config e current target keep_images keep_volumes =
    infer_next_steps same_config (options_of e current keep_images keep_volumes) current target
