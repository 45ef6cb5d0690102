-- ===== src/Compose/App/Plan.antt =====
-- compose/app.ts: `nextStepsForAppUpdate` and `stepsToRemoveApp`.
-- `same_config` is `isEqualConfig` of compose/service.ts.
pub mod Steps
pub mod Volumes
pub mod Commit
pub mod Removal
pub mod Totality
pub mod AppSteps
pub mod Arrival
use balena_supervisor.Common.{
  ℕ, String, Bool, true, false, ◌&&◌, not, List, [], ◌∷◌, ◌++◌, map, Option, none, some, str_eq,
  filter, compact, is_empty, if◌then◌else◌, same_option,
}
use balena_supervisor.Common.Results.{Result, ok, map_result, ◌>>=◌}
use balena_supervisor.Compose.Labels.{Labels, label, set_label, check_truthy}
use balena_supervisor.Compose.Service.{Service, has_network, has_volume}
use balena_supervisor.Compose.Volume
use balena_supervisor.Compose.Volume.{Volume}
use balena_supervisor.Compose.Network
use balena_supervisor.Compose.Network.{Network}
use balena_supervisor.Compose.Steps.{
  CompositionStep, kill, remove, update_commit, create_network, create_volume, remove_network,
  remove_volume,
}
use balena_supervisor.Compose.App.Types.{App, ContainerIds, UpdateState, ChangingPair}
use balena_supervisor.Compose.App.Components.{compare_components, generate_steps_for_component}
use balena_supervisor.Compose.App.Services.{ServicePairs, compare_services}
use balena_supervisor.Compose.App.ServiceSteps.{Context, is_dead, generate_steps_for_service}

-- labels of a preloaded container, which the target takes over
abbrev legacy_labels : Labels → Labels → Labels
legacy_labels current target =
    set_label "io.balena.service-id" (label "io.balena.service-id" current)
      (set_label "io.balena.legacy-container" (label "io.balena.legacy-container" current) target)

-- The target's services after `migrateLegacy`, which writes into the target's only service.
unfoldable pub migrate_legacy : List Service → List Service → List Service
unfolding set_label label check_truthy
migrate_legacy (c ∷ []) (t ∷ []) =
    if str_eq t.service_name c.service_name
      && check_truthy (label "io.balena.legacy-container" c.config.labels)
    then record t {
      config = record t.config { labels = legacy_labels c.config.labels t.config.labels };
      service_id = c.service_id;
    }
      ∷ []
    else t ∷ []
migrate_legacy _ target = target

-- Any services which have died get a remove step
abbrev pub dead_steps : List Service → List CompositionStep
dead_steps services = map remove (filter (λ (s : Service). is_dead s.status) services)

unfoldable pub volume_changes : App → App → List (ChangingPair Volume)
unfolding Volume.is_equal_config
volume_changes this target =
    compare_components (λ (v : Volume). v.name) Volume.is_equal_config this.volumes target.volumes
      false

unfoldable pub network_changes : App → App → List (ChangingPair Network)
unfolding Network.is_equal_config
network_changes this target =
    compare_components (λ (n : Network). n.name) Network.is_equal_config this.networks
      target.networks true

-- removePairs.concat(updatePairs, installPairs)
abbrev pub all_pairs : ServicePairs → List (ChangingPair Service)
all_pairs p = p.remove_pairs ++ p.update_pairs ++ p.install_pairs

abbrev pub depends_on_volume : Volume → Service → Bool
depends_on_volume v s = has_volume s v.name

abbrev pub depends_on_network : Network → Service → Bool
depends_on_network n s = has_network s n.name

unfoldable pub volume_steps : App → App → List (ChangingPair Service) → List CompositionStep
unfolding generate_steps_for_component volume_changes
volume_steps this target pairs =
    generate_steps_for_component create_volume remove_volume depends_on_volume this.services
      (volume_changes this target) pairs

unfoldable pub network_steps : App → App → List (ChangingPair Service) → List CompositionStep
unfolding generate_steps_for_component network_changes
network_steps this target pairs =
    generate_steps_for_component create_network remove_network depends_on_network this.services
      (network_changes this target) pairs

-- target.commit != null && this.commit !== target.commit
abbrev pub new_commit : ℕ → Option String → Option String → List CompositionStep
new_commit app_id current none = []
new_commit app_id current (some c) =
    if same_option str_eq current (some c) then [] else update_commit c app_id ∷ []

-- The commit is stored once there is nothing else to do.
unfoldable pub commit_steps : App → App → List CompositionStep → List CompositionStep
commit_steps this target [] = new_commit this.app_id this.commit target.commit
commit_steps this target (s ∷ steps) = s ∷ steps

abbrev pub context_of : UpdateState → App → App → List (ChangingPair Service) → Context
context_of state this target pairs = record {
  available_images = state.available_images;
  downloading = state.downloading;
  target_app = target;
  container_ids = state.container_ids;
  network_pairs = network_changes this target;
  volume_pairs = volume_changes this target;
  service_pairs = pairs;
}

module _ (same_config : Service → Service → ContainerIds → Bool) where
  -- all steps but the last one, once the services are paired
  unfoldable pub steps_for_pairs :
      UpdateState → App → App → List (ChangingPair Service) → Result (List CompositionStep)
  unfolding generate_steps_for_service volume_steps network_steps
  steps_for_pairs state this target pairs = do
    steps ←
        map_result
          (λ pair. generate_steps_for_service same_config pair (context_of state this target pairs))
          pairs
    ok (
        dead_steps this.services
        ++ compact steps
        ++ volume_steps this target pairs
        ++ network_steps this target pairs)

  unfoldable pub next_steps_for_app_update : UpdateState → App → App → Result (List CompositionStep)
  unfolding migrate_legacy compare_services steps_for_pairs commit_steps
  next_steps_for_app_update state this target = do
    let migrated = record target { services = migrate_legacy this.services target.services }
    pairs ← compare_services same_config this.services migrated.services state.container_ids
    steps ← steps_for_pairs state this migrated (all_pairs pairs)
    ok (commit_steps this migrated steps)

unfoldable pub steps_to_remove_app : App → (keep_volumes : Bool) → List CompositionStep
steps_to_remove_app app keep_volumes =
    if not (is_empty app.services)
    then map kill app.services
    else if not (is_empty app.networks)
    then map remove_network app.networks
    else if not keep_volumes && not (is_empty app.volumes)
    then map remove_volume app.volumes
    else []
