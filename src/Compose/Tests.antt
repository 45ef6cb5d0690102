-- ===== src/Compose/Tests.antt =====
-- The planner on concrete apps.
mod Data
mod Arrival
mod Manager
mod Ports
mod Tasks
mod Container
use Data.{
  same_image_id, web, older_web, new_web, handed_web, image_of, data_volume, front, running_app,
  relabelled_app, next_commit_app, update_state, pair_to, install_of, context,
}
use balena_supervisor.Common.{
  ℕ, String, Bool, true, false, List, [], ◌∷◌, Option, none, some, ◌≡◌, refl, All, Member, inl, inr,
  IfSome, ◌⊎◌, some_and,
}
use balena_supervisor.Common.Texts.{includes}
use balena_supervisor.Common.Results.{Result, ok, Ensures, Returns}
use balena_supervisor.Compose.Service.{Service, has_network, has_volume, has_network_mode}
use balena_supervisor.Compose.Volume
use balena_supervisor.Compose.Volume.{Volume, is_equal_config}
use balena_supervisor.Compose.Steps.{
  CompositionStep, kill, start, handover, remove_volume, remove_network, update_commit, noop,
}
use balena_supervisor.Compose.Strategies.{
  StrategyContext, fetch_for, get_steps_from_strategy, get_strategy_from_service, kills_early,
}
use balena_supervisor.Compose.Strategies.Laws.{
  Waits, get_steps_from_strategy-Waits, get_steps_from_strategy_total,
}
use balena_supervisor.Compose.App.Types.{App, ChangingPair}
use balena_supervisor.Compose.App.Components.{compare_components, removal}
use balena_supervisor.Compose.App.Components.Justified.{Justified, compare_components-Justified}
use balena_supervisor.Compose.App.Services.{pick_current, compare_services, ServicePairs}
use balena_supervisor.Compose.App.Services.Latest.{IsPicked, pick_current-IsPicked}
use balena_supervisor.Compose.App.Services.Complete.{IsPaired, compare_services-IsPaired}
use balena_supervisor.Compose.App.ServiceSteps.{
  Context, strategy_context, strategy_of, generate_steps_for_service, is_image_of,
}
use balena_supervisor.Compose.App.ServiceSteps.Allowed.{Allowed, generate_steps_for_service-Allowed}
use balena_supervisor.Compose.App.ServiceSteps.Safety.{
  AllImagesReady, IsReady, HasImage, kill_waits_for_images, start-IsReady, handover-IsReady,
  handover_uses_nothing_changed, fetch_only_missing,
}
use balena_supervisor.Compose.App.Plan.{next_steps_for_app_update, steps_to_remove_app}
use balena_supervisor.Compose.App.Plan.Volumes.{RemovesSafely, next_steps-RemovesSafely}
use balena_supervisor.Compose.App.Plan.Commit.{StoresCommit, update_commit_alone}
use balena_supervisor.Compose.App.Plan.Removal.{
  InOrder, steps_to_remove_app-InOrder, steps_to_remove_app-eq-nil,
}
use balena_supervisor.Compose.App.Plan.Totality.{next_steps-Returns}

-- a changed volume and a network that the target lacks
replaced :
    next_steps_for_app_update same_image_id update_state running_app relabelled_app
    ≡ ok (remove_volume (data_volume []) ∷ remove_network front ∷ [])
unfolding next_steps_for_app_update balena_supervisor.Common.Results.map_result
    mathlib.Core.List.flat_map compare_components has_volume has_network
    balena_supervisor.Common.Dicts.has_key
replaced = refl

next_steps-RemovesSafely_example :
    All
      (RemovesSafely running_app relabelled_app)
      (remove_volume (data_volume []) ∷ remove_network front ∷ [])
next_steps-RemovesSafely_example =
    next_steps-RemovesSafely same_image_id update_state running_app relabelled_app _ replaced

-- the target is reached but for its commit
committed :
    next_steps_for_app_update same_image_id update_state running_app next_commit_app
    ≡ ok (update_commit "c2" 1 ∷ [])
unfolding next_steps_for_app_update balena_supervisor.Common.Results.map_result
    mathlib.Core.List.flat_map compare_components
committed = refl

update_commit_alone_example :
    StoresCommit running_app next_commit_app (update_commit "c2" 1 ∷ []) "c2" 1
update_commit_alone_example =
    update_commit_alone same_image_id update_state running_app next_commit_app _ "c2" 1 committed
      (inl refl)

next_steps-Returns_example :
    Returns (next_steps_for_app_update same_image_id update_state running_app relabelled_app)
next_steps-Returns_example =
    next_steps-Returns same_image_id update_state running_app relabelled_app ((5, refl), tt)

generate_steps_for_service-Allowed_example :
    Ensures
      (IfSome (Allowed (context new_web []) (pair_to new_web)))
      (generate_steps_for_service same_image_id (pair_to new_web) (context new_web []))
generate_steps_for_service-Allowed_example =
    generate_steps_for_service-Allowed same_image_id (context new_web []) (pair_to new_web)

killed :
    generate_steps_for_service same_image_id
      (pair_to new_web)
      (context new_web (image_of "web:2" "sha2" ∷ []))
    ≡ ok (some (kill web))
unfolding generate_steps_for_service get_steps_from_strategy get_strategy_from_service
    balena_supervisor.Compose.App.ServiceSteps.dependencies_met_for_service_kill
killed = refl

is_late : kills_early (strategy_of (pair_to new_web) web) ≡ false
unfolding get_strategy_from_service
is_late = refl

kill_waits_for_images_example :
    (some web ≡ some web) × AllImagesReady (context new_web (image_of "web:2" "sha2" ∷ []))
kill_waits_for_images_example =
    kill_waits_for_images same_image_id (pair_to new_web)
      (context new_web (image_of "web:2" "sha2" ∷ [])) web killed is_late

started :
    generate_steps_for_service same_image_id
      (install_of new_web)
      (context new_web (image_of "web:2" "sha2" ∷ []))
    ≡ ok (some (start new_web))
unfolding generate_steps_for_service
started = refl

start-IsReady_example :
    (some new_web ≡ some new_web) × IsReady new_web (context new_web (image_of "web:2" "sha2" ∷ []))
start-IsReady_example =
    start-IsReady same_image_id (install_of new_web)
      (context new_web (image_of "web:2" "sha2" ∷ [])) new_web refl started

handed :
    generate_steps_for_service same_image_id
      (pair_to handed_web)
      (context handed_web (image_of "web:2" "sha2" ∷ []))
    ≡ ok (some (handover web handed_web))
unfolding generate_steps_for_service get_steps_from_strategy get_strategy_from_service
handed = refl

handover-IsReady_example :
    (some web ≡ some web)
    × (some handed_web ≡ some handed_web)
    × IsReady handed_web (context handed_web (image_of "web:2" "sha2" ∷ []))
    × HasImage (context handed_web (image_of "web:2" "sha2" ∷ [])) handed_web
handover-IsReady_example =
    handover-IsReady same_image_id (pair_to handed_web)
      (context handed_web (image_of "web:2" "sha2" ∷ [])) web handed_web handed

-- another volume changes
abbrev logs_change : ChangingPair Volume
logs_change = record { current = some (record (data_volume []) { name = "logs" }); target = none }

abbrev with_logs : Context
with_logs = record (context handed_web (image_of "web:2" "sha2" ∷ [])) {
  volume_pairs = logs_change ∷ [];
}

handed_with_logs :
    generate_steps_for_service same_image_id (pair_to handed_web) with_logs
    ≡ ok (some (handover web handed_web))
unfolding generate_steps_for_service get_steps_from_strategy get_strategy_from_service has_volume
    balena_supervisor.Common.Dicts.has_key
handed_with_logs = refl

handover_uses_nothing_changed_example :
    All
      (λ (p : ChangingPair Volume). some_and p.current (λ v. has_volume web v.name) ≡ false)
      (logs_change ∷ [])
    × Unit {0}
handover_uses_nothing_changed_example =
    handover_uses_nothing_changed same_image_id (pair_to handed_web) with_logs web handed_web
      handed_with_logs

fetched :
    generate_steps_for_service same_image_id
      (pair_to new_web)
      (context new_web (image_of "web:1" "sha1" ∷ []))
    ≡ ok (some (fetch_for new_web))
unfolding generate_steps_for_service balena_supervisor.Compose.Images.is_same_image
    balena_supervisor.Common.Texts.second_part get_steps_from_strategy get_strategy_from_service
fetched = refl

fetch_only_missing_example :
    All (λ i. is_image_of new_web i ≡ false) (image_of "web:1" "sha1" ∷ [])
    × IfSome (λ name. includes [] name ≡ false) (some "web:2")
fetch_only_missing_example =
    fetch_only_missing same_image_id (pair_to new_web)
      (context new_web (image_of "web:1" "sha1" ∷ [])) new_web refl fetched

abbrev web_pairs : ServicePairs
web_pairs = record {
  install_pairs = [];
  remove_pairs = removal older_web ∷ [];
  update_pairs = pair_to new_web ∷ [];
}

compared : compare_services same_image_id (older_web ∷ web ∷ []) (new_web ∷ []) [] ≡ ok web_pairs
unfolding compare_services balena_supervisor.Common.Results.map_result mathlib.Core.List.flat_map
compared = refl

compare_services-IsPaired_example :
    IsPaired same_image_id (older_web ∷ web ∷ []) (new_web ∷ []) [] web_pairs
compare_services-IsPaired_example =
    compare_services-IsPaired same_image_id (older_web ∷ web ∷ []) (new_web ∷ []) [] web_pairs
      compared

picked : pick_current (older_web ∷ web ∷ []) ≡ ok (web, older_web ∷ [])
unfolding pick_current
picked = refl

pick_current-IsPicked_example : IsPicked (older_web ∷ web ∷ []) web (older_web ∷ [])
pick_current-IsPicked_example =
    pick_current-IsPicked (older_web ∷ web ∷ []) web (older_web ∷ []) picked

abbrev volume_name : Volume → String
volume_name v = v.name

compare_components-Justified_example :
    All
      (Justified volume_name is_equal_config
        (data_volume [] ∷ data_volume [] ∷ [])
        (data_volume [] ∷ []))
      (compare_components volume_name is_equal_config
        (data_volume [] ∷ data_volume [] ∷ [])
        (data_volume [] ∷ [])
        true)
compare_components-Justified_example =
    compare_components-Justified volume_name is_equal_config (data_volume [] ∷ data_volume [] ∷ [])
      (data_volume [] ∷ []) true

abbrev ready_to_kill : StrategyContext
ready_to_kill = record {
  current = web;
  target = some new_web;
  needs_download = false;
  dependencies_met_for_start = true;
  dependencies_met_for_kill = true;
  needs_special_kill = false;
}

killed_by_strategy : get_steps_from_strategy "download-then-kill" ready_to_kill ≡ ok (kill web)
unfolding get_steps_from_strategy
killed_by_strategy = refl

steps_to_remove_app-InOrder_example :
    All (InOrder running_app false) (steps_to_remove_app running_app false)
steps_to_remove_app-InOrder_example = steps_to_remove_app-InOrder running_app false
