-- ===== src/Compose/Tests/Manager.antt =====
-- The planner of all apps on concrete devices.
use balena_supervisor.Common.{
  ℕ, String, Bool, true, false, List, [], ◌∷◌, Option, none, some, ◌≡◌, ◌≢◌, refl, ◌⊎◌, inl, inr,
  All, ◌+◌, ◌≤◌, filter, not, length,
}
use balena_supervisor.Common.Results.{ok, Returns}
use balena_supervisor.Compose.Service.{Service}
use balena_supervisor.Compose.Images.{Image}
use balena_supervisor.Compose.Steps.{kill, is_fetch, noop, remove_image}
use balena_supervisor.Compose.Strategies.{fetch_for}
use balena_supervisor.Compose.ApplicationManager.Types.{Apps}
use balena_supervisor.Compose.ApplicationManager.ImageSteps.{without_ids, save_and_remove_images}
use balena_supervisor.Compose.ApplicationManager.ImageSteps.Reasons.{IsImageChange}
use balena_supervisor.Compose.ApplicationManager.ImageSteps.Kept.{
  save_and_remove_images-IsImageChange,
}
use balena_supervisor.Compose.ApplicationManager.Downloads.{
  max_delta_downloads, count_fetches, limit_deltas,
}
use balena_supervisor.Compose.ApplicationManager.Downloads.Bounds.{
  count_updates, limit_deltas-others,
}
use balena_supervisor.Compose.ApplicationManager.Infer.{
  Options, Environment, infer_next_steps, get_required_steps,
}
use balena_supervisor.Compose.ApplicationManager.Infer.Progress.{
  infer_next_steps-ne-nil, infer_next_steps-le,
}
use balena_supervisor.Compose.ApplicationManager.Infer.Network.{
  IsNetworkStep, infer_next_steps-IsNetworkStep,
}
use balena_supervisor.Compose.ApplicationManager.Infer.Order.{InOrder, infer_next_steps-InOrder}
use balena_supervisor.Compose.ApplicationManager.Infer.Totality.{get_required_steps-Returns}
use balena_supervisor.Compose.Tests.Data.{same_image_id, web, new_web, image_of, running_app}

abbrev device : Apps
device = (1, running_app) ∷ []

-- the target runs the second release
abbrev next_target : Apps
next_target = (1, record running_app { services = new_web ∷ [] }) ∷ []

abbrev old_image : Image
old_image = record (image_of "web:0" "sha0") { commit = "c0" }

-- nothing is downloaded
abbrev idle : Options
idle = record {
  keep_images = false;
  keep_volumes = false;
  delta = true;
  downloading = [];
  available_images = image_of "web:1" "sha1" ∷ old_image ∷ [];
  container_ids_by_app_id = (1, ("web", "k1") ∷ []) ∷ [];
  supervisor_network_ready = true;
  is_cleanup_needed = false;
}

-- three images are downloaded already
abbrev busy : Options
busy = record idle { downloading = "a" ∷ "b" ∷ "c" ∷ [] }

abbrev networkless : Options
networkless = record idle { supervisor_network_ready = false }

abbrev api_web : Service
api_web = record web {
  config = record web.config { labels = ("io.balena.features.supervisor-api", some "1") ∷ [] };
}

abbrev api_device : Apps
api_device = (1, record running_app { services = api_web ∷ [] }) ∷ []

-- the fourth download is held back
held_back : infer_next_steps same_image_id busy device next_target ≡ ok (noop ∷ [])
unfolding infer_next_steps balena_supervisor.Common.Results.map_result mathlib.Core.List.flat_map
    balena_supervisor.Compose.Images.is_same_image balena_supervisor.Common.Texts.second_part
    balena_supervisor.Compose.App.Components.compare_components
    balena_supervisor.Compose.Strategies.get_steps_from_strategy
    balena_supervisor.Compose.Strategies.get_strategy_from_service
held_back = refl

is_busy : busy.downloading ≢ []
is_busy e = cc

infer_next_steps-ne-nil_example : noop ∷ [] ≢ []
infer_next_steps-ne-nil_example =
    infer_next_steps-ne-nil same_image_id busy device next_target _ held_back is_busy

infer_next_steps-le_example :
    (count_updates busy.available_images (noop ∷ []) ≡ 0)
    ⊎ (length busy.downloading + count_fetches (noop ∷ []) ≤ max_delta_downloads)
infer_next_steps-le_example =
    infer_next_steps-le same_image_id busy device next_target _ held_back refl

-- the service that uses the API goes before the network is made
api_killed :
    infer_next_steps same_image_id networkless api_device next_target ≡ ok (kill api_web ∷ [])
unfolding infer_next_steps mathlib.Core.List.flat_map
api_killed = refl

infer_next_steps-IsNetworkStep_example : All (IsNetworkStep api_device) (kill api_web ∷ [])
infer_next_steps-IsNetworkStep_example =
    infer_next_steps-IsNetworkStep same_image_id networkless api_device next_target _ api_killed
      refl

-- the older image is removed, the other one is the source of a delta
image_removed :
    infer_next_steps same_image_id idle device next_target
    ≡ ok (remove_image (without_ids old_image) ∷ [])
unfolding infer_next_steps mathlib.Core.List.flat_map balena_supervisor.Compose.Images.is_same_image
    balena_supervisor.Common.Texts.second_part
image_removed = refl

infer_next_steps-InOrder_example :
    InOrder idle device next_target (remove_image (without_ids old_image) ∷ [])
infer_next_steps-InOrder_example =
    infer_next_steps-InOrder same_image_id idle device next_target _ image_removed

abbrev idle_device : Environment
idle_device = record {
  local_mode = false;
  delta = true;
  downloading = [];
  available_images = image_of "web:1" "sha1" ∷ old_image ∷ [];
  supervisor_network_ready = true;
  is_cleanup_needed = false;
}

get_required_steps-Returns_example :
    Returns (get_required_steps same_image_id idle_device device next_target none none)
get_required_steps-Returns_example =
    get_required_steps-Returns same_image_id idle_device device next_target none none
      (((5, refl), tt), tt)

save_and_remove_images-IsImageChange_example :
    All
      (IsImageChange idle.available_images device next_target false)
      (save_and_remove_images device next_target idle.available_images false)
save_and_remove_images-IsImageChange_example =
    save_and_remove_images-IsImageChange device next_target idle.available_images false

limit_deltas-others_example :
    filter
      (λ s. not (is_fetch s))
      (limit_deltas true 3 idle.available_images (noop ∷ fetch_for new_web ∷ []))
    ≡ filter (λ s. not (is_fetch s)) (noop ∷ fetch_for new_web ∷ [])
limit_deltas-others_example =
    limit_deltas-others idle.available_images true 3 (noop ∷ fetch_for new_web ∷ [])
