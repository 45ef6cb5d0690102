-- ===== src/Compose/Tests/Arrival.antt =====
-- An app that runs what its target asks for.
use balena_supervisor.Common.{[], ◌∷◌, some, ◌≡◌, refl}
use balena_supervisor.Common.Results.{ok}
use balena_supervisor.Compose.App.Plan.{new_commit, next_steps_for_app_update}
use balena_supervisor.Compose.App.Plan.Arrival.{IsUpToDate, HasArrived, next_steps-HasArrived}
use balena_supervisor.Compose.Tests.Data.{
  web, same_image_id, running_app, next_commit_app, update_state,
}

web-IsUpToDate : IsUpToDate same_image_id (("web", "k1") ∷ []) (web ∷ []) web
web-IsUpToDate = record {
  container = web;
  only = refl;
  same_settings = refl;
  same_commit = refl;
  same_running = refl;
  stopped = λ h. cc;
  settled = refl;
}

-- the same image and commit, with the commit of the app still to be stored
running_app-HasArrived : HasArrived same_image_id update_state running_app next_commit_app
unfolding balena_supervisor.Compose.Volume.is_equal_config
    balena_supervisor.Compose.Network.is_equal_config balena_supervisor.Compose.Labels.check_truthy
running_app-HasArrived = record {
  alive = (refl, tt);
  not_legacy = (refl, tt);
  up_to_date = (web-IsUpToDate, tt);
  wanted = (refl, tt);
  volumes_alike = refl;
  volumes_there = refl;
  networks_settled = (refl, refl, refl, (refl, tt));
}

next_steps-HasArrived_example :
    next_steps_for_app_update same_image_id update_state running_app next_commit_app
    ≡ ok (new_commit 1 (some "c1") (some "c2"))
next_steps-HasArrived_example =
    next_steps-HasArrived same_image_id update_state running_app next_commit_app
      running_app-HasArrived
