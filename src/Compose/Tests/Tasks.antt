-- ===== src/Compose/Tests/Tasks.antt =====
-- A download that is reported, from its start to its end.
use balena_supervisor.Common.{false, [], ◌∷◌, some, ◌≡◌, refl, All, Member}
use balena_supervisor.Compose.Images.Tasks.{
  ImageState, ImageStatus, start, update, finish, Tasks, report_event, same_key,
  get_downloading_image_names,
}
use balena_supervisor.Compose.Images.Tasks.Tracking.{
  Reached, nothing, event, IsTracked, Reached-IsTracked,
}
use balena_supervisor.Compose.Images.Tasks.Downloading.{
  get_downloading_image_names-finish, get_downloading_image_names-update,
}
use balena_supervisor.Compose.Tests.Data.{image_of}

abbrev download : ImageState
download = record {
  image = image_of "web:2" "sha2";
  status = some ImageStatus.downloading;
  download_progress = some 0;
}

abbrev under_way : Tasks
under_way = (report_event update download (report_event start download []).0).0

under_way-Reached : Reached under_way
under_way-Reached = event update download (event start download nothing)

names : get_downloading_image_names under_way ≡ some "web:2" ∷ []
unfolding get_downloading_image_names report_event
names = refl

none_left : get_downloading_image_names (report_event finish download under_way).0 ≡ []
unfolding get_downloading_image_names report_event
none_left = refl

Reached-IsTracked_example : All IsTracked under_way
Reached-IsTracked_example = Reached-IsTracked under_way under_way-Reached

get_downloading_image_names-finish_example :
    All
      (λ n. same_key n (some "web:2") ≡ false)
      (get_downloading_image_names (report_event finish download under_way).0)
get_downloading_image_names-finish_example =
    get_downloading_image_names-finish under_way download under_way-Reached

get_downloading_image_names-update_example :
    Member (some "web:2") (get_downloading_image_names (report_event update download under_way).0)
get_downloading_image_names-update_example =
    get_downloading_image_names-update under_way download under_way-Reached refl
