-- ===== src/Compose/ApplicationManager/ImageSteps.antt =====
-- compose/application-manager.ts: `saveAndRemoveImages` and `bestDeltaSource`.
pub mod Reasons
pub mod Kept
use balena_supervisor.Common.{
  String, Bool, ◌&&◌, ◌||◌, not, List, [], ◌∷◌, ◌++◌, map, Option, none, some, str_eq, any, filter,
  find, compact, ◌==◌, some_and, or_else, same_option, if◌then◌else◌,
}
use balena_supervisor.Common.Texts.{includes}
use balena_supervisor.Compose.Labels.{label}
use balena_supervisor.Compose.Service.{Service}
use balena_supervisor.Compose.Images.{Image, image_from_service, is_same_image}
use balena_supervisor.Compose.Steps.{CompositionStep, save_image, remove_image}
use balena_supervisor.Compose.ApplicationManager.Types.{Apps, all_services}

-- an image of the same service
abbrev pub same_service : Image → Image → Bool
same_service image available =
    str_eq available.service_name image.service_name && available.app_id == image.app_id

unfoldable pub best_delta_source : Image → List Image → Option String
best_delta_source image available = elim (find (same_service image) available) [
  | none ↦ none
  | some found ↦ found.name
]

-- _.omit(image, ['dockerImageId', 'id'])
abbrev pub without_ids : Image → Image
without_ids image = record image { id = none; docker_image_id = none }

-- lodash's isEqual of two images without their ids
unfoldable pub same_metadata : Image → Image → Bool
same_metadata a b =
    same_option str_eq a.name b.name
    && a.app_id == b.app_id
    && same_option str_eq a.app_uuid b.app_uuid
    && a.service_id == b.service_id
    && str_eq a.service_name b.service_name
    && a.image_id == b.image_id
    && a.release_id == b.release_id
    && str_eq a.commit b.commit

abbrev has_docker_id : String → Image → Bool
has_docker_id id image = some_and image.docker_image_id (str_eq id)

-- the image that a container runs, as far as the database knows it
unfoldable pub current_image : List Image → Service → Option Image
current_image available s =
    or_else
      (find
        (λ (i : Image).
          has_docker_id s.config.image i
          && str_eq i.commit s.commit
          && str_eq i.service_name s.service_name)
        available)
      (find (has_docker_id s.config.image) available)

unfoldable pub images_in_use : List Image → List Service → List Service → List Image
unfolding current_image image_from_service
images_in_use available current target =
    compact (map (current_image available) current) ++ map image_from_service target

-- availableAndUnused
unfoldable pub unused_images : List Image → List Image → List Image
unfolding same_metadata
unused_images available in_use =
    filter (λ i. not (any (same_metadata i) in_use)) (map without_ids available)

-- is there an image of this name or digest?
abbrev pub is_known : List Image → Image → Bool
is_known available image = any (λ (i : Image). is_same_image i.name image.name) available

-- targetImageDockerIds[name]: of two services of one image the later one counts
unfoldable pub target_docker_id : List Service → Option String → Option String
target_docker_id [] name = none
target_docker_id (s ∷ rest) name =
    or_else (target_docker_id rest name)
      (if same_option str_eq s.image_name name then s.docker_image_id else none)

-- The image is in the database by its name or digest, or by its id in the engine. An image without
-- an id, null in the database, never is the one of a target without an id, which is undefined.
unfoldable pub is_actually_available : List Image → Option String → Image → Bool
is_actually_available available docker_id image =
    any
      (λ (i : Image).
        is_same_image i.name image.name
        || some_and i.docker_image_id (λ id. some_and docker_id (str_eq id)))
      available

abbrev is_available_on_the_engine : Option String → Bool
is_available_on_the_engine id = some_and id (λ s. not (str_eq s ""))

-- the test of `imagesToSave`
unfoldable pub has_to_be_saved : List Image → List Service → Image → Bool
unfolding same_metadata target_docker_id is_actually_available
has_to_be_saved available target image =
    let id = target_docker_id target image.name in
    let is_saved = any (λ i. same_metadata (without_ids i) image) available in
    let is_available = is_actually_available available id image in
    is_available && not is_saved || not is_available && is_available_on_the_engine id

-- a target service of the image that wants its old image deleted before the download
abbrev pub deletes_first : Image → Service → Bool
deletes_first image s =
    is_same_image image.name s.image_name
    && some_and (label "io.balena.update.strategy" s.config.labels) (str_eq "delete-then-download")

unfoldable pub delta_sources : List Image → List Service → List String
unfolding best_delta_source
delta_sources available target =
    let to_download = filter (λ i. not (is_known available i)) (map image_from_service target) in
    compact (
      map (λ i. best_delta_source i available)
        (filter (λ i. not (any (deletes_first i) target)) to_download))

unfoldable pub images_to_remove : List Image → List Service → List Service → Bool → List Image
unfolding unused_images images_in_use delta_sources
images_to_remove available current target skip_removal =
    let sources = delta_sources available target in
    if skip_removal
    then []
    else filter (λ (i : Image). not (some_and i.name (includes sources)))
        (unused_images available (images_in_use available current target))

unfoldable pub save_and_remove_images : Apps → Apps → List Image → Bool → List CompositionStep
unfolding all_services has_to_be_saved images_to_remove
save_and_remove_images current target available skip_removal =
    map save_image (
      filter (has_to_be_saved available (all_services target))
        (map image_from_service (all_services target)))
    ++ map remove_image
        (images_to_remove available (all_services current) (all_services target) skip_removal)
