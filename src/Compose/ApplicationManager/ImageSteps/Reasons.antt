-- ===== src/Compose/ApplicationManager/ImageSteps/Reasons.antt =====
-- compose/application-manager.ts: why `saveAndRemoveImages` may save or remove an image, in terms of
-- the database, the containers and the target.
use balena_supervisor.Common.{
  ◌&&◌, ◌⊎◌, ◌==◌, str_eq, same_option, Any, IsFirst, String, Bool, true, false, List, some, ◌≡◌,
  map, some_and, All, Member,
}
use balena_supervisor.Compose.Service.{Service}
use balena_supervisor.Compose.Labels.{label}
use balena_supervisor.Compose.Images.{Image, image_from_service, is_same_image}
use balena_supervisor.Compose.Steps.{CompositionStep, save_image, remove_image}
use balena_supervisor.Compose.ApplicationManager.Types.{Apps, all_services}
use balena_supervisor.Compose.ApplicationManager.ImageSteps.{without_ids, same_metadata}

-- The image that the database has for a container: the first one of its id in the engine, commit and
-- service, or else the first one of its id.
abbrev pub is_engine_image : Service → Image → Bool
is_engine_image s i = some_and i.docker_image_id (str_eq s.config.image)

abbrev pub is_full_match : Service → Image → Bool
is_full_match s i =
    is_engine_image s i && str_eq i.commit s.commit && str_eq i.service_name s.service_name

abbrev pub Runs : List Image → Service → Image → Type 0
Runs available s i =
    IsFirst (is_full_match s) available i
    ⊎ (All (λ j. is_full_match s j ≡ false) available × IsFirst (is_engine_image s) available i)

-- The image of a target is still to be downloaded, as a delta on `source`: the first image of its
-- service. No service of that image asks for the old one to be deleted first.
pub record IsDelta (available : List Image) (target : List Service) (t : Service) (source : Image)
    : Type 0 where
  pub unknown : All (λ (i : Image). is_same_image i.name t.image_name ≡ false) available
  pub kept :
      All
        (λ (u : Service).
          (is_same_image t.image_name u.image_name
            && some_and
                (label "io.balena.update.strategy" u.config.labels)
                (str_eq "delete-then-download"))
          ≡ false)
        target
  pub first :
      IsFirst
        (λ (i : Image). str_eq i.service_name t.service_name && i.app_id == t.app_id)
        available
        source

-- Why an image may be removed.
pub record IsUnneeded (available : List Image) (current target : List Service) (image : Image)
    : Type 0 where
  pub is_available : Member image (map without_ids available)
  -- it is the image of no service of the target
  pub not_targeted : All (λ t. same_metadata image (image_from_service t) ≡ false) target
  -- no container runs it
  pub not_running :
      All (λ s. (i : Image) → Runs available s i → same_metadata image i ≡ false) current
  -- and no image that is still to be downloaded is a delta on it
  pub not_source :
      All
        (λ t.
          (source : Image)
          → IsDelta available target t source
          → some_and image.name (λ n. some_and source.name (λ m. str_eq m n)) ≡ false)
        target

-- Why an image has to be saved: none with its metadata is in the database, or none of its name or
-- digest is, and the target knows its id in the engine.
abbrev pub IsUnsaved : List Image → List Service → Image → Type 0
IsUnsaved available target i =
    All (λ j. same_metadata (without_ids j) i ≡ false) available
    ⊎ (All (λ (j : Image). is_same_image j.name i.name ≡ false) available
        × (id : String) × Any
            (λ (t : Service).
              (same_option str_eq t.image_name i.name ≡ true) × (t.docker_image_id ≡ some id))
            target)

-- The image of a service of the target that the database does not hold yet, or an image that is not
-- needed.
abbrev pub IsImageChange : List Image → Apps → Apps → Bool → CompositionStep → Type 0
IsImageChange available current target skip (save_image i) =
    Member i (map image_from_service (all_services target))
    × IsUnsaved available (all_services target) i
IsImageChange available current target skip (remove_image i) =
    (skip ≡ false) × IsUnneeded available (all_services current) (all_services target) i
IsImageChange _ _ _ _ _ = ⊥
