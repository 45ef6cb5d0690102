-- ===== src/Compose/ApplicationManager/ImageSteps/Kept.antt =====
-- compose/application-manager.ts: the images that `saveAndRemoveImages` keeps.
use balena_supervisor.Common.{
  [], ◌∷◌, ◌||◌, ◌∙◌, inl, inr, subst, str_eq, same_option, Any, find-IsFirst, find-All,
  All_of_filter, All_of_Member, some_injective, Bool-cases, Option-cases, if◌then◌else◌, String,
  Bool, true, false, not, ◌++◌, List, Option, none, some, ◌≡◌, refl, arith, map, some_and, All,
  All-append, All-map_of, All_imp, All-filter-Member, All-Member, All_of_append, All_of_map,
  All_of_compact, IfSome, any, any-eq-false, compact,
}
use balena_supervisor.Common.Texts.{includes}
use balena_supervisor.Compose.Service.{Service}
use balena_supervisor.Compose.Images.{Image, image_from_service}
use balena_supervisor.Compose.Steps.{save_image, remove_image}
use balena_supervisor.Compose.ApplicationManager.Types.{Apps, all_services}
use balena_supervisor.Compose.ApplicationManager.ImageSteps.Reasons.{
  is_engine_image, is_full_match, Runs, IsDelta, IsUnneeded, IsUnsaved, IsImageChange,
}
use balena_supervisor.Compose.ApplicationManager.ImageSteps.{
  without_ids, same_metadata, current_image, images_in_use, unused_images, delta_sources, is_known,
  deletes_first, best_delta_source, target_docker_id, is_actually_available, images_to_remove,
  has_to_be_saved, save_and_remove_images,
}

-- the image of a container, as the code finds it
current_image-Runs :
    (available : List Image) (s : Service) (i : Image)
    → Runs available s i
    → current_image available s ≡ some i
unfolding current_image
current_image-Runs available s i (inl first) =
    rw (find-IsFirst (is_full_match s) available i first) refl
current_image-Runs available s i (inr (missing, first)) =
    rw
      (
        find-All (is_full_match s) available missing,
        find-IsFirst (is_engine_image s) available i first,
      )
      refl

running_differs :
    (image : Image) (found : Option Image) (i : Image)
    → IfSome (λ j. same_metadata image j ≡ false) found
    → found ≡ some i
    → same_metadata image i ≡ false
running_differs image none i h e = cc
running_differs image (some j) i h e =
    subst (λ k. same_metadata image k ≡ false) (some_injective e) h

listed_differ :
    (sources : List String) (n : String)
    → includes sources n ≡ false
    → All (λ m. str_eq m n ≡ false) sources
listed_differ [] n h = tt
listed_differ (m ∷ sources) n h = (ground arith, listed_differ sources n (ground arith))

abbrev Differs : String → Option String → Type 0
Differs n = IfSome (λ m. str_eq m n ≡ false)

module _ (available : List Image) (target : List Service) where
  delta_source :
      (t : Service) (source : Image)
      → IsDelta available target t source
      → (not (is_known available (image_from_service t)) ≡ true)
        × (not (any (deletes_first (image_from_service t)) target) ≡ true)
        × (best_delta_source (image_from_service t) available ≡ source.name)
  unfolding best_delta_source image_from_service
  delta_source t source d = (
    rw (no_image _ available d.unknown) refl,
    rw (no_image _ target d.kept) refl,
    rw (best_delta_source, find-IsFirst _ available source d.first) refl,
  )
    where
      no_image :
          {A : Type 0} (p : A → Bool) (xs : List A) → All (λ x. p x ≡ false) xs → any p xs ≡ false
      no_image p [] h = refl
      no_image p (x ∷ xs) (e, h) = rw (e, no_image p xs h) refl

  not_source :
      (name : Option String)
      → not (some_and name (includes (delta_sources available target))) ≡ true
      → All
          (λ t.
            (source : Image)
            → IsDelta available target t source
            → some_and name (λ n. some_and source.name (λ m. str_eq m n)) ≡ false)
          target
  unfolding delta_sources
  not_source none h = All_of_Member _ target (λ t m source d. refl)
  not_source (some n) h =
      let listed : All (λ m. str_eq m n ≡ false) (delta_sources available target) =
        listed_differ (delta_sources available target) n (ground arith) in
      let sources =
        All_of_map (Differs n) (λ i. best_delta_source i available) _ (All_of_compact _ _ listed) in
      let kept =
        All_of_filter (λ i. Differs n (best_delta_source i available))
          (λ i. not (any (deletes_first i) target)) _ sources in
      let downloads =
        All_of_map
          (λ i.
            not (is_known available i) ≡ true
            → not (any (deletes_first i) target) ≡ true
            → Differs n (best_delta_source i available))
          image_from_service target (All_of_filter _ (λ i. not (is_known available i)) _ kept) in
      All_imp _ _
        (λ t k source d.
          let (unknown, kept, best) = delta_source t source d in
          named n source.name (subst (Differs n) best (k unknown kept)))
        target downloads
    where
      named :
          (n : String) (name : Option String)
          → Differs n name
          → some_and name (λ m. str_eq m n) ≡ false
      named n none h = refl
      named n (some m) h = h

target_docker_id-Any :
    (target : List Service) (name : Option String) (id : String)
    → target_docker_id target name ≡ some id
    → Any
        (λ (t : Service).
          (same_option str_eq t.image_name name ≡ true) × (t.docker_image_id ≡ some id))
        target
unfolding target_docker_id
target_docker_id-Any [] name id h = cc
target_docker_id-Any (t ∷ target) name id h = elim (Option-cases (target_docker_id target name)) [
  | inr (found, e) ↦ inr (target_docker_id-Any target name id (e ∙ (rw e at h)))
  | inl e ↦ elim (Bool-cases (same_option str_eq t.image_name name)) [
    | inl same ↦ inl (same, rw (e, same) at h)
    | inr other ↦ let k : none ≡ some id = rw (e, other, if◌then◌else◌) at h in cc
  ]
]

has_to_be_saved-IsUnsaved :
    (available : List Image) (target : List Service) (i : Image)
    → has_to_be_saved available target i ≡ true
    → IsUnsaved available target i
unfolding has_to_be_saved is_actually_available
has_to_be_saved-IsUnsaved available target i h =
    elim (Bool-cases (is_actually_available available (target_docker_id target i.name) i)) [
      | inl there ↦
          inl (any-eq-false (λ j. same_metadata (without_ids j) i) available (ground arith))
      | inr missing ↦ elim (Option-cases (target_docker_id target i.name)) [
        | inl e ↦ absurd (no_id e missing)
        | inr (id, e) ↦ inr (
          All_imp _ _ (λ j d. not_same _ _ d) available (any-eq-false _ available missing),
          id,
          target_docker_id-Any target i.name id e,
        )
      ]
    ]
  where
    not_same : (a b : Bool) → (a || b) ≡ false → a ≡ false
    not_same a b h = ground arith

    no_id :
        target_docker_id target i.name ≡ none
        → is_actually_available available (target_docker_id target i.name) i ≡ false
        → ⊥
    no_id e missing = cc (rw e at missing)

not-eq-true : (b : Bool) → not b ≡ true → b ≡ false
not-eq-true b h = ground arith

unused :
    (available : List Image) (current target : List Service) (image : Image)
    → any (same_metadata image) (images_in_use available current target) ≡ false
    → All (λ s. IfSome (λ i. same_metadata image i ≡ false) (current_image available s)) current
      × All (λ t. same_metadata image (image_from_service t) ≡ false) target
unfolding images_in_use
unused available current target image h =
    let (running, targeted) =
      All_of_append (λ i. same_metadata image i ≡ false) _ _
        (any-eq-false (same_metadata image)
          (compact (map (current_image available) current) ++ map image_from_service target) h) in
    (
      All_of_map _ (current_image available) current (All_of_compact _ _ running),
      All_of_map _ image_from_service target targeted,
    )

removed-IsUnneeded :
    (available : List Image) (current target : List Service) (skip : Bool)
    → All
        (λ i. (skip ≡ false) × IsUnneeded available current target i)
        (images_to_remove available current target skip)
unfolding images_to_remove unused_images
removed-IsUnneeded available current target true = tt
removed-IsUnneeded available current target false =
    All_imp _ _
      (λ i (m, listed).
        let (known, free) =
          All-Member _ _
            (All-filter-Member
              (λ j. not (any (same_metadata j) (images_in_use available current target)))
              (map without_ids available))
            i m in
        let (running, targeted) = unused available current target i (not-eq-true _ free) in
        (
          refl,
          record {
            is_available = known;
            not_targeted = targeted;
            not_running =
                All_imp _ _
                  (λ s differs k r.
                    running_differs i (current_image available s) k differs
                      (current_image-Runs available s k r))
                  current running;
            not_source = not_source available target i.name listed;
          },
        ))
      _
      (All-filter-Member
        (λ (i : Image). not (some_and i.name (includes (delta_sources available target)))) _)

-- An image is removed only if removals are wanted, it is in the database, no service of the target
-- has its metadata, it is not what the database has for a container, and it is not the image that a
-- download of the target would be a delta on. An image is saved only if it is that of a service of the
-- target, and the database lacks its metadata, or lacks its name while the target knows its id in the
-- engine. Nothing else is done to images.
pub save_and_remove_images-IsImageChange :
    (current target : Apps) (available : List Image) (skip : Bool)
    → All
        (IsImageChange available current target skip)
        (save_and_remove_images current target available skip)
unfolding save_and_remove_images
save_and_remove_images-IsImageChange current target available skip =
    All-append _ _ _
      (All-map_of _ save_image _ (
        All_imp _ _ (λ i (m, e). (m, has_to_be_saved-IsUnsaved available (all_services target) i e))
          _ (All-filter-Member (has_to_be_saved available (all_services target)) _)))
      (All-map_of _ remove_image _ (removed-IsUnneeded available _ _ skip))
