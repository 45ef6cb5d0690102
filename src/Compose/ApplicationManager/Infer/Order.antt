-- ===== src/Compose/ApplicationManager/Infer/Order.antt =====
-- compose/application-manager.ts: the network comes before the images, and the images before the apps.
use balena_supervisor.Common.{
  Bool, false, not, ◌&&◌, List, [], ◌∷◌, ◌++◌, ◌≡◌, subst, ◌⊎◌, inl, inr, arith, Bool-cases,
  Option-cases, All, All-append, All-flat_map, All_imp, All_intro, is_empty, is_empty_iff, true,
  refl, ℕ, if◌then◌else◌, flat_map,
}
use balena_supervisor.Common.Results.{
  Result, ok, thrown, type_error, Ensures, Ensures-ok, at_ok, ok_injective, map_result,
  map_result-All, ◌>>=◌,
}
use balena_supervisor.Compose.Service.{Service}
use balena_supervisor.Compose.Steps.{CompositionStep, noop, save_image, remove_image, cleanup}
use balena_supervisor.Compose.App.Types.{App, ContainerIds, UpdateState}
use balena_supervisor.Compose.App.Plan.{next_steps_for_app_update}
use balena_supervisor.Compose.App.Plan.AppSteps.{
  IsAppStep, next_steps-IsAppStep, steps_to_remove_app-IsAppStep,
}
use balena_supervisor.Compose.ApplicationManager.Types.{Apps, only_in, find_by_id}
use balena_supervisor.Compose.ApplicationManager.ImageSteps.{save_and_remove_images}
use balena_supervisor.Compose.ApplicationManager.ImageSteps.Reasons.{IsImageChange}
use balena_supervisor.Compose.ApplicationManager.ImageSteps.Kept.{
  save_and_remove_images-IsImageChange,
}
use balena_supervisor.Compose.ApplicationManager.Infer.{
  Options, compares_ids, state_of, concat, update_app, create_app, remove_app, shared_apps,
  image_steps, app_steps, planned_steps, infer_next_steps,
}
use balena_supervisor.Compose.ApplicationManager.Infer.Network.{IsNetworkStep, network_steps-All}
use balena_supervisor.Compose.ApplicationManager.Infer.Finish.{infer_next_steps-finish, finish-All}

-- Images are cleaned up, saved or removed, each for its reason, or a download is waited for.
abbrev pub IsImageStep : Options → Apps → Apps → CompositionStep → Type 0
IsImageStep o current target cleanup = o.keep_images ≡ false
IsImageStep o current target noop = Unit
IsImageStep o current target step =
    IsImageChange o.available_images current target o.keep_images step

-- No image is cleaned up, saved or removed.
abbrev pub IsNoImageStep : CompositionStep → Type 0
IsNoImageStep cleanup = ⊥
IsNoImageStep (save_image i) = ⊥
IsNoImageStep (remove_image i) = ⊥
IsNoImageStep _ = Unit

change-IsImageStep :
    (o : Options) (current target : Apps) (step : CompositionStep)
    → IsImageChange o.available_images current target o.keep_images step
    → IsImageStep o current target step
change-IsImageStep o current target cleanup h = absurd h
change-IsImageStep o current target noop h = tt
change-IsImageStep o current target (save_image i) h = h
change-IsImageStep o current target (remove_image i) h = h
change-IsImageStep o current target _ h = absurd h

app_step-IsNoImageStep : (step : CompositionStep) → IsAppStep step → IsNoImageStep step
app_step-IsNoImageStep cleanup h = h
app_step-IsNoImageStep (save_image i) h = h
app_step-IsNoImageStep (remove_image i) h = h
app_step-IsNoImageStep _ h = tt

network_step-IsNoImageStep :
    (current : Apps) (step : CompositionStep) → IsNetworkStep current step → IsNoImageStep step
network_step-IsNoImageStep current cleanup h = h
network_step-IsNoImageStep current (save_image i) h = h
network_step-IsNoImageStep current (remove_image i) h = h
network_step-IsNoImageStep current _ h = tt

image_steps-All :
    (o : Options) (current target : Apps)
    → All (IsImageStep o current target) (image_steps o current target)
unfolding image_steps
image_steps-All o current target = elim (Bool-cases (is_empty o.downloading)) [
  | inr e ↦ rw e tt
  | inl e ↦ rw e (
      All-append (IsImageStep o current target) _ _ (cleaned o.keep_images o.is_cleanup_needed) (
        All_imp _ _ (change-IsImageStep o current target) _
          (save_and_remove_images-IsImageChange current target o.available_images o.keep_images)))
]
  where
    cleaned :
        (keep needed : Bool)
        → All
            (λ step. IsImageStep (record o { keep_images = keep }) current target step)
            (if not keep && needed then cleanup ∷ [] else [])
    cleaned keep needed = ground arith

-- Images are downloaded, or there is nothing to do about the others.
abbrev pub NoImageWork : Options → Apps → Apps → Type 0
NoImageWork o current target =
    (is_empty o.downloading ≡ false)
    ⊎ (((not o.keep_images && o.is_cleanup_needed) ≡ false)
        × (save_and_remove_images current target o.available_images o.keep_images ≡ []))

-- The network comes first, then the images, then the apps.
abbrev pub InOrder : Options → Apps → Apps → List CompositionStep → Type 0
InOrder o current target steps =
    ((o.supervisor_network_ready ≡ false) × All (IsNetworkStep current) steps)
    ⊎ ((o.supervisor_network_ready ≡ true)
        × (All (IsImageStep o current target) steps
            ⊎ (NoImageWork o current target × All IsNoImageStep steps)))

no_image_steps :
    (o : Options) (current target : Apps)
    → is_empty (image_steps o current target) ≡ true
    → NoImageWork o current target
unfolding image_steps
no_image_steps o current target h = elim (Bool-cases (is_empty o.downloading)) [
  | inr e ↦ inl e
  | inl e ↦ inr (nothing (not o.keep_images && o.is_cleanup_needed) _ (rw e at h))
]
  where
    nothing :
        (b : Bool) (steps : List CompositionStep)
        → is_empty ((if b then cleanup ∷ [] else []) ++ steps) ≡ true
        → (b ≡ false) × (steps ≡ [])
    nothing true steps h = cc
    nothing false steps h = (refl, is_empty_iff steps h)

concat-All :
    (P : CompositionStep → Type 0) (lists : List (List CompositionStep))
    → All (All P) lists
    → All P (concat lists)
concat-All P [] h = tt
concat-All P (s ∷ lists) (p, h) = All-append P s (concat lists) p (concat-All P lists h)

module _ (same_config : Service → Service → ContainerIds → Bool) (o : Options) where
  update_app-All :
      (id : ℕ) (app target : App)
      → Ensures (All IsNoImageStep) (update_app same_config o (id, app, target))
  unfolding update_app
  update_app-All id app target = elim (Option-cases (find_by_id id o.container_ids_by_app_id)) [
    | inr (ids, e) ↦ rw (e, update_app) (steps-All (state_of o ids))
    | inl e ↦ rw (e, update_app) (unread (compares_ids app target))
  ]
    where
      steps-All :
          (state : UpdateState)
          → Ensures (All IsNoImageStep) (next_steps_for_app_update same_config state app target)
      steps-All state = Ensures-ok (All IsNoImageStep) _ λ steps e.
          All_imp IsAppStep IsNoImageStep app_step-IsNoImageStep steps
            (next_steps-IsAppStep same_config state app target steps e)

      unread :
          (b : Bool)
          → Ensures (All IsNoImageStep) (
              if b
              then thrown type_error
              else next_steps_for_app_update same_config (state_of o []) app target)
      unread true = tt
      unread false = steps-All (state_of o [])

  updates-All :
      (apps : List (ℕ × App × App))
      → Ensures (All (All IsNoImageStep)) (map_result (update_app same_config o) apps)
  updates-All apps =
      map_result-All (update_app same_config o) (λ _. Unit {0}) (All IsNoImageStep)
        (λ (id, app, target) _. update_app-All id app target) apps (All_intro _ (λ _. tt) apps)

  creations-All :
      (apps : Apps) → Ensures (All (All IsNoImageStep)) (map_result (create_app same_config o) apps)
  creations-All apps =
      map_result-All (create_app same_config o) (λ _. Unit {0}) (All IsNoImageStep)
        (λ (id, target) _. Ensures-ok (All IsNoImageStep) _ λ steps e.
          All_imp IsAppStep IsNoImageStep app_step-IsNoImageStep steps
            (next_steps-IsAppStep same_config _ _ target steps e))
        apps (All_intro _ (λ _. tt) apps)

  removals-All : (apps : Apps) → All IsNoImageStep (flat_map (remove_app same_config o) apps)
  removals-All = All-flat_map IsNoImageStep (remove_app same_config o) λ (id, app).
      All_imp IsAppStep IsNoImageStep app_step-IsNoImageStep _
        (steps_to_remove_app-IsAppStep app o.keep_volumes)

  app_steps-All :
      (current target : Apps) → Ensures (All IsNoImageStep) (app_steps same_config o current target)
  unfolding app_steps
  app_steps-All current target =
      joined (map_result _ _) (updates-All (shared_apps current target)) (map_result _ _)
        (creations-All (only_in current target))
    where
      joined :
          (updates : Result (List (List CompositionStep)))
          → Ensures (All (All IsNoImageStep)) updates
          → (creations : Result (List (List CompositionStep)))
          → Ensures (All (All IsNoImageStep)) creations
          → Ensures (All IsNoImageStep) (
              updates >>= λ us. creations >>= λ cs. ok (
                concat us
                ++ flat_map (remove_app same_config o) (only_in target current)
                ++ concat cs))
      joined (thrown e) h cs k = tt
      joined (ok us) h (thrown e) k = tt
      joined (ok us) h (ok cs) k =
          All-append IsNoImageStep _ _
            (All-append IsNoImageStep _ _ (concat-All IsNoImageStep us h) (removals-All _))
            (concat-All IsNoImageStep cs k)

  -- If the network of the supervisor is missing, all steps are about it. If it is there, all steps
  -- clean up, remove or save images, each for its reason, or wait, unless images are downloaded or no
  -- image has to be cleaned up, saved or removed; only then are there steps for the apps, and none of
  -- these cleans up, saves or removes an image.
  pub infer_next_steps-InOrder :
      (current target : Apps) (steps : List CompositionStep)
      → infer_next_steps same_config o current target ≡ ok steps
      → InOrder o current target steps
  unfolding planned_steps
  infer_next_steps-InOrder current target steps e =
      let (planned, computed, finished) =
        infer_next_steps-finish same_config o current target steps e in
      rw (← finished) (elim (Bool-cases (not o.supervisor_network_ready)) [
        | inl n ↦
            let same = rw (n, if◌then◌else◌) at computed in
            inl (
              ground arith,
              finish-All (IsNetworkStep current) tt o planned (
                  subst (All (IsNetworkStep current)) (ok_injective same)
                    (network_steps-All current)),
            )
        | inr n ↦ elim (Bool-cases (is_empty (image_steps o current target))) [
          | inr i ↦
              let same = rw (n, i, if◌then◌else◌) at computed in
              inr (
                ground arith,
                inl (
                    finish-All (IsImageStep o current target) tt o planned (
                      subst (All (IsImageStep o current target)) (ok_injective same)
                        (image_steps-All o current target))),
              )
          | inl i ↦ inr (
            ground arith,
            inr (
              no_image_steps o current target i,
              finish-All IsNoImageStep tt o planned (
                  at_ok (All IsNoImageStep) _ planned (app_steps-All current target)
                    (rw (n, i, if◌then◌else◌) at computed)),
            ),
          )
        ]
      ])
