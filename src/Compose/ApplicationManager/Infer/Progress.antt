-- ===== src/Compose/ApplicationManager/Infer/Progress.antt =====
-- compose/application-manager.ts: `inferNextSteps` limits the downloads and keeps the state
-- application alive.
use balena_supervisor.Common.{
  ℕ, zero, suc, ◌+◌, ◌≤◌, String, Bool, true, List, [], ◌∷◌, ◌≡◌, ◌≢◌, refl, ◌⊎◌, inl, length,
}
use balena_supervisor.Common.Results.{ok}
use balena_supervisor.Compose.Service.{Service}
use balena_supervisor.Compose.Images.{Image}
use balena_supervisor.Compose.Steps.{CompositionStep}
use balena_supervisor.Compose.App.Types.{ContainerIds}
use balena_supervisor.Compose.ApplicationManager.Types.{Apps}
use balena_supervisor.Compose.ApplicationManager.Downloads.{
  max_delta_downloads, count_fetches, limit_deltas, keep_alive,
}
use balena_supervisor.Compose.ApplicationManager.Downloads.Bounds.{count_updates, limit_deltas-le}
use balena_supervisor.Compose.ApplicationManager.Infer.{Options, finish, infer_next_steps}
use balena_supervisor.Compose.ApplicationManager.Infer.Finish.{infer_next_steps-finish}

keep_alive-ne-nil :
    (names : List String) (steps : List CompositionStep)
    → names ≢ []
    → keep_alive (length names) steps ≢ []
unfolding keep_alive
keep_alive-ne-nil [] steps h e = h refl
keep_alive-ne-nil (n ∷ names) [] h e = cc
keep_alive-ne-nil (n ∷ names) (s ∷ steps) h e = cc

keep_alive-le :
    (available : List Image) (d : ℕ) (steps : List CompositionStep)
    → (count_updates available steps ≡ 0) ⊎ (d + count_fetches steps ≤ max_delta_downloads)
    → (count_updates available (keep_alive d steps) ≡ 0)
      ⊎ (d + count_fetches (keep_alive d steps) ≤ max_delta_downloads)
unfolding keep_alive
keep_alive-le available zero [] h = h
keep_alive-le available (suc d) [] h = inl refl
keep_alive-le available d (s ∷ steps) h = h

module _ (same_config : Service → Service → ContainerIds → Bool) (o : Options)
    (current target : Apps) (steps : List CompositionStep) where
  -- While an image is downloaded there is always a step, so that the state application goes on.
  pub infer_next_steps-ne-nil :
      infer_next_steps same_config o current target ≡ ok steps → o.downloading ≢ [] → steps ≢ []
  unfolding finish
  infer_next_steps-ne-nil e busy =
      let (planned, _, finished) = infer_next_steps-finish same_config o current target steps e in
      rw (← finished) (
        keep_alive-ne-nil o.downloading
          (limit_deltas o.delta (length o.downloading) o.available_images planned) busy)

  -- Where deltas are used, no image is fetched for an app that has one already, or at most three
  -- downloads are under way once the steps are taken.
  pub infer_next_steps-le :
      infer_next_steps same_config o current target ≡ ok steps
      → o.delta ≡ true
      → (count_updates o.available_images steps ≡ 0)
        ⊎ (length o.downloading + count_fetches steps ≤ max_delta_downloads)
  unfolding finish
  infer_next_steps-le e delta =
      let (planned, _, finished) = infer_next_steps-finish same_config o current target steps e in
      rw (← finished, delta)
        (keep_alive-le o.available_images (length o.downloading)
          (limit_deltas true (length o.downloading) o.available_images planned)
          (limit_deltas-le o.available_images (length o.downloading) planned))
