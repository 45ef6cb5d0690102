-- ===== src/Compose/App/Plan/Removal.antt =====
-- compose/app.ts: `stepsToRemoveApp` takes an app down in order.
use balena_supervisor.Common.{
  Bool, true, false, List, [], ◌∷◌, ◌≡◌, refl, ◌↔◌, ◌⊎◌, inl, inr, arith, All, All-map_of,
  All_of_Member, Member, is_empty, is_empty_iff, Bool-cases, ◌&&◌, not,
}
use balena_supervisor.Compose.Service.{Service}
use balena_supervisor.Compose.Volume.{Volume}
use balena_supervisor.Compose.Network.{Network}
use balena_supervisor.Compose.Steps.{CompositionStep, kill, remove_network, remove_volume}
use balena_supervisor.Compose.App.Types.{App}
use balena_supervisor.Compose.App.Plan.{steps_to_remove_app}

-- What a step of the removal finds done.
abbrev pub InOrder : App → Bool → CompositionStep → Type 0
InOrder app keep (kill s) = Member s app.services
InOrder app keep (remove_network n) = Member n app.networks × (app.services ≡ [])
InOrder app keep (remove_volume v) =
    Member v app.volumes × (app.services ≡ []) × (app.networks ≡ []) × (keep ≡ false)
InOrder app keep _ = ⊥

-- Networks are removed once no container is left, and volumes once no network is left and only if
-- they are not kept. Nothing else is done, and only components of the app are removed.
pub steps_to_remove_app-InOrder :
    (app : App) (keep : Bool) → All (InOrder app keep) (steps_to_remove_app app keep)
unfolding steps_to_remove_app
steps_to_remove_app-InOrder app keep =
    let kills = All-map_of (InOrder app keep) kill app.services (All_of_Member _ _ (λ s m. m)) in
    elim (Bool-cases (is_empty app.services)) [
      | inr e ↦ rw e kills
      | inl e ↦ rw e (
          let s = is_empty_iff app.services e in
          elim (Bool-cases (is_empty app.networks)) [
            | inr d ↦ rw d (All-map_of _ remove_network _ (All_of_Member _ _ (λ n m. (m, s))))
            | inl d ↦ rw d (
                let n = is_empty_iff app.networks d in
                elim (Bool-cases (not keep && not (is_empty app.volumes))) [
                  | inr f ↦ rw f tt
                  | inl f ↦ rw f (
                      All-map_of _ remove_volume _
                        (All_of_Member _ _ (λ v m. (m, s, n, ground arith))))
                ])
          ])
    ]

module _ (app : App) where
  abbrev with_components : List Service → List Network → List Volume → App
  with_components ss ns vs = record app { services = ss; networks = ns; volumes = vs }

  removal-eq-nil :
      (keep : Bool) (ss : List Service) (ns : List Network) (vs : List Volume)
      → (steps_to_remove_app (with_components ss ns vs) keep ≡ [])
        ↔ ((ss ≡ []) × (ns ≡ []) × ((keep ≡ true) ⊎ (vs ≡ [])))
  unfolding steps_to_remove_app
  removal-eq-nil true [] [] vs = (λ _. (refl, refl, inl refl), λ _. refl)
  removal-eq-nil false [] [] [] = (λ _. (refl, refl, inr refl), λ _. refl)
  removal-eq-nil false [] [] (v ∷ vs) = ground arith
  removal-eq-nil keep [] (n ∷ ns) vs = (λ h. cc, λ h. cc)
  removal-eq-nil keep (s ∷ ss) ns vs = (λ h. cc, λ h. cc)

-- An app that is taken down has nothing left to do exactly if it has no container and no network,
-- and no volume unless the volumes are kept.
pub steps_to_remove_app-eq-nil :
    (app : App) (keep : Bool)
    → (steps_to_remove_app app keep ≡ [])
      ↔ ((app.services ≡ []) × (app.networks ≡ []) × ((keep ≡ true) ⊎ (app.volumes ≡ [])))
steps_to_remove_app-eq-nil app keep = removal-eq-nil app keep app.services app.networks app.volumes
