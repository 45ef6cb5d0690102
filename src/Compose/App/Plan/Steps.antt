-- ===== src/Compose/App/Plan/Steps.antt =====
-- compose/app.ts: what holds of every step of an update.
use balena_supervisor.Common.{
  Bool, true, false, List, [], ◌∷◌, ◌++◌, Option, none, some, ◌≡◌, refl, sym, ◌∙◌, arith, All,
  All-append, All-map, All_imp, All_intro, All-compact, IfSome, Member, any, filter, compact,
}
use balena_supervisor.Common.Results.{
  Result, ok, thrown, Ensures, Ensures-imp, map_result, map_result-All, ok_injective, ◌>>=◌,
  >>=-eq-ok,
}
use balena_supervisor.Compose.Service.{Service}
use balena_supervisor.Compose.Volume
use balena_supervisor.Compose.Volume.{Volume}
use balena_supervisor.Compose.Network
use balena_supervisor.Compose.Network.{Network}
use balena_supervisor.Compose.Steps.{
  CompositionStep, stop, kill, remove, update_metadata, handover, start, fetch, create_network,
  create_volume, remove_network, remove_volume, noop,
}
use balena_supervisor.Compose.App.Types.{App, ContainerIds, UpdateState, ChangingPair}
use balena_supervisor.Compose.App.Components.{outdated}
use balena_supervisor.Compose.App.Components.Justified.{
  Justified, compare_components-Justified, compare_components-Replaces,
}
use balena_supervisor.Compose.App.Components.Emitted.{generate_steps_for_component-All}
use balena_supervisor.Compose.App.Services.{ServicePairs, compare_services}
use balena_supervisor.Compose.App.ServiceSteps.{Context, generate_steps_for_service}
use balena_supervisor.Compose.App.ServiceSteps.Allowed.{Allowed, generate_steps_for_service-Allowed}
use balena_supervisor.Compose.App.Plan.{
  migrate_legacy, dead_steps, volume_changes, network_changes, all_pairs, volume_steps,
  network_steps, commit_steps, context_of, steps_for_pairs, next_steps_for_app_update,
  depends_on_volume, depends_on_network,
}

-- the steps that are emitted for a pair of services
abbrev pub IsServiceStep : CompositionStep → Type 0
IsServiceStep (kill s) = Unit
IsServiceStep (handover s t) = Unit
IsServiceStep (fetch image name) = Unit
IsServiceStep (start t) = Unit
IsServiceStep (stop s) = Unit
IsServiceStep (update_metadata s t) = Unit
IsServiceStep noop = Unit
IsServiceStep _ = ⊥

IsServiceStep-of_Allowed :
    (x : Context) (pair : ChangingPair Service) (step : CompositionStep)
    → Allowed x pair step
    → IsServiceStep step
IsServiceStep-of_Allowed x pair (kill s) a = tt
IsServiceStep-of_Allowed x pair (handover s t) a = tt
IsServiceStep-of_Allowed x pair (fetch image name) a = tt
IsServiceStep-of_Allowed x pair (start t) a = tt
IsServiceStep-of_Allowed x pair (stop s) a = tt
IsServiceStep-of_Allowed x pair (update_metadata s t) a = tt
IsServiceStep-of_Allowed x pair noop a = tt
IsServiceStep-of_Allowed x pair _ a = absurd a

-- the volume is replaced by one of its name that is configured otherwise
abbrev pub IsReplaced : App → App → Volume → Type 0
IsReplaced this target v =
    Member v this.volumes
    × ((t : Volume) × Member t target.volumes
        × (outdated (λ (w : Volume). w.name) Volume.is_equal_config t v ≡ true))

IfSome-imp {ℓ κ μ} :
    {A : Type ℓ} (P : A → Type κ) (Q : A → Type μ)
    → ((a : A) → P a → Q a)
    → (o : Option A) → IfSome P o
    → IfSome Q o
IfSome-imp P Q k none h = tt
IfSome-imp P Q k (some a) h = k a h

module _ (same_config : Service → Service → ContainerIds → Bool) (state : UpdateState)
    (this target : App) (P : CompositionStep → Type 0)
    (of_service : (step : CompositionStep) → IsServiceStep step → P step)
    (of_dead : (s : Service) → P (remove s)) (of_volume : (v : Volume) → P (create_volume v))
    (of_network : (n : Network) → P (create_network n))
    (no_volume : (v : Volume)
      → IsReplaced this target v
      → any (depends_on_volume v) this.services ≡ false
      → P (remove_volume v))
    (no_network : (n : Network)
      → Member n this.networks
      → any (depends_on_network n) this.services ≡ false
      → P (remove_network n)) where
  volume_steps-All : (pairs : List (ChangingPair Service)) → All P (volume_steps this target pairs)
  unfolding volume_steps volume_changes
  volume_steps-All pairs =
      generate_steps_for_component-All create_volume remove_volume depends_on_volume P
        (IsReplaced this target) this.services pairs (λ s. of_service (kill s) tt) of_volume
        no_volume _ (compare_components-Replaces _ _ this.volumes target.volumes)

  Member-of_Justified :
      (pair : ChangingPair Network)
      → Justified
          (λ (n : Network). n.name)
          Network.is_equal_config
          this.networks
          target.networks
          pair
      → IfSome (λ n. Member n this.networks) pair.current
  Member-of_Justified pair j = ground arith

  network_steps-All :
      (pairs : List (ChangingPair Service)) → All P (network_steps this target pairs)
  unfolding network_steps network_changes
  network_steps-All pairs =
      generate_steps_for_component-All create_network remove_network depends_on_network P
        (λ n. Member n this.networks) this.services pairs (λ s. of_service (kill s) tt) of_network
        no_network _
        (All_imp _ _ Member-of_Justified _
          (compare_components-Justified _ _ this.networks target.networks true))

  emitted-All :
      (x : Context) (pairs : List (ChangingPair Service))
      → Ensures
          (All (IfSome P))
          (map_result (λ pair. generate_steps_for_service same_config pair x) pairs)
  emitted-All x pairs =
      map_result-All _ (λ _. Unit {0}) (IfSome P)
        (λ pair _.
          Ensures-imp (IfSome (Allowed x pair)) (IfSome P)
            (IfSome-imp _ P (λ step a. of_service step (IsServiceStep-of_Allowed x pair step a))) _
            (generate_steps_for_service-Allowed same_config x pair))
        pairs (All_intro _ (λ _. tt) pairs)

  -- What holds of the steps of each kind holds of all steps but the last one, `updateCommit`.
  pub steps_for_pairs-All :
      (pairs : List (ChangingPair Service))
      → Ensures (All P) (steps_for_pairs same_config state this target pairs)
  unfolding steps_for_pairs
  steps_for_pairs-All pairs =
      finish (map_result _ pairs) (emitted-All (context_of state this target pairs) pairs)
    where
      finish :
          (r : Result (List (Option CompositionStep)))
          → Ensures (All (IfSome P)) r
          → Ensures (All P) (
              r >>= λ steps. ok (
                dead_steps this.services
                ++ compact steps
                ++ volume_steps this target pairs
                ++ network_steps this target pairs))
      finish (thrown e) h = tt
      finish (ok steps) h =
          All-append P _ _
            (All-append P _ _
              (All-append P _ _ (All-map P remove of_dead (filter _ this.services))
                (All-compact P steps h))
              (volume_steps-All pairs))
            (network_steps-All pairs)

-- What an update that returns was computed from.
pub record IsPlanned (same_config : Service → Service → ContainerIds → Bool) (state : UpdateState)
    (this target : App) (steps : List CompositionStep) : Type 0 where
  pub migrated : List Service
  pub is_migrated : migrated ≡ migrate_legacy this.services target.services
  pub pairs : ServicePairs
  pub compared : compare_services same_config this.services migrated state.container_ids ≡ ok pairs
  pub planned : List CompositionStep
  pub computed :
      steps_for_pairs same_config state this
        (record target { services = migrated })
        (all_pairs pairs)
      ≡ ok planned
  pub finished : commit_steps this target planned ≡ steps

commit_steps_migrated :
    (this target : App) (services : List Service) (steps : List CompositionStep)
    → commit_steps this (record target { services = services }) steps
      ≡ commit_steps this target steps
unfolding commit_steps
commit_steps_migrated this target services [] = refl
commit_steps_migrated this target services (s ∷ steps) = refl

pub next_steps-IsPlanned :
    (same_config : Service → Service → ContainerIds → Bool) (state : UpdateState)
    (this target : App) (steps : List CompositionStep)
    → next_steps_for_app_update same_config state this target ≡ ok steps
    → IsPlanned same_config state this target steps
unfolding next_steps_for_app_update
next_steps-IsPlanned same_config state this target steps e =
    let migrated = migrate_legacy this.services target.services in
    let (pairs, compared, rest) = >>=-eq-ok _ _ e in
    let (planned, computed, same) = >>=-eq-ok _ _ rest in
    record {
      migrated = migrated;
      is_migrated = refl;
      pairs = pairs;
      compared = compared;
      planned = planned;
      computed = computed;
      finished = sym (commit_steps_migrated this target migrated planned) ∙ ok_injective same;
    }
