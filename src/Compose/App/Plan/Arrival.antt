-- ===== src/Compose/App/Plan/Arrival.antt =====
-- compose/app.ts: an app that runs what its target asks for.
use mathlib.Core.List.{flat_map}
use balena_supervisor.Common.{
  String, Bool, true, false, List, [], ◌∷◌, ◌++◌, map, ◌≡◌, refl, sym, subst, inl, inr, All-filter,
  Member, arith, All, All-Member, All_imp, any, filter, Bool-cases, str_eq,
}
use balena_supervisor.Common.Texts.{str_eq_self}
use balena_supervisor.Common.Results.{
  Ensures, ok, map_result, map_result_total, map_result-All, at_ok,
}
use balena_supervisor.Compose.Labels.{label, check_truthy}
use balena_supervisor.Compose.Service.{Service}
use balena_supervisor.Compose.Volume
use balena_supervisor.Compose.Volume.{Volume}
use balena_supervisor.Compose.Network
use balena_supervisor.Compose.Network.{Network}
use balena_supervisor.Compose.App.Types.{App, ContainerIds, UpdateState}
use balena_supervisor.Compose.App.Components.{
  removal, creation, replacement, is_stopping, generate_steps_for_component,
}
use balena_supervisor.Compose.App.Components.Settled.{
  none_outdated, all_named, IsSettled, compare_components-IsSettled, compare_components-eq-nil,
}
use balena_supervisor.Compose.App.Services.{
  ServicePairs, Candidate, candidate, key_by, values, only_in, shared_with, is_named, has_exited,
  needs_update, is_equal_except_for_running_state, should_be_started, should_be_stopped,
  should_wait_for_stop, pick_current, compare_services,
}
use balena_supervisor.Compose.App.Services.Keys.{key_by-All, includes-key_by}
use balena_supervisor.Compose.App.ServiceSteps.{is_dead}
use balena_supervisor.Compose.App.Plan.{
  migrate_legacy, dead_steps, volume_changes, network_changes, all_pairs, volume_steps,
  network_steps, new_commit, commit_steps, steps_for_pairs, next_steps_for_app_update,
}

-- A service of the target has one container, which has its configuration and its commit, runs if the
-- service is to run, and has exited if it is not. It is not being stopped.
pub record IsUpToDate (same_config : Service → Service → ContainerIds → Bool) (ids : ContainerIds)
    (current : List Service) (t : Service) : Type 0 where
  pub container : Service
  pub only : filter (is_named t.service_name) current ≡ container ∷ []
  pub same_settings : same_config container t ids ≡ true
  pub same_commit : container.commit ≡ t.commit
  pub same_running : container.config.running ≡ t.config.running
  pub stopped : t.config.running ≡ false → has_exited container.status ≡ true
  pub settled : is_stopping container.status ≡ false

-- A container of a preloaded app, whose labels a target would take over.
abbrev pub is_legacy : Service → Bool
is_legacy s = check_truthy (label "io.balena.legacy-container" s.config.labels)

-- The app runs what its target asks for. No container is dead or left over, every service is up to
-- date, the volumes of the target are there, and the networks are those of the target.
pub record HasArrived (same_config : Service → Service → ContainerIds → Bool) (state : UpdateState)
    (this target : App) : Type 0 where
  pub alive : All (λ (s : Service). is_dead s.status ≡ false) this.services
  pub not_legacy : All (λ s. is_legacy s ≡ false) this.services
  pub up_to_date : All (IsUpToDate same_config state.container_ids this.services) target.services
  pub wanted :
      All (λ (c : Service). any (is_named c.service_name) target.services ≡ true) this.services
  pub volumes_alike :
      none_outdated (λ (v : Volume). v.name) Volume.is_equal_config this.volumes target.volumes
      ≡ true
  pub volumes_there :
      all_named (λ (v : Volume). v.name) Volume.is_equal_config target.volumes this.volumes ≡ true
  pub networks_settled :
      IsSettled (λ (n : Network). n.name) Network.is_equal_config this.networks target.networks

none_dead :
    (services : List Service)
    → All (λ (s : Service). is_dead s.status ≡ false) services
    → dead_steps services ≡ []
none_dead [] h = refl
none_dead (s ∷ services) (e, h) = rw e (none_dead services h)

migrate_legacy-eq :
    (current target : List Service)
    → All (λ s. is_legacy s ≡ false) current
    → migrate_legacy current target ≡ target
unfolding migrate_legacy
migrate_legacy-eq [] target h = refl
migrate_legacy-eq (c ∷ []) [] h = refl
migrate_legacy-eq (c ∷ []) (t ∷ []) h = ground arith
migrate_legacy-eq (c ∷ []) (t ∷ u ∷ target) h = refl
migrate_legacy-eq (c ∷ d ∷ current) target h = refl

filter-eq-nil :
    {A : Type 0} (p : A → Bool) (xs : List A) → All (λ x. p x ≡ false) xs → filter p xs ≡ []
filter-eq-nil p [] h = refl
filter-eq-nil p (x ∷ xs) (e, h) = rw e (filter-eq-nil p xs h)

any_of_filter :
    {A : Type 0} (p : A → Bool) (xs : List A) (x : A) → filter p xs ≡ x ∷ [] → any p xs ≡ true
any_of_filter p [] x h = cc
any_of_filter p (y ∷ xs) x h = elim (Bool-cases (p y)) [
  | inl e ↦ rw e refl
  | inr e ↦ rw e (any_of_filter p xs x (rw e at h))
]

module _ (same_config : Service → Service → ContainerIds → Bool) (ids : ContainerIds)
    (current target : List Service) where
  no_update :
      (t : Service) (u : IsUpToDate same_config ids current t)
      → needs_update same_config u.container t ids ≡ false
  unfolding needs_update is_equal_except_for_running_state should_be_started should_be_stopped
      should_wait_for_stop
  no_update t u =
      let commit : str_eq u.container.commit t.commit ≡ true =
        rw u.same_commit (str_eq_self t.commit) in
      elim (Bool-cases t.config.running) [
        | inl run ↦ rw (u.same_settings, commit, u.same_running, run, u.settled) refl
        | inr stop ↦ rw (u.same_settings, commit, u.same_running, stop, u.stopped stop) refl
      ]

  abbrev IsIdle : Candidate → Type 0
  IsIdle c = (c.spurious ≡ []) × (needs_update same_config c.current c.target ids ≡ false)

  IsIdle-candidate :
      (name : String) (t : Service)
      → name ≡ t.service_name
      → IsUpToDate same_config ids current t
      → (c : Candidate) × (candidate current (name, t) ≡ ok c) × IsIdle c
  unfolding candidate pick_current
  IsIdle-candidate name t same u = (
    record { current = u.container; target = t; spurious = [] },
    rw (same, u.only) refl,
    (refl, no_update t u),
  )

  only_in-eq-nil :
      (xs others : List Service)
      → All (λ (x : Service). any (is_named x.service_name) others ≡ true) xs
      → only_in (key_by others) (key_by xs) ≡ []
  only_in-eq-nil xs others h = filter-eq-nil _ (key_by xs) (
      All_imp _ _
        (λ (k, s) (same, m).
          let named : any (is_named k) others ≡ true =
            subst (λ n. any (is_named n) others ≡ true) (sym same) (All-Member _ xs h s m) in
          rw (includes-key_by others k, named) refl)
        (key_by xs) (key_by-All xs))

  abbrev IsEntry : String × Service → Type 0
  IsEntry (k, s) = (k ≡ s.service_name) × Member s target

  no_spurious :
      (cs : List Candidate)
      → All IsIdle cs
      → flat_map (λ (c : Candidate). map removal c.spurious) cs ≡ []
  unfolding flat_map
  no_spurious [] h = refl
  no_spurious (c ∷ cs) (i, h) = rw (i.0, no_spurious cs h) refl

  no_pairs :
      All (IsUpToDate same_config ids current) target
      → All (λ (c : Service). any (is_named c.service_name) target ≡ true) current
      → (p : ServicePairs) × (compare_services same_config current target ids ≡ ok p)
        × (all_pairs p ≡ [])
  unfolding compare_services
  no_pairs up wanted =
      let shared = shared_with (key_by current) (key_by target) in
      let meant : All IsEntry shared = All-filter _ _ (key_by target) (key_by-All target) in
      let (cs, computed) = map_result_total (candidate current) shared (
        All_imp _ _
          (λ (k, s) (same, m).
            let (c, e, idle) = IsIdle-candidate k s same (All-Member _ target up s m) in (c, e))
          shared meant) in
      let idle : All IsIdle cs =
        at_ok (All IsIdle) _ cs
          (map_result-All (candidate current) IsEntry IsIdle
            (λ (k, s) (same, m).
              let (c, e, idle) = IsIdle-candidate k s same (All-Member _ target up s m) in
              subst (Ensures IsIdle) (sym e) idle)
            shared meant)
          computed in
      (
        record {
          install_pairs = map creation (values (only_in (key_by current) (key_by target)));
          remove_pairs =
              map removal (values (only_in (key_by target) (key_by current)))
              ++ flat_map (λ (c : Candidate). map removal c.spurious) cs;
          update_pairs =
              map (λ (c : Candidate). replacement c.current c.target)
                (filter (λ (c : Candidate). needs_update same_config c.current c.target ids) cs);
        },
        rw computed refl,
        rw
            (
              only_in-eq-nil current target wanted,
              only_in-eq-nil target current
                  (All_imp _ _ (λ t u. any_of_filter _ current u.container u.only) target up),
              no_spurious cs idle,
              filter-eq-nil _ cs (All_imp _ _ (λ c h. h.1) cs idle),
            )
            refl,
      )

no_steps :
    (same_config : Service → Service → ContainerIds → Bool) (state : UpdateState)
    (this target : App) (services : List Service)
    → All (λ (s : Service). is_dead s.status ≡ false) this.services
    → volume_changes this target ≡ []
    → network_changes this target ≡ []
    → steps_for_pairs same_config state this (record target { services = services }) [] ≡ ok []
unfolding steps_for_pairs map_result volume_steps network_steps generate_steps_for_component
    volume_changes network_changes flat_map
no_steps same_config state this target services alive volumes networks =
    rw (none_dead this.services alive, volumes, networks) refl

-- An app that runs what its target asks for has nothing left to do but to store the commit of the
-- target, if it has one that is new.
pub next_steps-HasArrived :
    (same_config : Service → Service → ContainerIds → Bool) (state : UpdateState)
    (this target : App)
    → HasArrived same_config state this target
    → next_steps_for_app_update same_config state this target
      ≡ ok (new_commit this.app_id this.commit target.commit)
unfolding next_steps_for_app_update commit_steps volume_changes network_changes
next_steps-HasArrived same_config state this target h =
    let (pairs, compared, nothing) =
      no_pairs same_config state.container_ids this.services target.services h.up_to_date
        h.wanted in
    rw
      (
        migrate_legacy-eq this.services target.services h.not_legacy,
        compared,
        nothing,
        no_steps same_config state this target target.services h.alive
            (compare_components-eq-nil _ _ this.volumes target.volumes h.volumes_alike
              h.volumes_there)
            ((compare_components-IsSettled _ _ this.networks target.networks).1 h.networks_settled),
      )
      refl
