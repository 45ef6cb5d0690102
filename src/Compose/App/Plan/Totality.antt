-- ===== src/Compose/App/Plan/Totality.antt =====
-- compose/app.ts: an update can be planned for every app whose containers have a date of creation.
use balena_supervisor.Common.{
  ℕ, String, Bool, true, List, [], ◌∷◌, some, ◌≡◌, inl, inr, arith, any, filter, All, All-append,
  All_imp, All-filter, All-filter_self, Bool-cases, if◌then◌else◌,
}
use balena_supervisor.Common.Texts.{includes}
use balena_supervisor.Common.Results.{Returns, Returns-map, map_result, map_result_total}
use balena_supervisor.Compose.Service.{Service}
use balena_supervisor.Compose.App.Types.{App, ContainerIds, UpdateState, ChangingPair}
use balena_supervisor.Compose.App.Services.{
  ServicePairs, key_by, keys, shared_with, pick_current, is_named, candidate, compare_services,
}
use balena_supervisor.Compose.App.Services.Latest.{pick_current_total}
use balena_supervisor.Compose.App.Services.Keys.{includes-key_by}
use balena_supervisor.Compose.App.Services.Pairs.{
  IsJustified, IsInstalled, IsRemoved, IsUpdated, compare_services-IsJustified,
}
use balena_supervisor.Compose.App.ServiceSteps.{generate_steps_for_service}
use balena_supervisor.Compose.App.ServiceSteps.Proceeds.{
  has_side, generate_steps_for_service-Returns,
}
use balena_supervisor.Compose.App.Plan.{
  migrate_legacy, all_pairs, commit_steps, context_of, steps_for_pairs, next_steps_for_app_update,
}

-- The container has a date of creation.
abbrev pub IsDated : Service → Type 0
IsDated s = (t : ℕ) × (s.created_at ≡ some t)

pick_from_named :
    (name : String) (xs : List Service)
    → any (is_named name) xs ≡ true
    → All IsDated (filter (is_named name) xs)
    → Returns (pick_current (filter (is_named name) xs))
pick_from_named name [] h d = cc
pick_from_named name (s ∷ xs) h d = elim (Bool-cases (is_named name s)) [
  | inl e ↦ rw e (pick_current_total s (filter (is_named name) xs) (rw (e, if◌then◌else◌) at d))
  | inr e ↦ rw e (pick_from_named name xs (ground arith) (rw (e, if◌then◌else◌) at d))
]

module _ (current : List Service) (dated : All IsDated current) where
  candidate-Returns :
      (k : String) (t : Service)
      → includes (keys (key_by current)) k ≡ true
      → Returns (candidate current (k, t))
  unfolding candidate
  candidate-Returns k t h =
      let (p, e) =
        pick_from_named k current (rw (includes-key_by current k) at h)
          (All-filter IsDated (is_named k) current dated) in
      (record { current = p.0; target = t; spurious = p.1 }, rw e)

  candidates-Returns :
      (target : List Service)
      → Returns (map_result (candidate current) (shared_with (key_by current) (key_by target)))
  candidates-Returns target = map_result_total (candidate current) _ (
      All-filter_self (λ entry. Returns (candidate current entry))
        (λ (k, _). includes (keys (key_by current)) k) (λ (k, t) h. candidate-Returns k t h)
        (key_by target))

  compare_services-Returns :
      (same_config : Service → Service → ContainerIds → Bool) (target : List Service)
      (ids : ContainerIds)
      → Returns (compare_services same_config current target ids)
  unfolding compare_services
  compare_services-Returns same_config target ids = Returns-map _ _ (candidates-Returns target)

module _ (same_config : Service → Service → ContainerIds → Bool) where
  all_pairs-has_side :
      (current target : List Service) (ids : ContainerIds) (p : ServicePairs)
      → IsJustified same_config current target ids p
      → All (λ pair. has_side pair ≡ true) (all_pairs p)
  all_pairs-has_side current target ids p h =
      All-append _ _ _
        (All-append _ _ _
          (All_imp (IsRemoved current target) _ (λ pair r. ground arith) _ h.removed)
          (All_imp (IsUpdated same_config current target ids) _ (λ pair u. ground arith) _
            h.updated))
        (All_imp (IsInstalled current target) _ (λ pair i. ground arith) _ h.installed)

  steps_for_pairs-Returns :
      (state : UpdateState) (this target : App) (pairs : List (ChangingPair Service))
      → All (λ pair. has_side pair ≡ true) pairs
      → Returns (steps_for_pairs same_config state this target pairs)
  unfolding steps_for_pairs
  steps_for_pairs-Returns state this target pairs h = Returns-map _ _ (
      map_result_total
        (λ pair. generate_steps_for_service same_config pair (context_of state this target pairs))
        pairs
        (All_imp _ _
          (λ pair k.
            generate_steps_for_service-Returns same_config (context_of state this target pairs) pair
              k)
          pairs h))

  -- The planner never throws, whatever the target, if every container has a date of creation.
  pub next_steps-Returns :
      (state : UpdateState) (this target : App)
      → All IsDated this.services
      → Returns (next_steps_for_app_update same_config state this target)
  unfolding next_steps_for_app_update
  next_steps-Returns state this target dated =
      let services = migrate_legacy this.services target.services in
      let migrated = record target { services = services } in
      let (p, e) =
        compare_services-Returns this.services dated same_config services state.container_ids in
      let paired =
        compare_services-IsJustified same_config this.services services state.container_ids p e in
      let (steps, f) =
        steps_for_pairs-Returns state this migrated (all_pairs p)
          (all_pairs-has_side this.services services state.container_ids p paired) in
      (commit_steps this migrated steps, rw (e, f))
