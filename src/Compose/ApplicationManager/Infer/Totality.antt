-- ===== src/Compose/ApplicationManager/Infer/Totality.antt =====
-- compose/application-manager.ts: `getRequiredSteps` never throws, if all containers have a date of
-- creation.
use balena_supervisor.Common.{
  ℕ, Bool, not, [], ◌∷◌, refl, inl, inr, Option, ◌==◌, true, false, ◌≡◌, ap, arith, some, Any,
  Member, All_of_Member, All-Member, Bool-cases, Option-cases, All, All_imp, All_intro, is_empty,
}
use balena_supervisor.Common.Results.{
  Returns, Returns-map, Returns-bind, map_result, map_result_total,
}
use balena_supervisor.Compose.Service.{Service}
use balena_supervisor.Compose.App.Types.{App, ContainerIds}
use balena_supervisor.Compose.App.Plan.Totality.{IsDated, next_steps-Returns}
use balena_supervisor.Compose.ApplicationManager.Types.{
  Apps, find_by_id, only_in, get_app_container_ids, container_ids_from,
}
use balena_supervisor.Compose.ApplicationManager.Infer.{
  Options, update_app, create_app, shared_apps, empty_app, state_of, image_steps, app_steps,
  planned_steps, infer_next_steps, ids_of, Environment, options_of, get_required_steps,
}

-- all containers of the app have a date of creation
abbrev pub AreDated : ℕ × App → Type 0
AreDated (id, app) = All IsDated app.services

-- The ids of the app's containers are among the options.
abbrev HasIds : Options → ℕ → Type 0
HasIds o id = (ids : ContainerIds) × (find_by_id id o.container_ids_by_app_id ≡ some ids)

abbrev AreKnown : Options → ℕ × App → Type 0
AreKnown o (id, app) = All IsDated app.services × HasIds o id

shared_apps-AreKnown :
    (o : Options) (current target : Apps)
    → All (AreKnown o) current
    → All (λ (id, app, t). All IsDated app.services × HasIds o id) (shared_apps current target)
unfolding shared_apps
shared_apps-AreKnown o [] target h = tt
shared_apps-AreKnown o ((id, app) ∷ rest) target (d, h) =
    elim (Option-cases (find_by_id id target)) [
      | inl e ↦ rw (e, shared_apps) (shared_apps-AreKnown o rest target h)
      | inr (t, e) ↦ rw (e, shared_apps) (d, shared_apps-AreKnown o rest target h)
    ]

module _ (same_config : Service → Service → ContainerIds → Bool) (o : Options) where
  update_app-Returns :
      (id : ℕ) (app target : App)
      → All IsDated app.services
      → HasIds o id
      → Returns (update_app same_config o (id, app, target))
  unfolding update_app
  update_app-Returns id app target d (ids, e) =
      rw (e, update_app) (next_steps-Returns same_config (state_of o ids) app target d)

  app_steps-Returns :
      (current target : Apps)
      → All (AreKnown o) current
      → Returns (app_steps same_config o current target)
  unfolding app_steps empty_app
  app_steps-Returns current target h =
      let updates = map_result_total (update_app same_config o) (shared_apps current target) (
        All_imp _ _ (λ (id, app, t) (d, k). update_app-Returns id app t d k) _
          (shared_apps-AreKnown o current target h)) in
      let creations = map_result_total (create_app same_config o) (only_in current target) (
        All_intro _
          (λ (id, t).
            next_steps-Returns same_config (state_of o (ids_of o id)) (empty_app t.app_id) t tt)
          _) in
      Returns-bind (map_result (update_app same_config o) (shared_apps current target)) _ updates
        (Returns-map (map_result (create_app same_config o) (only_in current target)) _ creations)

  infer_next_steps-Returns :
      (current target : Apps)
      → All (AreKnown o) current
      → Returns (infer_next_steps same_config o current target)
  unfolding infer_next_steps planned_steps
  infer_next_steps-Returns current target h = Returns-map _ _ planned
    where
      planned : Returns (planned_steps same_config o current target)
      planned = elim (Bool-cases (not o.supervisor_network_ready)) [
        | inl n ↦ rw n (_, refl)
        | inr n ↦ elim (Bool-cases (is_empty (image_steps o current target))) [
          | inl i ↦ rw (n, i) (app_steps-Returns current target h)
          | inr i ↦ rw (n, i) (_, refl)
        ]
      ]

ids_there :
    (id : ℕ) (apps : Apps)
    → Any (λ (k, app). (k == id) ≡ true) apps
    → (ids : ContainerIds) × (find_by_id id (get_app_container_ids apps) ≡ some ids)
unfolding find_by_id get_app_container_ids
ids_there id [] m = elim m [ ]
ids_there id ((k, app) ∷ apps) m = elim (Bool-cases (k == id)) [
  | inl e ↦ (container_ids_from [] app.services, rw e refl)
  | inr e ↦ let (ids, f) = ids_there id apps (behind e m) in (ids, rw e f)
]
  where
    behind :
        (k == id) ≡ false
        → Any (λ (k, app). (k == id) ≡ true) ((k, app) ∷ apps)
        → Any (λ (k, app). (k == id) ≡ true) apps
    behind e (inl f) = cc
    behind e (inr m) = m

-- getRequiredSteps returns steps for every target if all containers on the device have a date of
-- creation: it has the ids of the containers of each app, and no strategy is refused.
pub get_required_steps-Returns :
    (same_config : Service → Service → ContainerIds → Bool) (e : Environment)
    (current target : Apps) (keep_images keep_volumes : Option Bool)
    → All AreDated current
    → Returns (get_required_steps same_config e current target keep_images keep_volumes)
unfolding get_required_steps options_of
get_required_steps-Returns same_config e current target keep_images keep_volumes h =
    infer_next_steps-Returns same_config (options_of e current keep_images keep_volumes) current
      target
      (All_of_Member _ current (λ (id, app) m.
        (All-Member AreDated current h (id, app) m, ids_there id current (there id app current m))))
  where
    same : (id : ℕ) (app : App) (p : ℕ × App) → p ≡ (id, app) → (p.0 == id) ≡ true
    same id app p f = let g : p.0 ≡ id = ap (λ q. q.0) f in ground arith

    there :
        (id : ℕ) (app : App) (apps : Apps)
        → Member (id, app) apps
        → Any (λ (k, app). (k == id) ≡ true) apps
    there id app [] m = m
    there id app (p ∷ apps) (inl f) = inl (same id app p f)
    there id app (p ∷ apps) (inr m) = inr (there id app apps m)
