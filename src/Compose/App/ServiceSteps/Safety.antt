-- ===== src/Compose/App/ServiceSteps/Safety.antt =====
-- compose/app.ts: what a kill, a start, a handover and a download wait for, in terms of the images
-- and of the changing components.
use balena_supervisor.Common.{
  String, Bool, true, false, ◌&&◌, not, List, Option, none, some, ◌≡◌, inl, inr, arith, some_and,
  IfSome, All, All_imp, Any, any, any-eq-true, any-eq-false, every-eq-true, str_eq,
}
use balena_supervisor.Common.Texts.{includes}
use balena_supervisor.Common.Results.{ok, at_ok}
use balena_supervisor.Compose.Service.{Service, has_network, has_network_mode, has_volume}
use balena_supervisor.Compose.Volume.{Volume}
use balena_supervisor.Compose.Network.{Network}
use balena_supervisor.Compose.Images.{Image}
use balena_supervisor.Compose.Steps.{CompositionStep, kill, handover, start}
use balena_supervisor.Compose.Strategies.{kills_early, fetch_for}
use balena_supervisor.Compose.App.Types.{ContainerIds, ChangingPair}
use balena_supervisor.Compose.App.ServiceSteps.{
  Context, strategy_of, is_image_of, has_image, target_images_ready, needs_download, is_downloading,
  dependencies_met_for_service_kill, dependencies_met_for_service_start, dependency_not_running,
  dependency_unmet, waits_for_network, waits_for_volume, generate_steps_for_service, depends_on,
  service_has_network_or_volume,
}
use balena_supervisor.Compose.App.ServiceSteps.Allowed.{Allowed, generate_steps_for_service-Allowed}

-- an image of the service is on the device
abbrev pub HasImage : Context → Service → Type 0
HasImage x s = Any (λ i. is_image_of s i ≡ true) x.available_images

-- an image of every service of the target is on the device
abbrev pub AllImagesReady : Context → Type 0
AllImagesReady x = All (HasImage x) x.target_app.services

images_ready :
    (services : List Service) (available : List Image)
    → target_images_ready services available ≡ true
    → All (λ s. Any (λ i. is_image_of s i ≡ true) available) services
unfolding target_images_ready
images_ready services available h =
    All_imp _ _ (λ s e. any-eq-true (is_image_of s) available e) services
      (every-eq-true (has_image available) services h)

-- no pair of changing services has a target of this name
abbrev pub IsUnchanged : List (ChangingPair Service) → String → Type 0
IsUnchanged pairs name =
    All (λ (p : ChangingPair Service). some_and p.target (λ t. str_eq t.service_name name) ≡ false)
      pairs

IsUnchanged-of_met :
    (deps : Option (List String)) (pairs : List (ChangingPair Service))
    → some_and deps (
        any λ dep.
          any
            (λ (p : ChangingPair Service). some_and p.target (λ t. str_eq t.service_name dep))
            pairs)
      ≡ false
    → IfSome (All (IsUnchanged pairs)) deps
IsUnchanged-of_met none pairs h = tt
IsUnchanged-of_met (some deps) pairs h =
    All_imp _ _ (λ dep e. any-eq-false _ pairs e) deps (any-eq-false _ deps h)

-- What a service waits for before it is started.
pub record IsReady (t : Service) (x : Context) : Type 0 where
  -- each service that it depends on is meant to run
  pub running :
      All
        (λ (s : Service). depends_on t s.service_name ≡ true → s.config.running ≡ true)
        x.target_app.services
  -- and is not changed or created now
  pub unchanged : IfSome (All (IsUnchanged x.service_pairs)) t.depends_on
  -- its networks and volumes are there
  pub networks :
      All
        (λ (p : ChangingPair Network). some_and p.target (λ n. has_network_mode t n.name) ≡ false)
        x.network_pairs
  pub volumes :
      All
        (λ (p : ChangingPair Volume). some_and p.target (λ v. has_volume t v.name) ≡ false)
        x.volume_pairs
  pub images : AllImagesReady x

runs_if_needed : (a b : Bool) → (a && not b) ≡ false → a ≡ true → b ≡ true
runs_if_needed a b h e = ground arith

IsReady-of_met :
    (t : Service) (x : Context) → dependencies_met_for_service_start t x ≡ true → IsReady t x
unfolding dependencies_met_for_service_start
IsReady-of_met t x h = record {
  running =
      All_imp _ _ (λ s e. runs_if_needed _ _ e) _
        (any-eq-false _ _
          (let e : dependency_not_running t x.target_app ≡ false = ground arith in e));
  unchanged =
      IsUnchanged-of_met t.depends_on x.service_pairs
        (let e : dependency_unmet t x.service_pairs ≡ false = ground arith in e);
  networks =
      any-eq-false _ _ (let e : waits_for_network t x.network_pairs ≡ false = ground arith in e);
  volumes =
      any-eq-false _ _ (let e : waits_for_volume t x.volume_pairs ≡ false = ground arith in e);
  images = images_ready _ _ (ground arith);
}

not-eq-false : (b : Bool) → not b ≡ false → b ≡ true
not-eq-false b h = ground arith

not-eq-true : (b : Bool) → not b ≡ true → b ≡ false
not-eq-true b h = ground arith

not_listed :
    (names : List String) (name : Option String)
    → some_and name (includes names) ≡ false
    → IfSome (λ n. includes names n ≡ false) name
not_listed names none h = tt
not_listed names (some n) h = h

module _ (same_config : Service → Service → ContainerIds → Bool) (pair : ChangingPair Service)
    (x : Context) where
  allowed :
      (step : CompositionStep)
      → generate_steps_for_service same_config pair x ≡ ok (some step)
      → Allowed x pair step
  allowed step =
      at_ok (IfSome (Allowed x pair)) _ (some step)
        (generate_steps_for_service-Allowed same_config x pair)

  -- The step for a pair of services, if it is a kill and the strategy does not ask for an early one,
  -- kills the container of the pair, and the image of every service of the target is on the device.
  -- The kills that make way for a changed volume or network are steps for components, not for pairs.
  pub kill_waits_for_images :
      (s : Service)
      → generate_steps_for_service same_config pair x ≡ ok (some (kill s))
      → kills_early (strategy_of pair s) ≡ false
      → (pair.current ≡ some s) × AllImagesReady x
  unfolding dependencies_met_for_service_kill
  kill_waits_for_images s e late =
      let (same, why) = allowed (kill s) e in
      (
        same,
        elim why as (λ _. AllImagesReady x) [
          | inl early ↦ absurd (cc (early, late))
          | inr (met, _) ↦ images_ready x.target_app.services x.available_images met
        ],
      )

  -- A service that has no container yet is started only if the services that it depends on are
  -- meant to run and are not among the changing ones, no network that is its network mode and no
  -- volume of it is still to be created or changed, and an image of every service of the target is
  -- on the device.
  pub start-IsReady :
      (t : Service)
      → pair.current ≡ none
      → generate_steps_for_service same_config pair x ≡ ok (some (start t))
      → (pair.target ≡ some t) × IsReady t x
  start-IsReady t new e =
      let (same, why) = allowed (start t) e in
      (
        same,
        elim why as (λ _. IsReady t x) [
          | inl met ↦ IsReady-of_met t x met
          | inr (c, old, _, _, _) ↦ absurd (cc (new, old))
        ],
      )

  -- The container of a pair is handed over only to the target of the pair, and only if the services
  -- that this depends on are meant to run and are not among the changing ones, no network that is
  -- its network mode and no volume of it is still to be created or changed, and its image and those
  -- of all services of the target are on the device.
  pub handover-IsReady :
      (s t : Service)
      → generate_steps_for_service same_config pair x ≡ ok (some (handover s t))
      → (pair.current ≡ some s) × (pair.target ≡ some t) × IsReady t x × HasImage x t
  unfolding needs_download
  handover-IsReady s t e =
      let (c, g, met, d, _) = allowed (handover s t) e in
      (
        c,
        g,
        IsReady-of_met t x met,
        any-eq-true (is_image_of t) x.available_images (not-eq-false _ (rw g at d)),
      )

  -- A container that uses a volume or a network which the update changes or removes is not handed
  -- over.
  pub handover_uses_nothing_changed :
      (s t : Service)
      → generate_steps_for_service same_config pair x ≡ ok (some (handover s t))
      → All
          (λ (p : ChangingPair Volume). some_and p.current (λ v. has_volume s v.name) ≡ false)
          x.volume_pairs
        × All
            (λ (p : ChangingPair Network). some_and p.current (λ n. has_network s n.name) ≡ false)
            x.network_pairs
  unfolding dependencies_met_for_service_start dependencies_met_for_service_kill
      service_has_network_or_volume
  handover_uses_nothing_changed s t e =
      let (c, g, met, d, kept) = allowed (handover s t) e in
      let images : dependencies_met_for_service_kill x ≡ true = ground arith in
      let unused : service_has_network_or_volume s x ≡ false = ground arith in
      (any-eq-false _ x.volume_pairs (ground arith), any-eq-false _ x.network_pairs (ground arith))

  -- An image is fetched only for the target of the pair, if the device has no image of that service
  -- and does not download one of its name.
  pub fetch_only_missing :
      (t : Service)
      → pair.target ≡ some t
      → generate_steps_for_service same_config pair x ≡ ok (some (fetch_for t))
      → All (λ i. is_image_of t i ≡ false) x.available_images
        × IfSome (λ name. includes x.downloading name ≡ false) t.image_name
  unfolding needs_download is_downloading
  fetch_only_missing t same e =
      let (_, _, _, d, n) = allowed (fetch_for t) e in
      (
        any-eq-false (is_image_of t) x.available_images (not-eq-true _ (rw same at d)),
        not_listed x.downloading t.image_name (rw same at n),
      )
