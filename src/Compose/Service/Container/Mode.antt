-- ===== src/Compose/Service/Container/Mode.antt =====
-- compose/service.ts: the network mode that a container is created with and that it reports.
use Prim.Native.String
use balena_supervisor.Common.{
  String, [], ◌∷◌, none, some, some_injective, ◌≡◌, sym, subst, ◌⊎◌, inl, inr, All, str_eq,
  Bool-cases, Option-cases,
}
use balena_supervisor.Common.Results.{Result, ok, thrown, type_error, ok_injective}
use balena_supervisor.Common.Dicts.{Dict, lookup}
use balena_supervisor.Compose.ServiceTypes.{ServiceConfig}
use balena_supervisor.Compose.Service.NetworkMode.{service_mode, container_mode}
use balena_supervisor.Compose.Service.Comparison.Modes.{SameMode}
use balena_supervisor.Compose.Service.Container.{resolve_network_mode}

abbrev pub of_container : String → String
of_container id = String.◌++◌ "container:" id

-- An id that no network mode mistakes: `container:` names the id, and no service.
abbrev pub IsId : String → Type 0
IsId id = (container_mode (of_container id) ≡ some id) × (service_mode (of_container id) ≡ none)

abbrev pub AreIds : Dict String → Type 0
AreIds ids = All (λ (name, id). IsId id) ids

IsId-lookup :
    (name : String) (ids : Dict String) (id : String)
    → AreIds ids
    → lookup name ids ≡ some id
    → IsId id
unfolding lookup
IsId-lookup name [] id h e = cc
IsId-lookup name ((k, v) ∷ ids) id (p, h) e = elim (Bool-cases (str_eq k name)) [
  | inl t ↦ subst IsId (some_injective (rw t at e)) p
  | inr t ↦ IsId-lookup name ids id h (rw t at e)
]

-- what a mode is resolved to
resolved_cases :
    (mode resolved : String) (ids : Dict String)
    → resolve_network_mode mode ids ≡ ok resolved
    → ((service_mode mode ≡ none) × (mode ≡ resolved))
      ⊎ ((name : String) × (id : String) × (service_mode mode ≡ some name)
          × (lookup name ids ≡ some id)
          × (of_container id ≡ resolved))
unfolding resolve_network_mode
resolved_cases mode resolved ids h = elim (Option-cases (service_mode mode)) [
  | inl e ↦ inl (e, ok_injective (rw (e, resolve_network_mode) at h))
  | inr (name, e) ↦
      let at_name = rw (e, resolve_network_mode) at h in
      elim (Option-cases (lookup name ids)) [
        | inl l ↦ absurd (thrown_not_ok (rw l at at_name))
        | inr (id, l) ↦
            let at_id = rw l at at_name in
            elim (Bool-cases (str_eq id "")) [
              | inl z ↦ absurd (thrown_not_ok (rw z at at_id))
              | inr z ↦ inr (name, id, e, l, ok_injective (rw z at at_id))
            ]
      ]
]
  where
    thrown_not_ok : ◌≡◌ {A = Result String} (thrown type_error) (ok resolved) → ⊥
    thrown_not_ok k = cc

-- A container with the mode that was found for a service, and with its hostname, meets the service.
pub SameMode-resolved :
    (a t : ServiceConfig) (ids : Dict String)
    → a.hostname ≡ t.hostname
    → AreIds ids
    → resolve_network_mode t.network_mode ids ≡ ok a.network_mode
    → SameMode a t ids
SameMode-resolved a t ids hosts known h =
    elim (resolved_cases t.network_mode a.network_mode ids h) [
      | inl (e, same) ↦
          let same_mode : service_mode a.network_mode ≡ none = rw (← same) e in
          rw (same_mode, e) (sym same, hosts)
      | inr (name, id, e, l, same) ↦
          let (names_id, no_service) = IsId-lookup name ids id known l in
          let same_mode : service_mode a.network_mode ≡ none = rw (← same) no_service in
          rw (same_mode, e) (id, rw (← same) names_id, l)
    ]
