-- ===== src/Compose/ApplicationManager/Types.antt =====
-- compose/application-manager.ts: the apps of the device by their ids, and `getAppContainerIds`.
use balena_supervisor.Common.{
  ℕ, String, not, List, [], ◌∷◌, map, flat_map, Option, none, some, str_eq, filter, ◌==◌, is_some,
  if◌then◌else◌,
}
use balena_supervisor.Compose.Service.{Service}
use balena_supervisor.Compose.App.Types.{App, ContainerIds}

-- InstancedAppState: the keys are integers, so JavaScript lists them in ascending order
abbrev pub Apps : Type 0
Apps = List (ℕ × App)

-- apps[id]
unfoldable pub find_by_id : {A : Type 0} → ℕ → List (ℕ × A) → Option A
find_by_id id [] = none
find_by_id id ((k, a) ∷ rest) = if k == id then some a else find_by_id id rest

-- the apps whose id is no id of the other apps
unfoldable pub only_in : Apps → Apps → Apps
unfolding find_by_id
only_in others = filter (λ (id, _). not (is_some (find_by_id id others)))

-- the services of all apps
unfoldable pub all_services : Apps → List Service
all_services = flat_map (λ (_, app). app.services)

-- { ...ids, [name]: id }
unfoldable pub put_id : String → String → ContainerIds → ContainerIds
put_id name id [] = (name, id) ∷ []
put_id name id ((n, i) ∷ rest) =
    if str_eq n name then (name, id) ∷ rest else (n, i) ∷ put_id name id rest

-- a text that is neither missing nor empty
abbrev pub present : Option String → Option String
present none = none
present (some s) = if str_eq s "" then none else some s

-- one round of the reduction: the id is added if the service has a name and a container
unfoldable pub add_container : ContainerIds → Service → ContainerIds
unfolding put_id
add_container ids s = elim (present s.container_id) [
  | none ↦ ids
  | some id ↦ if str_eq s.service_name "" then ids else put_id s.service_name id ids
]

unfoldable pub container_ids_from : ContainerIds → List Service → ContainerIds
unfolding add_container
container_ids_from ids [] = ids
container_ids_from ids (s ∷ rest) = container_ids_from (add_container ids s) rest

unfoldable pub get_app_container_ids : Apps → List (ℕ × ContainerIds)
unfolding container_ids_from
get_app_container_ids = map (λ (id, app). (id, container_ids_from [] app.services))
