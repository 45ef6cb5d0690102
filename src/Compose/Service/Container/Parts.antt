-- ===== src/Compose/Service/Container/Parts.antt =====
-- compose/service.ts: the parts of a configuration that a container changes its options for, each
-- read back.
use balena_supervisor.Common.{
  String, Bool, true, false, not, List, [], ◌∷◌, ◌++◌, none, some, map, filter, ◌≡◌, refl, ap, ◌∙◌,
  inl, inr, All, arith, str_eq, eq_iff, some_injective, Bool-cases,
}
use balena_supervisor.Common.Equality.{is_equal_self}
use balena_supervisor.Common.Dicts.{
  Dict, IsDict, has_key, lookup, remove, assign, assign-Apart, assign-nil, Apart, same_entries_self,
}
use balena_supervisor.Common.Texts.{includes, has_char}
use balena_supervisor.Library.Conversions.{env_object_to_array, env_array_to_object}
use balena_supervisor.Library.Conversions.RoundTrip.{
  IsName, env_array_to_object-env_object_to_array,
}
use balena_supervisor.Compose.ServiceTypes.{ServiceNetwork, DeviceRequest, Ulimit, ServiceConfig}
use balena_supervisor.Compose.Service.Comparison.{same_requests}
use balena_supervisor.Compose.Service.Comparison.Meaning.{JoinsNetworks}
use balena_supervisor.Compose.Utils.Networks.{
  Endpoint, to_endpoint, of_endpoint, service_networks_to_docker_networks,
  docker_network_to_service_network,
}
use balena_supervisor.Compose.Utils.Networks.Reported.{
  Reports, IsReportable, Distinct, is_same_network-reported,
}
use balena_supervisor.Compose.Utils.Values.{
  DockerUlimit, service_ulimits_to_docker_ulimits, ulimits_of_docker,
}
use balena_supervisor.Compose.Service.Container.{
  main_network, extra_networks_to_join, device_names, omit_device_name_vars,
  unsupported_security_opt,
}

-- An environment that can be told apart: names of variables, once each, but for those of the device.
pub record IsEnvironment (env : Dict String) : Type 0 where
  pub distinct : IsDict env
  pub names : All (λ (k, v). IsName k) env
  pub resin : has_key "RESIN_DEVICE_NAME_AT_INIT" env ≡ false
  pub balena : has_key "BALENA_DEVICE_NAME_AT_INIT" env ≡ false

remove-new : (k : String) (env : Dict String) → has_key k env ≡ false → remove k env ≡ env
unfolding remove has_key
remove-new k [] h = refl
remove-new k ((j, v) ∷ env) h = ground (arith, remove-new k env)

names-Apart :
    (name : String) (env : Dict String)
    → has_key "RESIN_DEVICE_NAME_AT_INIT" env ≡ false
    → has_key "BALENA_DEVICE_NAME_AT_INIT" env ≡ false
    → Apart (device_names name) env
unfolding has_key
names-Apart name [] r b = tt
names-Apart name ((k, v) ∷ env) r b = (
  ground (
    arith,
    eq_iff k "RESIN_DEVICE_NAME_AT_INIT",
    eq_iff "RESIN_DEVICE_NAME_AT_INIT" k,
    eq_iff k "BALENA_DEVICE_NAME_AT_INIT",
    eq_iff "BALENA_DEVICE_NAME_AT_INIT" k,
  ),
  names-Apart name env (ground arith) (ground arith),
)

distinct_names :
    (name : String) (env : Dict String) → IsEnvironment env → IsDict (device_names name ++ env)
unfolding has_key
distinct_names name env h = (h.resin, (h.balena, h.distinct))

all_names :
    (name : String) (env : Dict String)
    → IsEnvironment env
    → All (λ (k, v). IsName k) (device_names name ++ env)
unfolding has_char
all_names name env h = ((refl, refl), ((refl, refl), h.names))

omit_names :
    (name : String) (env : Dict String)
    → IsEnvironment env
    → omit_device_name_vars (device_names name ++ env) ≡ env
unfolding omit_device_name_vars remove
omit_names name env h =
    rw (remove-new "RESIN_DEVICE_NAME_AT_INIT" env h.resin)
      (remove-new "BALENA_DEVICE_NAME_AT_INIT" env h.balena)

-- The variables of a service are read back from its container, without those of the device.
pub environment_back :
    (name : String) (env : Dict String)
    → IsEnvironment env
    → omit_device_name_vars
        (env_array_to_object (env_object_to_array (assign (device_names name) env)))
      ≡ env
environment_back name env h =
    rw
      (
        assign-Apart (device_names name) env h.distinct (names-Apart name env h.resin h.balena),
        env_array_to_object-env_object_to_array (device_names name ++ env)
            (distinct_names name env h) (all_names name env h),
      )
      (omit_names name env h)

ulimit_pairs :
    (ulimits : Dict Ulimit)
    → map
        (λ (u : DockerUlimit). (u.name, record { soft = u.soft; hard = u.hard }))
        (service_ulimits_to_docker_ulimits ulimits)
      ≡ ulimits
unfolding service_ulimits_to_docker_ulimits
ulimit_pairs [] = refl
ulimit_pairs ((k, v) ∷ ulimits) = ap (λ l. (k, v) ∷ l) (ulimit_pairs ulimits)

pub ulimits_back :
    (ulimits : Dict Ulimit)
    → IsDict ulimits
    → ulimits_of_docker (service_ulimits_to_docker_ulimits ulimits) ≡ ulimits
unfolding ulimits_of_docker
ulimits_back ulimits d = rw (ulimit_pairs ulimits) (assign-nil ulimits d)

paths :
    (tmpfs : List String)
    → map (λ ((path, options) : String × String). path) (map (λ path. (path, "")) tmpfs) ≡ tmpfs
paths [] = refl
paths (x ∷ tmpfs) = ap (λ l. x ∷ l) (paths tmpfs)

path_key :
    (x : String) (tmpfs : List String)
    → has_key {V = String} x (map (λ path. (path, "")) tmpfs) ≡ includes tmpfs x
unfolding has_key
path_key x [] = refl
path_key x (y ∷ tmpfs) = rw (path_key x tmpfs) refl

path_keys :
    (tmpfs : List String) → Distinct tmpfs → IsDict {V = String} (map (λ path. (path, "")) tmpfs)
path_keys [] h = tt
path_keys (x ∷ tmpfs) (f, h) = (path_key x tmpfs ∙ f, path_keys tmpfs h)

pub tmpfs_back :
    (tmpfs : List String)
    → Distinct tmpfs
    → map (λ ((path, options) : String × String). path) (assign [] (map (λ path. (path, "")) tmpfs))
      ≡ tmpfs
tmpfs_back tmpfs h = rw (assign-nil _ (path_keys tmpfs h)) (paths tmpfs)

-- The options that the engine adds are those that are not compared.
pub security_back :
    (given own : List String)
    → All (λ opt. unsupported_security_opt opt ≡ false) given
    → All (λ opt. unsupported_security_opt opt ≡ true) own
    → filter (λ opt. not (unsupported_security_opt opt)) (given ++ own) ≡ given
security_back [] [] h k = refl
security_back [] (o ∷ own) h (e, k) = rw e (security_back [] own h k)
security_back (g ∷ given) own (e, h) k = rw e (ap (λ l. g ∷ l) (security_back given own h k))

pub same_requests_self :
    (requests : List DeviceRequest)
    → All (λ (r : DeviceRequest). IsDict r.options) requests
    → same_requests requests requests ≡ true
unfolding same_requests
same_requests_self [] h = refl
same_requests_self (r ∷ requests) (d, h) =
    rw
      (
        is_equal_self r.driver,
        is_equal_self r.count,
        is_equal_self r.device_ids,
        is_equal_self r.capabilities,
        same_entries_self r.options d,
      )
      (same_requests_self requests h)

-- What holds of both parts of the networks holds of all.
both_parts :
    (P : String × Endpoint → Type 0) (p : String → Bool) (networks : Dict ServiceNetwork)
    → All P (service_networks_to_docker_networks (filter (λ (name, net). p name) networks))
    → All P (service_networks_to_docker_networks (filter (λ (name, net). not (p name)) networks))
    → All (λ (name, net). P (name, to_endpoint net)) networks
unfolding service_networks_to_docker_networks
both_parts P p [] h k = tt
both_parts P p ((name, net) ∷ networks) h k = elim (Bool-cases (p name)) [
  | inl e ↦ let (one, rest) = rw e at h in (one, both_parts P p networks rest (rw e at k))
  | inr e ↦ let (one, rest) = rw e at k in (one, both_parts P p networks (rw e at h) rest)
]

-- The engine reports each endpoint, when it was created with the container or joined afterwards.
abbrev pub ReportsEndpoints : (id : String) → (created reported : Dict Endpoint) → Type 0
ReportsEndpoints id created reported =
    All
      (λ (name, endpoint). (r : Endpoint) × (lookup name reported ≡ some r) × Reports id endpoint r)
      created

lookup-of_endpoint :
    (name id : String) (reported : Dict Endpoint) (r : Endpoint)
    → lookup name reported ≡ some r
    → lookup name (docker_network_to_service_network reported id) ≡ some (of_endpoint id r)
unfolding lookup docker_network_to_service_network
lookup-of_endpoint name id [] r h = cc
lookup-of_endpoint name id ((k, e) ∷ reported) r h = elim (Bool-cases (str_eq k name)) [
  | inl t ↦ rw t (ap (λ x. some (of_endpoint id x)) (some_injective (rw t at h)))
  | inr t ↦ rw t (lookup-of_endpoint name id reported r (rw t at h))
]

-- A network whose names and addresses can be told and that has no link-local addresses.
abbrev pub IsJoinable : String → ServiceNetwork → Type 0
IsJoinable id net = IsReportable id net × (net.link_local_ips ≡ none)

joins :
    (id : String) (reported : Dict Endpoint) (networks : Dict ServiceNetwork)
    → All
        (λ (name, net).
          (r : Endpoint) × (lookup name reported ≡ some r) × Reports id (to_endpoint net) r)
        networks
    → All (λ (name, net). IsJoinable id net) networks
    → JoinsNetworks (docker_network_to_service_network reported id) networks
joins id reported [] h k = tt
joins id reported ((name, net) ∷ networks) ((r, found, reports), h) ((reportable, no_ips), k) = (
  (
    of_endpoint id r,
    lookup-of_endpoint name id reported r found,
    is_same_network-reported id net r reports reportable ∙ rw no_ips refl,
  ),
  joins id reported networks h k,
)

pub networks_back :
    (c : ServiceConfig) (id : String) (reported : Dict Endpoint)
    → ReportsEndpoints id (service_networks_to_docker_networks (main_network c)) reported
    → ReportsEndpoints id (service_networks_to_docker_networks (extra_networks_to_join c)) reported
    → All (λ (name, net). IsJoinable id net) c.networks
    → JoinsNetworks (docker_network_to_service_network reported id) c.networks
unfolding main_network extra_networks_to_join
networks_back c id reported main extra joinable =
    joins id reported c.networks
      (both_parts
        (λ (name, endpoint).
          (r : Endpoint) × (lookup name reported ≡ some r) × Reports id endpoint r)
        (λ name. str_eq name c.network_mode) c.networks main extra)
      joinable
