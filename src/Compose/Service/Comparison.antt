-- ===== src/Compose/Service/Comparison.antt =====
-- compose/service.ts: isEqualConfig, the comparison of a container with its target.
pub mod Settings
pub mod Arrays
pub mod Modes
pub mod Meaning
use balena_supervisor.Common.{
  String, Bool, true, false, ◌&&◌, List, [], ◌∷◌, ◌++◌, Option, none, some, every, str_eq, some_and,
  if◌then◌else◌,
}
use balena_supervisor.Common.Equality.{
  is_equal, nat_eq, int_eq, string_eq, bool_eq, option_eq, list_eq,
}
use balena_supervisor.Common.Dicts.{Dict, lookup, same_entries}
use balena_supervisor.Compose.Labels.{same_labels}
use balena_supervisor.Compose.ServiceTypes.{
  VolumeDefinition, short, long, ServiceNetwork, DockerDevice, DeviceRequest, ServiceConfig,
}
use balena_supervisor.Compose.ServiceTypes.Equality.{
  range_eq, volume_eq, healthcheck_eq, device_eq, ulimit_eq, words_eq,
}
use balena_supervisor.Compose.Service.{Service}
use balena_supervisor.Compose.Service.NetworkMode.{service_mode, container_mode}
use balena_supervisor.Compose.Utils.Networks.{is_same_network}
use balena_supervisor.Compose.Utils.Arrays.{ArrayField, compare_array_field, compare_array_fields}

unfoldable pub has_same_networks : Dict ServiceNetwork → Dict ServiceNetwork → Bool
has_same_networks current target =
    every (λ (name, network). some_and (lookup name current) (λ n. is_same_network n network))
      target

-- requests for devices are compared in order, their options in any order
unfoldable pub same_requests : List DeviceRequest → List DeviceRequest → Bool
same_requests [] [] = true
same_requests (a ∷ xs) (b ∷ ys) =
    is_equal a.driver b.driver
    && is_equal a.count b.count
    && is_equal a.device_ids b.device_ids
    && is_equal a.capabilities b.capabilities
    && same_entries a.options b.options
    && same_requests xs ys
same_requests _ _ = false

-- the fields of a configuration that are not in `omitFields`, as they compare
abbrev pub compared_settings : ServiceConfig → ServiceConfig → List Bool
compared_settings a b =
    is_equal a.port_maps b.port_maps
    ∷ is_equal a.command b.command
    ∷ is_equal a.cgroup_parent b.cgroup_parent
    ∷ same_requests a.device_requests b.device_requests
    ∷ is_equal a.entrypoint b.entrypoint
    ∷ same_entries a.environment b.environment
    ∷ is_equal a.healthcheck b.healthcheck
    ∷ is_equal a.image b.image
    ∷ same_labels a.labels b.labels
    ∷ is_equal a.pid b.pid
    ∷ is_equal a.pids_limit b.pids_limit
    ∷ is_equal a.stop_grace_period b.stop_grace_period
    ∷ is_equal a.stop_signal b.stop_signal
    ∷ same_entries a.sysctls b.sysctls
    ∷ same_entries a.ulimits b.ulimits
    ∷ is_equal a.userns_mode b.userns_mode
    ∷ is_equal a.restart b.restart
    ∷ is_equal a.cpu_shares b.cpu_shares
    ∷ is_equal a.cpu_quota b.cpu_quota
    ∷ is_equal a.cpuset b.cpuset
    ∷ is_equal a.domainname b.domainname
    ∷ is_equal a.ipc b.ipc
    ∷ is_equal a.mac_address b.mac_address
    ∷ is_equal a.mem_limit b.mem_limit
    ∷ is_equal a.mem_reservation b.mem_reservation
    ∷ is_equal a.oom_kill_disable b.oom_kill_disable
    ∷ is_equal a.oom_score_adj b.oom_score_adj
    ∷ is_equal a.privileged b.privileged
    ∷ is_equal a.read_only b.read_only
    ∷ is_equal a.shm_size b.shm_size
    ∷ is_equal a.user b.user
    ∷ is_equal a.working_dir b.working_dir
    ∷ is_equal a.tty b.tty
    ∷ []

-- _.isEqual(thisOmitted, otherOmitted)
unfoldable pub same_settings : ServiceConfig → ServiceConfig → Bool
unfolding same_requests
same_settings a b = every (λ same. same) (compared_settings a b)

-- String(x) of an entry of `volumes`
abbrev pub volume_text : VolumeDefinition → String
volume_text (short s) = s
volume_text (long d) = "[object Object]"

-- String(x) of an entry of `devices`
abbrev pub device_text : DockerDevice → String
device_text d = "[object Object]"

abbrev pub unordered : (field : String) → List String → List String → ArrayField
unordered field xs ys = record { field = field; same = compare_array_field (λ s. s) xs ys false }

abbrev pub ordered : (field : String) → List String → List String → ArrayField
ordered field xs ys = record { field = field; same = compare_array_field (λ s. s) xs ys true }

-- Service.configArrayFields; a configuration has no field `ulimitsArray`
unfoldable pub config_array_fields : ServiceConfig → ServiceConfig → List ArrayField
config_array_fields a b =
    record { field = "volumes"; same = compare_array_field volume_text a.volumes b.volumes false }
    ∷ record { field = "devices"; same = compare_array_field device_text a.devices b.devices false }
    ∷ unordered "capAdd" a.cap_add b.cap_add
    ∷ unordered "capDrop" a.cap_drop b.cap_drop
    ∷ unordered "dnsOpt" a.dns_opt b.dns_opt
    ∷ unordered "tmpfs" a.tmpfs b.tmpfs
    ∷ unordered "extraHosts" a.extra_hosts b.extra_hosts
    ∷ record { field = "ulimitsArray"; same = true }
    ∷ unordered "groupAdd" a.group_add b.group_add
    ∷ unordered "securityOpt" a.security_opt b.security_opt
    ∷ []

-- Service.orderedConfigArrayFields
unfoldable pub ordered_config_array_fields : ServiceConfig → ServiceConfig → List ArrayField
ordered_config_array_fields a b =
    ordered "dns" a.dns b.dns ∷ ordered "dnsSearch" a.dns_search b.dns_search ∷ []

-- one round of the loop over [a, b]: does it set `sameNetworkMode`?
unfoldable pub mode_matches : (a b : String) → (same_hostname : Bool) → Dict String → Bool
mode_matches a b same_hostname container_ids = elim (service_mode a) [
  | some name ↦ elim (service_mode b) [
    | none ↦ elim (container_mode b) [
      | none ↦ false
      | some id ↦ some_and (lookup name container_ids) (str_eq id)
    ]
    | some other ↦ str_eq a b
  ]
  | none ↦ str_eq a b && same_hostname
]

unfoldable pub same_network_mode : ServiceConfig → ServiceConfig → Dict String → Bool
unfolding mode_matches
same_network_mode a b container_ids =
    let same_hostname = str_eq a.hostname b.hostname in
    if mode_matches a.network_mode b.network_mode same_hostname container_ids
    then true
    else mode_matches b.network_mode a.network_mode same_hostname container_ids

unfoldable pub is_equal_config : Service → Service → Dict String → Bool
unfolding has_same_networks same_settings config_array_fields ordered_config_array_fields
    same_network_mode compare_array_fields
is_equal_config this service container_ids =
    let same_networks = has_same_networks this.config.networks service.config.networks in
    let same_config =
      same_settings this.config service.config
      && (compare_array_fields (
          config_array_fields this.config service.config
          ++ ordered_config_array_fields this.config service.config)).0 in
    same_networks && same_config && same_network_mode this.config service.config container_ids

unfoldable pub is_equal_except_for_running_state : Service → Service → Dict String → Bool
unfolding is_equal_config
is_equal_except_for_running_state this service container_ids =
    is_equal_config this service container_ids && str_eq this.commit service.commit

-- isEqual
unfoldable pub is_equal_service : Service → Service → Dict String → Bool
unfolding is_equal_except_for_running_state
is_equal_service this service container_ids =
    is_equal_except_for_running_state this service container_ids
    && is_equal this.config.running service.config.running
