-- ===== src/Compose/ServiceTypes.antt =====
-- compose/types/service.ts: the configuration of a service.
pub mod Equality
use balena_supervisor.Common.{ℕ, String, Bool, List, Option}
use balena_supervisor.Common.Equality.{ℤ}
use balena_supervisor.Common.Dicts.{Dict}
use balena_supervisor.Compose.Labels.{Labels}
use balena_supervisor.Compose.Ports.{PortRange}

pub data MountType : Type 0 where
  volume bind tmpfs : MountType

-- The long syntax of a volume. A field is none where the object has no such key.
pub record LongDefinition : Type 0 where
  pub kind : MountType
  pub target : String
  pub source : Option String
  pub read_only : Option Bool
  -- bind.propagation, volume.nocopy and tmpfs.size
  pub propagation : Option String
  pub nocopy : Option Bool
  pub size : Option ℕ

-- An entry of `volumes`: the short syntax is one string, the long one an object.
pub data VolumeDefinition : Type 0 where
  short : String → VolumeDefinition
  long : LongDefinition → VolumeDefinition

-- How a service joins one network.
pub record ServiceNetwork : Type 0 where
  pub aliases : Option (List String)
  pub ipv4_address : Option String
  pub ipv6_address : Option String
  pub link_local_ips : Option (List String)

-- durations are in nanoseconds
pub record ServiceHealthcheck : Type 0 where
  pub test : List String
  pub interval : Option ℕ
  pub timeout : Option ℕ
  pub start_period : Option ℕ
  pub retries : Option ℕ

pub record DockerDevice : Type 0 where
  pub path_on_host : String
  pub path_in_container : String
  pub cgroup_permissions : String

pub record DeviceRequest : Type 0 where
  pub driver : String
  pub count : ℤ
  pub device_ids : List String
  pub capabilities : List (List String)
  pub options : Dict String

pub record Ulimit : Type 0 where
  pub soft : ℤ
  pub hard : ℤ

-- A field that holds one string or an array of strings.
pub data Words : Type 0 where
  word : String → Words
  words : List String → Words

pub record ServiceConfig : Type 0 where
  pub port_maps : List PortRange
  pub cap_add : List String
  pub cap_drop : List String
  pub command : Words
  pub cgroup_parent : String
  pub devices : List DockerDevice
  pub device_requests : List DeviceRequest
  pub dns : List String
  pub dns_opt : List String
  pub dns_search : List String
  pub tmpfs : List String
  pub entrypoint : Words
  pub environment : Dict String
  pub extra_hosts : List String
  pub group_add : List String
  pub healthcheck : ServiceHealthcheck
  pub image : String
  pub labels : Labels
  pub running : Bool
  pub network_mode : String
  pub networks : Dict ServiceNetwork
  pub pid : String
  pub pids_limit : ℤ
  pub security_opt : List String
  pub stop_grace_period : ℕ
  pub stop_signal : String
  pub sysctls : Dict String
  pub ulimits : Dict Ulimit
  pub userns_mode : String
  pub volumes : List VolumeDefinition
  pub restart : String
  pub cpu_shares : ℤ
  pub cpu_quota : ℤ
  -- in units of 10 ^ -9 CPUs
  pub cpus : ℕ
  pub cpuset : String
  pub domainname : String
  pub hostname : String
  pub ipc : String
  pub mac_address : String
  pub mem_limit : ℕ
  pub mem_reservation : ℕ
  pub oom_kill_disable : Bool
  pub oom_score_adj : ℤ
  pub privileged : Bool
  pub read_only : Bool
  pub shm_size : ℕ
  pub user : String
  pub working_dir : String
  pub tty : Bool
