-- ===== src/Compose/Engine.antt =====
-- The options with which a container is created and which the engine reports of it.
use balena_supervisor.Common.{ℕ, String, Bool, List, Option}
use balena_supervisor.Common.Equality.{ℤ}
use balena_supervisor.Common.Dicts.{Dict}
use balena_supervisor.Compose.Labels.{Labels}
use balena_supervisor.Compose.Ports.{PortBinding}
use balena_supervisor.Compose.ServiceTypes.{DockerDevice, DeviceRequest, Words}
use balena_supervisor.Compose.Utils.Mounts.{DockerMount}
use balena_supervisor.Compose.Utils.Values.{DockerUlimit, DockerRestartPolicy, DockerHealthcheck}
use balena_supervisor.Compose.Utils.Networks.{Endpoint}

-- HostConfig; a field is none where the engine reports null.
pub record HostConfig : Type 0 where
  pub binds : List String
  pub mounts : List DockerMount
  pub port_bindings : List PortBinding
  pub network_mode : String
  pub security_opt : Option (List String)
  pub ulimits : List DockerUlimit
  pub restart_policy : Option DockerRestartPolicy
  pub tmpfs : Dict String
  pub cap_add : Option (List String)
  pub cap_drop : Option (List String)
  pub cgroup_parent : Option String
  pub devices : Option (List DockerDevice)
  pub device_requests : Option (List DeviceRequest)
  pub dns : Option (List String)
  pub dns_options : Option (List String)
  pub dns_search : Option (List String)
  pub extra_hosts : Option (List String)
  pub group_add : Option (List String)
  pub pid_mode : Option String
  pub pids_limit : Option ℤ
  pub sysctls : Option (Dict String)
  pub cpu_shares : Option ℤ
  pub cpu_quota : Option ℤ
  pub cpuset_cpus : Option String
  pub memory : Option ℕ
  pub memory_reservation : Option ℕ
  pub oom_kill_disable : Option Bool
  pub oom_score_adj : Option ℤ
  pub privileged : Option Bool
  pub readonly_rootfs : Option Bool
  pub shm_size : Option ℕ
  pub userns_mode : Option String
  pub ipc_mode : Option String

-- The container's own options: those next to HostConfig at its creation, and `Config` when it is
-- inspected.
pub record ContainerConfig : Type 0 where
  pub image : String
  pub hostname : String
  pub command : Option Words
  pub entrypoint : Option Words
  pub env : List String
  pub labels : Labels
  pub volumes : List String
  pub stop_signal : Option String
  pub stop_timeout : Option ℕ
  pub healthcheck : Option DockerHealthcheck
  pub domainname : Option String
  pub mac_address : Option String
  pub user : Option String
  pub working_dir : Option String
  pub tty : Option Bool

pub record CreateOptions : Type 0 where
  pub name : String
  pub config : ContainerConfig
  pub host_config : HostConfig
  -- NetworkingConfig.EndpointsConfig
  pub endpoints : Dict Endpoint
  -- NanoCpus, which is not reported
  pub nano_cpus : ℕ

pub record ContainerInfo : Type 0 where
  pub id : String
  pub running : Bool
  pub config : ContainerConfig
  pub host_config : HostConfig
  -- NetworkSettings.Networks
  pub networks : Option (Dict Endpoint)
