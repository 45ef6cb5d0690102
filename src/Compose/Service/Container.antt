-- ===== src/Compose/Service/Container.antt =====
-- compose/service.ts: a service as the options of a container, and a container as a service.
pub mod Parts
pub mod Mode
pub mod Published
pub mod RoundTrip
use Prim.Native.String
use text.Mathlib.Text.{starts_with}
use balena_supervisor.Common.{
  ℕ, String, Bool, true, false, not, ◌&&◌, List, [], ◌∷◌, ◌++◌, Option, none, some, map, filter,
  any, str_eq, ◌==◌, if◌then◌else◌,
}
use balena_supervisor.Common.Texts.{decimal}
use balena_supervisor.Common.Results.{Result, ok, thrown, type_error, map_result, ◌>>=◌}
use balena_supervisor.Common.Equality.{pos}
use balena_supervisor.Common.Dicts.{Dict, lookup, remove, assign}
use balena_supervisor.Library.Conversions.{env_object_to_array, env_array_to_object}
use balena_supervisor.Compose.Ports.{PortRange, PortBinding, to_docker_opts, from_docker_opts}
use balena_supervisor.Compose.ServiceTypes.{ServiceNetwork, Words, word, ServiceConfig}
use balena_supervisor.Compose.Engine.{HostConfig, ContainerConfig, CreateOptions, ContainerInfo}
use balena_supervisor.Compose.Service.{Service}
use balena_supervisor.Compose.Service.NetworkMode.{service_mode, strip}
use balena_supervisor.Compose.Utils.Networks.{
  uniq, service_networks_to_docker_networks, docker_network_to_service_network,
}
use balena_supervisor.Compose.Utils.Mounts.{
  Mounted, get_binds_mounts_and_volumes, volumes_of_container,
}
use balena_supervisor.Compose.Utils.Values.{
  DockerRestartPolicy, service_ulimits_to_docker_ulimits, ulimits_of_docker,
  service_restart_to_docker_restart_policy, service_healthcheck_to_docker_healthcheck,
  docker_healthcheck_to_service_healthcheck,
}
use balena_supervisor.Compose.Utils.NormalLabels.{normalize_labels}

-- the network that a container is created in
unfoldable pub main_network : ServiceConfig → Dict ServiceNetwork
main_network c = filter (λ (name, network). str_eq name c.network_mode) c.networks

-- the networks that it joins once it is created
unfoldable pub extra_networks_to_join : ServiceConfig → Dict ServiceNetwork
extra_networks_to_join c = filter (λ (name, network). not (str_eq name c.network_mode)) c.networks

abbrev same_port : PortBinding → PortBinding → Bool
same_port a b = a.internal == b.internal && str_eq a.protocol b.protocol

-- ports[key] = destVal.concat(srcVal): behind the bindings of the same port, or at the end
merge_binding : List PortBinding → PortBinding → List PortBinding
merge_binding [] b = b ∷ []
merge_binding (x ∷ bindings) b =
    let rest = merge_binding bindings b in
    if same_port x b && not (any (same_port b) bindings) then x ∷ b ∷ bindings else x ∷ rest

merge_bindings : List PortBinding → List PortBinding → List PortBinding
unfolding merge_binding
merge_bindings ports [] = ports
merge_bindings ports (b ∷ bindings) = merge_bindings (merge_binding ports b) bindings

merge_all : List PortBinding → List (List PortBinding) → List PortBinding
unfolding merge_bindings
merge_all ports [] = ports
merge_all ports (bindings ∷ rest) = merge_all (merge_bindings ports bindings) rest

-- generateExposeAndPorts, of which the exposed ports are the keys of the bindings
unfoldable pub generate_expose_and_ports : List PortRange → Result (List PortBinding)
unfolding merge_all to_docker_opts map_result
generate_expose_and_ports port_maps = do
  bindings ← map_result to_docker_opts port_maps
  ok (merge_all [] bindings)

abbrev device_names : String → Dict String
device_names device_name =
    ("RESIN_DEVICE_NAME_AT_INIT", device_name) ∷ ("BALENA_DEVICE_NAME_AT_INIT", device_name) ∷ []

unfoldable pub omit_device_name_vars : Dict String → Dict String
omit_device_name_vars env =
    remove "BALENA_DEVICE_NAME_AT_INIT" (remove "RESIN_DEVICE_NAME_AT_INIT" env)

-- The network mode of the engine: a `service:` is replaced by the container that runs it. A mode
-- whose service has no container, or one with an empty id, is refused.
unfoldable pub resolve_network_mode : String → Dict String → Result String
resolve_network_mode mode container_ids = elim (service_mode mode) [
  | none ↦ ok mode
  | some name ↦ elim (lookup name container_ids) [
    | none ↦ thrown type_error
    | some id ↦ if str_eq id "" then thrown type_error else ok (String.◌++◌ "container:" id)
  ]
]

abbrev joined : String → String → String
joined a b = String.◌++◌ a (String.◌++◌ "_" b)

-- what toDockerContainer returns, with the port bindings and the network mode that it has found
unfoldable pub container_options :
    Service → (device_name : String) → List PortBinding → (network_mode : String) → CreateOptions
unfolding main_network
container_options s device_name port_bindings network_mode =
    let c = s.config in
    let mounted = get_binds_mounts_and_volumes c.volumes in
    record {
      name =
          joined s.service_name
            (joined (decimal s.image_id) (joined (decimal s.release_id) s.commit));
      config = record {
        image = c.image;
        hostname = c.hostname;
        command = some c.command;
        entrypoint = some c.entrypoint;
        env = env_object_to_array (assign (device_names device_name) c.environment);
        labels = c.labels;
        volumes = mounted.volumes;
        stop_signal = some c.stop_signal;
        stop_timeout = some c.stop_grace_period;
        healthcheck = some (service_healthcheck_to_docker_healthcheck c.healthcheck);
        domainname = some c.domainname;
        mac_address = some c.mac_address;
        user = some c.user;
        working_dir = some c.working_dir;
        tty = some c.tty;
      };
      host_config = record {
        binds = mounted.binds;
        mounts = mounted.mounts;
        port_bindings = port_bindings;
        network_mode = network_mode;
        security_opt = some c.security_opt;
        ulimits = service_ulimits_to_docker_ulimits c.ulimits;
        restart_policy = some (service_restart_to_docker_restart_policy c.restart);
        tmpfs = assign [] (map (λ path. (path, "")) c.tmpfs);
        cap_add = some c.cap_add;
        cap_drop = some c.cap_drop;
        cgroup_parent = some c.cgroup_parent;
        devices = some c.devices;
        device_requests = some c.device_requests;
        dns = some c.dns;
        dns_options = some c.dns_opt;
        dns_search = some c.dns_search;
        extra_hosts = some c.extra_hosts;
        group_add = some c.group_add;
        pid_mode = some c.pid;
        pids_limit = some c.pids_limit;
        sysctls = some c.sysctls;
        cpu_shares = some c.cpu_shares;
        cpu_quota = some c.cpu_quota;
        cpuset_cpus = some c.cpuset;
        memory = some c.mem_limit;
        memory_reservation = some c.mem_reservation;
        oom_kill_disable = some c.oom_kill_disable;
        oom_score_adj = some c.oom_score_adj;
        privileged = some c.privileged;
        readonly_rootfs = some c.read_only;
        shm_size = some c.shm_size;
        userns_mode = some c.userns_mode;
        ipc_mode = some c.ipc;
      };
      endpoints = service_networks_to_docker_networks (main_network c);
      nano_cpus = c.cpus;
    }

-- toDockerContainer: the service, whose network mode is replaced, and the options of its container
unfoldable pub to_docker_container :
    Service → (device_name : String) → Dict String → Result (Service × CreateOptions)
unfolding generate_expose_and_ports resolve_network_mode container_options
to_docker_container s device_name container_ids = do
  port_bindings ← generate_expose_and_ports s.config.port_maps
  network_mode ← resolve_network_mode s.config.network_mode container_ids
  ok (
    record s { config = record s.config { network_mode = network_mode } },
    container_options s device_name port_bindings network_mode,
  )

-- x || value, where null is the only x that counts as false or an x that does equals value
abbrev pub or_default {ℓ} : {A : Type ℓ} → Option A → A → A
or_default none value = value
or_default (some x) value = x

-- /label=.*/.test(opt)
unfoldable pub unsupported_security_opt : String → Bool
unfolding strip
unsupported_security_opt String.[] = false
unsupported_security_opt (String.◌∷◌ c s) = elim (strip "label=" (String.◌∷◌ c s)) [
  | some rest ↦ true
  | none ↦ unsupported_security_opt s
]

-- the first 12 characters of the id are no name that was given
unfoldable pub given_hostname : String → String → String
given_hostname id hostname =
    if String.count hostname == 12 && starts_with id hostname then "" else hostname

abbrev restart_name : Option DockerRestartPolicy → String
restart_name none = "always"
restart_name (some policy) = policy.name

-- x || 'SIGTERM'
abbrev or_sigterm : Option String → String
or_sigterm none = "SIGTERM"
or_sigterm (some s) = if str_eq s "" then "SIGTERM" else s

-- x || 10
abbrev or_ten : Option ℕ → ℕ
or_ten none = 10
or_ten (some n) = if n == 0 then 10 else n

-- the configuration of fromDockerContainer
unfoldable pub config_of_container : ContainerInfo → ServiceConfig
unfolding given_hostname omit_device_name_vars unsupported_security_opt
config_of_container info =
    let config = info.config in
    let host = info.host_config in
    record {
      network_mode = host.network_mode;
      port_maps = from_docker_opts host.port_bindings;
      hostname = given_hostname info.id config.hostname;
      command = or_default config.command (word "");
      entrypoint = or_default config.entrypoint (word "");
      volumes =
          volumes_of_container
            (record { binds = host.binds; mounts = host.mounts; volumes = config.volumes });
      image = config.image;
      environment = omit_device_name_vars (env_array_to_object config.env);
      labels = normalize_labels config.labels;
      running = info.running;
      restart = restart_name host.restart_policy;
      networks = docker_network_to_service_network (or_default info.networks []) info.id;
      -- not present on a container inspect
      cpus = 0;
      tmpfs = map (λ (path, options). path) host.tmpfs;
      ulimits = ulimits_of_docker host.ulimits;
      stop_signal = or_sigterm config.stop_signal;
      stop_grace_period = or_ten config.stop_timeout;
      healthcheck = docker_healthcheck_to_service_healthcheck config.healthcheck;
      security_opt =
          filter (λ opt. not (unsupported_security_opt opt)) (or_default host.security_opt []);
      cap_add = or_default host.cap_add [];
      cap_drop = or_default host.cap_drop [];
      cgroup_parent = or_default host.cgroup_parent "";
      devices = or_default host.devices [];
      device_requests = or_default host.device_requests [];
      dns = or_default host.dns [];
      dns_opt = or_default host.dns_options [];
      dns_search = or_default host.dns_search [];
      extra_hosts = or_default host.extra_hosts [];
      group_add = or_default host.group_add [];
      pid = or_default host.pid_mode "";
      pids_limit = or_default host.pids_limit (pos 0);
      sysctls = or_default host.sysctls [];
      cpu_shares = or_default host.cpu_shares (pos 0);
      cpu_quota = or_default host.cpu_quota (pos 0);
      cpuset = or_default host.cpuset_cpus "";
      mem_limit = or_default host.memory 0;
      mem_reservation = or_default host.memory_reservation 0;
      oom_kill_disable = or_default host.oom_kill_disable false;
      oom_score_adj = or_default host.oom_score_adj (pos 0);
      privileged = or_default host.privileged false;
      read_only = or_default host.readonly_rootfs false;
      shm_size = or_default host.shm_size 0;
      userns_mode = or_default host.userns_mode "";
      ipc = or_default host.ipc_mode "";
      domainname = or_default config.domainname "";
      mac_address = or_default config.mac_address "";
      user = or_default config.user "";
      working_dir = or_default config.working_dir "";
      tty = or_default config.tty false;
    }
