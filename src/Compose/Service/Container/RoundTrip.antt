-- ===== src/Compose/Service/Container/RoundTrip.antt =====
-- compose/service.ts: a container that was created from a service and is inspected, compared with
-- that service.
use Prim.Native.String
use mathlib.Core.List.Perm
use mathlib.Core.List.{Perm}
use text.Mathlib.Text.{starts_with}
use balena_supervisor.Common.{
  String, true, false, ◌&&◌, List, [], ◌++◌, ◌≡◌, refl, ◌⊎◌, inl, inr, sym, ap, subst, All, str_eq,
  ◌==◌,
}
use balena_supervisor.Common.Equality.{pos, string_eq}
use balena_supervisor.Common.Results.{ok, >>=-eq-ok, ok_injective}
use balena_supervisor.Common.Dicts.{Dict, IsDict, same_entries_self}
use balena_supervisor.Compose.Ports.{PortBinding}
use balena_supervisor.Compose.Ports.Spread.{AreSpread}
use balena_supervisor.Compose.Service.Container.Published.{
  from_docker_opts-generate_expose_and_ports,
}
use balena_supervisor.Compose.ServiceTypes.{DeviceRequest, ServiceConfig}
use balena_supervisor.Compose.ServiceTypes.Equality.{ulimit_eq}
use balena_supervisor.Compose.Engine.{HostConfig, ContainerConfig, CreateOptions, ContainerInfo}
use balena_supervisor.Compose.Service.{Service}
use balena_supervisor.Compose.Service.Comparison.{is_equal_config}
use balena_supervisor.Compose.Service.Comparison.Settings.{SameSettings}
use balena_supervisor.Compose.Service.Comparison.Arrays.{SameArrays}
use balena_supervisor.Compose.Service.Comparison.Meaning.{is_equal_config_iff}
use balena_supervisor.Compose.Utils.Networks.{Endpoint, service_networks_to_docker_networks}
use balena_supervisor.Compose.Utils.Networks.Reported.{Distinct}
use balena_supervisor.Compose.Utils.Mounts.Sorted.{IsTold, shorts, volumes_of_container-sorted}
use balena_supervisor.Compose.Utils.NormalLabels.Normal.{IsNormal, same_labels-normalize_labels}
use balena_supervisor.Compose.Utils.Values.{
  service_healthcheck_to_docker_healthcheck, docker_healthcheck_to_service_healthcheck,
  service_restart_to_docker_restart_policy,
}
use balena_supervisor.Compose.Service.Container.{
  extra_networks_to_join, generate_expose_and_ports, resolve_network_mode, container_options,
  to_docker_container, or_default, unsupported_security_opt, given_hostname, config_of_container,
}
use balena_supervisor.Compose.Service.Container.Mode.{AreIds, SameMode-resolved}
use balena_supervisor.Compose.Service.Container.Parts.{
  IsEnvironment, environment_back, ulimits_back, tmpfs_back, security_back, same_requests_self,
  ReportsEndpoints, IsJoinable, networks_back,
}

-- What the engine reports of the options next to HostConfig: each as it was given, an absent one
-- perhaps as null; and the beginning of the id as the name of a host that was given none.
pub record ReportsConfig (id : String) (created reported : ContainerConfig) : Type 0 where
  pub image : reported.image ≡ created.image
  pub command : reported.command ≡ created.command
  pub entrypoint : reported.entrypoint ≡ created.entrypoint
  pub env : reported.env ≡ created.env
  pub labels : reported.labels ≡ created.labels
  pub volumes : reported.volumes ≡ created.volumes
  pub stop_signal : reported.stop_signal ≡ created.stop_signal
  pub stop_timeout : reported.stop_timeout ≡ created.stop_timeout
  pub healthcheck : reported.healthcheck ≡ created.healthcheck
  pub hostname :
      (reported.hostname ≡ created.hostname)
      ⊎ ((created.hostname ≡ "")
          × ((String.count reported.hostname == 12 && starts_with id reported.hostname) ≡ true))
  pub domainname : or_default reported.domainname "" ≡ or_default created.domainname ""
  pub mac_address : or_default reported.mac_address "" ≡ or_default created.mac_address ""
  pub user : or_default reported.user "" ≡ or_default created.user ""
  pub working_dir : or_default reported.working_dir "" ≡ or_default created.working_dir ""
  pub tty : or_default reported.tty false ≡ or_default created.tty false

-- What the engine reports of HostConfig, with security options of its own behind those given.
pub record ReportsHost (created reported : HostConfig) : Type 0 where
  pub binds : reported.binds ≡ created.binds
  pub mounts : reported.mounts ≡ created.mounts
  pub port_bindings : reported.port_bindings ≡ created.port_bindings
  pub network_mode : reported.network_mode ≡ created.network_mode
  pub ulimits : reported.ulimits ≡ created.ulimits
  pub restart_policy : reported.restart_policy ≡ created.restart_policy
  pub tmpfs : reported.tmpfs ≡ created.tmpfs
  pub own_options : List String
  pub all_own : All (λ opt. unsupported_security_opt opt ≡ true) own_options
  pub security_opt :
      or_default reported.security_opt [] ≡ or_default created.security_opt [] ++ own_options
  pub cap_add : or_default reported.cap_add [] ≡ or_default created.cap_add []
  pub cap_drop : or_default reported.cap_drop [] ≡ or_default created.cap_drop []
  pub cgroup_parent : or_default reported.cgroup_parent "" ≡ or_default created.cgroup_parent ""
  pub devices : or_default reported.devices [] ≡ or_default created.devices []
  pub device_requests :
      or_default reported.device_requests [] ≡ or_default created.device_requests []
  pub dns : or_default reported.dns [] ≡ or_default created.dns []
  pub dns_options : or_default reported.dns_options [] ≡ or_default created.dns_options []
  pub dns_search : or_default reported.dns_search [] ≡ or_default created.dns_search []
  pub extra_hosts : or_default reported.extra_hosts [] ≡ or_default created.extra_hosts []
  pub group_add : or_default reported.group_add [] ≡ or_default created.group_add []
  pub pid_mode : or_default reported.pid_mode "" ≡ or_default created.pid_mode ""
  pub pids_limit : or_default reported.pids_limit (pos 0) ≡ or_default created.pids_limit (pos 0)
  pub sysctls : or_default reported.sysctls [] ≡ or_default created.sysctls []
  pub cpu_shares : or_default reported.cpu_shares (pos 0) ≡ or_default created.cpu_shares (pos 0)
  pub cpu_quota : or_default reported.cpu_quota (pos 0) ≡ or_default created.cpu_quota (pos 0)
  pub cpuset_cpus : or_default reported.cpuset_cpus "" ≡ or_default created.cpuset_cpus ""
  pub memory : or_default reported.memory 0 ≡ or_default created.memory 0
  pub memory_reservation :
      or_default reported.memory_reservation 0 ≡ or_default created.memory_reservation 0
  pub oom_kill_disable :
      or_default reported.oom_kill_disable false ≡ or_default created.oom_kill_disable false
  pub oom_score_adj :
      or_default reported.oom_score_adj (pos 0) ≡ or_default created.oom_score_adj (pos 0)
  pub privileged : or_default reported.privileged false ≡ or_default created.privileged false
  pub readonly_rootfs :
      or_default reported.readonly_rootfs false ≡ or_default created.readonly_rootfs false
  pub shm_size : or_default reported.shm_size 0 ≡ or_default created.shm_size 0
  pub userns_mode : or_default reported.userns_mode "" ≡ or_default created.userns_mode ""
  pub ipc_mode : or_default reported.ipc_mode "" ≡ or_default created.ipc_mode ""

-- What the engine reports of a container that was created with `created` and then joined the
-- networks of `joined`.
pub record ReportsContainer (created : CreateOptions) (joined : Dict Endpoint)
    (info : ContainerInfo) : Type 0 where
  pub config : ReportsConfig info.id created.config info.config
  pub host : ReportsHost created.host_config info.host_config
  pub main : ReportsEndpoints info.id created.endpoints (or_default info.networks [])
  pub extra : ReportsEndpoints info.id joined (or_default info.networks [])

-- The configurations that survive a container: objects with distinct keys, names that can be told
-- from what the supervisor and the engine add, no setting that is read back as its default, and
-- valid ranges of ports in ascending order, of which none overlaps or continues another.
pub record IsRestorable (id : String) (c : ServiceConfig) : Type 0 where
  pub ports : AreSpread c.port_maps
  pub environment : IsEnvironment c.environment
  pub labels : IsDict c.labels
  pub normal_labels : IsNormal c.labels
  pub sysctls : IsDict c.sysctls
  pub ulimits : IsDict c.ulimits
  pub tmpfs : Distinct c.tmpfs
  pub told_volumes : All IsTold c.volumes
  pub volumes : Distinct (shorts c.volumes)
  pub requests : All (λ (r : DeviceRequest). IsDict r.options) c.device_requests
  pub security : All (λ opt. unsupported_security_opt opt ≡ false) c.security_opt
  pub networks : All (λ (name, net). IsJoinable id net) c.networks
  pub hostname : (String.count c.hostname == 12 && starts_with id c.hostname) ≡ false
  pub stop_signal : str_eq c.stop_signal "" ≡ false
  pub stop_grace_period : (c.stop_grace_period == 0) ≡ false

abbrev perm_of_eq : {xs ys : List String} → xs ≡ ys → Perm xs ys
perm_of_eq {xs} {ys} e = subst (Perm xs) e (Perm.refl xs)

module _ (s : Service) (device_name : String) (bindings : List PortBinding) (mode : String)
    (info : ContainerInfo) (h : IsRestorable info.id s.config) where
  abbrev given : CreateOptions
  given = container_options s device_name bindings mode

  module _ (r : ReportsConfig info.id given.config info.config)
      (hr : ReportsHost given.host_config info.host_config)
      (e : generate_expose_and_ports s.config.port_maps ≡ ok bindings) where
    settings_back : SameSettings (config_of_container info) s.config
    unfolding config_of_container container_options service_restart_to_docker_restart_policy
        service_healthcheck_to_docker_healthcheck docker_healthcheck_to_service_healthcheck
    settings_back = record {
      port_maps =
          rw hr.port_bindings
            (from_docker_opts-generate_expose_and_ports s.config.port_maps bindings h.ports e);
      command = rw r.command refl;
      cgroup_parent = hr.cgroup_parent;
      device_requests =
          rw hr.device_requests (same_requests_self s.config.device_requests h.requests);
      entrypoint = rw r.entrypoint refl;
      environment =
          rw (r.env, environment_back device_name s.config.environment h.environment)
            (same_entries_self s.config.environment h.environment.distinct);
      healthcheck = rw r.healthcheck refl;
      image = r.image;
      labels = rw r.labels (same_labels-normalize_labels s.config.labels h.labels h.normal_labels);
      pid = hr.pid_mode;
      pids_limit = hr.pids_limit;
      stop_grace_period = rw r.stop_timeout (rw h.stop_grace_period refl);
      stop_signal = rw r.stop_signal (rw h.stop_signal refl);
      sysctls = rw hr.sysctls (same_entries_self s.config.sysctls h.sysctls);
      ulimits =
          rw (hr.ulimits, ulimits_back s.config.ulimits h.ulimits)
            (same_entries_self s.config.ulimits h.ulimits);
      userns_mode = hr.userns_mode;
      restart = rw hr.restart_policy refl;
      cpu_shares = hr.cpu_shares;
      cpu_quota = hr.cpu_quota;
      cpuset = hr.cpuset_cpus;
      domainname = r.domainname;
      ipc = hr.ipc_mode;
      mac_address = r.mac_address;
      mem_limit = hr.memory;
      mem_reservation = hr.memory_reservation;
      oom_kill_disable = hr.oom_kill_disable;
      oom_score_adj = hr.oom_score_adj;
      privileged = hr.privileged;
      read_only = hr.readonly_rootfs;
      shm_size = hr.shm_size;
      user = r.user;
      working_dir = r.working_dir;
      tty = r.tty;
    }

    arrays_back : SameArrays (config_of_container info) s.config
    unfolding config_of_container container_options
    arrays_back = record {
      volumes =
          rw (hr.binds, hr.mounts, r.volumes)
            (volumes_of_container-sorted s.config.volumes h.told_volumes h.volumes);
      devices = hr.devices;
      cap_add = perm_of_eq hr.cap_add;
      cap_drop = perm_of_eq hr.cap_drop;
      dns_opt = perm_of_eq hr.dns_options;
      tmpfs = perm_of_eq (rw hr.tmpfs (tmpfs_back s.config.tmpfs h.tmpfs));
      extra_hosts = perm_of_eq hr.extra_hosts;
      group_add = perm_of_eq hr.group_add;
      security_opt = perm_of_eq (
          rw hr.security_opt
            (security_back s.config.security_opt hr.own_options h.security hr.all_own));
      dns = hr.dns;
      dns_search = hr.dns_search;
    }

    hostname_back : given_hostname info.id info.config.hostname ≡ s.config.hostname
    unfolding given_hostname container_options
    hostname_back = elim r.hostname [
      | inl same ↦ rw same (rw h.hostname refl)
      | inr (none_given, own) ↦ rw (own, none_given) refl
    ]

-- A container that was created from a service, joined the networks that the service asks for, and
-- is reported by the engine as it was given, has the configuration of that service: a service is not
-- replaced because of what a container changes its options to. The configuration of the service has
-- distinct keys, names that can be told from those that are added, no setting that is read back as a
-- default, and valid ranges of ports in ascending order, of which none overlaps or continues another;
-- a mode `service:` is met by the ids with which the container was created.
pub is_equal_config-to_docker_container :
    (s : Service) (device_name : String) (ids : Dict String) (current : Service)
    (info : ContainerInfo) {started : Service} {created : CreateOptions}
    → to_docker_container s device_name ids ≡ ok (started, created)
    → ReportsContainer created
        (service_networks_to_docker_networks (extra_networks_to_join s.config))
        info
    → current.config ≡ config_of_container info
    → IsRestorable info.id s.config
    → AreIds ids
    → is_equal_config current s ids ≡ true
unfolding to_docker_container config_of_container container_options
is_equal_config-to_docker_container s device_name ids current info {started} {created} made reports
      read h known =
    let (bindings, ports, rest) = >>=-eq-ok (generate_expose_and_ports s.config.port_maps) _ made in
    let (mode, resolved, built) =
      >>=-eq-ok (resolve_network_mode s.config.network_mode ids) _ rest in
    let same : created ≡ container_options s device_name bindings mode =
      sym (ap (λ x. x.1) (ok_injective built)) in
    let extra = service_networks_to_docker_networks (extra_networks_to_join s.config) in
    let told : ReportsContainer (container_options s device_name bindings mode) extra info =
      subst (λ o. ReportsContainer o extra info) same reports in
    (is_equal_config_iff current s ids).1 (
      rw read (
        networks_back s.config info.id (or_default info.networks []) told.main told.extra
            h.networks,
        settings_back s device_name bindings mode info h told.config told.host ports,
        arrays_back s device_name bindings mode info h told.config told.host ports,
        SameMode-resolved (config_of_container info) s.config ids
            (hostname_back s device_name bindings mode info h told.config told.host ports) known
            (rw told.host.network_mode resolved),
      ))
