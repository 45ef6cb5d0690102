-- ===== src/Compose/Tests/Container.antt =====
-- A service with a network, volumes, variables and labels, and the container that was created from it.
use balena_supervisor.Common.{
  ℕ, String, Bool, true, false, List, [], ◌∷◌, ◌++◌, Option, none, some, ◌≡◌, ◌↔◌, refl, inl, inr,
  not, is_some, arith,
}
use balena_supervisor.Common.Dicts.{Dict}
use balena_supervisor.Common.Results.{ok}
use balena_supervisor.Compose.ServiceTypes.{ServiceNetwork, LongDefinition, short, long, tmpfs}
use balena_supervisor.Compose.Ports.{PortRange, PortBinding, from_docker_opts}
use balena_supervisor.Compose.Service.Container.Published.{
  from_docker_opts-generate_expose_and_ports,
}
use balena_supervisor.Compose.Ports.Bindings.{binding}
use balena_supervisor.Compose.Ports.Spread.{AreSpread}
use balena_supervisor.Compose.Engine.{CreateOptions, ContainerInfo}
use balena_supervisor.Compose.Service.{Service}
use balena_supervisor.Compose.Service.Comparison.{is_equal_config}
use balena_supervisor.Compose.Service.Comparison.Settings.{SameSettings}
use balena_supervisor.Compose.Service.Comparison.Arrays.{SameArrays}
use balena_supervisor.Compose.Service.Comparison.Modes.{SameMode}
use balena_supervisor.Compose.Service.Comparison.Meaning.{JoinsNetworks, is_equal_config_iff}
use balena_supervisor.Compose.Service.Container.{
  to_docker_container, generate_expose_and_ports, container_options, config_of_container,
  extra_networks_to_join, main_network,
}
use balena_supervisor.Compose.Service.Container.RoundTrip.{
  ReportsConfig, ReportsHost, ReportsContainer, IsRestorable, is_equal_config-to_docker_container,
}
use balena_supervisor.Compose.Service.Container.Parts.{IsEnvironment}
use balena_supervisor.Compose.Service.Container.Mode.{AreIds}
use balena_supervisor.Compose.Utils.Networks.{
  Endpoint, to_endpoint, of_endpoint, is_same_network, service_networks_to_docker_networks,
}
use balena_supervisor.Compose.Utils.Networks.Reported.{
  Reports, IsReportable, is_same_network-reported,
}
use balena_supervisor.Compose.Tests.Data.{web, plain_config}

abbrev front_network : ServiceNetwork
front_network = record {
  aliases = some ("web" ∷ "shop" ∷ []);
  ipv4_address = some "10.0.0.2";
  ipv6_address = none;
  link_local_ips = none;
}

abbrev cache : LongDefinition
cache = record {
  kind = tmpfs;
  target = "/cache";
  source = none;
  read_only = none;
  propagation = none;
  nocopy = none;
  size = some 4096;
}

-- 53/udp, and the ports 80 to 82 of the container as 8080 to 8082
abbrev shop_ports : List PortRange
shop_ports =
    record {
      internal_start = 53;
      internal_end = 53;
      external_start = 53;
      external_end = 53;
      protocol = "udp";
      host = "";
    }
    ∷ record {
      internal_start = 80;
      internal_end = 82;
      external_start = 8080;
      external_end = 8082;
      protocol = "tcp";
      host = "";
    }
    ∷ []

abbrev published : List PortBinding
published =
    binding 53 53 "udp" ""
    ∷ binding 80 8080 "tcp" ""
    ∷ binding 81 8081 "tcp" ""
    ∷ binding 82 8082 "tcp" ""
    ∷ []

-- It shares the network of the service `db`, and joins a network of its own besides.
abbrev shop : Service
shop = record web {
  config = record plain_config {
    network_mode = "service: db";
    port_maps = shop_ports;
    networks = ("u_front", front_network) ∷ [];
    environment = ("TIER", "a=b") ∷ [];
    labels = ("io.balena.app-id", some "1") ∷ ("tier", some "1") ∷ [];
    volumes = long cache ∷ short "1_data:/data" ∷ short "/logs" ∷ [];
    tmpfs = "/run" ∷ [];
    security_opt = "no-new-privileges" ∷ [];
  };
}

abbrev ids : Dict String
ids = ("db", "f00d") ∷ []

abbrev id : String
id = "0123456789abcdef"

abbrev made : CreateOptions
made = container_options shop "dev" published "container:f00d"

-- The engine adds a name, the beginning of the id, as an alias and as the hostname.
abbrev reported_front : Endpoint
reported_front = record (to_endpoint front_network) {
  aliases = some ("web" ∷ "shop" ∷ "0123456789ab" ∷ []);
}

abbrev info : ContainerInfo
info = record {
  id = id;
  running = true;
  config = record made.config { hostname = "0123456789ab" };
  host_config = record made.host_config {
    security_opt = some ("no-new-privileges" ∷ "label=disable" ∷ []);
    cap_add = none;
  };
  networks = some (("u_front", reported_front) ∷ []);
}

front-Reports : Reports id (to_endpoint front_network) reported_front
unfolding to_endpoint
front-Reports = record {
  given = "web" ∷ "shop" ∷ [];
  own = "0123456789ab" ∷ [];
  all_given = refl;
  all_own = (refl, tt);
  aliases = refl;
  ipam = refl;
}

front-IsReportable : IsReportable id front_network
front-IsReportable = record {
  names = record { some_name = refl; distinct = (refl, (refl, tt)); others = (refl, (refl, tt)) };
  ipv4 = refl;
  ipv6 = tt;
}

is_same_network-reported_example :
    is_same_network (of_endpoint id reported_front) front_network
    ≡ not (is_some front_network.link_local_ips)
is_same_network-reported_example =
    is_same_network-reported id front_network reported_front front-Reports front-IsReportable

created_shop :
    to_docker_container shop "dev" ids
    ≡ ok (record shop { config = record shop.config { network_mode = "container:f00d" } }, made)
unfolding to_docker_container balena_supervisor.Compose.Service.NetworkMode.service_mode
    balena_supervisor.Common.Dicts.lookup
created_shop = refl

shop-ReportsConfig : ReportsConfig info.id made.config info.config
unfolding container_options
shop-ReportsConfig = record {
  image = refl;
  command = refl;
  entrypoint = refl;
  env = refl;
  labels = refl;
  volumes = refl;
  stop_signal = refl;
  stop_timeout = refl;
  healthcheck = refl;
  domainname = refl;
  mac_address = refl;
  user = refl;
  working_dir = refl;
  tty = refl;
  hostname = inr (refl, refl);
}

shop-ReportsHost : ReportsHost made.host_config info.host_config
unfolding container_options balena_supervisor.Compose.Service.Container.unsupported_security_opt
shop-ReportsHost = record {
  binds = refl;
  mounts = refl;
  port_bindings = refl;
  network_mode = refl;
  ulimits = refl;
  restart_policy = refl;
  tmpfs = refl;
  cap_add = refl;
  cap_drop = refl;
  cgroup_parent = refl;
  devices = refl;
  device_requests = refl;
  dns = refl;
  dns_options = refl;
  dns_search = refl;
  extra_hosts = refl;
  group_add = refl;
  pid_mode = refl;
  pids_limit = refl;
  sysctls = refl;
  cpu_shares = refl;
  cpu_quota = refl;
  cpuset_cpus = refl;
  memory = refl;
  memory_reservation = refl;
  oom_kill_disable = refl;
  oom_score_adj = refl;
  privileged = refl;
  readonly_rootfs = refl;
  shm_size = refl;
  userns_mode = refl;
  ipc_mode = refl;
  own_options = "label=disable" ∷ [];
  all_own = (refl, tt);
  security_opt = refl;
}

shop-ReportsContainer :
    ReportsContainer made
      (service_networks_to_docker_networks (extra_networks_to_join shop.config))
      info
unfolding container_options extra_networks_to_join service_networks_to_docker_networks main_network
    balena_supervisor.Common.Dicts.lookup
shop-ReportsContainer = record {
  config = shop-ReportsConfig;
  host = shop-ReportsHost;
  main = tt;
  extra = ((reported_front, refl, front-Reports), tt);
}

shop-IsEnvironment : IsEnvironment shop.config.environment
unfolding balena_supervisor.Common.Dicts.has_key balena_supervisor.Common.Texts.has_char
shop-IsEnvironment = record {
  distinct = (refl, tt);
  names = ((refl, refl), tt);
  resin = refl;
  balena = refl;
}

shop_ports-AreSpread : AreSpread shop_ports
shop_ports-AreSpread = (
  record { ordered = omega arith; same_size = refl },
  (omega arith, refl),
  (record { ordered = omega arith; same_size = refl }, tt, tt),
)

shop-IsRestorable : IsRestorable info.id shop.config
unfolding balena_supervisor.Common.Dicts.has_key
    balena_supervisor.Compose.Service.Container.unsupported_security_opt
shop-IsRestorable = record {
  ports = shop_ports-AreSpread;
  environment = shop-IsEnvironment;
  labels = (refl, (refl, tt));
  normal_labels = (refl, (refl, tt));
  sysctls = tt;
  ulimits = tt;
  tmpfs = (refl, tt);
  told_volumes = (
    record { source = tt; read_only = λ e. cc; propagation = tt; nocopy = λ e. cc; size = λ e. cc },
    (refl, (refl, tt)),
  );
  volumes = (refl, (refl, tt));
  requests = tt;
  security = (refl, tt);
  networks = ((front-IsReportable, refl), tt);
  hostname = refl;
  stop_signal = refl;
  stop_grace_period = refl;
}

known_ids : AreIds ids
unfolding balena_supervisor.Compose.Service.NetworkMode.service_mode
    balena_supervisor.Compose.Service.NetworkMode.container_mode
known_ids = ((refl, refl), tt)

current : Service
current = record web { config = config_of_container info }

is_equal_config-to_docker_container_example : is_equal_config current shop ids ≡ true
unfolding current
is_equal_config-to_docker_container_example =
    is_equal_config-to_docker_container shop "dev" ids current info created_shop
      shop-ReportsContainer refl shop-IsRestorable known_ids

is_equal_config_iff_example : (is_equal_config current shop ids ≡ true) ↔ (
    JoinsNetworks current.config.networks shop.config.networks
    × SameSettings current.config shop.config
    × SameArrays current.config shop.config
    × SameMode current.config shop.config ids)
is_equal_config_iff_example = is_equal_config_iff current shop ids

published_ports : generate_expose_and_ports shop_ports ≡ ok published
unfolding generate_expose_and_ports balena_supervisor.Common.Results.map_result
published_ports = refl

from_docker_opts-generate_expose_and_ports_example : from_docker_opts published ≡ shop_ports
from_docker_opts-generate_expose_and_ports_example =
    from_docker_opts-generate_expose_and_ports shop_ports published shop_ports-AreSpread
      published_ports
