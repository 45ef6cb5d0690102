-- ===== src/Compose/Tests/Data.antt =====
-- An app with a service, a volume and a network, and targets for it.
use balena_supervisor.Common.{String, Bool, true, false, List, [], ◌∷◌, none, some, str_eq}
use balena_supervisor.Compose.Labels.{Labels}
use balena_supervisor.Common.Equality.{pos}
use balena_supervisor.Compose.ServiceTypes.{ServiceConfig, ServiceHealthcheck, words}
use balena_supervisor.Compose.Service.{Service, ServiceStatus}
use balena_supervisor.Compose.Volume.{Volume}
use balena_supervisor.Compose.Network.{Network}
use balena_supervisor.Compose.Images.{Image}
use balena_supervisor.Compose.App.Types.{App, ContainerIds, UpdateState, ChangingPair}
use balena_supervisor.Compose.App.ServiceSteps.{Context}

-- one instance of the comparison: the containers run the same image
abbrev pub same_image_id : Service → Service → ContainerIds → Bool
same_image_id a b ids = str_eq a.config.image b.config.image

-- no health check
abbrev no_check : ServiceHealthcheck
no_check = record {
  test = "NONE" ∷ [];
  interval = none;
  timeout = none;
  start_period = none;
  retries = none;
}

-- the defaults of a configuration
abbrev pub plain_config : ServiceConfig
plain_config = record {
  port_maps = [];
  cap_add = [];
  cap_drop = [];
  command = words [];
  cgroup_parent = "";
  devices = [];
  device_requests = [];
  dns = [];
  dns_opt = [];
  dns_search = [];
  tmpfs = [];
  entrypoint = words [];
  environment = [];
  extra_hosts = [];
  group_add = [];
  healthcheck = no_check;
  image = "sha1";
  labels = [];
  running = true;
  network_mode = "bridge";
  networks = [];
  pid = "";
  pids_limit = pos 0;
  security_opt = [];
  stop_grace_period = 10;
  stop_signal = "SIGTERM";
  sysctls = [];
  ulimits = [];
  userns_mode = "";
  volumes = [];
  restart = "always";
  cpu_shares = pos 0;
  cpu_quota = pos 0;
  cpus = 0;
  cpuset = "";
  domainname = "";
  hostname = "";
  ipc = "shareable";
  mac_address = "";
  mem_limit = 0;
  mem_reservation = 0;
  oom_kill_disable = false;
  oom_score_adj = pos 0;
  privileged = false;
  read_only = false;
  shm_size = 67108864;
  user = "";
  working_dir = "";
  tty = true;
}

-- a container of the first release
abbrev pub web : Service
web = record {
  app_id = 1;
  app_uuid = some "u";
  service_id = 10;
  service_name = "web";
  image_id = 100;
  release_id = 1;
  commit = "c1";
  image_name = some "web:1";
  docker_image_id = none;
  container_id = some "k1";
  exit_error_message = none;
  depends_on = none;
  status = ServiceStatus.running;
  created_at = some 5;
  config = plain_config;
}

abbrev pub older_web : Service
older_web = record web { created_at = some 3; container_id = some "k0" }

-- the same service in the second release
abbrev pub new_web : Service
new_web = record web {
  commit = "c2";
  image_name = some "web:2";
  container_id = none;
  created_at = none;
  config = record web.config { image = "sha2" };
}

abbrev pub handed_web : Service
handed_web = record new_web {
  config = record new_web.config { labels = ("io.balena.update.strategy", some "hand-over") ∷ [] };
}

abbrev pub image_of : String → String → Image
image_of name id = record {
  id = some 1;
  name = some name;
  app_id = 1;
  app_uuid = some "u";
  service_id = 10;
  service_name = "web";
  image_id = 100;
  release_id = 1;
  commit = "c1";
  docker_image_id = some id;
}

abbrev pub data_volume : Labels → Volume
data_volume labels = record {
  name = "data";
  app_id = 1;
  app_uuid = some "u";
  config = record { labels = labels; driver = "local"; driver_opts = [] };
}

abbrev pub front : Network
front = record {
  name = "front";
  app_id = 1;
  app_uuid = some "u";
  config = record {
    driver = "bridge";
    ipam_driver = "default";
    ipam_config = [];
    ipam_options = [];
    enable_ipv6 = false;
    internal = false;
    labels = [];
    options = [];
    config_only = false;
  };
}

-- the app runs the first release
abbrev pub running_app : App
running_app = record {
  app_id = 1;
  app_uuid = some "u";
  app_name = some "demo";
  commit = some "c1";
  source = none;
  is_host = false;
  services = web ∷ [];
  networks = front ∷ [];
  volumes = data_volume [] ∷ [];
}

-- the same release with another volume and no network
abbrev pub relabelled_app : App
relabelled_app = record running_app {
  networks = [];
  volumes = data_volume (("tier", some "1") ∷ []) ∷ [];
}

-- the next commit with nothing else that changes
abbrev pub next_commit_app : App
next_commit_app = record running_app { commit = some "c2" }

abbrev pub update_state : UpdateState
update_state = record {
  available_images = image_of "web:1" "sha1" ∷ [];
  container_ids = ("web", "k1") ∷ [];
  downloading = [];
}

abbrev pub pair_to : Service → ChangingPair Service
pair_to t = record { current = some web; target = some t }

abbrev pub install_of : Service → ChangingPair Service
install_of t = record { current = none; target = some t }

-- What the planner knows while the service goes to `t`, with the given images on the device.
abbrev pub context : Service → List Image → Context
context t images = record {
  available_images = images;
  downloading = [];
  target_app = record running_app { services = t ∷ [] };
  container_ids = ("web", "k1") ∷ [];
  network_pairs = [];
  volume_pairs = [];
  service_pairs = pair_to t ∷ [];
}
