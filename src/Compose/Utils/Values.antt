-- ===== src/Compose/Utils/Values.antt =====
-- compose/utils.ts: single values of a configuration, from the composition, the image and the engine.
use balena_supervisor.Common.{
  ℕ, String, List, [], ◌∷◌, Option, none, some, map, str_eq, if◌then◌else◌,
}
use balena_supervisor.Common.Texts.{includes}
use balena_supervisor.Common.Equality.{ℤ}
use balena_supervisor.Common.Dicts.{Dict, assign}
use balena_supervisor.Compose.ServiceTypes.{ServiceHealthcheck, Ulimit}

abbrev pub valid_restart_policies : List String
valid_restart_policies = "no" ∷ "always" ∷ "on-failure" ∷ "unless-stopped" ∷ []

-- an argument that is a string, in lower case and with no blanks around it
unfoldable pub create_restart_policy : Option String → String
create_restart_policy none = "always"
create_restart_policy (some name) =
    if includes valid_restart_policies name
    then (if str_eq name "no" then "" else name)
    else "always"

pub record DockerRestartPolicy : Type 0 where
  pub name : String
  pub maximum_retry_count : ℕ

unfoldable pub service_restart_to_docker_restart_policy : String → DockerRestartPolicy
service_restart_to_docker_restart_policy restart = record {
  name = restart;
  maximum_retry_count = 0;
}

pub record DockerUlimit : Type 0 where
  pub name : String
  pub soft : ℤ
  pub hard : ℤ

unfoldable pub service_ulimits_to_docker_ulimits : Dict Ulimit → List DockerUlimit
service_ulimits_to_docker_ulimits ulimits =
    map (λ (name, limit). record { name = name; soft = limit.soft; hard = limit.hard }) ulimits

-- the loop of fromDockerContainer over HostConfig.Ulimits
unfoldable pub ulimits_of_docker : List DockerUlimit → Dict Ulimit
ulimits_of_docker ulimits =
    assign []
      (map (λ (u : DockerUlimit). (u.name, record { soft = u.soft; hard = u.hard })) ulimits)

-- Dockerode.DockerHealthcheck; a field is none where the object has no such key
pub record DockerHealthcheck : Type 0 where
  pub test : Option (List String)
  pub interval : Option ℕ
  pub timeout : Option ℕ
  pub start_period : Option ℕ
  pub retries : Option ℕ

abbrev pub no_healthcheck : ServiceHealthcheck
no_healthcheck = record {
  test = "NONE" ∷ [];
  interval = none;
  timeout = none;
  start_period = none;
  retries = none;
}

-- An object that has fields has the field `Test`, as the engine sees to.
unfoldable pub docker_healthcheck_to_service_healthcheck :
    Option DockerHealthcheck → ServiceHealthcheck
docker_healthcheck_to_service_healthcheck none = no_healthcheck
docker_healthcheck_to_service_healthcheck (some h) = elim h.test [
  | none ↦ no_healthcheck
  | some test ↦ record {
    test = test;
    interval = h.interval;
    timeout = h.timeout;
    start_period = h.start_period;
    retries = h.retries;
  }
]

unfoldable pub service_healthcheck_to_docker_healthcheck : ServiceHealthcheck → DockerHealthcheck
service_healthcheck_to_docker_healthcheck h = record {
  test = some h.test;
  interval = h.interval;
  timeout = h.timeout;
  start_period = h.start_period;
  retries = h.retries;
}
