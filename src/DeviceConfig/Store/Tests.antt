-- ===== src/DeviceConfig/Store/Tests.antt =====
-- A configuration store, before and after a change of the configuration.
use balena_supervisor.Common.{ℕ, String, Bool, true, false, List, [], ◌∷◌, some, none}
use balena_supervisor.Common.Dicts.{Dict}
use balena_supervisor.Common.Equality.{pos}
use balena_supervisor.DeviceConfig.Store.{Store, number, text}

abbrev store : Store
store = record {
  json = ("appUpdatePollInterval", number (pos 900000)) ∷ [];
  db = ("delta", "false") ∷ ("deltaVersion", "3") ∷ [];
}

abbrev shown : Dict String
shown =
    ("SUPERVISOR_POLL_INTERVAL", "900000")
    ∷ ("SUPERVISOR_INSTANT_UPDATE_TRIGGER", "true")
    ∷ ("SUPERVISOR_LOCAL_MODE", "false")
    ∷ ("SUPERVISOR_CONNECTIVITY_CHECK", "true")
    ∷ ("SUPERVISOR_LOG_CONTROL", "true")
    ∷ ("SUPERVISOR_DELTA", "false")
    ∷ ("SUPERVISOR_DELTA_REQUEST_TIMEOUT", "59000")
    ∷ ("SUPERVISOR_DELTA_APPLY_TIMEOUT", "0")
    ∷ ("SUPERVISOR_DELTA_RETRY_COUNT", "30")
    ∷ ("SUPERVISOR_DELTA_RETRY_INTERVAL", "10000")
    ∷ ("SUPERVISOR_DELTA_VERSION", "3")
    ∷ ("SUPERVISOR_OVERRIDE_LOCK", "false")
    ∷ ("SUPERVISOR_PERSISTENT_LOGGING", "false")
    ∷ ("HOST_FIREWALL_MODE", "")
    ∷ ("HOST_DISCOVERABILITY", "true")
    ∷ ("SUPERVISOR_HARDWARE_METRICS", "true")
    ∷ []

-- two changes, a value that is invalid, and an integer that is missing
abbrev target : Dict String
target =
    ("SUPERVISOR_POLL_INTERVAL", "600000.0")
    ∷ ("SUPERVISOR_DELTA", "on")
    ∷ ("SUPERVISOR_DELTA_RETRY_COUNT", "many")
    ∷ []
