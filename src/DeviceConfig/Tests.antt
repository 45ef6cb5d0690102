-- ===== src/DeviceConfig/Tests.antt =====
-- The steps of the device's configuration, on concrete configurations.
use balena_supervisor.Common.{
  ℕ, String, Bool, true, false, List, [], ◌∷◌, some, none, ◌≡◌, refl, arith, str_eq,
}
use balena_supervisor.Common.Dicts.{Dict}
use balena_supervisor.Common.Results.{ok}
use balena_supervisor.DeviceConfig.{
  ConfigStep, noop, reboot, change_config, set_vpn_enabled, set_boot_config, set_reboot_breadcrumb,
  rate_limits, get_config_steps,
}
use balena_supervisor.DeviceConfig.Boot.{Backend, one}
use balena_supervisor.DeviceConfig.Required.{Device, get_required_steps}
use balena_supervisor.DeviceConfig.Required.Rebooting.{IsOrdered}
use balena_supervisor.DeviceConfig.Required.Order.{get_required_steps-IsOrdered}
use balena_supervisor.DeviceConfig.Limits.{
  Event, called, reset, switch, was_reset, switches, IsSpaced, switches-IsSpaced,
}

-- a backend with one variable
abbrev backend : Backend
backend = record {
  is_boot_config_var = λ k. str_eq k "HOST_CONFIG_gpu_mem";
  process_config_var_name = λ k. "gpu_mem";
  process_config_var_value = λ k v. one v;
  is_supported_config = λ k. true;
  ensure_required_config = λ device_type conf. conf;
}

abbrev device : Device
device = record {
  unmanaged = false;
  device_type = "raspberrypi4-64";
  backends = backend ∷ [];
  now = 5000;
  boot_time = 100;
  breadcrumb = none;
}

abbrev defaults : Dict String
defaults =
    ("SUPERVISOR_POLL_INTERVAL", "900000")
    ∷ ("SUPERVISOR_INSTANT_UPDATE_TRIGGER", "true")
    ∷ ("SUPERVISOR_LOCAL_MODE", "false")
    ∷ ("SUPERVISOR_CONNECTIVITY_CHECK", "true")
    ∷ ("SUPERVISOR_LOG_CONTROL", "true")
    ∷ ("SUPERVISOR_DELTA", "false")
    ∷ ("SUPERVISOR_DELTA_REQUEST_TIMEOUT", "59000")
    ∷ ("SUPERVISOR_DELTA_APPLY_TIMEOUT", "0")
    ∷ ("SUPERVISOR_DELTA_RETRY_COUNT", "30")
    ∷ ("SUPERVISOR_DELTA_RETRY_INTERVAL", "10000")
    ∷ ("SUPERVISOR_DELTA_VERSION", "2")
    ∷ ("SUPERVISOR_OVERRIDE_LOCK", "false")
    ∷ ("SUPERVISOR_PERSISTENT_LOGGING", "false")
    ∷ ("HOST_FIREWALL_MODE", "off")
    ∷ ("HOST_DISCOVERABILITY", "true")
    ∷ ("SUPERVISOR_HARDWARE_METRICS", "true")
    ∷ []

abbrev now_current : Dict String
now_current = ("SUPERVISOR_VPN_CONTROL", "true") ∷ ("HOST_CONFIG_gpu_mem", "16") ∷ defaults

abbrev boot_target : Dict String
boot_target = ("SUPERVISOR_VPN_CONTROL", "false") ∷ ("HOST_CONFIG_gpu_mem", "32") ∷ defaults

abbrev boot_result : List ConfigStep
boot_result = set_vpn_enabled "false" ∷ set_reboot_breadcrumb ∷ set_boot_config boot_target ∷ []

-- nothing but the VPN and the boot configuration differs
boot_steps_due : (get_required_steps device rate_limits now_current boot_target).0 ≡ ok boot_result
unfolding get_required_steps get_config_steps balena_supervisor.Library.Validation.check_int
    balena_supervisor.Compose.Labels.check_truthy balena_supervisor.Common.Dicts.lookup
    balena_supervisor.DeviceConfig.Boot.boot_value_eq
boot_steps_due = refl

get_required_steps-IsOrdered_example : IsOrdered device now_current boot_target boot_result
get_required_steps-IsOrdered_example =
    get_required_steps-IsOrdered device rate_limits now_current boot_target boot_result
      boot_steps_due

-- A change that needs a reboot, and an invalid value, for which the default stands.
changed :
    get_config_steps now_current
      (("SUPERVISOR_PERSISTENT_LOGGING", "1") ∷ ("SUPERVISOR_DELTA", "maybe") ∷ defaults)
    ≡ set_reboot_breadcrumb
      ∷ change_config
          (("persistentLogging", "1") ∷ [])
          (("SUPERVISOR_PERSISTENT_LOGGING", "1") ∷ [])
      ∷ []
unfolding get_config_steps balena_supervisor.Library.Validation.check_int
    balena_supervisor.Common.Dicts.lookup balena_supervisor.Compose.Labels.check_truthy
    balena_supervisor.Library.Validation.check_booleanish
changed = refl

-- The value 59000ms is valid, and stored as 59000, but it never counts as equal to that.
never_settled :
    get_config_steps now_current (("SUPERVISOR_DELTA_REQUEST_TIMEOUT", "59000ms") ∷ defaults)
    ≡ change_config
        (("deltaRequestTimeout", "59000ms") ∷ [])
        (("SUPERVISOR_DELTA_REQUEST_TIMEOUT", "59000ms") ∷ [])
      ∷ []
unfolding get_config_steps balena_supervisor.Library.Validation.check_int
    balena_supervisor.Common.Dicts.lookup balena_supervisor.Compose.Labels.check_truthy
    balena_supervisor.Library.Validation.parse_int
never_settled = refl

abbrev round : ℕ → Event
round t = called (record { now = t; current = now_current; target = boot_target })

abbrev rounds : List Event
rounds = round 0 ∷ round 6 ∷ round 12 ∷ round 18 ∷ round 40 ∷ []

-- Attempts that come too early put the next switch off, though the last one is long ago.
starved :
    switches false (record { duration = 10; last_attempt = none }) rounds
    ≡ switch 0 ∷ switch 40 ∷ []
unfolding switches balena_supervisor.Common.Dicts.lookup
    balena_supervisor.Compose.Labels.check_truthy
starved = refl

-- with a reset, as when the target was reached between two switches
abbrev with_reset : List Event
with_reset = round 0 ∷ round 6 ∷ reset ∷ round 7 ∷ round 20 ∷ []

reset_in_between :
    switches false (record { duration = 10; last_attempt = none }) with_reset
    ≡ switch 0 ∷ was_reset ∷ switch 7 ∷ switch 20 ∷ []
unfolding switches balena_supervisor.Common.Dicts.lookup
    balena_supervisor.Compose.Labels.check_truthy
reset_in_between = refl

switches-IsSpaced_example :
    IsSpaced 10 none (switches false (record { duration = 10; last_attempt = none }) with_reset)
switches-IsSpaced_example =
    switches-IsSpaced false 10 with_reset
      (omega arith, (omega arith, (omega arith, (omega arith, tt))))
