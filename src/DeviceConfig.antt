-- ===== src/DeviceConfig.antt =====
-- device-config.ts: the configuration of the supervisor, and the steps that bring it to its target.
mod Tests
pub mod Boot
pub mod Limits
pub mod Required
pub mod Store
use balena_supervisor.Common.{
  ℕ, ◌+◌, ◌*◌, String, Bool, true, false, not, ◌&&◌, ◌||◌, List, [], ◌∷◌, ◌++◌, Option, none, some,
  str_eq, is_some, is_empty, same_option, if◌then◌else◌, ltb,
}
use balena_supervisor.Common.Dicts.{Dict, lookup}
use balena_supervisor.Common.Equality.{ℤ, is_equal, equal_bools, equal_options, int_eq}
use balena_supervisor.Compose.Labels.{check_truthy}
use balena_supervisor.Library.Validation.{check_int, check_booleanish, parse_int}

pub data VarType : Type 0 where
  int bool string : VarType

pub record ConfigOption : Type 0 where
  pub key : String
  pub env_var_name : String
  pub var_type : VarType
  pub default_value : String
  pub reboot_required : Bool

pub data ConfigStep : Type 0 where
  set_reboot_breadcrumb reboot noop : ConfigStep
  change_config : (target human_readable_target : Dict String) → ConfigStep
  set_vpn_enabled : (target : String) → ConfigStep
  set_boot_config : (target : Dict String) → ConfigStep

abbrev option : String → String → VarType → String → ConfigOption
option key env_var_name var_type default_value = record {
  key = key;
  env_var_name = env_var_name;
  var_type = var_type;
  default_value = default_value;
  reboot_required = false;
}

abbrev pub config_keys : List ConfigOption
config_keys =
    option "appUpdatePollInterval" "SUPERVISOR_POLL_INTERVAL" int "900000"
    ∷ option "instantUpdates" "SUPERVISOR_INSTANT_UPDATE_TRIGGER" bool "true"
    ∷ option "localMode" "SUPERVISOR_LOCAL_MODE" bool "false"
    ∷ option "connectivityCheckEnabled" "SUPERVISOR_CONNECTIVITY_CHECK" bool "true"
    ∷ option "loggingEnabled" "SUPERVISOR_LOG_CONTROL" bool "true"
    ∷ option "delta" "SUPERVISOR_DELTA" bool "false"
    ∷ option "deltaRequestTimeout" "SUPERVISOR_DELTA_REQUEST_TIMEOUT" int "59000"
    ∷ option "deltaApplyTimeout" "SUPERVISOR_DELTA_APPLY_TIMEOUT" int "0"
    ∷ option "deltaRetryCount" "SUPERVISOR_DELTA_RETRY_COUNT" int "30"
    ∷ option "deltaRetryInterval" "SUPERVISOR_DELTA_RETRY_INTERVAL" int "10000"
    ∷ option "deltaVersion" "SUPERVISOR_DELTA_VERSION" int "2"
    ∷ option "lockOverride" "SUPERVISOR_OVERRIDE_LOCK" bool "false"
    ∷ (record (option "persistentLogging" "SUPERVISOR_PERSISTENT_LOGGING" bool "false") {
      reboot_required = true;
    })
    ∷ option "firewallMode" "HOST_FIREWALL_MODE" string "off"
    ∷ option "hostDiscoverability" "HOST_DISCOVERABILITY" bool "true"
    ∷ option "hardwareMetrics" "SUPERVISOR_HARDWARE_METRICS" bool "true"
    ∷ []

unfoldable pub config_test : VarType → Option String → Option String → Bool
config_test bool a b = equal_bools (check_truthy a) (check_truthy b)
config_test int a b = equal_options (check_int a) (check_int b)
config_test string a b = same_option str_eq a b

-- The types of the schema that the keys of the table have: PermissiveNumber, PermissiveBoolean, and
-- a string or nothing.
pub data SchemaType : Type 0 where
  permissive_number permissive_boolean string_or_null : SchemaType

abbrev pub schema_types : Dict SchemaType
schema_types =
    ("appUpdatePollInterval", permissive_number)
    ∷ ("instantUpdates", permissive_boolean)
    ∷ ("persistentLogging", permissive_boolean)
    ∷ ("loggingEnabled", permissive_boolean)
    ∷ ("connectivityCheckEnabled", permissive_boolean)
    ∷ ("delta", permissive_boolean)
    ∷ ("deltaRequestTimeout", permissive_number)
    ∷ ("deltaApplyTimeout", permissive_number)
    ∷ ("deltaRetryCount", permissive_number)
    ∷ ("deltaRetryInterval", permissive_number)
    ∷ ("deltaVersion", permissive_number)
    ∷ ("lockOverride", permissive_boolean)
    ∷ ("localMode", permissive_boolean)
    ∷ ("firewallMode", string_or_null)
    ∷ ("hostDiscoverability", permissive_boolean)
    ∷ ("hardwareMetrics", permissive_boolean)
    ∷ []

-- Does a string, or undefined, decode?
unfoldable pub decodes : SchemaType → Option String → Bool
decodes permissive_number none = false
decodes permissive_number (some s) = is_some (parse_int s)
decodes permissive_boolean none = true
decodes permissive_boolean (some s) = check_booleanish (some s)
decodes string_or_null value = true

-- config.valueIsValid; a key that the schema lacks does not occur
unfoldable pub value_is_valid : String → Option String → Bool
unfolding decodes
value_is_valid key value = elim (lookup key schema_types) [
  | none ↦ false
  | some schema ↦ decodes schema value
]

-- A valid target, or else the default, replaces a current value that differs from it. null stands for
-- a target that is valid and missing, too.
unfoldable pub change_for : ConfigOption → (now wanted : Option String) → Option String
unfolding config_test value_is_valid
change_for o now wanted =
    if config_test o.var_type now wanted
    then none
    else if value_is_valid o.key wanted
    then wanted
    else if config_test o.var_type now (some o.default_value)
    then none
    else some o.default_value

unfoldable pub changing_value : Dict String → Dict String → ConfigOption → Option String
unfolding change_for
changing_value current target o =
    change_for o (lookup o.env_var_name current) (lookup o.env_var_name target)

-- configChanges, humanReadableConfigChanges and reboot
pub record Changes : Type 0 where
  pub config_changes : Dict String
  pub human_readable_config_changes : Dict String
  pub reboot : Bool

abbrev pub no_changes : Changes
no_changes = record { config_changes = []; human_readable_config_changes = []; reboot = false }

-- One more change; no key and no name stands twice in the table.
abbrev pub with_change : ConfigOption → Option String → Changes → Changes
with_change o none changes = changes
with_change o (some value) changes = record {
  config_changes = (o.key, value) ∷ changes.config_changes;
  human_readable_config_changes = (o.env_var_name, value) ∷ changes.human_readable_config_changes;
  reboot = o.reboot_required || changes.reboot;
}

unfoldable pub collect_changes : Dict String → Dict String → List ConfigOption → Changes
unfolding changing_value
collect_changes current target [] = no_changes
collect_changes current target (o ∷ options) =
    with_change o (changing_value current target o) (collect_changes current target options)

unfoldable pub get_config_steps : Dict String → Dict String → List ConfigStep
unfolding collect_changes
get_config_steps current target =
    let changes = collect_changes current target config_keys in
    if is_empty changes.config_changes
    then []
    else (if changes.reboot then set_reboot_breadcrumb ∷ [] else [])
      ++ change_config changes.config_changes changes.human_readable_config_changes ∷ []

-- rateLimits.setVPNEnabled
pub record RateLimit : Type 0 where
  pub duration : ℕ
  pub last_attempt : Option ℕ

abbrev pub rate_limits : RateLimit
rate_limits = record { duration = 60 * 60 * 1000; last_attempt = none }

abbrev pub reset_rate_limits : RateLimit → RateLimit
reset_rate_limits limit = record limit { last_attempt = none }

unfoldable pub check_bool_changed : Dict String → Dict String → String → Bool
check_bool_changed current target key =
    not (equal_bools (check_truthy (lookup key current)) (check_truthy (lookup key target)))

-- Date.now() - lastAttempt < duration, over the integers
unfoldable pub is_limited : ℕ → RateLimit → Bool
is_limited now limit = elim limit.last_attempt [
  | none ↦ false
  | some last ↦ ltb now (last + limit.duration)
]

-- A step to switch the VPN; each attempt is remembered, and replaced by a noop if it comes too early.
unfoldable pub limit_vpn_step : ℕ → RateLimit → String → List ConfigStep × RateLimit
unfolding is_limited
limit_vpn_step now limit target = (
  (if is_limited now limit then noop else set_vpn_enabled target) ∷ [],
  record limit { last_attempt = some now },
)

unfoldable pub get_vpn_steps :
    (unmanaged : Bool) (now : ℕ)
    → RateLimit
    → (current target : Dict String) → List ConfigStep × RateLimit
unfolding check_bool_changed limit_vpn_step
get_vpn_steps unmanaged now limit current target = elim (lookup "SUPERVISOR_VPN_CONTROL" target) [
  | none ↦ ([], limit)
  | some wanted ↦
      if not unmanaged
        && not (str_eq wanted "")
        && check_bool_changed current target "SUPERVISOR_VPN_CONTROL"
      then limit_vpn_step now limit wanted
      else ([], limit)
]
