-- ===== src/DeviceConfig/Boot.antt =====
-- device-config.ts and config/utils.ts: the boot configuration, which backends write.
use Prim.Native.String
use balena_supervisor.Common.{
  String, Bool, true, false, not, ◌&&◌, List, [], ◌∷◌, str_eq, some_and, map, is_empty,
  if◌then◌else◌, ◌≡◌, ◌↔◌, ap, eq_iff,
}
use balena_supervisor.Common.Dicts.{Dict, lookup, insert, has_key, assign, same_entries}
use balena_supervisor.Common.Equality.{Eq, equal_lists, list_iff, string_eq}
use balena_supervisor.Common.Results.{Result, ok, thrown, Exception, internal_inconsistency, ◌>>=◌}
use balena_supervisor.DeviceConfig.{ConfigStep, set_boot_config, set_reboot_breadcrumb}

-- string | string[]
pub data BootValue : Type 0 where
  one : String → BootValue
  several : List String → BootValue

abbrev pub equal_values : BootValue → BootValue → Bool
equal_values (one a) (one b) = str_eq a b
equal_values (several a) (several b) = equal_lists a b
equal_values _ _ = false

pub equal_values_iff : (a b : BootValue) → (equal_values a b ≡ true) ↔ (a ≡ b)
equal_values_iff (one a) (one b) = (λ h. ap one ((eq_iff a b).0 h), λ h. (eq_iff a b).1 (cc))
equal_values_iff (several a) (several b) =
    (λ h. ap several ((list_iff a b).0 h), λ h. (list_iff a b).1 (cc))
equal_values_iff (one a) (several b) = (λ h. cc, λ h. cc)
equal_values_iff (several a) (one b) = (λ h. cc, λ h. cc)

instance unfoldable pub boot_value_eq : Eq BootValue
boot_value_eq = record { same = equal_values; same_iff = equal_values_iff }

-- The class ConfigBackend, without its input and output. `ensure_required_config` is what that method
-- makes of the dictionary that it is passed.
pub record Backend : Type 0 where
  pub is_boot_config_var : String → Bool
  pub process_config_var_name : String → String
  pub process_config_var_value : String → String → BootValue
  pub is_supported_config : String → Bool
  pub ensure_required_config : String → Dict BootValue → Dict BootValue

-- a !== b, which holds of any two arrays
abbrev pub same_value : BootValue → BootValue → Bool
same_value (one a) (one b) = str_eq a b
same_value _ _ = false

abbrev blacklisted : String → Exception
blacklisted key =
    internal_inconsistency (String.◌++◌ "Attempt to change blacklisted config value " key)

module _ (backend : Backend) where
  abbrev boot_vars : Dict String → Dict String
  boot_vars [] = []
  boot_vars ((k, v) ∷ env) =
      let rest = boot_vars env in if backend.is_boot_config_var k then (k, v) ∷ rest else rest

  unfoldable pub env_to_boot_config : Dict String → Dict BootValue
  unfolding assign
  env_to_boot_config env =
      map (λ (k, v). (k, backend.process_config_var_value k v))
        (assign [] (map (λ (k, v). (backend.process_config_var_name k, v)) (boot_vars env)))

  -- the search for a value that is not supported and would change
  unfoldable pub check_supported : Dict BootValue → Dict BootValue → Result (Unit {0})
  check_supported current [] = ok tt
  check_supported current ((k, v) ∷ target) =
      let rest = check_supported current target in
      if not (backend.is_supported_config k) && not (some_and (lookup k current) (same_value v))
      then thrown (blacklisted k)
      else rest

  -- Is it only the mode of ODMDATA that the target lacks?
  unfoldable pub lacks_configuration : Dict BootValue → Dict BootValue → Bool
  unfolding has_key insert same_entries
  lacks_configuration current target =
      not (has_key "configuration" target)
      && some_and (lookup "configuration" current)
          (λ v. same_entries (insert "configuration" v target) current)

  -- changeRequired passes each exception on
  unfoldable pub boot_config_change_required : Dict String → Dict String → String → Result Bool
  unfolding env_to_boot_config check_supported lacks_configuration
  boot_config_change_required current target device_type =
      let target_boot_config =
        backend.ensure_required_config device_type (env_to_boot_config target) in
      let current_boot_config = env_to_boot_config current in
      do
        u ← check_supported current_boot_config target_boot_config
        ok (
            not (same_entries current_boot_config target_boot_config)
            && not (lacks_configuration current_boot_config target_boot_config))

-- the steps of the backends whose configuration has to change
unfoldable pub boot_steps :
    Dict String → Dict String → String → List Backend → Result (List ConfigStep)
unfolding boot_config_change_required
boot_steps current target device_type [] = ok []
boot_steps current target device_type (backend ∷ backends) = do
  required ← boot_config_change_required backend current target device_type
  rest ← boot_steps current target device_type backends
  ok (if required then set_boot_config target ∷ rest else rest)

unfoldable pub get_backend_steps :
    Dict String → Dict String → String → List Backend → Result (List ConfigStep)
unfolding boot_steps
get_backend_steps current target device_type backends = do
  steps ← boot_steps current target device_type backends
  ok (if is_empty steps then [] else set_reboot_breadcrumb ∷ steps)
