-- ===== src/DeviceConfig/Required.antt =====
-- device-config.ts: getRequiredSteps.
pub mod Rebooting
pub mod Shapes
pub mod Order
use balena_supervisor.Common.{
  ℕ, ◌+◌, String, Bool, true, false, not, ◌&&◌, List, [], ◌∷◌, ◌++◌, Option, none, some, any, every,
  filter, is_empty, ltb, some_and, if◌then◌else◌,
}
use balena_supervisor.Common.Dicts.{Dict}
use balena_supervisor.Common.Results.{Result, ok, thrown, ◌>>=◌}
use balena_supervisor.DeviceConfig.{
  ConfigStep, noop, reboot, RateLimit, get_config_steps, get_vpn_steps,
}
use balena_supervisor.DeviceConfig.Boot.{Backend, get_backend_steps}

-- What the code asks of the device: its configuration, the backends that match it, the clock, the time
-- of the boot, and the time at which the breadcrumb was written, if it is there.
pub record Device : Type 0 where
  pub unmanaged : Bool
  pub device_type : String
  pub backends : List Backend
  pub now : ℕ
  pub boot_time : ℕ
  pub breadcrumb : Option ℕ

abbrev pub is_noop : ConfigStep → Bool
is_noop noop = true
is_noop _ = false

abbrev pub is_reboot_required : Device → Bool
is_reboot_required d = some_and d.breadcrumb (λ written. ltb d.boot_time written)

unfoldable pub has_changes : List ConfigStep → Bool
has_changes steps = not (is_empty (filter (λ s. not (is_noop s)) steps))

-- the steps of the backends wait until the configuration needs no change
unfoldable pub backend_steps :
    Device → (current target : Dict String) → List ConfigStep → Result (List ConfigStep)
unfolding has_changes get_backend_steps
backend_steps d current target config_steps =
    if not (is_empty config_steps) && has_changes config_steps
    then ok (noop ∷ [])
    else get_backend_steps current target d.device_type d.backends

unfoldable pub with_reboot : Device → List ConfigStep → List ConfigStep
with_reboot d steps =
    if every is_noop steps && is_reboot_required d then steps ++ reboot ∷ [] else steps

-- The attempt to switch the VPN is remembered even if a backend throws.
unfoldable pub get_required_steps :
    Device → RateLimit → (current target : Dict String) → Result (List ConfigStep) × RateLimit
unfolding get_config_steps get_vpn_steps backend_steps with_reboot
get_required_steps d limit current target =
    let config_steps = get_config_steps current target in
    let (vpn_steps, limit') = get_vpn_steps d.unmanaged d.now limit current target in
    (
      backend_steps d current target config_steps >>= λ boot.
          ok (with_reboot d (config_steps ++ vpn_steps ++ boot)),
      limit',
    )
