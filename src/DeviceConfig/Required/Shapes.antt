-- ===== src/DeviceConfig/Required/Shapes.antt =====
-- device-config.ts: which steps getConfigSteps, getVPNSteps and getBackendSteps return.
use balena_supervisor.Common.{
  ℕ, String, Bool, true, false, List, [], ◌∷◌, is_empty, if◌then◌else◌, ◌≡◌, refl, subst, ◌⊎◌, inl,
  inr, Bool-cases, Option-cases, All,
}
use balena_supervisor.Common.Dicts.{Dict, lookup}
use balena_supervisor.Common.Results.{ok, >>=-eq-ok, ok_injective}
use balena_supervisor.DeviceConfig.{
  ConfigStep, noop, change_config, set_vpn_enabled, set_boot_config, set_reboot_breadcrumb,
  RateLimit, get_config_steps, get_vpn_steps, limit_vpn_step, is_limited, collect_changes,
  config_keys,
}
use balena_supervisor.DeviceConfig.Boot.{
  Backend, get_backend_steps, boot_steps, boot_config_change_required,
}
use balena_supervisor.DeviceConfig.Required.Rebooting.{is_boot}

-- what getConfigSteps, getVPNSteps and getBackendSteps return
abbrev pub ConfigShape : List ConfigStep → Type 0
ConfigShape steps =
    (steps ≡ [])
    ⊎ ((t : Dict String) × (h : Dict String) × ((steps ≡ change_config t h ∷ [])
          ⊎ (steps ≡ set_reboot_breadcrumb ∷ change_config t h ∷ [])))

pub get_config_steps-shape :
    (current target : Dict String) → ConfigShape (get_config_steps current target)
unfolding get_config_steps
get_config_steps-shape current target =
    let changes = collect_changes current target config_keys in
    elim (Bool-cases (is_empty changes.config_changes)) [
      | inl e ↦ inl (rw e refl)
      | inr e ↦ inr (
        changes.config_changes,
        changes.human_readable_config_changes,
        elim (Bool-cases changes.reboot) [
          | inl r ↦ inr (rw (e, r) refl)
          | inr r ↦ inl (rw (e, r) refl)
        ],
      )
    ]

abbrev pub VpnShape : List ConfigStep → Type 0
VpnShape steps =
    (steps ≡ []) ⊎ (steps ≡ noop ∷ []) ⊎ ((t : String) × (steps ≡ set_vpn_enabled t ∷ []))

abbrev pub BootShape : List ConfigStep → Type 0
BootShape steps =
    (steps ≡ [])
    ⊎ ((rest : List ConfigStep) × (steps ≡ set_reboot_breadcrumb ∷ rest)
        × All (λ s. is_boot s ≡ true) rest)

limit_vpn_step-shape :
    (now : ℕ) (limit : RateLimit) (target : String) → VpnShape (limit_vpn_step now limit target).0
unfolding limit_vpn_step
limit_vpn_step-shape now limit target = elim (Bool-cases (is_limited now limit)) [
  | inl e ↦ rw e (inr (inl refl))
  | inr e ↦ rw e (inr (inr (target, refl)))
]

pub get_vpn_steps-shape :
    (unmanaged : Bool) (now : ℕ) (limit : RateLimit) (current target : Dict String)
    → VpnShape (get_vpn_steps unmanaged now limit current target).0
unfolding get_vpn_steps
get_vpn_steps-shape unmanaged now limit current target =
    elim (Option-cases (lookup "SUPERVISOR_VPN_CONTROL" target)) [
      | inl e ↦ rw (e, get_vpn_steps) (inl refl)
      | inr (wanted, e) ↦ rw (e, get_vpn_steps) (chosen _ wanted)
    ]
  where
    chosen :
        (b : Bool) (t : String) → VpnShape (if b then limit_vpn_step now limit t else ([], limit)).0
    chosen true t = limit_vpn_step-shape now limit t
    chosen false t = inl refl

boot_steps-All :
    (current target : Dict String) (device_type : String) (backends : List Backend)
    (steps : List ConfigStep)
    → boot_steps current target device_type backends ≡ ok steps
    → All (λ s. is_boot s ≡ true) steps
unfolding boot_steps
boot_steps-All current target device_type [] steps h =
    subst (λ r. All (λ s. is_boot s ≡ true) r) (ok_injective h) tt
boot_steps-All current target device_type (backend ∷ backends) steps h =
    let (required, e, k) =
      >>=-eq-ok (boot_config_change_required backend current target device_type) _ h in
    let (rest, e', k') = >>=-eq-ok (boot_steps current target device_type backends) _ k in
    let more = boot_steps-All current target device_type backends rest e' in
    rw (ok_injective k') at (one_more required rest more)
  where
    one_more :
        (required : Bool) (rest : List ConfigStep)
        → All (λ s. is_boot s ≡ true) rest
        → All (λ s. is_boot s ≡ true) (if required then set_boot_config target ∷ rest else rest)
    one_more true rest h = (refl, h)
    one_more false rest h = h

pub get_backend_steps-shape :
    (current target : Dict String) (device_type : String) (backends : List Backend)
    (steps : List ConfigStep)
    → get_backend_steps current target device_type backends ≡ ok steps
    → BootShape steps
unfolding get_backend_steps
get_backend_steps-shape current target device_type backends steps h =
    let (rest, e, k) = >>=-eq-ok _ _ h in
    rw (ok_injective k) at (behind rest (boot_steps-All current target device_type backends rest e))
  where
    behind :
        (rest : List ConfigStep)
        → All (λ s. is_boot s ≡ true) rest
        → BootShape (if is_empty rest then [] else set_reboot_breadcrumb ∷ rest)
    behind [] h = inl refl
    behind (s ∷ rest) h = inr (s ∷ rest, refl, h)
