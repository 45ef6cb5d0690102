-- ===== src/DeviceConfig/Required/Rebooting.antt =====
-- device-config.ts: the order of steps, and the reboot behind them.
use balena_supervisor.Common.{
  String, Bool, true, false, ◌&&◌, ◌||◌, List, [], ◌∷◌, ◌++◌, every, ◌≡◌, refl, inl, inr, arith,
  Bool-cases, All, Any,
}
use balena_supervisor.Common.Dicts.{Dict}
use balena_supervisor.DeviceConfig.{
  get_config_steps, ConfigStep, noop, reboot, change_config, set_vpn_enabled, set_boot_config,
  set_reboot_breadcrumb,
}
use balena_supervisor.DeviceConfig.Required.{Device, is_noop, is_reboot_required, with_reboot}

abbrev pub is_change : ConfigStep → Bool
is_change (change_config target human) = true
is_change _ = false

abbrev pub is_boot : ConfigStep → Bool
is_boot (set_boot_config target) = true
is_boot _ = false

abbrev pub is_breadcrumb : ConfigStep → Bool
is_breadcrumb set_reboot_breadcrumb = true
is_breadcrumb _ = false

abbrev pub is_reboot : ConfigStep → Bool
is_reboot reboot = true
is_reboot _ = false

-- The breadcrumb stands before the first step that writes a boot configuration.
abbrev pub Announced : Bool → List ConfigStep → Type 0
Announced seen [] = Unit
Announced seen (s ∷ steps) =
    (is_boot s ≡ true → seen ≡ true) × Announced (seen || is_breadcrumb s) steps

-- The order of the steps before a reboot is added.
pub record IsPlain (steps : List ConfigStep) : Type 0 where
  pub apart : Any (λ s. is_change s ≡ true) steps → All (λ s. is_boot s ≡ false) steps
  pub retried : Any (λ s. is_change s ≡ true) steps → Any (λ s. is_noop s ≡ true) steps
  pub announced : Announced false steps
  pub no_reboot : All (λ s. is_reboot s ≡ false) steps

-- The order of all steps: boot configurations wait for the configuration, the breadcrumb stands
-- before them, and a reboot stands behind noops, alone.
pub record IsOrdered (d : Device) (current target : Dict String) (steps : List ConfigStep)
    : Type 0 where
  pub waits : Any (λ s. is_boot s ≡ true) steps → get_config_steps current target ≡ []
  pub apart : Any (λ s. is_change s ≡ true) steps → All (λ s. is_boot s ≡ false) steps
  pub retried : Any (λ s. is_change s ≡ true) steps → Any (λ s. is_noop s ≡ true) steps
  pub announced : Announced false steps
  pub reboots :
      Any (λ s. is_reboot s ≡ true) steps
      → (is_reboot_required d ≡ true)
        × (noops : List ConfigStep) × (steps ≡ noops ++ reboot ∷ [])
        × (every is_noop noops ≡ true)
  pub rebooted :
      is_reboot_required d ≡ true
      → All (λ s. (is_noop s || is_reboot s) ≡ true) steps
      → Any (λ s. is_reboot s ≡ true) steps

no_reboot_there :
    (steps : List ConfigStep)
    → All (λ s. is_reboot s ≡ false) steps
    → Any (λ s. is_reboot s ≡ true) steps
    → ⊥
no_reboot_there [] h m = m
no_reboot_there (s ∷ steps) (e, h) (inl f) = cc
no_reboot_there (s ∷ steps) (e, h) (inr m) = no_reboot_there steps h m

only_noops :
    (steps : List ConfigStep)
    → All (λ s. is_reboot s ≡ false) steps
    → All (λ s. (is_noop s || is_reboot s) ≡ true) steps
    → every is_noop steps ≡ true
only_noops [] h m = refl
only_noops (s ∷ steps) (e, h) (f, m) = ground (arith, only_noops steps h m)

-- noops with a reboot behind them
rebooting :
    (d : Device) (current target : Dict String) (steps : List ConfigStep)
    → every is_noop steps ≡ true
    → is_reboot_required d ≡ true
    → IsOrdered d current target (steps ++ reboot ∷ [])
rebooting d current target steps e r = record {
  waits = λ m. elim (no_boot steps e m) [ ];
  apart = λ m. elim (no_change steps e m) [ ];
  retried = λ m. elim (no_change steps e m) [ ];
  announced = announced false steps e;
  reboots = λ m. (r, steps, refl, e);
  rebooted = λ r h. found steps;
}
  where
    no_change :
        (steps : List ConfigStep)
        → every is_noop steps ≡ true
        → Any (λ s. is_change s ≡ true) (steps ++ reboot ∷ [])
        → ⊥
    no_change [] e (inl f) = cc
    no_change [] e (inr m) = m
    no_change (noop ∷ steps) e (inl f) = cc
    no_change (noop ∷ steps) e (inr m) = no_change steps e m
    no_change (reboot ∷ steps) e m = cc
    no_change (set_reboot_breadcrumb ∷ steps) e m = cc
    no_change (change_config t h ∷ steps) e m = cc
    no_change (set_vpn_enabled t ∷ steps) e m = cc
    no_change (set_boot_config t ∷ steps) e m = cc

    announced :
        (seen : Bool) (steps : List ConfigStep)
        → every is_noop steps ≡ true
        → Announced seen (steps ++ reboot ∷ [])
    announced seen [] e = ((λ f. cc), tt)
    announced seen (noop ∷ steps) e = ((λ f. cc), announced (seen || false) steps e)
    announced seen (reboot ∷ steps) e = cc
    announced seen (set_reboot_breadcrumb ∷ steps) e = cc
    announced seen (change_config t h ∷ steps) e = cc
    announced seen (set_vpn_enabled t ∷ steps) e = cc
    announced seen (set_boot_config t ∷ steps) e = cc

    no_boot :
        (steps : List ConfigStep)
        → every is_noop steps ≡ true
        → Any (λ s. is_boot s ≡ true) (steps ++ reboot ∷ [])
        → ⊥
    no_boot [] e (inl f) = cc
    no_boot [] e (inr m) = m
    no_boot (noop ∷ steps) e (inl f) = cc
    no_boot (noop ∷ steps) e (inr m) = no_boot steps e m
    no_boot (reboot ∷ steps) e m = cc
    no_boot (set_reboot_breadcrumb ∷ steps) e m = cc
    no_boot (change_config t h ∷ steps) e m = cc
    no_boot (set_vpn_enabled t ∷ steps) e m = cc
    no_boot (set_boot_config t ∷ steps) e m = cc

    found : (steps : List ConfigStep) → Any (λ s. is_reboot s ≡ true) (steps ++ reboot ∷ [])
    found [] = inl refl
    found (s ∷ steps) = inr (found steps)

pub with_reboot-IsOrdered :
    (d : Device) (current target : Dict String) (steps : List ConfigStep)
    → IsPlain steps
    → (Any (λ s. is_boot s ≡ true) steps → get_config_steps current target ≡ [])
    → IsOrdered d current target (with_reboot d steps)
unfolding with_reboot
with_reboot-IsOrdered d current target steps p w =
    elim (Bool-cases (every is_noop steps && is_reboot_required d)) [
      | inl e ↦ rw e (rebooting d current target steps (ground arith) (ground arith))
      | inr e ↦ rw e (record {
        waits = w;
        apart = p.apart;
        retried = p.retried;
        announced = p.announced;
        reboots = λ m. elim (no_reboot_there steps p.no_reboot m) [ ];
        rebooted = λ r h. elim (contradiction r (only_noops steps p.no_reboot h) e) [ ];
      })
    ]
  where
    contradiction :
        is_reboot_required d ≡ true
        → every is_noop steps ≡ true
        → (every is_noop steps && is_reboot_required d) ≡ false
        → ⊥
    contradiction r n e = ground arith
