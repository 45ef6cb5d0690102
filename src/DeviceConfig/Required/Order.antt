-- ===== src/DeviceConfig/Required/Order.antt =====
-- device-config.ts: the order of the steps of getRequiredSteps.
use balena_supervisor.Common.{
  String, Bool, true, false, ◌||◌, List, [], ◌∷◌, ◌++◌, ◌≡◌, refl, sym, inl, inr, All, Any,
}
use balena_supervisor.Common.Dicts.{Dict}
use balena_supervisor.Common.Results.{ok, >>=-eq-ok, ok_injective}
use balena_supervisor.DeviceConfig.{
  ConfigStep, noop, reboot, change_config, set_vpn_enabled, set_boot_config, set_reboot_breadcrumb,
  RateLimit, get_config_steps, get_vpn_steps,
}
use balena_supervisor.DeviceConfig.Required.{Device, has_changes, backend_steps, get_required_steps}
use balena_supervisor.DeviceConfig.Required.Rebooting.{
  is_change, is_boot, is_breadcrumb, is_reboot, Announced, IsPlain, IsOrdered,
  with_reboot-IsOrdered,
}
use balena_supervisor.DeviceConfig.Required.Shapes.{
  ConfigShape, VpnShape, BootShape, get_config_steps-shape, get_vpn_steps-shape,
  get_backend_steps-shape,
}

-- Steps that write boot configurations neither change the configuration nor reboot.
module _ where
  boots-no_change :
      (steps : List ConfigStep)
      → All (λ s. is_boot s ≡ true) steps
      → Any (λ s. is_change s ≡ true) steps
      → ⊥
  boots-no_change [] h m = m
  boots-no_change (set_boot_config t ∷ steps) (e, h) (inl f) = cc
  boots-no_change (set_boot_config t ∷ steps) (e, h) (inr m) = boots-no_change steps h m
  boots-no_change (noop ∷ steps) (e, h) m = cc
  boots-no_change (reboot ∷ steps) (e, h) m = cc
  boots-no_change (set_reboot_breadcrumb ∷ steps) (e, h) m = cc
  boots-no_change (change_config t u ∷ steps) (e, h) m = cc
  boots-no_change (set_vpn_enabled t ∷ steps) (e, h) m = cc

  boots-no_reboot :
      (steps : List ConfigStep)
      → All (λ s. is_boot s ≡ true) steps
      → All (λ s. is_reboot s ≡ false) steps
  boots-no_reboot [] h = tt
  boots-no_reboot (set_boot_config t ∷ steps) (e, h) = (refl, boots-no_reboot steps h)
  boots-no_reboot (noop ∷ steps) (e, h) = cc
  boots-no_reboot (reboot ∷ steps) (e, h) = cc
  boots-no_reboot (set_reboot_breadcrumb ∷ steps) (e, h) = cc
  boots-no_reboot (change_config t u ∷ steps) (e, h) = cc
  boots-no_reboot (set_vpn_enabled t ∷ steps) (e, h) = cc

  boots-Announced : (steps : List ConfigStep) → Announced true steps
  boots-Announced [] = tt
  boots-Announced (s ∷ steps) = (λ f. refl, boots-Announced steps)

breadcrumb_first :
    (rest : List ConfigStep)
    → All (λ s. is_boot s ≡ true) rest
    → IsPlain (set_reboot_breadcrumb ∷ rest)
breadcrumb_first rest h = record {
  apart = λ m. elim (no_change m) [ ];
  retried = λ m. elim (no_change m) [ ];
  announced = (λ f. cc, boots-Announced rest);
  no_reboot = (refl, boots-no_reboot rest h);
}
  where
    no_change : Any (λ s. is_change s ≡ true) (set_reboot_breadcrumb ∷ rest) → ⊥
    no_change (inl f) = cc
    no_change (inr m) = boots-no_change rest h m

-- a step of the VPN before those of the backends
vpn_first :
    (s : ConfigStep) (steps : List ConfigStep)
    → (is_change s ≡ false)
      × (is_boot s ≡ false)
      × (is_reboot s ≡ false)
      × (is_breadcrumb s ≡ false)
    → IsPlain steps
    → IsPlain (s ∷ steps)
vpn_first s steps (c, b, r, a) p = record {
  apart = λ m. (b, p.apart (behind m));
  retried = λ m. inr (p.retried (behind m));
  announced = (λ f. cc, rw a p.announced);
  no_reboot = (r, p.no_reboot);
}
  where
    behind : Any (λ s. is_change s ≡ true) (s ∷ steps) → Any (λ s. is_change s ≡ true) steps
    behind (inl f) = cc
    behind (inr m) = m

nothing-IsPlain : IsPlain []
nothing-IsPlain = record { apart = λ m. tt; retried = λ m. m; announced = tt; no_reboot = tt }

vpn-IsPlain : (vpn steps : List ConfigStep) → VpnShape vpn → IsPlain steps → IsPlain (vpn ++ steps)
vpn-IsPlain vpn steps (inl e) p = rw e p
vpn-IsPlain vpn steps (inr (inl e)) p = rw e (vpn_first noop steps (refl, refl, refl, refl) p)
vpn-IsPlain vpn steps (inr (inr (t, e))) p =
    rw e (vpn_first (set_vpn_enabled t) steps (refl, refl, refl, refl) p)

boot-IsPlain : (steps : List ConfigStep) → BootShape steps → IsPlain steps
boot-IsPlain steps (inl e) = rw e nothing-IsPlain
boot-IsPlain steps (inr (rest, e, h)) = rw e (breadcrumb_first rest h)

-- A change of the configuration, with a noop for the backends.
change_first :
    (t h : Dict String) (vpn : List ConfigStep)
    → VpnShape vpn
    → IsPlain (change_config t h ∷ vpn ++ noop ∷ [])
change_first t h vpn (inl e) = rw e (record {
  apart = λ m. (refl, (refl, tt));
  retried = λ m. inr (inl refl);
  announced = (λ f. cc, (λ f. cc, tt));
  no_reboot = (refl, (refl, tt));
})
change_first t h vpn (inr (inl e)) = rw e (record {
  apart = λ m. (refl, (refl, (refl, tt)));
  retried = λ m. inr (inl refl);
  announced = (λ f. cc, (λ f. cc, (λ f. cc, tt)));
  no_reboot = (refl, (refl, (refl, tt)));
})
change_first t h vpn (inr (inr (u, e))) = rw e (record {
  apart = λ m. (refl, (refl, (refl, tt)));
  retried = λ m. inr (inr (inl refl));
  announced = (λ f. cc, (λ f. cc, (λ f. cc, tt)));
  no_reboot = (refl, (refl, (refl, tt)));
})

breadcrumb_before :
    (steps : List ConfigStep)
    → IsPlain steps
    → All (λ s. is_boot s ≡ false) steps
    → IsPlain (set_reboot_breadcrumb ∷ steps)
breadcrumb_before steps p b = record {
  apart = λ m. (refl, b);
  retried = λ m. inr (p.retried (behind m));
  announced = (λ f. cc, announced_anyway true steps b);
  no_reboot = (refl, p.no_reboot);
}
  where
    behind :
        Any (λ s. is_change s ≡ true) (set_reboot_breadcrumb ∷ steps)
        → Any (λ s. is_change s ≡ true) steps
    behind (inl f) = cc
    behind (inr m) = m

    announced_anyway :
        (seen : Bool) (steps : List ConfigStep)
        → All (λ s. is_boot s ≡ false) steps
        → Announced seen steps
    announced_anyway seen [] b = tt
    announced_anyway seen (s ∷ steps) (e, b) =
        (λ f. cc, announced_anyway (seen || is_breadcrumb s) steps b)

no_boot :
    (steps : List ConfigStep)
    → All (λ s. is_boot s ≡ false) steps
    → Any (λ s. is_boot s ≡ true) steps
    → ⊥
no_boot [] h m = m
no_boot (s ∷ steps) (e, h) (inl f) = cc
no_boot (s ∷ steps) (e, h) (inr m) = no_boot steps h m

module _ (d : Device) (limit : RateLimit) (current target : Dict String) where
  abbrev vpn_steps : List ConfigStep
  vpn_steps = (get_vpn_steps d.unmanaged d.now limit current target).0

  plain :
      (config boot : List ConfigStep)
      → ConfigShape config
      → backend_steps d current target config ≡ ok boot
      → IsPlain (config ++ vpn_steps ++ boot)
  unfolding backend_steps has_changes
  plain config boot (inl e) h = rw e (
      vpn-IsPlain vpn_steps boot (get_vpn_steps-shape d.unmanaged d.now limit current target) (
        boot-IsPlain boot
          (get_backend_steps-shape current target d.device_type d.backends boot (rw e at h))))
  plain config boot (inr (t, u, inl e)) h =
      let same : ok (noop ∷ []) ≡ ok boot = rw e at h in
      rw (e, sym (ok_injective same))
        (change_first t u vpn_steps (get_vpn_steps-shape d.unmanaged d.now limit current target))
  plain config boot (inr (t, u, inr e)) h =
      let same : ok (noop ∷ []) ≡ ok boot = rw e at h in
      let p =
        change_first t u vpn_steps (get_vpn_steps-shape d.unmanaged d.now limit current target) in
      rw (e, sym (ok_injective same)) (breadcrumb_before _ p (p.apart (inl refl)))

  -- a boot configuration is only written where the configuration needs no change
  waits :
      (config vpn rest : List ConfigStep)
      → ConfigShape config
      → IsPlain (config ++ vpn ++ rest)
      → Any (λ s. is_boot s ≡ true) (config ++ vpn ++ rest)
      → config ≡ []
  waits config vpn rest (inl e) p m = e
  waits config vpn rest (inr (t, u, inl e)) p m = elim (no_boot _ (p.apart (rw e (inl refl))) m) [ ]
  waits config vpn rest (inr (t, u, inr e)) p m =
      elim (no_boot _ (p.apart (rw e (inr (inl refl)))) m) [ ]

  -- In what getRequiredSteps returns, a boot configuration is written only if the configuration needs
  -- no change, so never in the round in which the configuration is changed; that round has a noop,
  -- so that the state is applied again; the breadcrumb of the reboot precedes each boot
  -- configuration; and there is a reboot exactly if one is required and all other steps are noops,
  -- as the last step and once.
  pub get_required_steps-IsOrdered :
      (steps : List ConfigStep)
      → (get_required_steps d limit current target).0 ≡ ok steps
      → IsOrdered d current target steps
  unfolding get_required_steps
  get_required_steps-IsOrdered steps h =
      let (boot, e, k) = >>=-eq-ok _ _ h in
      let shape = get_config_steps-shape current target in
      let p = plain (get_config_steps current target) boot shape e in
      rw (ok_injective k) at (
        with_reboot-IsOrdered d current target _ p
          (waits (get_config_steps current target) vpn_steps boot shape p))
