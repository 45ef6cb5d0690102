-- ===== src/Compose/Service/Comparison/Meaning.antt =====
-- compose/service.ts: what it means that isEqualConfig holds.
use balena_supervisor.Common.{
  String, true, [], ◌∷◌, some, ◌≡◌, refl, ◌↔◌, inl, inr, All, Option-cases, both_true,
  some_injective,
}
use balena_supervisor.Common.Equality.{nat_eq, int_eq, string_eq, bool_eq, option_eq, list_eq}
use balena_supervisor.Common.Dicts.{Dict, lookup}
use balena_supervisor.Compose.ServiceTypes.{ServiceNetwork}
use balena_supervisor.Compose.ServiceTypes.Equality.{
  range_eq, volume_eq, healthcheck_eq, device_eq, ulimit_eq, words_eq,
}
use balena_supervisor.Compose.Service.{Service}
use balena_supervisor.Compose.Service.Comparison.{has_same_networks, is_equal_config}
use balena_supervisor.Compose.Utils.Networks.{is_same_network}
use balena_supervisor.Compose.Service.Comparison.Settings.{SameSettings, same_settings_iff}
use balena_supervisor.Compose.Service.Comparison.Arrays.{SameArrays, SameArrays-iff}
use balena_supervisor.Compose.Service.Comparison.Modes.{SameMode, same_network_mode_iff}

-- Each network of the target is one that the container joins, with all that the target sets there.
abbrev pub JoinsNetworks : Dict ServiceNetwork → Dict ServiceNetwork → Type 0
JoinsNetworks current target =
    All
      (λ (name, network).
        (n : ServiceNetwork) × (lookup name current ≡ some n) × (is_same_network n network ≡ true))
      target

joins_iff :
    (current target : Dict ServiceNetwork)
    → (has_same_networks current target ≡ true) ↔ JoinsNetworks current target
unfolding has_same_networks
joins_iff current [] = (λ h. tt, λ h. refl)
joins_iff current ((name, network) ∷ target) =
    let (forth, back) = joins_iff current target in
    elim (Option-cases (lookup name current)) [
      | inl e ↦ rw e (λ h. cc, λ (p, h). cc)
      | inr (n, e) ↦ rw e (
        λ h.
            let (one, others) =
              both_true (is_same_network n network) (has_same_networks current target) h in
            ((n, refl, one), forth others),
        λ ((m, k, one), others). rw (some_injective k, one) (back others),
      )
    ]

-- A container has the configuration of its target exactly when it joins the networks of the target
-- with what the target sets there; the fields that are compared as they are agree, dictionaries in
-- any order; the arrays of strings are permutations, of name servers equal; the devices are equal in
-- their order, the volumes when sorted by their texts; and the network modes agree, of which
-- `service:` is met by the container that runs the service.
pub is_equal_config_iff :
    (this target : Service) (ids : Dict String)
    → (is_equal_config this target ids ≡ true) ↔ (
        JoinsNetworks this.config.networks target.config.networks
        × SameSettings this.config target.config
        × SameArrays this.config target.config
        × SameMode this.config target.config ids)
unfolding is_equal_config
is_equal_config_iff this target ids = (
  λ h.
      let (rest, mode) = both_true _ _ h in
      let (networks, config) = both_true _ _ rest in
      let (settings, arrays) = both_true _ _ config in
      (
        (joins_iff this.config.networks target.config.networks).0 networks,
        (same_settings_iff this.config target.config).0 settings,
        (SameArrays-iff this.config target.config).0 arrays,
        (same_network_mode_iff this.config target.config ids).0 mode,
      ),
  λ (networks, settings, arrays, mode).
      rw
        (
          (joins_iff this.config.networks target.config.networks).1 networks,
          (same_settings_iff this.config target.config).1 settings,
          (SameArrays-iff this.config target.config).1 arrays,
          (same_network_mode_iff this.config target.config ids).1 mode,
        )
        refl,
)
