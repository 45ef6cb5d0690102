-- ===== src/Compose/Network.antt =====
-- compose/network.ts: a network of an app and the comparison of two configurations.
use mathlib.Core.Bool.{beq}
use balena_supervisor.Common.{
  ℕ, String, Bool, true, false, ◌&&◌, List, [], ◌∷◌, Option, str_eq, same_option, is_empty,
  if◌then◌else◌,
}
use balena_supervisor.Compose.Labels.{Labels, same_labels}

pub record IpamEntry : Type 0 where
  pub subnet : Option String
  pub gateway : Option String
  pub ip_range : Option String
  pub aux_address : Option String

pub record NetworkConfig : Type 0 where
  pub driver : String
  pub ipam_driver : String
  pub ipam_config : List IpamEntry
  pub ipam_options : Labels
  pub enable_ipv6 : Bool
  pub internal : Bool
  pub labels : Labels
  pub options : Labels
  pub config_only : Bool

pub record Network : Type 0 where
  pub name : String
  pub app_id : ℕ
  pub app_uuid : Option String
  pub config : NetworkConfig

abbrev same_entry : IpamEntry → IpamEntry → Bool
same_entry a b =
    same_option str_eq a.subnet b.subnet
    && same_option str_eq a.gateway b.gateway
    && same_option str_eq a.ip_range b.ip_range
    && same_option str_eq a.aux_address b.aux_address

same_entries : List IpamEntry → List IpamEntry → Bool
same_entries [] [] = true
same_entries (a ∷ as') (b ∷ bs) = same_entry a b && same_entries as' bs
same_entries _ _ = false

-- lodash's isEqual of two configurations
same_config : NetworkConfig → NetworkConfig → Bool
unfolding same_entries same_labels
same_config a b =
    str_eq a.driver b.driver
    && str_eq a.ipam_driver b.ipam_driver
    && same_entries a.ipam_config b.ipam_config
    && same_labels a.ipam_options b.ipam_options
    && beq a.enable_ipv6 b.enable_ipv6
    && beq a.internal b.internal
    && same_labels a.labels b.labels
    && same_labels a.options b.options
    && beq a.config_only b.config_only

-- The configuration that is compared with the target's. The second clone starts again from
-- `this.config`, so where the target is config-only its clone keeps the ipam entries of `this`.
unfoldable pub config_to_compare : NetworkConfig → NetworkConfig → NetworkConfig
config_to_compare this target =
    if target.config_only
    then record this { driver = target.driver }
    else if is_empty target.ipam_config
    then record this { ipam_config = [] }
    else this

unfoldable pub is_equal_config : Network → Network → Bool
unfolding same_config config_to_compare
is_equal_config this network =
    same_config (config_to_compare this.config network.config) network.config
