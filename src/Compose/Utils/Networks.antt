-- ===== src/Compose/Utils/Networks.antt =====
-- compose/utils.ts and compose/service.ts: the networks of a service, as the engine creates and
-- reports them.
pub mod Reported
use text.Mathlib.Text.{starts_with}
use balena_supervisor.Common.{
  String, Bool, true, false, not, ◌&&◌, List, [], ◌∷◌, Option, none, some, map, length, is_empty,
  filter, ◌==◌, str_eq, if◌then◌else◌,
}
use balena_supervisor.Common.Texts.{includes}
use balena_supervisor.Common.Equality.{is_equal, string_eq, list_eq, option_eq}
use balena_supervisor.Common.Dicts.{Dict}
use balena_supervisor.Compose.ServiceTypes.{ServiceNetwork}

-- IPAMConfig of the engine. The key that is written is `LinkLocalIPs`, the one that is read is
-- `LinkLocalIps`: two fields of the object.
pub record IpamConfig : Type 0 where
  pub ipv4_address : Option String
  pub ipv6_address : Option String
  pub link_local_ips : Option (List String)
  pub link_local_ips_read : Option (List String)

-- EndpointsConfig[name] and NetworkSettings.Networks[name]
pub record Endpoint : Type 0 where
  pub aliases : Option (List String)
  pub ipam_config : Option IpamConfig

-- one network of serviceNetworksToDockerNetworks
unfoldable pub to_endpoint : ServiceNetwork → Endpoint
to_endpoint net = record {
  aliases = elim net.aliases [ none ↦ some [] | some names ↦ some names ];
  ipam_config = some (record {
    ipv4_address = net.ipv4_address;
    ipv6_address = net.ipv6_address;
    link_local_ips = net.link_local_ips;
    link_local_ips_read = none;
  });
}

unfoldable pub service_networks_to_docker_networks : Dict ServiceNetwork → Dict Endpoint
service_networks_to_docker_networks networks = map (λ (name, net). (name, to_endpoint net)) networks

-- the names that are no beginning of the id of the container
unfoldable pub own_aliases : String → List String → List String
own_aliases container_id aliases = filter (λ alias. not (starts_with container_id alias)) aliases

-- a list that is there and is not empty, with the names of the container taken out
read_aliases : String → Option (List String) → Option (List String)
unfolding own_aliases
read_aliases container_id none = none
read_aliases container_id (some []) = none
read_aliases container_id (some (a ∷ names)) = some (own_aliases container_id (a ∷ names))

-- x != null && !_.isEmpty(x), of a string
unfoldable pub non_empty : Option String → Option String
non_empty none = none
non_empty (some s) = if str_eq s "" then none else some s

-- x != null && !_.isEmpty(x), of an array
non_empty_list : Option (List String) → Option (List String)
non_empty_list (some (x ∷ xs)) = some (x ∷ xs)
non_empty_list _ = none

-- one network of dockerNetworkToServiceNetwork
unfoldable pub of_endpoint : String → Endpoint → ServiceNetwork
unfolding read_aliases non_empty non_empty_list
of_endpoint container_id net = elim net.ipam_config [
  | none ↦ record {
    aliases = read_aliases container_id net.aliases;
    ipv4_address = none;
    ipv6_address = none;
    link_local_ips = none;
  }
  | some ipam ↦ record {
    aliases = read_aliases container_id net.aliases;
    ipv4_address = non_empty ipam.ipv4_address;
    ipv6_address = non_empty ipam.ipv6_address;
    link_local_ips = non_empty_list ipam.link_local_ips_read;
  }
]

unfoldable pub docker_network_to_service_network : Dict Endpoint → String → Dict ServiceNetwork
docker_network_to_service_network networks container_id =
    map (λ (name, net). (name, of_endpoint container_id net)) networks

-- _.uniq, which keeps the first of equal strings
unfoldable pub uniq : List String → List String
uniq [] = []
uniq (x ∷ xs) = x ∷ filter (λ y. not (str_eq y x)) (uniq xs)

-- _.intersection
unfoldable pub intersection : List String → List String → List String
unfolding uniq
intersection xs ys = uniq (filter (includes ys) xs)

unfoldable pub same_aliases : Option (List String) → Option (List String) → Bool
unfolding intersection
same_aliases current none = true
same_aliases none (some target) = false
same_aliases (some current) (some target) = length (intersection current target) == length target

-- an address of the target, if it has one, is that of the current network
abbrev pub same_if_set {ℓ} :
    {A : Type ℓ} (same : Option A → Option A → Bool) → Option A → Option A → Bool
same_if_set same current none = true
same_if_set same current (some a) = same current (some a)

unfoldable pub is_same_network : ServiceNetwork → ServiceNetwork → Bool
unfolding same_aliases
is_same_network current target =
    same_aliases current.aliases target.aliases
    && same_if_set is_equal current.ipv4_address target.ipv4_address
    && same_if_set is_equal current.ipv6_address target.ipv6_address
    && same_if_set is_equal current.link_local_ips target.link_local_ips
