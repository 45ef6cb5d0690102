-- ===== src/Compose/Tests/Ports.antt =====
-- Port ranges on concrete inputs.
use balena_supervisor.Common.{ℕ, List, [], ◌∷◌, ◌++◌, ◌≡◌, refl, arith, none, some}
use balena_supervisor.Common.Results.{ok, ◌>>=◌}
use balena_supervisor.Compose.Ports.{
  PortRange, parse_port_string, normalise_port_maps, to_docker_opts, from_docker_opts,
}
use balena_supervisor.Compose.Ports.Bindings.{IsValid, bindings}
use balena_supervisor.Compose.Ports.Folding.{IsSingle, normalise_port_maps-Perm}
use balena_supervisor.Compose.Ports.RoundTrip.{from_docker_opts-to_docker_opts}
use mathlib.Core.List.{Perm, flat_map}

abbrev tcp_range : ℕ → ℕ → ℕ → ℕ → PortRange
tcp_range i i' e e' = record {
  internal_start = i;
  internal_end = i';
  external_start = e;
  external_end = e';
  protocol = "tcp";
  host = "";
}

abbrev udp_range : ℕ → ℕ → ℕ → ℕ → PortRange
udp_range i i' e e' = record (tcp_range i i' e e') { protocol = "udp" }

-- the groups of '80-82:90-92'
parsed :
    parse_port_string (record {
      host = none;
      external = some "80";
      external_end = some "82";
      internal = "90";
      internal_end = some "92";
      protocol = none;
    })
    ≡ ok (tcp_range 90 92 80 82)
unfolding parse_port_string
parsed = refl

-- 81:91 and 80:90 become one range
merged :
    normalise_port_maps (tcp_range 91 91 81 81 ∷ tcp_range 90 90 80 80 ∷ [])
    ≡ tcp_range 90 91 80 81 ∷ []
unfolding normalise_port_maps balena_supervisor.Common.Texts.text_leb
merged = refl

-- of 80 and 81-85 only 80 and 81 are left
shortened :
    normalise_port_maps (tcp_range 80 80 80 80 ∷ tcp_range 81 85 81 85 ∷ [])
    ≡ tcp_range 80 81 80 81 ∷ []
unfolding normalise_port_maps balena_supervisor.Common.Texts.text_leb
shortened = refl

-- Two ports that are published for tcp and for udp come back as four ranges.
interleaved :
    (to_docker_opts (tcp_range 80 81 80 81) >>= λ tcp.
    to_docker_opts (udp_range 80 81 80 81) >>= λ udp. ok (from_docker_opts (tcp ++ udp)))
    ≡ ok (
        tcp_range 80 80 80 80
        ∷ udp_range 80 80 80 80
        ∷ tcp_range 81 81 81 81
        ∷ udp_range 81 81 81 81
        ∷ [])
unfolding to_docker_opts from_docker_opts balena_supervisor.Common.Texts.text_leb
interleaved = refl

abbrev two_ports : List PortRange
two_ports = tcp_range 91 91 81 81 ∷ tcp_range 90 90 80 80 ∷ []

is_single : (i e : ℕ) → IsSingle (tcp_range i i e e)
is_single i e = record { internal_same = refl; external_same = refl }

normalise_port_maps-Perm_example :
    Perm (flat_map bindings (normalise_port_maps two_ports)) (flat_map bindings two_ports)
normalise_port_maps-Perm_example =
    normalise_port_maps-Perm two_ports (is_single 91 81, (is_single 90 80, tt))

is_valid : IsValid (tcp_range 90 92 80 82)
is_valid = record { ordered = omega arith; same_size = omega arith }

from_docker_opts-to_docker_opts_example :
    (to_docker_opts (tcp_range 90 92 80 82) >>= λ opts. ok (from_docker_opts opts))
    ≡ ok (tcp_range 90 92 80 82 ∷ [])
from_docker_opts-to_docker_opts_example =
    from_docker_opts-to_docker_opts (tcp_range 90 92 80 82) is_valid
