-- ===== src/Compose/Ports.antt =====
-- compose/ports.ts: ranges of ports. A range is built from the groups of `PORTS_REGEX`; the regular
-- expressions themselves are not modelled.
pub mod Bindings
pub mod Folding
pub mod RoundTrip
pub mod Spread
use Prim.Native.Char.{code}
use Prim.Native.String
use balena_supervisor.Common.{
  ℕ, zero, suc, ◌+◌, ◌-◌, ◌*◌, String, Bool, true, false, ◌&&◌, not, List, [], ◌∷◌, map, Option,
  none, some, str_eq, ◌==◌, ltb, leb, if◌then◌else◌,
}
use balena_supervisor.Common.Texts.{text_leb}
use balena_supervisor.Common.Sort.{sort_by}
use balena_supervisor.Common.Results.{
  Result, ok, thrown, Exception, internal_inconsistency, map_result, ◌>>=◌,
}

pub record PortRange : Type 0 where
  pub internal_start : ℕ
  pub internal_end : ℕ
  pub external_start : ℕ
  pub external_end : ℕ
  pub protocol : String
  pub host : String

-- An entry of `portBindings`: the key is `${internal}/${protocol}`.
pub record PortBinding : Type 0 where
  pub internal : ℕ
  pub protocol : String
  pub host_ip : String
  pub host_port : ℕ

-- the groups of a match of PORTS_REGEX, of which 2, 3, 4 and 5 consist of digits
pub record PortMatch : Type 0 where
  pub host : Option String
  pub external : Option String
  pub external_end : Option String
  pub internal : String
  pub internal_end : Option String
  pub protocol : Option String

-- the value of a text of digits that is read after `n`
digits_value : ℕ → String → ℕ
digits_value n String.[] = n
digits_value n (String.◌∷◌ c s) = digits_value (n * 10 + (code c - b'0')) s

-- parseInt(s, 10) of a text of digits; an empty one is no number
unfoldable pub parse_int : String → Option ℕ
unfolding digits_value
parse_int String.[] = none
parse_int (String.◌∷◌ c s) = some (digits_value 0 (String.◌∷◌ c s))

-- x || y
abbrev or_text : Option String → String → String
or_text none default_value = default_value
or_text (some s) default_value = if str_eq s "" then default_value else s

-- x == null ? y : x
abbrev unless_null : Option String → String → String
unless_null none y = y
unless_null (some x) y = x

-- The texts of the four numbers: internal, its end, external, its end.
unfoldable pub port_texts : PortMatch → String × String × String × String
port_texts groups =
    let external = unless_null groups.external groups.internal in
    let internal_end = unless_null groups.internal_end groups.internal in
    let external_end =
      unless_null groups.external_end
        (if str_eq groups.internal internal_end then external else internal_end) in
    (groups.internal, internal_end, external, external_end)

-- internalEnd - internalStart === externalEnd - externalStart, over the integers
unfoldable pub same_range : PortRange → Bool
same_range r = r.internal_end + r.external_start == r.external_end + r.internal_start

abbrev invalid_port_definition : Exception
invalid_port_definition = internal_inconsistency "InvalidPortDefinition"

-- Ensure we have the same range
unfoldable pub check_range : PortRange → Result PortRange
unfolding same_range
check_range r = if same_range r then ok r else thrown invalid_port_definition

-- A difference with a number that is missing, NaN, differs from every other one.
unfoldable pub parse_port_string : PortMatch → Result PortRange
unfolding parse_int port_texts check_range
parse_port_string groups =
    let (internal, internal_end, external, external_end) = port_texts groups in
    elim (parse_int internal) [
      | none ↦ thrown invalid_port_definition
      | some i ↦ elim (parse_int internal_end) [
        | none ↦ thrown invalid_port_definition
        | some i' ↦ elim (parse_int external) [
          | none ↦ thrown invalid_port_definition
          | some e ↦ elim (parse_int external_end) [
            | none ↦ thrown invalid_port_definition
            | some e' ↦ check_range (record {
              internal_start = i;
              internal_end = i';
              external_start = e;
              external_end = e';
              protocol = or_text groups.protocol "tcp";
              host = or_text groups.host "";
            })
          ]
        ]
      ]
    ]

-- _.range(start, start + count)
unfoldable pub range_from : ℕ → ℕ → List ℕ
range_from start zero = []
range_from start (suc count) = start ∷ range_from (suc start) count

unfoldable pub generate_port_range : ℕ → ℕ → Result (List ℕ)
unfolding range_from
generate_port_range start last =
    if ltb last start
    then thrown (internal_inconsistency "Incorrect port range!")
    else ok (range_from start (suc last - start))

-- _.zipWith over the two ranges, which have the same length
unfoldable pub zip_ports : PortRange → List ℕ → List ℕ → List PortBinding
zip_ports r (i ∷ is) (e ∷ es) =
    record { internal = i; protocol = r.protocol; host_ip = r.host; host_port = e }
    ∷ zip_ports r is es
zip_ports r _ _ = []

unfoldable pub to_docker_opts : PortRange → Result (List PortBinding)
unfolding generate_port_range zip_ports
to_docker_opts r = do
  internal ← generate_port_range r.internal_start r.internal_end
  external ← generate_port_range r.external_start r.external_end
  ok (zip_ports r internal external)

-- the range of one binding
abbrev pub single : PortBinding → PortRange
single b = record {
  internal_start = b.internal;
  internal_end = b.internal;
  external_start = b.host_port;
  external_end = b.host_port;
  protocol = b.protocol;
  host = b.host_ip;
}

-- the test of `normalisePortMaps`
abbrev pub continues : PortRange → PortRange → Bool
continues last p =
    suc last.internal_end == p.internal_start
    && suc last.external_end == p.external_start
    && str_eq last.protocol p.protocol
    && str_eq last.host p.host

-- `last` takes one more port in
abbrev pub extend : PortRange → PortRange
extend last = record last {
  internal_end = suc last.internal_end;
  external_end = suc last.external_end;
}

-- the reduction, with the last element of its result apart
unfoldable pub fold_from : PortRange → List PortRange → List PortRange
fold_from last [] = last ∷ []
fold_from last (p ∷ rest) = elim (continues last p) [
  | true ↦ fold_from (extend last) rest
  | false ↦ last ∷ fold_from p rest
]

unfoldable pub fold_ranges : List PortRange → List PortRange
unfolding fold_from
fold_ranges [] = []
fold_ranges (p ∷ rest) = fold_from p rest

abbrev pub by_protocol : PortRange → PortRange → Bool
by_protocol a b = text_leb a.protocol b.protocol

abbrev pub by_host : PortRange → PortRange → Bool
by_host a b = text_leb a.host b.host

abbrev pub by_internal_start : PortRange → PortRange → Bool
by_internal_start a b = leb a.internal_start b.internal_start

unfoldable pub sort_ranges : List PortRange → List PortRange
unfolding sort_by
sort_ranges ranges = sort_by by_internal_start (sort_by by_host (sort_by by_protocol ranges))

unfoldable pub normalise_port_maps : List PortRange → List PortRange
unfolding fold_ranges sort_ranges
normalise_port_maps ranges = fold_ranges (sort_ranges ranges)

-- fromDockerOpts, of bindings whose keys are parsed
unfoldable pub from_docker_opts : List PortBinding → List PortRange
unfolding normalise_port_maps
from_docker_opts bindings = normalise_port_maps (map single bindings)

-- the range of a port string, of which the groups of the match are given, if it matches
unfoldable pub port_range : Option PortMatch → Result PortRange
unfolding parse_port_string
port_range none = thrown invalid_port_definition
port_range (some groups) = parse_port_string groups

unfoldable pub from_compose_ports : List (Option PortMatch) → Result (List PortRange)
unfolding port_range normalise_port_maps map_result
from_compose_ports ports = do ranges ← map_result port_range ports; ok (normalise_port_maps ranges)
