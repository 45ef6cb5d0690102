-- ===== src/Compose/Strategies.antt =====
-- compose/update-strategies.ts: how the container of a service is replaced.
pub mod Laws
use Prim.Native.String
use balena_supervisor.Common.{
  String, Bool, true, false, ◌&&◌, ◌||◌, List, [], ◌∷◌, Option, none, some, str_eq, if◌then◌else◌,
  not, is_some,
}
use balena_supervisor.Common.Texts.{includes}
use balena_supervisor.Common.Results.{Result, ok, thrown, internal_inconsistency}
use balena_supervisor.Compose.Labels.{label, check_string}
use balena_supervisor.Compose.Service.{Service}
use balena_supervisor.Compose.Images.{image_from_service}
use balena_supervisor.Compose.Steps.{CompositionStep, kill, fetch, handover, noop}

pub record StrategyContext : Type 0 where
  pub current : Service
  pub target : Option Service
  pub needs_download : Bool
  pub dependencies_met_for_start : Bool
  pub dependencies_met_for_kill : Bool
  pub needs_special_kill : Bool

-- `needsDownload && target`: the target whose image has to be fetched first
unfoldable pub to_fetch : StrategyContext → Option Service
to_fetch c = if c.needs_download then c.target else none

abbrev pub fetch_for : Service → CompositionStep
fetch_for target = fetch (image_from_service target) target.service_name

-- case 'download-then-kill'
unfoldable pub download_then_kill : StrategyContext → CompositionStep
unfolding to_fetch
download_then_kill c = elim (to_fetch c) [
  | some target ↦ fetch_for target
  | none ↦ if c.dependencies_met_for_kill then kill c.current else noop
]

-- the branch of 'hand-over' that needs both containers
abbrev hand_over_to : StrategyContext → Option Service → CompositionStep
hand_over_to c none = noop
hand_over_to c (some target) =
    if c.dependencies_met_for_start then handover c.current target else noop

-- case 'hand-over'
unfoldable pub hand_over : StrategyContext → CompositionStep
unfolding to_fetch
hand_over c = elim (to_fetch c) [
  | some target ↦ fetch_for target
  | none ↦
      if c.needs_special_kill && c.dependencies_met_for_kill
      then kill c.current
      else hand_over_to c c.target
]

unfoldable pub get_steps_from_strategy : String → StrategyContext → Result CompositionStep
unfolding download_then_kill hand_over
get_steps_from_strategy strategy c =
    if str_eq strategy "download-then-kill"
    then ok (download_then_kill c)
    else if str_eq strategy "kill-then-download" || str_eq strategy "delete-then-download"
    then ok (kill c.current)
    else if str_eq strategy "hand-over"
    then ok (hand_over c)
    else thrown (internal_inconsistency (String.◌++◌ "Invalid update strategy: " strategy))

abbrev pub valid_strategies : List String
valid_strategies =
    "download-then-kill" ∷ "kill-then-download" ∷ "delete-then-download" ∷ "hand-over" ∷ []

-- checkString(…) || ''
abbrev or_empty : Option String → String
or_empty none = ""
or_empty (some s) = s

-- The strategies that stop a container before anything is downloaded.
abbrev pub kills_early : String → Bool
kills_early strategy =
    str_eq strategy "kill-then-download" || str_eq strategy "delete-then-download"

-- a label that names no strategy stands for the default one
unfoldable pub or_default : String → String
or_default strategy = if includes valid_strategies strategy then strategy else "download-then-kill"

unfoldable pub get_strategy_from_service : Service → String
unfolding label check_string or_default
get_strategy_from_service s =
    or_default (or_empty (check_string (label "io.balena.update.strategy" s.config.labels)))
