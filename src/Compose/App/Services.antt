-- ===== src/Compose/App/Services.antt =====
-- compose/app.ts: `compareServices`, which pairs the containers with the target's services.
-- `same_config` is `isEqualConfig` of compose/service.ts.
mod RaceError
pub mod Latest
pub mod Keys
pub mod Pairs
pub mod Complete
pub use RaceError.{host_race_error}
use balena_supervisor.Common.{
  ℕ, suc, String, Bool, true, false, ◌&&◌, ◌||◌, not, List, [], ◌∷◌, ◌++◌, map, flat_map, Option,
  none, some, str_eq, any, filter, find, compact, ◌==◌, leb, is_empty, if◌then◌else◌, or_else,
}
use balena_supervisor.Common.Texts.{includes}
use balena_supervisor.Common.Results.{
  Result, ok, thrown, type_error, or_type_error, map_result, ◌>>=◌,
}
use balena_supervisor.Compose.Service.{Service, ServiceStatus}
use balena_supervisor.Compose.App.Types.{ChangingPair, ContainerIds}
use balena_supervisor.Compose.App.Components.{removal, creation, replacement, is_stopping}

pub record ServicePairs : Type 0 where
  pub install_pairs : List (ChangingPair Service)
  pub remove_pairs : List (ChangingPair Service)
  pub update_pairs : List (ChangingPair Service)

-- Dictionary<Service>, in the order in which the keys were added
abbrev pub ByName : Type 0
ByName = List (String × Service)

abbrev pub put : String → Service → ByName → ByName
put name s [] = (name, s) ∷ []
put name s ((n, t) ∷ rest) = if str_eq n name then (name, s) ∷ rest else (n, t) ∷ put name s rest

-- _.keyBy(services, 'serviceName'): of two services of one name the later one stays
unfoldable pub key_by_from : ByName → List Service → ByName
key_by_from acc [] = acc
key_by_from acc (s ∷ rest) = key_by_from (put s.service_name s acc) rest

abbrev pub key_by : List Service → ByName
key_by = key_by_from []

abbrev pub keys : ByName → List String
keys = map (λ (k, _). k)

abbrev pub values : ByName → List Service
values = map (λ (_, s). s)

-- the entries whose key is, or is not, a key of the other dictionary
abbrev pub only_in : ByName → ByName → ByName
only_in others = filter (λ (k, _). not (includes (keys others) k))

abbrev pub shared_with : ByName → ByName → ByName
shared_with others = filter (λ (k, _). includes (keys others) k)

-- a date that is no later than another
abbrev pub created_no_later : Option ℕ → Option ℕ → Bool
created_no_later _ none = false
created_no_later none (some _) = true
created_no_later (some a) (some b) = leb a b

-- one more container before the rest, of which the latest is known
abbrev with_container :
    Service → List Service → Option (Service × List Service) → Option (Service × List Service)
with_container s rest none = elim s.created_at [ none ↦ none | some _ ↦ some (s, rest) ]
with_container s rest (some (latest, others)) =
    if created_no_later latest.created_at s.created_at
    then some (s, rest)
    else some (latest, s ∷ others)

-- The first of the containers that were created last, as `_.maxBy` finds it, and the others.
-- A container with no date of creation is never the latest.
unfoldable pub split_latest : List Service → Option (Service × List Service)
split_latest [] = none
split_latest (s ∷ rest) = with_container s rest (split_latest rest)

-- The container that stands for a service, and those that are spurious. Reading a container that
-- is undefined throws.
unfoldable pub pick_current : List Service → Result (Service × List Service)
unfolding split_latest
pick_current [] = thrown type_error
pick_current (s ∷ []) = ok (s, [])
pick_current (s ∷ t ∷ rest) = or_type_error (split_latest (s ∷ t ∷ rest))

abbrev pub is_named : String → Service → Bool
is_named name s = str_eq s.service_name name

-- What is known of a service that may have to be updated.
pub record Candidate : Type 0 where
  pub current : Service
  pub target : Service
  pub spurious : List Service

-- one round of the loop over `maybeUpdate`; the target is the service under the name
unfoldable pub candidate : List Service → String × Service → Result Candidate
unfolding pick_current
candidate current (name, target) = do
  (c, others) ← pick_current (filter (is_named name) current)
  ok (record { current = c; target = target; spurious = others })

abbrev pub has_exited : ServiceStatus → Bool
has_exited ServiceStatus.exited = true
has_exited _ = false

abbrev is_installing : ServiceStatus → Bool
is_installing ServiceStatus.installing = true
is_installing ServiceStatus.installed = true
is_installing _ = false

-- exitErrorMessage ?? ''
abbrev message_or_empty : Option String → String
message_or_empty none = ""
message_or_empty (some m) = m

unfoldable pub requirements_met_for_special_start : Service → Service → Bool
requirements_met_for_special_start current target =
    has_exited current.status
    && not current.config.running
    && target.config.running
    && host_race_error (message_or_empty current.exit_error_message)

unfoldable pub should_be_stopped : Service → Service → Bool
should_be_stopped current target = not target.config.running && not (has_exited current.status)

unfoldable pub should_wait_for_stop : Service → Bool
should_wait_for_stop current = current.config.running && is_stopping current.status

module _ (same_config : Service → Service → ContainerIds → Bool) where
  -- service.ts: isEqualExceptForRunningState
  unfoldable pub is_equal_except_for_running_state : Service → Service → ContainerIds → Bool
  is_equal_except_for_running_state this other ids =
      same_config this other ids && str_eq this.commit other.commit

  unfoldable pub should_be_started : Service → Service → ContainerIds → Bool
  unfolding is_equal_except_for_running_state requirements_met_for_special_start
  should_be_started current target ids =
      if not target.config.running || current.config.running
      then false
      else (is_installing current.status || requirements_met_for_special_start current target)
        && is_equal_except_for_running_state current target ids

  -- the filter of `toBeUpdated`
  unfoldable pub needs_update : Service → Service → ContainerIds → Bool
  unfolding is_equal_except_for_running_state should_be_started should_be_stopped
      should_wait_for_stop
  needs_update c t ids =
      not (is_equal_except_for_running_state c t ids)
      || should_be_started c t ids
      || should_be_stopped c t
      || should_wait_for_stop c

  unfoldable pub compare_services : List Service → List Service → ContainerIds → Result ServicePairs
  unfolding key_by_from candidate needs_update
  compare_services current target ids = do
    let by_current = key_by current
    let by_target = key_by target
    candidates ← map_result (candidate current) (shared_with by_current by_target)
    ok (record {
      install_pairs = map creation (values (only_in by_current by_target));
      remove_pairs =
          map removal (values (only_in by_target by_current))
          ++ flat_map (λ (c : Candidate). map removal c.spurious) candidates;
      update_pairs =
          map (λ (c : Candidate). replacement c.current c.target)
            (filter (λ (c : Candidate). needs_update c.current c.target ids) candidates);
    })
