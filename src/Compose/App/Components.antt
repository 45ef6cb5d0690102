-- ===== src/Compose/App/Components.antt =====
-- compose/app.ts: `compareComponents` and `generateStepsForComponent`.
pub mod Settled
pub mod Justified
pub mod Emitted
use balena_supervisor.Common.{
  ℕ, suc, ◌+◌, String, Bool, true, false, ◌&&◌, not, List, [], ◌∷◌, ◌++◌, map, flat_map, Option,
  none, some, str_eq, any, filter, find, compact, ◌==◌, is_empty, if◌then◌else◌, some_and,
}
use balena_supervisor.Common.Texts.{includes}
use balena_supervisor.Compose.Service.{Service, ServiceStatus, ServiceStatus-discrete}
use balena_supervisor.Compose.Steps.{CompositionStep, kill}
use balena_supervisor.Compose.App.Types.{ChangingPair}
use mathlib.Core.Option

abbrev pub removal {ℓ} : {T : Type ℓ} → T → ChangingPair T
removal c = record { current = some c; target = none }

abbrev pub creation {ℓ} : {T : Type ℓ} → T → ChangingPair T
creation t = record { current = none; target = some t }

abbrev pub replacement {ℓ} : {T : Type ℓ} → T → T → ChangingPair T
replacement c t = record { current = some c; target = some t }

-- `T extends { name: string; isEqualConfig(target: T): boolean }`
module _ {T : Type 0} (name : T → String) (is_equal : T → T → Bool) where
  abbrev pub same_name : T → T → Bool
  same_name a b = str_eq (name a) (name b)

  -- a component of the current state whose configuration the target changes
  abbrev pub outdated : T → T → Bool
  outdated target item = same_name item target && not (is_equal item target)

  -- one round of the first loop: the pair that it adds, if any
  abbrev changed : List T → T → Option (ChangingPair T)
  changed current target = elim (find (outdated target) current) [
    | none ↦ none
    | some item ↦ some (replacement item target)
  ]

  unfoldable pub updates : List T → List T → List (ChangingPair T)
  updates current target = compact (map (changed current) target)

  -- toBeUpdated
  unfoldable pub updated_names : List T → List T → List String
  updated_names current target =
      compact (map (λ t. Option.map name (find (outdated t) current)) target)

  abbrev pub missing_from : List T → T → Bool
  missing_from others item = not (any (same_name item) others)

  -- current.findIndex((it) => it.name === name)
  abbrev pub find_index : String → List T → ℕ
  find_index n [] = 0
  find_index n (x ∷ xs) = let rest = find_index n xs in if str_eq (name x) n then 0 else suc rest

  -- The loop over the duplicates. `removed` is `toBeRemoved`.
  unfoldable pub duplicates :
      List T → List String → List String → ℕ → List T → List (ChangingPair T)
  duplicates all updated removed index [] = []
  duplicates all updated removed index (item ∷ rest) =
      let more = duplicates all updated (removed ++ name item ∷ []) (suc index) rest in
      let skip = duplicates all updated removed (suc index) rest in
      if not (find_index (name item) all == index)
        && not (includes updated (name item))
        && not (includes removed (name item))
      then removal item ∷ more
      else skip

  -- what is added if the caller wants removals
  unfoldable pub removals : List T → List T → List (ChangingPair T)
  unfolding updated_names duplicates
  removals current target =
      let gone = filter (missing_from target) current in
      map removal gone
      ++ duplicates current (updated_names current target) (map name gone) 0 current

  unfoldable pub compare_components : List T → List T → Bool → List (ChangingPair T)
  unfolding updates removals
  compare_components current target generate_removes =
      updates current target
      ++ (if generate_removes then removals current target else [])
      ++ map creation (filter (missing_from current) target)

abbrev pub is_stopping : ServiceStatus → Bool
is_stopping ServiceStatus.stopping = true
is_stopping _ = false

-- pair.current?.serviceName === name
abbrev pub current_is_named : String → ChangingPair Service → Bool
current_is_named name pair = some_and pair.current (λ c. str_eq c.service_name name)

unfoldable pub generate_kill_step : Service → List (ChangingPair Service) → List CompositionStep
generate_kill_step s changing =
    if not (is_stopping s.status) && not (any (current_is_named s.service_name) changing)
    then kill s ∷ []
    else []

-- The actions depend on the type of the components: `create` and `remove` are its two steps.
module _ {T : Type 0} (create remove : T → CompositionStep) (depends : T → Service → Bool) where
  -- one round of the loop
  unfoldable pub component_steps :
      List Service → List (ChangingPair Service) → ChangingPair T → List CompositionStep
  unfolding generate_kill_step
  component_steps services changing pair = elim pair.current [
    | some c ↦
        let dependencies = filter (depends c) services in
        if is_empty dependencies
        then remove c ∷ []
        else flat_map (λ s. generate_kill_step s changing) dependencies
    | none ↦ elim pair.target [ none ↦ [] | some t ↦ create t ∷ [] ]
  ]

  unfoldable pub generate_steps_for_component :
      List Service → List (ChangingPair T) → List (ChangingPair Service) → List CompositionStep
  unfolding component_steps
  generate_steps_for_component services components changing =
      flat_map (component_steps services changing) components
