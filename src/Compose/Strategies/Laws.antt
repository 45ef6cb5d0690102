-- ===== src/Compose/Strategies/Laws.antt =====
-- The strategy of a service is one of the four that are known, and what each one waits for.
use balena_supervisor.Common.{
  String, true, false, ◌&&◌, none, some, ◌≡◌, refl, ◌⊎◌, inl, inr, arith, str_eq, Bool-cases, Any,
}
use balena_supervisor.Common.Texts.{includes, includes-eq-true}
use balena_supervisor.Common.Results.{ok, Ensures, at_ok}
use balena_supervisor.Compose.Labels.{label, check_string}
use balena_supervisor.Compose.Service.{Service}
use balena_supervisor.Compose.Steps.{CompositionStep, kill, fetch, handover, noop}
use balena_supervisor.Compose.Strategies.{
  StrategyContext, kills_early, to_fetch, fetch_for, download_then_kill, hand_over,
  get_steps_from_strategy, or_default, or_empty, valid_strategies, get_strategy_from_service,
}

includes-or_default : (s : String) → includes valid_strategies (or_default s) ≡ true
unfolding or_default
includes-or_default s = elim (Bool-cases (includes valid_strategies s)) [
  | inl e ↦ rw e e
  | inr e ↦ rw e
]

pub includes-get_strategy_from_service :
    (s : Service) → includes valid_strategies (get_strategy_from_service s) ≡ true
unfolding get_strategy_from_service
includes-get_strategy_from_service s =
    includes-or_default
      (or_empty (check_string (label "io.balena.update.strategy" s.config.labels)))

module _ (c : StrategyContext) where
  abbrev Proceeds : String → Type 0
  Proceeds strategy = (step : CompositionStep) × (get_steps_from_strategy strategy c ≡ ok step)

  Proceeds-valid :
      (strategy : String) → Any (λ x. x ≡ strategy) valid_strategies → Proceeds strategy
  unfolding get_steps_from_strategy
  Proceeds-valid strategy (inl e) = rw (← e) (_, refl)
  Proceeds-valid strategy (inr (inl e)) = rw (← e) (_, refl)
  Proceeds-valid strategy (inr (inr (inl e))) = rw (← e) (_, refl)
  Proceeds-valid strategy (inr (inr (inr (inl e)))) = rw (← e) (_, refl)
  Proceeds-valid strategy (inr (inr (inr (inr h)))) = absurd h

-- The planner never throws because of the strategy that it reads from the labels of a service.
pub get_steps_from_strategy_total :
    (s : Service) (c : StrategyContext)
    → (step : CompositionStep) × (get_steps_from_strategy (get_strategy_from_service s) c ≡ ok step)
get_steps_from_strategy_total s c =
    Proceeds-valid c (get_strategy_from_service s)
      (includes-eq-true valid_strategies _ (includes-get_strategy_from_service s))

-- What has to hold before the container of `c.current` is killed, replaced or fetched for.
abbrev pub Waits : String → StrategyContext → CompositionStep → Type 0
Waits strategy c (kill s) =
    (s ≡ c.current)
    × ((kills_early strategy ≡ true) ⊎ ((c.dependencies_met_for_kill ≡ true) × (to_fetch c ≡ none)))
Waits strategy c (handover s t) =
    (s ≡ c.current)
    × (c.target ≡ some t)
    × (c.dependencies_met_for_start ≡ true)
    × (c.needs_download ≡ false)
    × ((c.needs_special_kill && c.dependencies_met_for_kill) ≡ false)
Waits strategy c (fetch image name) =
    (t : Service) × (c.target ≡ some t)
    × (c.needs_download ≡ true)
    × (fetch image name ≡ fetch_for t)
Waits strategy c noop = Unit
Waits strategy c _ = ⊥

module _ (strategy : String) (c : StrategyContext) where
  download_then_kill-Waits : Waits strategy c (download_then_kill c)
  unfolding download_then_kill
  download_then_kill-Waits = grind arith

  hand_over-Waits : Waits strategy c (hand_over c)
  unfolding hand_over
  hand_over-Waits = grind arith

  pub get_steps_from_strategy-Ensures :
      Ensures (Waits strategy c) (get_steps_from_strategy strategy c)
  unfolding get_steps_from_strategy
  get_steps_from_strategy-Ensures = elim (Bool-cases (str_eq strategy "download-then-kill")) [
    | inl e ↦ rw e download_then_kill-Waits
    | inr n ↦ elim (Bool-cases (kills_early strategy)) [
      | inl e ↦ rw (n, e) (refl, inl e)
      | inr m ↦ elim (Bool-cases (str_eq strategy "hand-over")) [
        | inl e ↦ rw (n, m, e) hand_over-Waits
        | inr k ↦ rw (n, m, k) tt
      ]
    ]
  ]

-- Whatever the strategy, a container is killed only if the strategy asks for an early kill, or its
-- image is there and the images of the app are ready; it is handed over only to a target that may
-- start and needs no download; an image is fetched only for the target, and where that needs it.
-- No other step is ever taken.
pub get_steps_from_strategy-Waits :
    (strategy : String) (c : StrategyContext) (step : CompositionStep)
    → get_steps_from_strategy strategy c ≡ ok step
    → Waits strategy c step
get_steps_from_strategy-Waits strategy c step =
    at_ok (Waits strategy c) _ step (get_steps_from_strategy-Ensures strategy c)
