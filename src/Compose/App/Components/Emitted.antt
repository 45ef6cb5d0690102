-- ===== src/Compose/App/Components/Emitted.antt =====
-- compose/app.ts: what holds of every step that is emitted for components.
use balena_supervisor.Common.{
  Bool, false, List, Option, none, some, ◌≡◌, inl, inr, arith, All, All_imp, All_intro, IfSome, any,
  filter, is_empty, Bool-cases, All-flat_map_of, filter_empty,
}
use balena_supervisor.Compose.Service.{Service}
use balena_supervisor.Compose.Steps.{CompositionStep, kill}
use balena_supervisor.Compose.App.Types.{ChangingPair}
use balena_supervisor.Compose.App.Components.{
  component_steps, generate_kill_step, generate_steps_for_component,
}

-- The steps of one component, whatever the property.
module _ {T : Type 0} (create remove_it : T → CompositionStep) (depends : T → Service → Bool)
    (P : CompositionStep → Type 0) (Q : T → Type 0) (services : List Service)
    (changing : List (ChangingPair Service)) (kills : (s : Service) → P (kill s))
    (creates : (t : T) → P (create t))
    (removes : (c : T) → Q c → any (depends c) services ≡ false → P (remove_it c)) where
  kill_step-All : (s : Service) → All P (generate_kill_step s changing)
  unfolding generate_kill_step
  kill_step-All s = ground (arith, kills s)

  current_steps-All :
      (c : T)
      → Q c
      → (target : Option T)
      → All P (
          component_steps create remove_it depends services changing
            (record { current = some c; target = target }))
  unfolding component_steps
  current_steps-All c q target = elim (Bool-cases (is_empty (filter (depends c) services))) [
    | inl e ↦ rw e (removes c q (filter_empty (depends c) services e), tt)
    | inr e ↦ rw e (All-flat_map_of P _ (filter (depends c) services) (All_intro _ kill_step-All _))
  ]

  component_steps-All :
      (current target : Option T)
      → IfSome Q current
      → All P (
          component_steps create remove_it depends services changing
            (record { current = current; target = target }))
  unfolding component_steps
  component_steps-All none none q = tt
  component_steps-All none (some t) q = (creates t, tt)
  component_steps-All (some c) target q = current_steps-All c q target

  pub generate_steps_for_component-All :
      (pairs : List (ChangingPair T))
      → All (λ p. IfSome Q p.current) pairs
      → All P (generate_steps_for_component create remove_it depends services pairs changing)
  unfolding generate_steps_for_component
  generate_steps_for_component-All pairs h =
      All-flat_map_of P _ pairs
        (All_imp _ _ (λ p q. component_steps-All p.current p.target q) pairs h)
