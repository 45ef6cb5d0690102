-- ===== src/Compose/App/Plan/Commit.antt =====
-- compose/app.ts: when the commit of the target is stored.
use balena_supervisor.Common.{
  ℕ, String, Bool, List, [], ◌∷◌, Option, none, some, ◌≡◌, ◌≢◌, arith, All, All-Member, Member,
  eq_iff,
}
use balena_supervisor.Common.Results.{ok, at_ok}
use balena_supervisor.Compose.Service.{Service}
use balena_supervisor.Compose.Steps.{CompositionStep, update_commit}
use balena_supervisor.Compose.App.Types.{App, ContainerIds, UpdateState}
use balena_supervisor.Compose.App.Plan.{
  all_pairs, commit_steps, new_commit, next_steps_for_app_update,
}
use balena_supervisor.Compose.App.Plan.Steps.{
  IsServiceStep, steps_for_pairs-All, next_steps-IsPlanned,
}

abbrev IsNoCommit : CompositionStep → Type 0
IsNoCommit (update_commit c id) = ⊥
IsNoCommit _ = Unit

service_step-IsNoCommit : (step : CompositionStep) → IsServiceStep step → IsNoCommit step
service_step-IsNoCommit (update_commit c id) h = absurd h
service_step-IsNoCommit _ h = tt

-- The step stores the commit of the target, which the app does not have yet, and nothing else is
-- left to do.
abbrev pub StoresCommit : App → App → List CompositionStep → String → ℕ → Type 0
StoresCommit this target steps c id =
    (steps ≡ update_commit c id ∷ [])
    × (target.commit ≡ some c)
    × (id ≡ this.app_id)
    × (this.commit ≢ some c)

stored :
    (app_id : ℕ) (current new : Option String) (c : String) (id : ℕ)
    → Member (update_commit c id) (new_commit app_id current new)
    → (new_commit app_id current new ≡ update_commit c id ∷ [])
      × (new ≡ some c)
      × (id ≡ app_id)
      × (current ≢ some c)
stored app_id current none c id m = elim m [ ]
stored app_id none (some d) c id m = ground arith
stored app_id (some b) (some d) c id m = ground (arith, eq_iff b d)

only_commit :
    (this target : App) (planned : List CompositionStep)
    → All IsNoCommit planned
    → (c : String) (id : ℕ) → Member (update_commit c id) (commit_steps this target planned)
    → StoresCommit this target (commit_steps this target planned) c id
unfolding commit_steps
only_commit this target [] h c id m = stored this.app_id this.commit target.commit c id m
only_commit this target (s ∷ steps) h c id m = absurd (All-Member IsNoCommit (s ∷ steps) h _ m)

-- The commit is stored only in an update that has nothing else to do, and only if it is new.
pub update_commit_alone :
    (same_config : Service → Service → ContainerIds → Bool) (state : UpdateState)
    (this target : App) (steps : List CompositionStep) (c : String) (id : ℕ)
    → next_steps_for_app_update same_config state this target ≡ ok steps
    → Member (update_commit c id) steps
    → StoresCommit this target steps c id
update_commit_alone same_config state this target steps c id e m =
    let p = next_steps-IsPlanned same_config state this target steps e in
    let planned =
      at_ok (All IsNoCommit) _ p.planned
        (steps_for_pairs-All same_config state this (record target { services = p.migrated })
          IsNoCommit service_step-IsNoCommit (λ s. tt) (λ v. tt) (λ n. tt) (λ v r u. tt)
          (λ n m u. tt) (all_pairs p.pairs))
        p.computed in
    rw (← p.finished) (only_commit this target p.planned planned c id (rw (← p.finished) at m))
