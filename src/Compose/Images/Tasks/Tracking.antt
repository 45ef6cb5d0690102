-- ===== src/Compose/Images/Tasks/Tracking.antt =====
-- compose/images.ts: which images are reported as downloading.
use balena_supervisor.Common.{
  String, true, [], ◌∷◌, Option, none, some, ◌≡◌, refl, sym, subst, inl, inr, arith, Bool-cases,
  Option-cases, All, All-filter, if◌then◌else◌, eq_iff,
}
use balena_supervisor.Compose.Images.Tasks.{
  ImageState, ImageTask, running, finished, ImageEvent, start, update, finish, Tasks, find_task,
  put_task, delete_task, current_task, update_task, report_event, same_key,
}

-- A task that runs, under the name of its image.
abbrev pub IsTracked : Option String × ImageTask → Type 0
IsTracked (k, running context) = context.image.name ≡ k
IsTracked (k, finished context) = ⊥

-- the tasks are those of events
pub data Reached : Tasks → Type 0 where
  nothing : Reached []
  event :
      (e : ImageEvent) (state : ImageState) {tasks : Tasks}
      → Reached tasks
      → Reached (report_event e state tasks).0

same_key_eq : (a b : Option String) → same_key a b ≡ true → a ≡ b
same_key_eq none none h = refl
same_key_eq (some a) (some b) h = ground (arith, eq_iff a b)
same_key_eq none (some b) h = cc
same_key_eq (some a) none h = cc

find_task-IsTracked :
    (name : Option String) (tasks : Tasks) (task : ImageTask)
    → All IsTracked tasks
    → find_task name tasks ≡ some task
    → IsTracked (name, task)
unfolding find_task
find_task-IsTracked name [] task h e = cc
find_task-IsTracked name ((k, t) ∷ rest) task (p, h) e = elim (Bool-cases (same_key k name)) [
  | inl s ↦
      let found : some t ≡ some task = rw (s, if◌then◌else◌) at e in
      let same : t ≡ task = cc found in
      subst (λ n. IsTracked (n, task)) (same_key_eq k name s) (subst (λ x. IsTracked (k, x)) same p)
  | inr s ↦ find_task-IsTracked name rest task h (rw (s, if◌then◌else◌) at e)
]

pub put_task-IsTracked :
    (name : Option String) (task : ImageTask) (tasks : Tasks)
    → IsTracked (name, task)
    → All IsTracked tasks
    → All IsTracked (put_task name task tasks)
unfolding put_task
put_task-IsTracked name task [] p h = (p, tt)
put_task-IsTracked name task ((k, t) ∷ rest) p (q, h) = elim (Bool-cases (same_key k name)) [
  | inl s ↦ rw (s, put_task) (subst (λ n. IsTracked (n, task)) (sym (same_key_eq k name s)) p, h)
  | inr s ↦ rw (s, put_task) (q, put_task-IsTracked name task rest p h)
]

pub current_task-IsTracked :
    (state : ImageState) (tasks : Tasks)
    → All IsTracked tasks
    → IsTracked (state.image.name, current_task state tasks)
unfolding current_task
current_task-IsTracked state tasks h = elim (Option-cases (find_task state.image.name tasks)) [
  | inl e ↦ rw (e, IsTracked, current_task) refl
  | inr (task, e) ↦ rw (e, current_task) (find_task-IsTracked state.image.name tasks task h e)
]

pub update_task-IsTracked :
    (name : Option String) (task : ImageTask) (state : ImageState)
    → IsTracked (name, task)
    → IsTracked (name, (update_task task state).0)
unfolding update_task
update_task-IsTracked name (running context) state p = p
update_task-IsTracked name (finished context) state p = absurd p

pub report_event-IsTracked :
    (e : ImageEvent) (state : ImageState) (tasks : Tasks)
    → All IsTracked tasks
    → All IsTracked (report_event e state tasks).0
unfolding report_event delete_task
report_event-IsTracked start state tasks h =
    put_task-IsTracked _ _ tasks (current_task-IsTracked state tasks h) h
report_event-IsTracked update state tasks h =
    let c = current_task-IsTracked state tasks h in
    put_task-IsTracked _ _ _ (update_task-IsTracked _ _ state c) (put_task-IsTracked _ _ tasks c h)
report_event-IsTracked finish state tasks h =
    All-filter IsTracked _ _ (put_task-IsTracked _ _ tasks (current_task-IsTracked state tasks h) h)

-- Whatever events are reported, the tasks that are kept all run, each under the name of its image.
pub Reached-IsTracked : (tasks : Tasks) → Reached tasks → All IsTracked tasks
Reached-IsTracked _ nothing = tt
Reached-IsTracked _ (event e state r) = report_event-IsTracked e state _ (Reached-IsTracked _ r)
