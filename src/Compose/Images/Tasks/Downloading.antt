-- ===== src/Compose/Images/Tasks/Downloading.antt =====
-- compose/images.ts: an image is reported as downloading from the start of its download to its end.
use balena_supervisor.Common.{
  String, true, false, not, [], ◌∷◌, Option, some, ◌≡◌, refl, inl, inr, arith, Bool-cases, All,
  All_imp, All-map_of, All-filter, All-filter_with, Member,
}
use balena_supervisor.Compose.Images.Tasks.{
  ImageState, ImageTask, ImageStatus, running, finished, update, finish, Tasks, put_task,
  delete_task, current_task, update_task, report_event, context_of, is_downloading, same_key,
  get_downloading_image_names,
}
use balena_supervisor.Compose.Images.Tasks.Tracking.{
  IsTracked, Reached, Reached-IsTracked, put_task-IsTracked, current_task-IsTracked,
  update_task-IsTracked,
}

other_name :
    (name k : Option String) (t : ImageTask)
    → IsTracked (k, t) × (not (same_key k name) ≡ true)
    → same_key (context_of t).image.name name ≡ false
other_name name k (running context) (same, other) = rw same (ground (arith, other))
other_name name k (finished context) (same, other) = absurd same

-- Once the end of a download is reported, no image of that name is downloading any more.
pub get_downloading_image_names-finish :
    (tasks : Tasks) (state : ImageState)
    → Reached tasks
    → All
        (λ n. same_key n state.image.name ≡ false)
        (get_downloading_image_names (report_event finish state tasks).0)
unfolding get_downloading_image_names report_event delete_task
get_downloading_image_names-finish tasks state r =
    let h = Reached-IsTracked tasks r in
    let kept = put_task-IsTracked _ _ tasks (current_task-IsTracked state tasks h) h in
    All-map_of (λ n. same_key n state.image.name ≡ false) _ _
      (All-filter _ _ _ (
        All_imp _ _ (λ (k, t) p. other_name state.image.name k t p) _
          (All-filter_with IsTracked (λ (k, _). not (same_key k state.image.name)) _ kept)))

-- the name of a task that is downloading is listed
listed :
    (name : Option String) (task : ImageTask) (tasks : Tasks)
    → is_downloading task ≡ true
    → (context_of task).image.name ≡ name
    → Member name (get_downloading_image_names (put_task name task tasks))
unfolding get_downloading_image_names put_task
listed name task [] d e = rw d (inl e)
listed name task ((k, t) ∷ rest) d e = elim (Bool-cases (same_key k name)) [
  | inl s ↦ rw (s, put_task, d) (inl e)
  | inr s ↦
      rw (s, put_task)
        (elim (Bool-cases (is_downloading t)) [
          | inl f ↦ rw f (inr (listed name task rest d e))
          | inr f ↦ rw f (listed name task rest d e)
        ])
]

name_of_tracked :
    (name : Option String) (t : ImageTask) → IsTracked (name, t) → (context_of t).image.name ≡ name
name_of_tracked name (running context) p = p
name_of_tracked name (finished context) p = absurd p

downloads :
    (name : Option String) (t : ImageTask) (state : ImageState)
    → IsTracked (name, t)
    → state.status ≡ some ImageStatus.downloading
    → is_downloading (update_task t state).0 ≡ true
unfolding update_task
downloads name (running context) state p e = rw e refl
downloads name (finished context) state p e = absurd p

-- An image whose download is reported is downloading.
pub get_downloading_image_names-update :
    (tasks : Tasks) (state : ImageState)
    → Reached tasks
    → state.status ≡ some ImageStatus.downloading
    → Member state.image.name (get_downloading_image_names (report_event update state tasks).0)
unfolding report_event
get_downloading_image_names-update tasks state r e =
    let c = current_task-IsTracked state tasks (Reached-IsTracked tasks r) in
    listed state.image.name (update_task (current_task state tasks) state).0
      (put_task state.image.name (current_task state tasks) tasks)
      (downloads state.image.name (current_task state tasks) state c e)
      (name_of_tracked state.image.name _ (update_task-IsTracked _ _ state c))
