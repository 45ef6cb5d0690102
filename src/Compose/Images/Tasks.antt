-- ===== src/Compose/Images/Tasks.antt =====
-- compose/images.ts: the tasks of images that are downloaded or deleted, `createTask`, `reportEvent`
-- and `getDownloadingImageNames`.
pub mod Tracking
pub mod Downloading
use balena_supervisor.Common.{
  ℕ, zero, suc, String, Bool, true, false, ◌||◌, not, List, [], ◌∷◌, map, Option, none, some,
  str_eq, same_option, filter, if◌then◌else◌,
}
use balena_supervisor.Compose.Images.{Image}

pub data ImageStatus : Type 0 where
  downloading downloaded deleting : ImageStatus

-- What is reported of an image: the image with its `status` and `downloadProgress`.
pub record ImageState : Type 0 where
  pub image : Image
  pub status : Option ImageStatus
  pub download_progress : Option ℕ

-- Task has only two states, is either running or finished.
pub data ImageTask : Type 0 where
  running finished : (context : ImageState) → ImageTask

pub data ImageEvent : Type 0 where
  start update finish : ImageEvent

-- ...(status && { status })
abbrev given_status : Option ImageStatus → Option ImageStatus → Option ImageStatus
given_status none old = old
given_status (some s) old = some s

-- ...(downloadProgress && { downloadProgress }): a progress of 0 counts as none
abbrev given_progress : Option ℕ → Option ℕ → Option ℕ
given_progress (some (suc n)) old = some (suc n)
given_progress _ old = old

-- [status, downloadProgress].some((v) => !!v)
abbrev has_news : ImageState → Bool
has_news state = elim state.status [
  | some s ↦ true
  | none ↦ elim state.download_progress [
    | none ↦ false
    | some n ↦ elim n [ zero ↦ false | suc k ↦ true ]
  ]
]

unfoldable pub update_task : ImageTask → ImageState → ImageTask × Bool
update_task (running context) state = (
  running (record context {
    status = given_status state.status context.status;
    download_progress = given_progress state.download_progress context.download_progress;
  }),
  has_news state,
)
update_task (finished context) state = (finished context, false)

unfoldable pub finish_task : ImageTask → ImageTask × Bool
finish_task (running context) = (finished context, true)
finish_task (finished context) = (finished context, false)

-- runningTasks, by the name of the image
abbrev pub Tasks : Type 0
Tasks = List (Option String × ImageTask)

abbrev pub same_key : Option String → Option String → Bool
same_key = same_option str_eq

unfoldable pub find_task : Option String → Tasks → Option ImageTask
find_task name [] = none
find_task name ((k, t) ∷ rest) =
    let found = find_task name rest in if same_key k name then some t else found

-- runningTasks[name] = task
unfoldable pub put_task : Option String → ImageTask → Tasks → Tasks
put_task name task [] = (name, task) ∷ []
put_task name task ((k, t) ∷ rest) =
    let others = put_task name task rest in
    if same_key k name then (k, task) ∷ rest else (k, t) ∷ others

-- delete runningTasks[name]
unfoldable pub delete_task : Option String → Tasks → Tasks
delete_task name = filter (λ (k, _). not (same_key k name))

-- runningTasks[imageName] ?? createTask(state)
unfoldable pub current_task : ImageState → Tasks → ImageTask
unfolding find_task
current_task state tasks = elim (find_task state.image.name tasks) [
  | none ↦ running state
  | some task ↦ task
]

-- The tasks after an event, and whether a change is reported.
unfoldable pub report_event : ImageEvent → ImageState → Tasks → Tasks × Bool
unfolding current_task put_task update_task finish_task delete_task
report_event start state tasks = (put_task state.image.name (current_task state tasks) tasks, true)
report_event update state tasks =
    let task = current_task state tasks in
    let (updated, changed) = update_task task state in
    (put_task state.image.name updated (put_task state.image.name task tasks), changed)
report_event finish state tasks =
    let task = current_task state tasks in
    (delete_task state.image.name (put_task state.image.name task tasks), (finish_task task).1)

abbrev context_of : ImageTask → ImageState
context_of (running context) = context
context_of (finished context) = context

abbrev is_downloading : ImageTask → Bool
is_downloading task = elim (context_of task).status [
  | some s ↦ elim s [ downloading ↦ true | downloaded ↦ false | deleting ↦ false ]
  | none ↦ false
]

unfoldable pub get_downloading_image_names : Tasks → List (Option String)
get_downloading_image_names tasks =
    map (λ (_, t). (context_of t).image.name) (filter (λ (_, t). is_downloading t) tasks)
