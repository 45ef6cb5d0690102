-- ===== src/Library/Locks.antt =====
-- lib/update-lock.ts and lib/lockfile.ts: the locks of the apps, as files and in memory.
pub mod Kept
pub mod Covered
pub mod Released
pub mod OnDisk
use Prim.Native.String
use Prim.Native.String.{String}
use text.Mathlib.Text.{starts_with}
use balena_supervisor.Common.{
  ℕ, Bool, true, false, not, ◌||◌, List, [], ◌∷◌, ◌++◌, Option, none, some, filter, is_empty,
  str_eq, ◌==◌, if◌then◌else◌,
}
use balena_supervisor.Common.Texts.{includes, decimal, text_leb}
use balena_supervisor.Common.Sort.{sort_by}

-- The lockfiles on the disk, `locksTaken`, and the apps whose write lock is held.
pub record Locks : Type 0 where
  pub files : List String
  pub taken : List String
  pub held : List ℕ

-- `lockfile_exists` is the error with code 73, `updates_locked` the UpdatesLockedError for a service.
pub data LockError : Type 0 where
  lockfile_exists lock_failed inconsistent : LockError
  updates_locked : (app_id : ℕ) → (service : String) → LockError

pub data Outcome {ℓ} (A : Type ℓ) : Type ℓ where
  done : A → Outcome A
  failed : LockError → Outcome A

-- What the host does: where locks lie, which locks cannot be taken although there is no file, which
-- files cannot be removed, and the services that have a folder, or none where reading it fails.
pub record Host : Type 0 where
  pub root : String
  pub base_lock_dir : String
  pub refuses : String → Bool
  pub stays : String → Bool
  pub folders : ℕ → Option (List String)

-- What taking the locks of some apps comes to: the outcome, `releases`, and the locks.
pub record Acquired : Type 0 where
  pub outcome : Outcome (Unit {0})
  pub releases : List ℕ
  pub locks : Locks

-- The next step is taken if the first one is done.
abbrev pub and_then :
    Outcome (Unit {0}) × Locks → (Locks → Outcome (Unit {0}) × Locks) → Outcome (Unit {0}) × Locks
and_then (done _, s) next = next s
and_then (failed e, s) next = (failed e, s)

-- the handler of lockService
abbrev pub described : ℕ → String → Outcome (Unit {0}) × Locks → Outcome (Unit {0}) × Locks
described id service (failed lockfile_exists, s) = (failed (updates_locked id service), s)
described id service result = result

-- the next apps, once the services of one are locked
abbrev pub acquire_next : ℕ → Outcome (Unit {0}) × Locks → (Locks → Acquired) → Acquired
acquire_next id (done _, s) next =
    let rest = next s in record rest { releases = id ∷ rest.releases }
acquire_next id (failed e, s) next = record { outcome = failed e; releases = id ∷ []; locks = s }

abbrev joined : String → String → String
joined a b = String.◌++◌ a (String.◌++◌ "/" b)

-- locksTaken[path] = true
pub put_path : String → List String → List String
put_path path [] = path ∷ []
put_path path (p ∷ paths) = if str_eq p path then p ∷ paths else p ∷ put_path path paths

-- all but one path
pub without : String → List String → List String
without path paths = filter (λ p. not (str_eq p path)) paths

-- s.includes(part)
unfoldable pub contains : String → String → Bool
contains part String.[] = starts_with "" part
contains part (String.◌∷◌ c s) = starts_with (String.◌∷◌ c s) part || contains part s

module _ (host : Host) where
  -- `${BASE_LOCK_DIR}/${appIdentifier}`, which is also lockPath(id)
  abbrev pub lock_dir : ℕ → String
  lock_dir id = joined host.base_lock_dir (decimal id)

  lock_file_name : ℕ → String → String → String
  lock_file_name id service name =
      String.◌++◌ host.root (String.◌++◌ (lock_dir id) (joined (joined "" service) name))

  unfoldable pub lock_files_on_host : ℕ → String → List String
  unfolding lock_file_name
  lock_files_on_host id service =
      lock_file_name id service "updates.lock" ∷ lock_file_name id service "resin-updates.lock" ∷ []

  -- lockfile.lock
  unfoldable pub lock_file : String → Locks → Outcome (Unit {0}) × Locks
  unfolding put_path
  lock_file path s =
      if includes s.files path
      then (failed lockfile_exists, s)
      else if host.refuses path
      then (failed lock_failed, s)
      else (done tt, record s { files = path ∷ s.files; taken = put_path path s.taken })

  -- lockfile.unlock, which ignores all errors
  unfoldable pub unlock : String → Locks → Locks
  unfolding without
  unlock path s = record s {
    files = if host.stays path then s.files else without path s.files;
    taken = without path s.taken;
  }

  -- the loop of lockService, over the files that are left
  unfoldable pub lock_all : ℕ → String → Bool → List String → Locks → Outcome (Unit {0}) × Locks
  unfolding lock_file unlock
  lock_all id service force [] s = (done tt, s)
  lock_all id service force (file ∷ files) s =
      and_then (described id service (lock_file file (if force then unlock file s else s)))
        (lock_all id service force files)

  unfoldable pub lock_service : ℕ → String → Bool → Locks → Outcome (Unit {0}) × Locks
  unfolding lock_all lock_files_on_host
  lock_service id service force = lock_all id service force (lock_files_on_host id service)

  unfoldable pub lock_services : ℕ → Bool → List String → Locks → Outcome (Unit {0}) × Locks
  unfolding lock_service
  lock_services id force [] s = (done tt, s)
  lock_services id force (service ∷ services) s =
      and_then (lock_service id service force s) (lock_services id force services)

  -- the loop over the sorted ids; the write lock of each is waited for, and then held
  unfoldable pub acquire : Bool → List ℕ → Locks → Acquired
  unfolding lock_services
  acquire force [] s = record { outcome = done tt; releases = []; locks = s }
  acquire force (id ∷ ids) s =
      let s1 = record s { held = id ∷ s.held } in
      elim (host.folders id) [
        | none ↦ record { outcome = failed lock_failed; releases = id ∷ []; locks = s1 }
        | some services ↦ acquire_next id (lock_services id force services s1) (acquire force ids)
      ]

  unfoldable pub unlock_all : List String → Locks → Locks
  unfolding unlock
  unlock_all [] s = s
  unlock_all (path ∷ paths) s = unlock_all paths (unlock path s)

  unfoldable pub dispose : ℕ → Locks → Locks
  unfolding unlock_all contains
  dispose id s =
      let s' = unlock_all (filter (contains (lock_dir id)) s.taken) s in
      record s' { held = filter (λ other. not (other == id)) s'.held }

  unfoldable pub dispose_all : List ℕ → Locks → Locks
  unfolding dispose
  dispose_all [] s = s
  dispose_all (id ∷ ids) s = dispose_all ids (dispose id s)

  -- the order of Array.sort, which compares the decimal digits
  unfoldable pub sort_ids : List ℕ → List ℕ
  sort_ids = sort_by (λ a b. text_leb (decimal a) (decimal b))

  -- the function that is passed, if all locks are taken; and the release of those that are
  abbrev pub run_locked {ℓ} :
      {A : Type ℓ}
      → Outcome (Unit {0})
      → (fn : Locks → Outcome A × Locks) → Locks
      → Outcome A × Locks
  run_locked (done _) fn s = fn s
  run_locked (failed e) fn s = (failed e, s)

  abbrev pub release {ℓ} : {A : Type ℓ} → List ℕ → Outcome A × Locks → Outcome A × Locks
  release releases (outcome, s) = (outcome, dispose_all releases s)

  -- lock, of a list of apps; `lock_override` is none where the configuration cannot be read
  unfoldable pub lock {ℓ} :
      {A : Type ℓ}
      → List ℕ
      → (force skip_lock : Bool) → (lock_override : Option Bool) → (fn : Locks → Outcome A × Locks)
      → Locks
      → Outcome A × Locks
  unfolding acquire dispose_all sort_ids
  lock ids force skip_lock lock_override fn s =
      if skip_lock || is_empty ids then fn s else elim lock_override [
        | none ↦ (failed inconsistent, s)
        | some override ↦
            let acquired = acquire (force || override) (sort_ids ids) s in
            release acquired.releases (run_locked acquired.outcome fn acquired.locks)
      ]
