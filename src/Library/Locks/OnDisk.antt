-- ===== src/Library/Locks/OnDisk.antt =====
-- lib/update-lock.ts: the lockfiles that are left on the disk after locks were released.
use balena_supervisor.Common.{
  ℕ, String, Bool, true, false, not, ◌||◌, List, [], ◌∷◌, Option, filter, is_empty, str_eq, ◌≡◌,
  refl, subst, arith, Bool-cases, Option-cases, inl, inr, if◌then◌else◌, All, Member,
}
use balena_supervisor.Common.Texts.{includes, eq_of_str_eq}
use balena_supervisor.Library.Locks.{
  Locks, Outcome, done, failed, Host, without, contains, lock_dir, lock_file, unlock, and_then,
  described, acquire_next, run_locked, lockfile_exists, lock_all, lock_service, lock_files_on_host,
  lock_services, Acquired, acquire, unlock_all, dispose, dispose_all, sort_ids, lock,
}
use balena_supervisor.Library.Locks.Covered.{IsFree}
use balena_supervisor.Library.Locks.Kept.{includes-put_path, includes-without}
use balena_supervisor.Library.Locks.Released.{lock-IsFree}

-- What each operation on a lockfile keeps, taking and releasing the locks of apps keeps.
module _ (host : Host) (Q : Locks → Type 0)
    (on_lock : (p : String) (s : Locks) → Q s → Q (lock_file host p s).1)
    (on_unlock : (p : String) (s : Locks) → Q s → Q (unlock host p s))
    (on_held : (held : List ℕ) (s : Locks) → Q s → Q (record s { held = held })) where
  and_then_keeps :
      (r : Outcome (Unit {0}) × Locks) (next : Locks → Outcome (Unit {0}) × Locks)
      → Q r.1
      → ((s : Locks) → Q s → Q (next s).1)
      → Q (and_then r next).1
  and_then_keeps (done _, s) next h k = k s h
  and_then_keeps (failed e, s) next h k = h

  described_keeps :
      (id : ℕ) (service : String) (r : Outcome (Unit {0}) × Locks)
      → Q r.1
      → Q (described id service r).1
  described_keeps id service (done u, s) h = h
  described_keeps id service (failed lockfile_exists, s) h = h
  described_keeps id service (failed _, s) h = h

  lock_all_keeps :
      (id : ℕ) (service : String) (force : Bool) (files : List String) (s : Locks)
      → Q s
      → Q (lock_all host id service force files s).1
  unfolding lock_all
  lock_all_keeps id service force [] s h = h
  lock_all_keeps id service force (f ∷ files) s h =
      and_then_keeps _ (lock_all host id service force files)
        (described_keeps id service _ (on_lock f _ (cleared force)))
        (lock_all_keeps id service force files)
    where
      cleared : (force : Bool) → Q (if force then unlock host f s else s)
      cleared true = on_unlock f s h
      cleared false = h

  lock_services_keeps :
      (id : ℕ) (force : Bool) (services : List String) (s : Locks)
      → Q s
      → Q (lock_services host id force services s).1
  unfolding lock_services lock_service
  lock_services_keeps id force [] s h = h
  lock_services_keeps id force (service ∷ services) s h =
      and_then_keeps _ (lock_services host id force services)
        (lock_all_keeps id service force (lock_files_on_host host id service) s h)
        (lock_services_keeps id force services)

  acquire_next_keeps :
      (id : ℕ) (r : Outcome (Unit {0}) × Locks) (next : Locks → Acquired)
      → Q r.1
      → ((s : Locks) → Q s → Q (next s).locks)
      → Q (acquire_next id r next).locks
  acquire_next_keeps id (done _, s) next h k = k s h
  acquire_next_keeps id (failed e, s) next h k = h

  acquire_keeps :
      (force : Bool) (ids : List ℕ) (s : Locks) → Q s → Q (acquire host force ids s).locks
  unfolding acquire
  acquire_keeps force [] s h = h
  acquire_keeps force (id ∷ ids) s h =
      let holding = record s { held = id ∷ s.held } in
      let h' = on_held (id ∷ s.held) s h in
      elim (Option-cases (host.folders id)) [
        | inl e ↦ rw (e, acquire) h'
        | inr (services, e) ↦
            rw (e, acquire)
              (acquire_next_keeps id (lock_services host id force services holding)
                (acquire host force ids) (lock_services_keeps id force services holding h')
                (acquire_keeps force ids))
      ]

  unlock_all_keeps : (paths : List String) (s : Locks) → Q s → Q (unlock_all host paths s)
  unfolding unlock_all
  unlock_all_keeps [] s h = h
  unlock_all_keeps (p ∷ paths) s h = unlock_all_keeps paths (unlock host p s) (on_unlock p s h)

  dispose_all_keeps : (ids : List ℕ) (s : Locks) → Q s → Q (dispose_all host ids s)
  unfolding dispose_all dispose
  dispose_all_keeps [] s h = h
  dispose_all_keeps (id ∷ ids) s h =
      dispose_all_keeps ids (dispose host id s)
        (on_held _ _ (unlock_all_keeps (filter (contains (lock_dir host id)) s.taken) s h))

  run_locked_keeps {ℓ} :
      {A : Type ℓ} (outcome : Outcome (Unit {0})) (fn : Locks → Outcome A × Locks) (s : Locks)
      → ((s : Locks) → Q s → Q (fn s).1)
      → Q s
      → Q (run_locked host outcome fn s).1
  run_locked_keeps (done _) fn s k h = k s h
  run_locked_keeps (failed e) fn s k h = h

  lock_keeps {ℓ} :
      {A : Type ℓ} (ids : List ℕ) (force skip_lock : Bool) (lock_override : Option Bool)
      (fn : Locks → Outcome A × Locks) (s : Locks)
      → ((t : Locks) → Q t → Q (fn t).1)
      → Q s
      → Q (lock host ids force skip_lock lock_override fn s).1
  unfolding lock
  lock_keeps ids force skip_lock lock_override fn s k h =
      elim (Bool-cases (skip_lock || is_empty ids)) [
        | inl e ↦ rw (e, lock) (k s h)
        | inr e ↦
            rw (e, lock)
              (elim (Option-cases lock_override) [
                | inl f ↦ rw f h
                | inr (override, f) ↦
                    let acquired = acquire host (force || override) (sort_ids host ids) s in
                    rw f (
                      dispose_all_keeps acquired.releases _ (
                        run_locked_keeps acquired.outcome fn acquired.locks k
                          (acquire_keeps (force || override) (sort_ids host ids) s h)))
              ])
      ]

-- A lockfile on the disk is known to be taken, or it was there before.
abbrev pub IsTracked : (before : Locks) → String → Locks → Type 0
IsTracked before path s =
    (not (includes s.files path) || includes s.taken path || includes before.files path) ≡ true

includes-without_self :
    (path : String) (paths : List String) → includes (without path paths) path ≡ false
unfolding without
includes-without_self path [] = refl
includes-without_self path (q ∷ paths) = ground (arith, includes-without_self path paths)

module _ (host : Host) (before : Locks) (path : String) (removable : host.stays path ≡ false) where
  lock_file-IsTracked :
      (p : String) (s : Locks)
      → IsTracked before path s
      → IsTracked before path (lock_file host p s).1
  unfolding lock_file
  lock_file-IsTracked p s h = elim (Bool-cases (includes s.files p)) [
    | inl e ↦ rw e h
    | inr e ↦ elim (Bool-cases (host.refuses p)) [
      | inl r ↦ rw (e, r) h
      | inr r ↦ rw (e, r) (rw (includes-put_path p path s.taken) (ground arith))
    ]
  ]

  unlock-IsTracked :
      (p : String) (s : Locks) → IsTracked before path s → IsTracked before path (unlock host p s)
  unfolding unlock
  unlock-IsTracked p s h = elim (Bool-cases (str_eq p path)) [
    | inl e ↦
        let same : p ≡ path = eq_of_str_eq p path e in
        rw (same, removable, includes-without_self path s.files) refl
    | inr e ↦ rw (includes-without p path s.taken e) (kept e (host.stays p))
  ]
    where
      kept :
          str_eq p path ≡ false
          → (b : Bool)
          → (not (includes (if b then s.files else without p s.files) path)
              || includes s.taken path
              || includes before.files path)
            ≡ true
      kept e true = h
      kept e false = rw (includes-without p path s.files e) h

-- The locks of the app are released: neither its write lock is held nor a lockfile below its folder
-- counted as taken, and below the folder lie only files that were there before, or cannot be removed.
pub record IsReleased (host : Host) (id : ℕ) (before after : Locks) : Type 0 where
  pub free : IsFree host id after
  pub left :
      (path : String)
      → contains (lock_dir host id) path ≡ true
      → host.stays path ≡ false
      → includes after.files path ≡ true
      → includes before.files path ≡ true

not_taken :
    (f : String → Bool) (path : String) (taken : List String)
    → All (λ p. f p ≡ false) taken
    → f path ≡ true
    → includes taken path ≡ false
not_taken f path [] h e = refl
not_taken f path (p ∷ taken) (n, h) e = elim (Bool-cases (str_eq p path)) [
  | inl same ↦ let n' : f path ≡ false = subst (λ q. f q ≡ false) (eq_of_str_eq p path same) n in cc
  | inr other ↦ rw (other, not_taken f path taken h e) refl
]

-- An app whose write lock is not held, and below whose folder no lockfile is taken, is released again
-- after its locks, with those of any other apps, were asked for: whether they were taken, could not be
-- taken at some app, or the function that runs under them failed, its lockfiles are gone from the disk,
-- where they can be removed; provided that the function keeps track of the lockfiles that it adds.
pub lock-IsReleased {ℓ} :
    {A : Type ℓ} (host : Host) (b : ℕ) (ids : List ℕ) (force : Bool) (lock_override : Option Bool)
    (fn : Locks → Outcome A × Locks) (s : Locks)
    → Member b ids
    → IsFree host b s
    → ((path : String) (t : Locks) → IsTracked s path t → IsTracked s path (fn t).1)
    → IsReleased host b s (lock host ids force false lock_override fn s).1
lock-IsReleased host b ids force lock_override fn s m h k =
    let after = (lock host ids force false lock_override fn s).1 in
    let free : IsFree host b after = lock-IsFree host b ids force lock_override fn s m h in
    record {
      free = free;
      left = λ path below removable there.
          let tracked : IsTracked s path after =
            lock_keeps host (IsTracked s path) (lock_file-IsTracked host s path removable)
              (unlock-IsTracked host s path removable) (λ held t g. g) ids force false lock_override
              fn s (k path) (at_first path s) in
          let gone = not_taken (contains (lock_dir host b)) path after.taken free.taken below in
          ground (arith, tracked, gone, there);
    }
  where
    at_first : (path : String) (s : Locks) → IsTracked s path s
    at_first path s = ground arith
