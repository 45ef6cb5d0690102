-- ===== src/Library/Locks/Kept.antt =====
-- lib/update-lock.ts: the lockfiles that a user has put on the disk.
use balena_supervisor.Common.{
  ℕ, String, Bool, true, false, ◌||◌, List, [], ◌∷◌, some, filter, is_empty, str_eq, eq_iff, ◌↔◌,
  ◌≡◌, refl, arith, Bool-cases, Option-cases, inl, inr,
}
use balena_supervisor.Common.Texts.{includes}
use balena_supervisor.Library.Locks.{
  Locks, Outcome, done, failed, Host, put_path, without, contains, lock_dir, lock_file, unlock,
  and_then, described, acquire_next, run_locked, lockfile_exists, lock_all, lock_service,
  lock_files_on_host, lock_services, Acquired, acquire, unlock_all, dispose, dispose_all, sort_ids,
  lock,
}

-- The file is there, and the supervisor does not hold it.
pub record IsForeign (path : String) (s : Locks) : Type 0 where
  pub exists : includes s.files path ≡ true
  pub not_taken : includes s.taken path ≡ false

pub includes-put_path :
    (p path : String) (paths : List String)
    → includes (put_path p paths) path ≡ (str_eq p path || includes paths path)
unfolding put_path
includes-put_path p path [] = refl
includes-put_path p path (q ∷ paths) =
    ground (arith, eq_iff q p, eq_iff p path, eq_iff q path, includes-put_path p path paths)

pub includes-without :
    (p path : String) (paths : List String)
    → str_eq p path ≡ false
    → includes (without p paths) path ≡ includes paths path
unfolding without
includes-without p path [] h = refl
includes-without p path (q ∷ paths) h =
    ground (arith, eq_iff q p, eq_iff p path, eq_iff q path, includes-without p path paths h)

-- whatever is taken out, a path that is not there is not put in
includes-without_le :
    (p path : String) (paths : List String)
    → includes paths path ≡ false
    → includes (without p paths) path ≡ false
unfolding without
includes-without_le p path [] h = refl
includes-without_le p path (q ∷ paths) h = ground (arith, includes-without_le p path paths)

module _ (host : Host) (path : String) where
  lock_file-IsForeign :
      (p : String) (s : Locks) → IsForeign path s → IsForeign path (lock_file host p s).1
  unfolding lock_file
  lock_file-IsForeign p s h = elim (Bool-cases (includes s.files p)) [
    | inl e ↦ rw e h
    | inr e ↦ elim (Bool-cases (host.refuses p)) [
      | inl r ↦ rw (e, r) h
      | inr r ↦
          rw (e, r)
            (record {
              exists = ground (arith, h.exists);
              not_taken =
                  rw (includes-put_path p path s.taken)
                    (other_path (eq_iff p path) h.exists e h.not_taken);
            })
    ]
  ]
    where
      other_path :
          (str_eq p path ≡ true) ↔ (p ≡ path)
          → includes s.files path ≡ true
          → includes s.files p ≡ false
          → includes s.taken path ≡ false
          → (str_eq p path || includes s.taken path) ≡ false
      other_path eq there absent free = elim (Bool-cases (str_eq p path)) [
        | inl same ↦ let q : includes s.files p ≡ true = rw (eq.0 same) there in cc
        | inr other ↦ rw other free
      ]

  -- A property of the locks goes through a chain of steps.
  and_then_keeps :
      (r : Outcome (Unit {0}) × Locks) (next : Locks → Outcome (Unit {0}) × Locks)
      → IsForeign path r.1
      → ((s : Locks) → IsForeign path s → IsForeign path (next s).1)
      → IsForeign path (and_then r next).1
  and_then_keeps (done _, s) next h k = k s h
  and_then_keeps (failed e, s) next h k = h

  described_keeps :
      (id : ℕ) (service : String) (r : Outcome (Unit {0}) × Locks)
      → IsForeign path r.1
      → IsForeign path (described id service r).1
  described_keeps id service (done _, s) h = h
  described_keeps id service (failed lockfile_exists, s) h = h
  described_keeps id service (failed _, s) h = h

  lock_all-IsForeign :
      (id : ℕ) (service : String) (files : List String) (s : Locks)
      → IsForeign path s
      → IsForeign path (lock_all host id service false files s).1
  unfolding lock_all
  lock_all-IsForeign id service [] s h = h
  lock_all-IsForeign id service (f ∷ files) s h =
      and_then_keeps (described id service (lock_file host f s))
        (lock_all host id service false files)
        (described_keeps id service (lock_file host f s) (lock_file-IsForeign f s h))
        (lock_all-IsForeign id service files)

  lock_services-IsForeign :
      (id : ℕ) (services : List String) (s : Locks)
      → IsForeign path s
      → IsForeign path (lock_services host id false services s).1
  unfolding lock_services lock_service
  lock_services-IsForeign id [] s h = h
  lock_services-IsForeign id (service ∷ services) s h =
      and_then_keeps (lock_service host id service false s) (lock_services host id false services)
        (lock_all-IsForeign id service (lock_files_on_host host id service) s h)
        (lock_services-IsForeign id services)

  acquire_next_keeps :
      (id : ℕ) (r : Outcome (Unit {0}) × Locks) (next : Locks → Acquired)
      → IsForeign path r.1
      → ((s : Locks) → IsForeign path s → IsForeign path (next s).locks)
      → IsForeign path (acquire_next id r next).locks
  acquire_next_keeps id (done _, s) next h k = k s h
  acquire_next_keeps id (failed e, s) next h k = h

  acquire-IsForeign :
      (ids : List ℕ) (s : Locks)
      → IsForeign path s
      → IsForeign path (acquire host false ids s).locks
  unfolding acquire
  acquire-IsForeign [] s h = h
  acquire-IsForeign (id ∷ ids) s h =
      let holding : Locks = record s { held = id ∷ s.held } in
      let h' : IsForeign path holding = record { exists = h.exists; not_taken = h.not_taken } in
      elim (Option-cases (host.folders id)) [
        | inl e ↦ rw (e, acquire) h'
        | inr (services, e) ↦
            rw (e, acquire)
              (acquire_next_keeps id (lock_services host id false services holding)
                (acquire host false ids) (lock_services-IsForeign id services holding h')
                (acquire-IsForeign ids))
      ]

  unlock-IsForeign :
      (p : String) (s : Locks)
      → str_eq p path ≡ false
      → IsForeign path s
      → IsForeign path (unlock host p s)
  unfolding unlock
  unlock-IsForeign p s e h = record {
    exists = elim (Bool-cases (host.stays p)) [
      | inl k ↦ rw k h.exists
      | inr k ↦ rw (k, includes-without p path s.files e) h.exists
    ];
    not_taken = includes-without_le p path s.taken h.not_taken;
  }

  unlock_all-IsForeign :
      (paths : List String) (s : Locks)
      → includes paths path ≡ false
      → IsForeign path s
      → IsForeign path (unlock_all host paths s)
  unfolding unlock_all
  unlock_all-IsForeign [] s e h = h
  unlock_all-IsForeign (p ∷ paths) s e h =
      unlock_all-IsForeign paths (unlock host p s) (ground arith)
        (unlock-IsForeign p s (ground arith) h)

  includes-filter :
      (p : String → Bool) (paths : List String)
      → includes paths path ≡ false
      → includes (filter p paths) path ≡ false
  includes-filter p [] h = refl
  includes-filter p (q ∷ paths) h = ground (arith, includes-filter p paths)

  dispose-IsForeign : (id : ℕ) (s : Locks) → IsForeign path s → IsForeign path (dispose host id s)
  unfolding dispose
  dispose-IsForeign id s h =
      let k =
        unlock_all-IsForeign (filter (contains (lock_dir host id)) s.taken) s
          (includes-filter (contains (lock_dir host id)) s.taken h.not_taken) h in
      record { exists = k.exists; not_taken = k.not_taken }

  dispose_all-IsForeign :
      (ids : List ℕ) (s : Locks) → IsForeign path s → IsForeign path (dispose_all host ids s)
  unfolding dispose_all
  dispose_all-IsForeign [] s h = h
  dispose_all-IsForeign (id ∷ ids) s h =
      dispose_all-IsForeign ids (dispose host id s) (dispose-IsForeign id s h)

  run_locked_keeps {ℓ} :
      {A : Type ℓ} (outcome : Outcome (Unit {0})) (fn : Locks → Outcome A × Locks) (s : Locks)
      → ((s : Locks) → IsForeign path s → IsForeign path (fn s).1)
      → IsForeign path s
      → IsForeign path (run_locked host outcome fn s).1
  run_locked_keeps (done _) fn s k h = k s h
  run_locked_keeps (failed e) fn s k h = h

-- Neither force nor the override of the configuration being set, taking the locks of apps, failing
-- to take them and releasing them leaves every lockfile on the disk that the supervisor has not put
-- there, provided that the function that runs under the locks leaves it too.
pub lock-IsForeign {ℓ} :
    {A : Type ℓ} (host : Host) (path : String) (ids : List ℕ) (skip_lock : Bool)
    (fn : Locks → Outcome A × Locks) (s : Locks)
    → ((t : Locks) → IsForeign path t → IsForeign path (fn t).1)
    → IsForeign path s
    → IsForeign path (lock host ids false skip_lock (some false) fn s).1
unfolding lock
lock-IsForeign host path ids skip_lock fn s k h = elim (Bool-cases (skip_lock || is_empty ids)) [
  | inl e ↦ rw e (k s h)
  | inr e ↦
      let acquired = acquire host false (sort_ids host ids) s in
      rw e (
        dispose_all-IsForeign host path acquired.releases _ (
          run_locked_keeps host path acquired.outcome fn acquired.locks k
            (acquire-IsForeign host path (sort_ids host ids) s h)))
]
