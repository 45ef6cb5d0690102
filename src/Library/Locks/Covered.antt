-- ===== src/Library/Locks/Covered.antt =====
-- lib/update-lock.ts: the locks that are taken are those of the apps that are to be released.
use Prim.Native.String
use text.Mathlib.Text.{starts_with}
use text.Mathlib.TextLemmas.{nil-append, cons-append}
use text.Mathlib.TextPositions.{starts_with-append}
use balena_supervisor.Common.{
  ℕ, String, Bool, true, false, List, [], ◌∷◌, ◌++◌, str_eq, ◌≡◌, refl, sym, subst, ◌⊎◌, inl, inr,
  arith, Bool-cases, Option-cases, if◌then◌else◌, All, Any, All-filter, All_imp, Member,
  append_assoc, append-nil, ◌==◌,
}
use balena_supervisor.Common.Texts.{includes}
use balena_supervisor.Library.Locks.{
  Locks, Outcome, done, failed, Host, put_path, without, contains, lock_dir, lock_file_name,
  lock_file, unlock, and_then, described, acquire_next, lockfile_exists, lock_all, lock_service,
  lock_files_on_host, lock_services, Acquired, acquire,
}

-- Neither the write lock of the app is held nor a lockfile below its folder.
pub record IsFree (host : Host) (id : ℕ) (s : Locks) : Type 0 where
  pub held : All (λ other. (other == id) ≡ false) s.held
  pub taken : All (λ path. contains (lock_dir host id) path ≡ false) s.taken

contains_of_start : (part s : String) → starts_with s part ≡ true → contains part s ≡ true
unfolding contains
contains_of_start part String.[] h = h
contains_of_start part (String.◌∷◌ c s) h = rw h refl

contains-append : (part a b : String) → contains part (String.◌++◌ a (String.◌++◌ part b)) ≡ true
unfolding contains
contains-append part String.[] b =
    rw (nil-append (String.◌++◌ part b))
      (contains_of_start part (String.◌++◌ part b) (starts_with-append part b))
contains-append part (String.◌∷◌ c a) b =
    rw (cons-append c a (String.◌++◌ part b)) (ground (arith, contains-append part a b))

All-put_path {ℓ} :
    (P : String → Type ℓ) (p : String) (paths : List String)
    → P p
    → All P paths
    → All P (put_path p paths)
unfolding put_path
All-put_path P p [] x h = (x, tt)
All-put_path P p (q ∷ paths) x (y, h) = elim (Bool-cases (str_eq q p)) [
  | inl e ↦ rw e (y, h)
  | inr e ↦ rw e (y, All-put_path P p paths x h)
]

module _ (host : Host) where
  contains-lock_file_name :
      (id : ℕ) (service name : String)
      → contains (lock_dir host id) (lock_file_name host id service name) ≡ true
  unfolding lock_file_name
  contains-lock_file_name id service name = contains-append (lock_dir host id) host.root _

  -- What keeps an app from being free is of one of the apps that are released.
  abbrev pub HeldFor : ℕ → List ℕ → ℕ → Type 0
  HeldFor b rs other = ((other == b) ≡ false) ⊎ Member other rs

  abbrev pub TakenFor : ℕ → List ℕ → String → Type 0
  TakenFor b rs path =
      (contains (lock_dir host b) path ≡ false)
      ⊎ Any (λ id. contains (lock_dir host id) path ≡ true) rs

  pub record IsCovered (b : ℕ) (rs : List ℕ) (s : Locks) : Type 0 where
    pub held : All (HeldFor b rs) s.held
    pub taken : All (TakenFor b rs) s.taken

  Any-append_left : (P : ℕ → Type 0) (xs ys : List ℕ) → Any P xs → Any P (xs ++ ys)
  Any-append_left P [] ys h = elim h [ ]
  Any-append_left P (x ∷ xs) ys (inl p) = inl p
  Any-append_left P (x ∷ xs) ys (inr p) = inr (Any-append_left P xs ys p)

  Any-at_end : (P : ℕ → Type 0) (xs : List ℕ) (x : ℕ) → P x → Any P (xs ++ x ∷ [])
  Any-at_end P [] x p = inl p
  Any-at_end P (y ∷ xs) x p = inr (Any-at_end P xs x p)

  module _ (b : ℕ) where
    IsCovered-more :
        (rs : List ℕ) (id : ℕ) (s : Locks) → IsCovered b rs s → IsCovered b (rs ++ id ∷ []) s
    IsCovered-more rs id s h = record {
      held = All_imp _ _ (λ other. more_held other) s.held h.held;
      taken = All_imp _ _ (λ path. more_taken path) s.taken h.taken;
    }
      where
        more_held : (other : ℕ) → HeldFor b rs other → HeldFor b (rs ++ id ∷ []) other
        more_held other (inl e) = inl e
        more_held other (inr m) = inr (Any-append_left _ rs (id ∷ []) m)

        more_taken : (path : String) → TakenFor b rs path → TakenFor b (rs ++ id ∷ []) path
        more_taken path (inl e) = inl e
        more_taken path (inr m) = inr (Any-append_left _ rs (id ∷ []) m)

    -- a lockfile of an app that is released
    module _ (rs : List ℕ) (id : ℕ) where
      abbrev with_id : List ℕ
      with_id = rs ++ id ∷ []

      lock_file-IsCovered :
          (path : String) (s : Locks)
          → contains (lock_dir host id) path ≡ true
          → IsCovered b with_id s
          → IsCovered b with_id (lock_file host path s).1
      unfolding lock_file
      lock_file-IsCovered path s e h = elim (Bool-cases (includes s.files path)) [
        | inl i ↦ rw i h
        | inr i ↦ elim (Bool-cases (host.refuses path)) [
          | inl r ↦ rw (i, r) h
          | inr r ↦
              rw (i, r)
                (record {
                  held = h.held;
                  taken =
                      All-put_path (TakenFor b with_id) path s.taken (inr (Any-at_end _ rs id e))
                        h.taken;
                })
        ]
      ]

      unlock-IsCovered :
          (path : String) (s : Locks)
          → IsCovered b with_id s
          → IsCovered b with_id (unlock host path s)
      unfolding unlock without
      unlock-IsCovered path s h = record {
        held = h.held;
        taken = All-filter (TakenFor b with_id) _ s.taken h.taken;
      }

      and_then-IsCovered :
          (r : Outcome (Unit {0}) × Locks) (next : Locks → Outcome (Unit {0}) × Locks)
          → IsCovered b with_id r.1
          → ((s : Locks) → IsCovered b with_id s → IsCovered b with_id (next s).1)
          → IsCovered b with_id (and_then r next).1
      and_then-IsCovered (done _, s) next h k = k s h
      and_then-IsCovered (failed e, s) next h k = h

      described-IsCovered :
          (service : String) (r : Outcome (Unit {0}) × Locks)
          → IsCovered b with_id r.1
          → IsCovered b with_id (described id service r).1
      described-IsCovered service (done _, s) h = h
      described-IsCovered service (failed lockfile_exists, s) h = h
      described-IsCovered service (failed _, s) h = h

      unlocked-IsCovered :
          (force : Bool) (path : String) (s : Locks)
          → IsCovered b with_id s
          → IsCovered b with_id (if force then unlock host path s else s)
      unlocked-IsCovered true path s h = unlock-IsCovered path s h
      unlocked-IsCovered false path s h = h

      lock_all-IsCovered :
          (service : String) (force : Bool) (files : List String) (s : Locks)
          → All (λ path. contains (lock_dir host id) path ≡ true) files
          → IsCovered b with_id s
          → IsCovered b with_id (lock_all host id service force files s).1
      unfolding lock_all
      lock_all-IsCovered service force [] s es h = h
      lock_all-IsCovered service force (f ∷ files) s (e, es) h =
          let s' = if force then unlock host f s else s in
          and_then-IsCovered (described id service (lock_file host f s'))
            (lock_all host id service force files)
            (described-IsCovered service (lock_file host f s')
              (lock_file-IsCovered f s' e (unlocked-IsCovered force f s h)))
            (λ t k. lock_all-IsCovered service force files t es k)

      lock_services-IsCovered :
          (force : Bool) (services : List String) (s : Locks)
          → IsCovered b with_id s
          → IsCovered b with_id (lock_services host id force services s).1
      unfolding lock_services lock_service lock_files_on_host
      lock_services-IsCovered force [] s h = h
      lock_services-IsCovered force (service ∷ services) s h =
          and_then-IsCovered (lock_service host id service force s)
            (lock_services host id force services)
            (lock_all-IsCovered service force (lock_files_on_host host id service) s
              (
                contains-lock_file_name id service "updates.lock",
                (contains-lock_file_name id service "resin-updates.lock", tt),
              )
              h)
            (lock_services-IsCovered force services)

    -- the write lock of one more app
    holding-IsCovered :
        (rs : List ℕ) (id : ℕ) (s : Locks)
        → IsCovered b rs s
        → IsCovered b (rs ++ id ∷ []) (record s { held = id ∷ s.held })
    holding-IsCovered rs id s h =
        let more = IsCovered-more rs id s h in
        record { held = (inr (Any-at_end _ rs id refl), more.held); taken = more.taken }

    acquire_next-IsCovered :
        (rs : List ℕ) (id : ℕ) (r : Outcome (Unit {0}) × Locks) (next : Locks → Acquired)
        → IsCovered b (rs ++ id ∷ []) r.1
        → ((s : Locks)
            → IsCovered b (rs ++ id ∷ []) s
            → IsCovered b ((rs ++ id ∷ []) ++ (next s).releases) (next s).locks)
        → IsCovered b (rs ++ (acquire_next id r next).releases) (acquire_next id r next).locks
    acquire_next-IsCovered rs id (done _, s) next h k =
        subst (λ l. IsCovered b l (next s).locks) (append_assoc rs (id ∷ []) (next s).releases)
          (k s h)
    acquire_next-IsCovered rs id (failed e, s) next h k = h

    pub acquire-IsCovered :
        (force : Bool) (ids rs : List ℕ) (s : Locks)
        → IsCovered b rs s
        → IsCovered b (rs ++ (acquire host force ids s).releases) (acquire host force ids s).locks
    unfolding acquire
    acquire-IsCovered force [] rs s h = subst (λ l. IsCovered b l s) (sym (append-nil rs)) h
    acquire-IsCovered force (id ∷ ids) rs s h =
        let holding : Locks = record s { held = id ∷ s.held } in
        let h' = holding-IsCovered rs id s h in
        elim (Option-cases (host.folders id)) [
          | inl e ↦ rw (e, acquire) h'
          | inr (services, e) ↦
              rw (e, acquire)
                (acquire_next-IsCovered rs id (lock_services host id force services holding)
                  (acquire host force ids) (lock_services-IsCovered rs id force services holding h')
                  (acquire-IsCovered force ids (rs ++ id ∷ [])))
        ]
