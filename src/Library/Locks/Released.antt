-- ===== src/Library/Locks/Released.antt =====
-- lib/update-lock.ts: the locks are released whatever happens under them.
use balena_supervisor.Common.{
  ℕ, String, Bool, true, false, not, ◌||◌, List, [], ◌∷◌, Option, none, some, filter, is_empty,
  str_eq, eq_iff, ◌≡◌, refl, sym, ap, subst, ◌⊎◌, inl, inr, arith, Bool-cases, Option-cases, All,
  Any, All-filter, All_imp, Member, ◌==◌, All_intro, All-filter_with,
}
use balena_supervisor.Common.Texts.{includes}
use balena_supervisor.Common.Sort.{sort_by-Any}
use balena_supervisor.Library.Locks.{
  Locks, Outcome, done, failed, Host, without, contains, lock_dir, lock_failed, unlock, run_locked,
  acquire_next, Acquired, acquire, unlock_all, dispose, dispose_all, sort_ids, lock,
}
use balena_supervisor.Library.Locks.Covered.{
  IsFree, HeldFor, TakenFor, IsCovered, acquire-IsCovered,
}

-- A path that is no lock of an app or is to be removed.
abbrev Goes : (String → Bool) → List String → String → Type 0
Goes f paths path = (f path ≡ false) ⊎ (includes paths path ≡ true)

module _ (host : Host) where
  -- what stays among the locks after some are unlocked
  unlock_all_keeps {ℓ} :
      (P : String → Type ℓ) (paths : List String) (s : Locks)
      → All P s.taken
      → All P (unlock_all host paths s).taken
  unfolding unlock_all unlock without
  unlock_all_keeps P [] s h = h
  unlock_all_keeps P (p ∷ paths) s h =
      unlock_all_keeps P paths (unlock host p s) (All-filter P (λ q. not (str_eq q p)) s.taken h)

  unlock_all-held : (paths : List String) (s : Locks) → (unlock_all host paths s).held ≡ s.held
  unfolding unlock_all unlock
  unlock_all-held [] s = refl
  unlock_all-held (p ∷ paths) s = unlock_all-held paths (unlock host p s)

  Goes-without :
      (f : String → Bool) (p : String) (paths taken : List String)
      → All (Goes f (p ∷ paths)) taken
      → All (Goes f paths) (without p taken)
  unfolding without
  Goes-without f p paths [] h = tt
  Goes-without f p paths (q ∷ taken) (x, h) = elim (Bool-cases (str_eq q p)) [
    | inl e ↦ rw e (Goes-without f p paths taken h)
    | inr e ↦ rw e (still x e, Goes-without f p paths taken h)
  ]
    where
      still : Goes f (p ∷ paths) q → str_eq q p ≡ false → Goes f paths q
      still (inl k) e = inl k
      still (inr k) e = inr (ground (arith, eq_iff p q, eq_iff q p))

  gone :
      (f : String → Bool) (paths : List String) (s : Locks)
      → All (Goes f paths) s.taken
      → All (λ path. f path ≡ false) (unlock_all host paths s).taken
  unfolding unlock_all unlock
  gone f [] s h = All_imp _ _ (λ path g. one path g) s.taken h
    where
      one : (path : String) → Goes f [] path → f path ≡ false
      one path (inl e) = e
      one path (inr e) = cc
  gone f (p ∷ paths) s h = gone f paths (unlock host p s) (Goes-without f p paths s.taken h)

  filter-Goes : (f : String → Bool) (paths : List String) → All (Goes f (filter f paths)) paths
  filter-Goes f [] = tt
  filter-Goes f (p ∷ paths) = elim (Bool-cases (f p)) [
    | inl e ↦
        let kept : filter f (p ∷ paths) ≡ p ∷ filter f paths = rw e refl in
        subst (λ l. All (Goes f l) (p ∷ paths)) (sym kept)
          (
            inr (rw ((eq_iff p p).1 refl) refl),
            All_imp _ _ (λ path g. more path g) paths (filter-Goes f paths),
          )
    | inr e ↦
        let dropped : filter f (p ∷ paths) ≡ filter f paths = rw e refl in
        subst (λ l. All (Goes f l) (p ∷ paths)) (sym dropped) (inl e, filter-Goes f paths)
  ]
    where
      more : (path : String) → Goes f (filter f paths) path → Goes f (p ∷ filter f paths) path
      more path (inl k) = inl k
      more path (inr k) = inr (rw k (ground arith))

  both :
      (P Q : String → Type 0) (paths : List String)
      → All P paths
      → All Q paths
      → All (λ path. P path × Q path) paths
  both P Q [] h k = tt
  both P Q (p ∷ paths) (x, h) (y, k) = ((x, y), both P Q paths h k)

  dispose-IsCovered :
      (b id : ℕ) (rs : List ℕ) (s : Locks)
      → IsCovered host b (id ∷ rs) s
      → IsCovered host b rs (dispose host id s)
  unfolding dispose
  dispose-IsCovered b id rs s h =
      let paths = filter (contains (lock_dir host id)) s.taken in
      record {
        held = rw (unlock_all-held paths s) (
            All_imp _ _ (λ other (x, e). one_held other x e) _
              (All-filter_with (HeldFor host b (id ∷ rs)) (λ other. not (other == id)) s.held
                h.held));
        taken =
            All_imp _ _ (λ path (e, x). one_taken path x e) _
              (both _ (TakenFor host b (id ∷ rs)) (unlock_all host paths s).taken
                (gone (contains (lock_dir host id)) paths s
                  (filter-Goes (contains (lock_dir host id)) s.taken))
                (unlock_all_keeps (TakenFor host b (id ∷ rs)) paths s h.taken));
      }
    where
      one_held :
          (other : ℕ)
          → HeldFor host b (id ∷ rs) other
          → not (other == id) ≡ true
          → HeldFor host b rs other
      one_held other (inl e) n = inl e
      one_held other (inr (inl e)) n = absurd (ground arith)
      one_held other (inr (inr m)) n = inr m

      one_taken :
          (path : String)
          → TakenFor host b (id ∷ rs) path
          → contains (lock_dir host id) path ≡ false
          → TakenFor host b rs path
      one_taken path (inl e) n = inl e
      one_taken path (inr (inl e)) n = cc
      one_taken path (inr (inr m)) n = inr m

  dispose_all-IsFree :
      (b : ℕ) (rs : List ℕ) (s : Locks)
      → IsCovered host b rs s
      → IsFree host b (dispose_all host rs s)
  unfolding dispose_all
  dispose_all-IsFree b [] s h = record {
    held = All_imp _ _ (λ other x. no_held other x) s.held h.held;
    taken = All_imp _ _ (λ path x. no_taken path x) s.taken h.taken;
  }
    where
      no_held : (other : ℕ) → HeldFor host b [] other → (other == b) ≡ false
      no_held other (inl e) = e
      no_held other (inr m) = elim m [ ]

      no_taken : (path : String) → TakenFor host b [] path → contains (lock_dir host b) path ≡ false
      no_taken path (inl e) = e
      no_taken path (inr m) = elim m [ ]
  dispose_all-IsFree b (id ∷ rs) s h =
      dispose_all-IsFree b rs (dispose host id s) (dispose-IsCovered b id rs s h)

  Any-of_Member :
      (path : String) (b : ℕ) (rs : List ℕ)
      → Member b rs
      → contains (lock_dir host b) path ≡ true
      → Any (λ id. contains (lock_dir host id) path ≡ true) rs
  Any-of_Member path b [] m e = elim m [ ]
  Any-of_Member path b (id ∷ rs) (inl same) e = inl (rw same e)
  Any-of_Member path b (id ∷ rs) (inr m) e = inr (Any-of_Member path b rs m e)

  -- an app that is released is covered, whatever the locks are
  released-IsCovered : (b : ℕ) (rs : List ℕ) (s : Locks) → Member b rs → IsCovered host b rs s
  released-IsCovered b rs s m = record {
    held = All_intro (HeldFor host b rs) one_held s.held;
    taken = All_intro (TakenFor host b rs) one_taken s.taken;
  }
    where
      one_held : (other : ℕ) → HeldFor host b rs other
      one_held other = elim (Bool-cases (other == b)) [
        | inl e ↦ let same : b ≡ other = ground arith in inr (subst (λ x. Member x rs) same m)
        | inr e ↦ inl e
      ]

      one_taken : (path : String) → TakenFor host b rs path
      one_taken path = elim (Bool-cases (contains (lock_dir host b) path)) [
        | inl e ↦ inr (Any-of_Member path b rs m e)
        | inr e ↦ inl e
      ]

  free-IsCovered : (b : ℕ) (s : Locks) → IsFree host b s → IsCovered host b [] s
  free-IsCovered b s h = record {
    held = All_imp _ _ (λ other e. inl e) s.held h.held;
    taken = All_imp _ _ (λ path e. inl e) s.taken h.taken;
  }

  -- when all locks are taken, all are to be released
  acquire_next-done :
      (id : ℕ) (r : Outcome (Unit {0}) × Locks) (next : Locks → Acquired) (ids : List ℕ)
      → ((s : Locks) → (next s).outcome ≡ done tt → (next s).releases ≡ ids)
      → (acquire_next id r next).outcome ≡ done tt
      → (acquire_next id r next).releases ≡ id ∷ ids
  acquire_next-done id (done _, s) next ids k e = ap (λ l. id ∷ l) (k s e)
  acquire_next-done id (failed f, s) next ids k e = cc

  acquire-done :
      (force : Bool) (ids : List ℕ) (s : Locks)
      → (acquire host force ids s).outcome ≡ done tt
      → (acquire host force ids s).releases ≡ ids
  unfolding acquire
  acquire-done force [] s e = refl
  acquire-done force (id ∷ ids) s e = elim (Option-cases (host.folders id)) [
    | inl f ↦ absurd (failed_not_done (rw (f, acquire) at e))
    | inr (services, f) ↦
        rw (f, acquire)
          (acquire_next-done id _ (acquire host force ids) ids (acquire-done force ids)
            (rw (f, acquire) at e))
  ]
    where
      failed_not_done : ◌≡◌ {A = Outcome (Unit {0})} (failed lock_failed) (done tt) → ⊥
      failed_not_done h = cc

  run_locked-IsCovered {ℓ} :
      {A : Type ℓ} (b : ℕ) (rs : List ℕ) (outcome : Outcome (Unit {0}))
      (fn : Locks → Outcome A × Locks) (s : Locks)
      → (outcome ≡ done tt → Member b rs)
      → IsCovered host b rs s
      → IsCovered host b rs (run_locked host outcome fn s).1
  run_locked-IsCovered b rs (done _) fn s k h = released-IsCovered b rs (fn s).1 (k refl)
  run_locked-IsCovered b rs (failed e) fn s k h = h

sort_ids-Member : (host : Host) (b : ℕ) (ids : List ℕ) → Member b ids → Member b (sort_ids host ids)
unfolding sort_ids
sort_ids-Member host b ids m = sort_by-Any _ (λ id. id ≡ b) ids m

not_empty : (b : ℕ) (ids : List ℕ) → Member b ids → is_empty ids ≡ false
not_empty b [] m = elim m [ ]
not_empty b (id ∷ ids) m = refl

-- An app whose write lock is not held, and below whose folder no lock is taken, is in the same state
-- again after its locks, with those of any other apps, were asked for and released: whether they were
-- taken, could not be taken at some app, or the function that runs under them failed.
pub lock-IsFree {ℓ} :
    {A : Type ℓ} (host : Host) (b : ℕ) (ids : List ℕ) (force : Bool) (lock_override : Option Bool)
    (fn : Locks → Outcome A × Locks) (s : Locks)
    → Member b ids
    → IsFree host b s
    → IsFree host b (lock host ids force false lock_override fn s).1
unfolding lock
lock-IsFree host b ids force none fn s m h = rw (not_empty b ids m) h
lock-IsFree host b ids force (some override) fn s m h =
    let acquired = acquire host (force || override) (sort_ids host ids) s in
    rw (not_empty b ids m) (
      dispose_all-IsFree host b acquired.releases _ (
        run_locked-IsCovered host b acquired.releases acquired.outcome fn acquired.locks
          (λ e.
            rw (acquire-done host (force || override) (sort_ids host ids) s e)
              (sort_ids-Member host b ids m))
          (acquire-IsCovered host b (force || override) (sort_ids host ids) [] s
            (free-IsCovered host b s h))))
