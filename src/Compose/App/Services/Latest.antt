-- ===== src/Compose/App/Services/Latest.antt =====
-- compose/app.ts: the container that stands for a service is the latest one.
use balena_supervisor.Common.{
  ℕ, true, false, List, [], ◌∷◌, ◌++◌, Option, none, some, ◌≡◌, refl, ap, subst, inl, inr, arith,
  All, All-middle, some_injective, Bool-cases, Option-cases, All_imp,
}
use balena_supervisor.Common.Results.{ok, ok_injective, or_type_error, or_type_error-eq-ok}
use balena_supervisor.Compose.Service.{Service}
use balena_supervisor.Compose.App.Services.{
  created_no_later, with_container, split_latest, pick_current,
}

abbrev pub IsNoLater : Service → Service → Type 0
IsNoLater latest other = created_no_later other.created_at latest.created_at ≡ true

-- The containers of a service are one that is kept and others that are spurious, of which none was
-- created later.
pub record IsPicked (containers : List Service) (c : Service) (others : List Service) : Type 0 where
  pub before : List Service
  pub after : List Service
  pub whole : containers ≡ before ++ c ∷ after
  pub rest : others ≡ before ++ after
  pub newest : All (IsNoLater c) others

IsUndated : Service → Type 0
IsUndated s = s.created_at ≡ none

-- with no date there is no latest container
split_latest-none : (xs : List Service) → split_latest xs ≡ none → All (λ s. s.created_at ≡ none) xs
unfolding split_latest
split_latest-none [] h = tt
split_latest-none (s ∷ xs) h = elim (Option-cases (split_latest xs)) [
  | inl e ↦ (ground arith, split_latest-none xs e)
  | inr (p, e) ↦ ground arith
]

IsNoLater-of_undated :
    (latest : Service) (t : ℕ)
    → latest.created_at ≡ some t
    → (other : Service) → other.created_at ≡ none
    → IsNoLater latest other
IsNoLater-of_undated latest t h other e = ground arith

no_later_trans :
    (a b c : Option ℕ)
    → created_no_later a b ≡ true
    → created_no_later b c ≡ true
    → created_no_later a c ≡ true
no_later_trans a b c h k = ground arith

no_later_total :
    (a b : Option ℕ) (t : ℕ)
    → a ≡ some t
    → created_no_later a b ≡ false
    → created_no_later b a ≡ true
no_later_total a b t e h = ground arith

abbrev IsDated : List Service → Service → List Service → Type 0
IsDated xs latest others = ((t : ℕ) × (latest.created_at ≡ some t)) × IsPicked xs latest others

IsDated-first :
    (s : Service) (t : ℕ) (xs : List Service)
    → s.created_at ≡ some t
    → All (IsNoLater s) xs
    → IsDated (s ∷ xs) s xs
IsDated-first s t xs e h =
    ((t, e), record { before = []; after = xs; whole = refl; rest = refl; newest = h })

IsDated-later :
    (s latest : Service) (xs others : List Service)
    → IsDated xs latest others
    → IsNoLater latest s
    → IsDated (s ∷ xs) latest (s ∷ others)
IsDated-later s latest xs others (t, p) h = (
  t,
  record {
    before = s ∷ p.before;
    after = p.after;
    whole = ap (λ l. s ∷ l) p.whole;
    rest = ap (λ l. s ∷ l) p.rest;
    newest = (h, p.newest);
  },
)

all-IsNoLater :
    (s b : Service) (xs r : List Service) → IsPicked xs b r → IsNoLater s b → All (IsNoLater s) xs
all-IsNoLater s b xs r p h = rw p.whole (
    All-middle (IsNoLater s) b p.before p.after h (
      rw p.rest at (
        All_imp (IsNoLater b) (IsNoLater s) (λ o k. no_later_trans _ b.created_at _ k h) r
          p.newest)))

IsDated-same :
    (xs : List Service) (a : Service) (r : List Service) (b : Service) (q : List Service)
    → ◌≡◌ {A = Option (Service × List Service)} (some (a, r)) (some (b, q))
    → IsDated xs a r
    → IsDated xs b q
IsDated-same xs a r b q e d = subst (λ p. IsDated xs p.0 p.1) (some_injective e) d

dated_of_later : (a b : Option ℕ) → created_no_later a b ≡ true → (t : ℕ) × (b ≡ some t)
dated_of_later a none h = cc
dated_of_later a (some t) h = (t, refl)

with_container-none :
    (s latest : Service) (xs others : List Service)
    → All (λ o. o.created_at ≡ none) xs
    → with_container s xs none ≡ some (latest, others)
    → IsDated (s ∷ xs) latest others
with_container-none s latest xs others undated h = elim (Option-cases s.created_at) [
  | inl e ↦ let no_value = rw (e, with_container) at h in cc
  | inr (t, e) ↦
      IsDated-same (s ∷ xs) s xs latest others (rw (e, with_container) at h)
        (IsDated-first s t xs e (All_imp _ _ (IsNoLater-of_undated s t e) xs undated))
]

with_container-some :
    (s b latest : Service) (xs r others : List Service)
    → IsDated xs b r
    → with_container s xs (some (b, r)) ≡ some (latest, others)
    → IsDated (s ∷ xs) latest others
with_container-some s b latest xs r others d h =
    elim (Bool-cases (created_no_later b.created_at s.created_at)) [
      | inl e ↦
          let (t, et) = dated_of_later b.created_at s.created_at e in
          IsDated-same (s ∷ xs) s xs latest others (rw (e, with_container) at h)
            (IsDated-first s t xs et (all-IsNoLater s b xs r d.1 e))
      | inr e ↦
          let ((t, et), _) = d in
          IsDated-same (s ∷ xs) b (s ∷ r) latest others (rw (e, with_container) at h)
            (IsDated-later s b xs r d (no_later_total b.created_at s.created_at t et e))
    ]

split_latest-IsDated :
    (xs : List Service) (latest : Service) (others : List Service)
    → split_latest xs ≡ some (latest, others)
    → IsDated xs latest others
unfolding split_latest
split_latest-IsDated [] latest others h = cc
split_latest-IsDated (s ∷ xs) latest others h = elim (Option-cases (split_latest xs)) [
  | inl e ↦ with_container-none s latest xs others (split_latest-none xs e) (rw e at h)
  | inr (p, e) ↦
      with_container-some s p.0 latest xs p.1 others (split_latest-IsDated xs p.0 p.1 e) (rw e at h)
]

-- The container that stands for a service is the latest of those of its name.
pub pick_current-IsPicked :
    (xs : List Service) (c : Service) (others : List Service)
    → pick_current xs ≡ ok (c, others)
    → IsPicked xs c others
unfolding pick_current
pick_current-IsPicked [] c others h = cc
pick_current-IsPicked (s ∷ []) c others h =
    subst (λ (p : Service × List Service). IsPicked (s ∷ []) p.0 p.1) (ok_injective h)
      (record { before = []; after = []; whole = refl; rest = refl; newest = tt })
pick_current-IsPicked (s ∷ t ∷ rest) c others h =
    (split_latest-IsDated (s ∷ t ∷ rest) c others (or_type_error-eq-ok _ _ h)).1

-- A container can be picked wherever there is one and all have a date of creation.
pub pick_current_total :
    (s : Service) (xs : List Service)
    → All (λ o. (t : ℕ) × (o.created_at ≡ some t)) (s ∷ xs)
    → (p : Service × List Service) × (pick_current (s ∷ xs) ≡ ok p)
unfolding pick_current
pick_current_total s [] h = ((s, []), refl)
pick_current_total s (t ∷ xs) h = elim (Option-cases (split_latest (s ∷ t ∷ xs))) [
  | inl e ↦ absurd (cc (h.0.1, (split_latest-none (s ∷ t ∷ xs) e).0))
  | inr (p, e) ↦ (p, ap or_type_error e)
]
