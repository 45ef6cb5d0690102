-- ===== src/Compose/ApplicationManager/Downloads/Bounds.antt =====
-- compose/application-manager.ts: how many downloads the limit lets through, and what else it keeps.
use balena_supervisor.Common.{
  ℕ, zero, suc, ◌+◌, ◌-◌, ◌≤◌, Bool, true, ◌&&◌, not, List, [], ◌∷◌, ◌≡◌, refl, ◌⊎◌, inl, inr,
  arith, ap, filter, length, and-elim, Bool-cases, All,
}
use balena_supervisor.Compose.Images.{Image}
use balena_supervisor.Compose.Steps.{CompositionStep, fetch, is_fetch, noop}
use balena_supervisor.Compose.ApplicationManager.Downloads.{
  is_positive, max_delta_downloads, is_update_fetch, block_downloads, count_fetches, limit_deltas,
  keep_alive,
}

-- the downloads for apps that have an image already, which may be deltas
abbrev pub count_updates : List Image → List CompositionStep → ℕ
count_updates available steps = length (filter (is_update_fetch available) steps)

is_fetch_of_update :
    (available : List Image) (step : CompositionStep)
    → is_update_fetch available step ≡ true
    → is_fetch step ≡ true
is_fetch_of_update available (fetch image name) h = refl
is_fetch_of_update available _ h = cc

suc-sub : (n : ℕ) → suc n - 1 ≡ n
suc-sub n = omega arith

zero_or_positive : (n : ℕ) → (n ≡ 0) ⊎ (is_positive n ≡ true)
zero_or_positive zero = inl refl
zero_or_positive (suc n) = inr refl

module _ (available : List Image) where
  block_downloads-zero : (steps : List CompositionStep) → block_downloads available 0 steps ≡ steps
  unfolding block_downloads
  block_downloads-zero [] = refl
  block_downloads-zero (s ∷ steps) = ap (λ rest. s ∷ rest) (block_downloads-zero steps)

  count_updates-le :
      (steps : List CompositionStep) → count_updates available steps ≤ count_fetches steps
  count_updates-le [] = omega arith
  count_updates-le (s ∷ steps) = elim (Bool-cases (is_update_fetch available s)) [
    | inl e ↦ rw (e, is_fetch_of_update available s e) (omega (arith, count_updates-le steps))
    | inr e ↦ elim (Bool-cases (is_fetch s)) [
      | inl f ↦ rw (e, f) (omega (arith, count_updates-le steps))
      | inr f ↦ rw (e, f) (count_updates-le steps)
    ]
  ]

  -- either all that may be blocked is blocked, or as much as was asked for
  block_downloads-cases :
      (block : ℕ) (steps : List CompositionStep)
      → (count_updates available (block_downloads available block steps) ≡ 0)
        ⊎ (count_fetches (block_downloads available block steps) + block ≡ count_fetches steps)
  unfolding block_downloads
  block_downloads-cases zero steps = inr (rw (block_downloads-zero steps) (omega arith))
  block_downloads-cases (suc block) [] = inl refl
  block_downloads-cases (suc block) (s ∷ steps) = elim (Bool-cases (is_update_fetch available s)) [
    | inl e ↦
        rw (e, is_fetch_of_update available s e, block_downloads, suc-sub block)
          (elim (block_downloads-cases block steps) [
            | inl none_left ↦ inl none_left
            | inr enough ↦ inr (omega (arith, enough))
          ])
    | inr e ↦
        rw (e, block_downloads)
          (elim (block_downloads-cases (suc block) steps) [
            | inl none_left ↦ inl (rw e none_left)
            | inr enough ↦ inr (elim (Bool-cases (is_fetch s)) [
              | inl f ↦ rw f (omega (arith, enough))
              | inr f ↦ rw f enough
            ])
          ])
  ]

  -- what is no download is kept
  block_downloads-others :
      (block : ℕ) (steps : List CompositionStep)
      → filter (λ s. not (is_fetch s)) (block_downloads available block steps)
        ≡ filter (λ s. not (is_fetch s)) steps
  unfolding block_downloads
  block_downloads-others block [] = refl
  block_downloads-others block (s ∷ steps) =
      elim (Bool-cases (is_positive block && is_update_fetch available s)) [
        | inl e ↦
            rw (e, block_downloads, is_fetch_of_update available s (and-elim _ _ e).1)
              (block_downloads-others (block - 1) steps)
        | inr e ↦
            rw (e, block_downloads)
              (elim (Bool-cases (is_fetch s)) [
                | inl f ↦ rw f (block_downloads-others block steps)
                | inr f ↦ rw f (ap (λ rest. s ∷ rest) (block_downloads-others block steps))
              ])
      ]

  -- Where deltas are limited, no update is downloaded or at most three downloads run at once.
  pub limit_deltas-le :
      (downloading : ℕ) (steps : List CompositionStep)
      → (count_updates available (limit_deltas true downloading available steps) ≡ 0)
        ⊎ (downloading + count_fetches (limit_deltas true downloading available steps)
            ≤ max_delta_downloads)
  unfolding limit_deltas max_delta_downloads
  limit_deltas-le downloading steps = elim (zero_or_positive (count_fetches steps)) [
    | inl e ↦ inl (rw e (omega (arith, count_updates-le steps, e)))
    | inr e ↦ rw e (elim (block_downloads-cases (downloading + count_fetches steps - 3) steps) [
      | inl none_left ↦ inl none_left
      | inr enough ↦ inr (omega (arith, enough))
    ])
  ]

  -- The limit on deltas drops nothing but downloads and keeps the order of the other steps.
  pub limit_deltas-others :
      (delta : Bool) (downloading : ℕ) (steps : List CompositionStep)
      → filter (λ s. not (is_fetch s)) (limit_deltas delta downloading available steps)
        ≡ filter (λ s. not (is_fetch s)) steps
  unfolding limit_deltas
  limit_deltas-others delta downloading steps =
      elim (Bool-cases (delta && is_positive (count_fetches steps))) [
        | inl e ↦ rw e (block_downloads-others _ steps)
        | inr e ↦ rw e refl
      ]

  block_downloads-All :
      (P : CompositionStep → Type 0) (block : ℕ) (steps : List CompositionStep)
      → All P steps
      → All P (block_downloads available block steps)
  unfolding block_downloads
  block_downloads-All P block [] h = tt
  block_downloads-All P block (s ∷ steps) (p, h) =
      elim (Bool-cases (is_positive block && is_update_fetch available s)) [
        | inl e ↦ rw (e, block_downloads) (block_downloads-All P (block - 1) steps h)
        | inr e ↦ rw (e, block_downloads) (p, block_downloads-All P block steps h)
      ]

  -- what holds of all steps holds of those that are left
  pub limit_deltas-All :
      (P : CompositionStep → Type 0) (delta : Bool) (downloading : ℕ) (steps : List CompositionStep)
      → All P steps
      → All P (limit_deltas delta downloading available steps)
  unfolding limit_deltas
  limit_deltas-All P delta downloading steps h =
      elim (Bool-cases (delta && is_positive (count_fetches steps))) [
        | inl e ↦ rw e (block_downloads-All P _ steps h)
        | inr e ↦ rw e h
      ]

pub keep_alive-All :
    (P : CompositionStep → Type 0)
    → P noop
    → (downloading : ℕ) (steps : List CompositionStep) → All P steps
    → All P (keep_alive downloading steps)
unfolding keep_alive
keep_alive-All P idle zero [] h = tt
keep_alive-All P idle (suc n) [] h = (idle, tt)
keep_alive-All P idle downloading (s ∷ steps) h = h
