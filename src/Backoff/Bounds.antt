-- ===== src/Backoff/Bounds.antt =====
-- lib/backoff.ts: how often a call is retried, and how long is waited.
use balena_supervisor.Common.{
  ℕ, suc, ◌-◌, ◌≤◌, false, List, [], ◌∷◌, Option, none, some, ◌≡◌, inl, inr, arith, Bool-cases, All,
  length, leb,
}
use balena_supervisor.Backoff.{
  Outcome, returned, failed, Options, exponential_range, is_exhausted, delay, retried, with_backoff,
}

-- The call does not say when to try again.
abbrev pub IsUnscheduled {ℓ} : {A : Type ℓ} → Outcome A → Type 0
IsUnscheduled (returned a) = Unit
IsUnscheduled (failed retry_after) = retry_after ≡ none

exponential_range-le : (k low high : ℕ) → exponential_range k low high ≤ high
unfolding exponential_range
exponential_range-le k low high = omega arith

delay-le : (o : Options) (r : Option ℕ) → r ≡ none → delay o r ≤ o.max_delay
unfolding delay
delay-le o none e = exponential_range-le o.retry_count o.min_delay o.max_delay
delay-le o (some n) e = cc

exhausted_le : (m n : ℕ) → leb m n ≡ false → suc n ≤ m
exhausted_le m n h = ground arith

not_exhausted :
    (o : Options) (m : ℕ) → o.max_retries ≡ some m → is_exhausted o ≡ false → suc o.retry_count ≤ m
not_exhausted o m e h = exhausted_le m o.retry_count (rw e at h)

module _ {ℓ} {A : Type ℓ} where
  -- Whatever the outcomes, no delay is longer than the maximum unless an error asks for it.
  pub with_backoff-le :
      (o : Options) (outcomes : List (Outcome A))
      → All IsUnscheduled outcomes
      → All (λ w. w ≤ o.max_delay) (with_backoff o outcomes).waits
  unfolding with_backoff
  with_backoff-le o [] h = tt
  with_backoff-le o (returned a ∷ rest) h = tt
  with_backoff-le o (failed r ∷ rest) (u, h) = elim (Bool-cases (is_exhausted o)) [
    | inl e ↦ rw (e, with_backoff) tt
    | inr e ↦ rw (e, with_backoff) (delay-le o r u, with_backoff-le (retried o) rest h)
  ]

  -- The number of delays is at most the number of retries that are left.
  pub length-with_backoff-le :
      (o : Options) (m : ℕ) (outcomes : List (Outcome A))
      → o.max_retries ≡ some m
      → length (with_backoff o outcomes).waits ≤ m - o.retry_count
  unfolding with_backoff
  length-with_backoff-le o m [] e = omega arith
  length-with_backoff-le o m (returned a ∷ rest) e = omega arith
  length-with_backoff-le o m (failed r ∷ rest) e = elim (Bool-cases (is_exhausted o)) [
    | inl d ↦ rw (d, with_backoff) (omega arith)
    | inr d ↦
        let left = not_exhausted o m e d in
        rw (d, with_backoff) (omega (arith, left, length-with_backoff-le (retried o) m rest e))
  ]
