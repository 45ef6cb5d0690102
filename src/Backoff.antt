-- ===== src/Backoff.antt =====
-- lib/backoff.ts: a function is called again, after a delay, while it throws. The calls' outcomes
-- are given as a list.
pub mod Bounds
mod Tests
use balena_supervisor.Common.{
  ℕ, zero, suc, ◌*◌, ◌^◌, Bool, true, false, List, [], ◌∷◌, Option, none, some, leb, min,
}

-- A call returns or throws. The error of a RetryError says when to try again.
pub data Outcome {ℓ} (A : Type ℓ) : Type ℓ where
  returned : A → Outcome A
  failed : (retry_after : Option ℕ) → Outcome A

pub record Options : Type 0 where
  pub retry_count : ℕ
  pub max_delay : ℕ
  pub min_delay : ℕ
  -- none is Infinity
  pub max_retries : Option ℕ

unfoldable pub exponential_range : (retry_count min_delay max_delay : ℕ) → ℕ
exponential_range retry_count min_delay max_delay = min (2 ^ retry_count * min_delay) max_delay

-- How the calls end; with no more outcomes given, the function is still being retried.
pub data Ending {ℓ} (A : Type ℓ) : Type ℓ where
  value : A → Ending A
  too_many_retries : Ending A
  still_retrying : Ending A

-- the end, the delays before it, and the count of retries that is left in the options
pub record Run {ℓ} (A : Type ℓ) : Type ℓ where
  pub ending : Ending A
  pub waits : List ℕ
  pub retries : ℕ

-- retryCount >= maxRetries
abbrev pub is_exhausted : Options → Bool
is_exhausted o = elim o.max_retries [ none ↦ false | some m ↦ leb m o.retry_count ]

unfoldable pub delay : Options → Option ℕ → ℕ
unfolding exponential_range
delay o (some retry_after) = retry_after
delay o none = exponential_range o.retry_count o.min_delay o.max_delay

abbrev pub ended {ℓ} : {A : Type ℓ} → Options → Ending A → Run A
ended o e = record { ending = e; waits = []; retries = o.retry_count }

abbrev pub after_wait {ℓ} : {A : Type ℓ} → ℕ → Run A → Run A
after_wait w run = record run { waits = w ∷ run.waits }

abbrev pub retried : Options → Options
retried o = record o { retry_count = suc o.retry_count }

-- `wrapped`, the function that withBackoff returns
unfoldable pub with_backoff {ℓ} : {A : Type ℓ} → Options → List (Outcome A) → Run A
unfolding delay
with_backoff o [] = ended o still_retrying
with_backoff o (returned a ∷ rest) = ended o (value a)
with_backoff o (failed retry_after ∷ rest) = elim (is_exhausted o) [
  | true ↦ ended o too_many_retries
  | false ↦ after_wait (delay o retry_after) (with_backoff (retried o) rest)
]
