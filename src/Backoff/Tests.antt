-- ===== src/Backoff/Tests.antt =====
-- Retries on concrete outcomes.
use balena_supervisor.Common.{ℕ, List, [], ◌∷◌, none, some, ◌≡◌, refl}
use balena_supervisor.Backoff.{Outcome, returned, failed, Options, value, with_backoff}

abbrev options : Options
options = record { retry_count = 0; max_delay = 30; min_delay = 10; max_retries = some 3 }

abbrev failures : List (Outcome ℕ)
failures = failed none ∷ failed none ∷ failed none ∷ failed none ∷ []

waits : (with_backoff options failures).waits ≡ 10 ∷ 20 ∷ 30 ∷ []
unfolding with_backoff
waits = refl

ends : (with_backoff {A = ℕ} options (failed none ∷ returned 7 ∷ [])).ending ≡ value 7
unfolding with_backoff
ends = refl
