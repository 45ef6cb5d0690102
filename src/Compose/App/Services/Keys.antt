-- ===== src/Compose/App/Services/Keys.antt =====
-- lodash's `keyBy` of services: its keys are their names, and its values are theirs.
use balena_supervisor.Common.{
  String, ◌||◌, List, [], ◌∷◌, ◌≡◌, refl, inl, inr, arith, str_eq, eq_iff, any, All, All_of_Member,
  Member, Bool-cases,
}
use balena_supervisor.Common.Texts.{includes}
use balena_supervisor.Compose.Service.{Service}
use balena_supervisor.Compose.App.Services.{ByName, put, key_by_from, key_by, keys, is_named}

module _ (P : String → Service → Type 0) where
  abbrev pub Entry : String × Service → Type 0
  Entry (k, s) = P k s

  All-put :
      (name : String) (s : Service) (acc : ByName)
      → P name s
      → All Entry acc
      → All Entry (put name s acc)
  All-put name s [] p h = (p, tt)
  All-put name s ((n, t) ∷ rest) p (q, h) = elim (Bool-cases (str_eq n name)) [
    | inl e ↦ rw e (p, h)
    | inr e ↦ rw e (q, All-put name s rest p h)
  ]

  All-key_by_from :
      (acc : ByName) (xs : List Service)
      → All Entry acc
      → All (λ s. P s.service_name s) xs
      → All Entry (key_by_from acc xs)
  unfolding key_by_from
  All-key_by_from acc [] h k = h
  All-key_by_from acc (s ∷ xs) h (p, k) =
      All-key_by_from (put s.service_name s acc) xs (All-put s.service_name s acc p h) k

-- An entry is one of the services, under its name.
pub key_by-All :
    (xs : List Service) → All (λ (k, s). (k ≡ s.service_name) × Member s xs) (key_by xs)
key_by-All xs =
    All-key_by_from (λ k s. (k ≡ s.service_name) × Member s xs) [] xs tt
      (All_of_Member _ xs (λ s m. (refl, m)))

includes-put :
    (name : String) (s : Service) (acc : ByName) (m : String)
    → includes (keys (put name s acc)) m ≡ (str_eq name m || includes (keys acc) m)
includes-put name s [] m = ground arith
includes-put name s ((n, t) ∷ rest) m =
    ground (arith, eq_iff n name, eq_iff n m, eq_iff name m, includes-put name s rest m)

includes-key_by_from :
    (acc : ByName) (xs : List Service) (m : String)
    → includes (keys (key_by_from acc xs)) m ≡ (includes (keys acc) m || any (is_named m) xs)
unfolding key_by_from
includes-key_by_from acc [] m = ground arith
includes-key_by_from acc (s ∷ xs) m = ground (
  arith,
  includes-key_by_from (put s.service_name s acc) xs m,
  includes-put s.service_name s acc m,
)

-- The keys are the names of the services.
pub includes-key_by :
    (xs : List Service) (m : String) → includes (keys (key_by xs)) m ≡ any (is_named m) xs
includes-key_by xs m = includes-key_by_from [] xs m
