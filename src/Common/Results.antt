-- ===== src/Common/Results.antt =====
-- Code that may throw: a result is a value or the exception that ended the call.
use Prim.Native.String.{String}
use mathlib.Core.List.{List, [], ◌∷◌}
use balena_supervisor.Common.Lists.{All}
use mathlib.Core.Option.{Option, none, some}
use mathlib.Core.Path.{◌≡◌, refl, subst}
use mathlib.Core.Logic.{inl, inr}
use balena_supervisor.Common.Members.{Member}

pub data Exception : Type 0 where
  -- reading a property of undefined
  type_error : Exception
  internal_inconsistency : (message : String) → Exception

-- What a call comes to: it throws, or it returns a value.
pub data Result {ℓ} (A : Type ℓ) : Type ℓ where
  thrown : Exception → Result A
  ok : (value : A) → Result A

-- What follows a call runs only if the call returns.
module _ {ℓ κ} {A : Type ℓ} {B : Type κ} where
  infixl 5 ◌>>=◌
  abbrev pub ◌>>=◌ : Result A → (A → Result B) → Result B
  thrown e >>= next = thrown e
  ok value >>= next = next value

  pub >>=-eq-ok :
      (call : Result A) (next : A → Result B) {b : B}
      → (call >>= next) ≡ ok b
      → (value : A) × (call ≡ ok value) × (next value ≡ ok b)
  >>=-eq-ok (thrown e) next h = cc
  >>=-eq-ok (ok value) next h = (value, refl, h)

-- a value that is used, and whose absence throws
abbrev pub or_type_error {ℓ} : {A : Type ℓ} → Option A → Result A
or_type_error none = thrown type_error
or_type_error (some a) = ok a

-- xs.map(f), where a call may throw
unfoldable pub map_result {ℓ κ} :
    {A : Type ℓ} {B : Type κ} → (A → Result B) → List A → Result (List B)
map_result f [] = ok []
map_result f (x ∷ xs) = do y ← f x; ys ← map_result f xs; ok (y ∷ ys)

module _ {ℓ κ} {A : Type ℓ} (P : A → Type κ) where
  -- P holds of the value, if there is one
  abbrev pub Ensures : Result A → Type κ
  Ensures (ok a) = P a
  Ensures (thrown e) = Unit

  pub at_ok : (r : Result A) (a : A) → Ensures r → r ≡ ok a → P a
  at_ok r a h e = rw e at h

module _ {ℓ κ} {A : Type ℓ} {B : Type κ} (f : A → Result B) where
  -- what holds of each value that the calls return holds of the list of them
  pub map_result-All {μ ν} :
      (Q : A → Type μ) (P : B → Type ν)
      → ((x : A) → Q x → Ensures P (f x))
      → (xs : List A) → All Q xs
      → Ensures (All P) (map_result f xs)
  unfolding map_result
  map_result-All Q P k [] h = tt
  map_result-All Q P k (x ∷ xs) (q, h) =
      extend (f x) (k x q) (map_result f xs) (map_result-All Q P k xs h)
    where
      extend :
          (r : Result B)
          → Ensures P r
          → (rs : Result (List B)) → Ensures (All P) rs
          → Ensures (All P) (r >>= λ y. rs >>= λ ys. ok (y ∷ ys))
      extend (thrown e) p rs ps = tt
      extend (ok y) p (thrown e) ps = tt
      extend (ok y) p (ok ys) ps = (p, ps)

  -- if no call throws, all the values are returned
  pub map_result_total :
      (xs : List A)
      → All (λ x. (y : B) × (f x ≡ ok y)) xs
      → (ys : List B) × (map_result f xs ≡ ok ys)
  unfolding map_result
  map_result_total [] h = ([], refl)
  map_result_total (x ∷ xs) ((y, e), h) =
      let (ys, es) = map_result_total xs h in (y ∷ ys, rw (e, es))

pub ok_injective {ℓ} : {A : Type ℓ} {a b : A} → ok a ≡ ok b → a ≡ b
ok_injective h = cc

-- the value of each call is in the list
pub map_result-Member :
    {A : Type 0} {B : Type 0} (f : A → Result B) (xs : List A) (ys : List B)
    → map_result f xs ≡ ok ys
    → (x : A) → Member x xs
    → (y : B) × (f x ≡ ok y) × Member y ys
unfolding map_result
map_result-Member f [] ys h x m = elim m [ ]
map_result-Member f (z ∷ xs) ys h x m =
    let (y, first, rest) = >>=-eq-ok (f z) _ h in
    let (zs, others, same) = >>=-eq-ok (map_result f xs) _ rest in
    elim m [
      | inl e ↦
          (y, subst (λ w. f w ≡ ok y) e first, subst (Member y) (ok_injective same) (inl refl))
      | inr k ↦
          let (w, call, among) = map_result-Member f xs zs others x k in
          (w, call, subst (Member w) (ok_injective same) (inr among))
    ]

pub Ensures-imp {ℓ κ μ} :
    {A : Type ℓ} (P : A → Type κ) (Q : A → Type μ)
    → ((a : A) → P a → Q a)
    → (r : Result A) → Ensures P r
    → Ensures Q r
Ensures-imp P Q k (ok a) h = k a h
Ensures-imp P Q k (thrown e) h = tt

pub or_type_error-eq-ok {ℓ} :
    {A : Type ℓ} (o : Option A) (a : A) → or_type_error o ≡ ok a → o ≡ some a
or_type_error-eq-ok none a h = cc
or_type_error-eq-ok (some b) a h = cc

-- The call returns a value.
abbrev pub Returns {ℓ} : {A : Type ℓ} → Result A → Type ℓ
Returns {A} r = (a : A) × (r ≡ ok a)

-- what is computed from a value that is returned is returned
pub Returns-map {ℓ κ} :
    {A : Type ℓ} {B : Type κ} (m : Result A) (f : A → B) → Returns m → Returns (m >>= λ a. ok (f a))
Returns-map m f (a, e) = (f a, rw e)

pub Returns-bind {ℓ κ} :
    {A : Type ℓ} {B : Type κ} (m : Result A) (f : A → Result B)
    → (r : Returns m) → Returns (f r.0)
    → Returns (m >>= f)
Returns-bind m f (a, e) h = rw e h

-- what holds of the value wherever there is one
pub Ensures-ok {ℓ κ} :
    {A : Type ℓ} (P : A → Type κ) (r : Result A) → ((a : A) → r ≡ ok a → P a) → Ensures P r
Ensures-ok P (thrown e) k = tt
Ensures-ok P (ok a) k = k a refl
