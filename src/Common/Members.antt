-- ===== src/Common/Members.antt =====
-- Lists by their members and positions, and what holds of all elements of a list.
use Prim.Native.Nat.{ℕ, zero, suc}
use mathlib.Core.Bool.{Bool, true, false}
use mathlib.Core.Logic.{inl, inr}
use mathlib.Core.Option.{Option, none, some}
use mathlib.Core.List.{List, [], ◌∷◌, ◌++◌, map, flat_map}
use mathlib.Core.Path.{◌≡◌, refl, ap, sym, subst}
use native.Mathlib.Omega.{arith}
use balena_supervisor.Common.Tests.{if◌then◌else◌, Bool-cases}
use balena_supervisor.Common.Options.{is_some}
use balena_supervisor.Common.Lists.{
  is_empty, any, filter, find, compact, All, Any, All-append, All-filter_self,
}

-- Membership, and lists indexed by position.
module _ {A : Type 0} where
  abbrev pub Member : A → List A → Type 0
  Member x xs = Any (λ y. y ≡ x) xs

  abbrev pub get_elem? : List A → ℕ → Option A
  get_elem? [] i = none
  get_elem? (x ∷ xs) zero = some x
  get_elem? (x ∷ xs) (suc i) = get_elem? xs i

  -- what is proved of a member holds of all
  pub All_of_Member {κ} : (P : A → Type κ) (xs : List A) → ((x : A) → Member x xs → P x) → All P xs
  All_of_Member P [] k = tt
  All_of_Member P (x ∷ xs) k = (k x (inl refl), All_of_Member P xs (λ y m. k y (inr m)))

  pub All-Member {κ} : (P : A → Type κ) (xs : List A) → All P xs → (x : A) → Member x xs → P x
  All-Member P [] _ x m = elim m [ ]
  All-Member P (y ∷ ys) (p, h) x (inl e) = subst P e p
  All-Member P (y ∷ ys) (p, h) x (inr m) = All-Member P ys h x m

  pub find-Member : (p : A → Bool) (xs : List A) (x : A) → find p xs ≡ some x → Member x xs
  find-Member p [] x h = cc
  find-Member p (y ∷ ys) x h = elim (Bool-cases (p y)) [
    | inl e ↦ inl (let same : some y ≡ some x = rw (e, if◌then◌else◌) at h in ground arith)
    | inr e ↦ inr (find-Member p ys x (ground arith))
  ]

  pub Member-filter : (p : A → Bool) (xs : List A) (x : A) → Member x (filter p xs) → Member x xs
  Member-filter p [] x m = m
  Member-filter p (y ∷ ys) x m = elim (Bool-cases (p y)) [
    | inl e ↦ elim (rw (e, if◌then◌else◌) at m) as (λ _. Member x (y ∷ ys)) [
      | inl h ↦ inl h
      | inr h ↦ inr (Member-filter p ys x h)
    ]
    | inr e ↦ inr (Member-filter p ys x (rw (e, if◌then◌else◌) at m))
  ]

  pub Member-get_elem? : (xs : List A) (i : ℕ) (x : A) → get_elem? xs i ≡ some x → Member x xs
  Member-get_elem? [] i x h = cc
  Member-get_elem? (y ∷ ys) zero x h = inl (ground arith)
  Member-get_elem? (y ∷ ys) (suc i) x h = inr (Member-get_elem? ys i x h)

  pub get_elem?-Member : (xs : List A) (x : A) → Member x xs → (i : ℕ) × (get_elem? xs i ≡ some x)
  get_elem?-Member [] x m = elim m [ ]
  get_elem?-Member (y ∷ ys) x (inl e) = (0, ap some e)
  get_elem?-Member (y ∷ ys) x (inr m) = let (i, e) = get_elem?-Member ys x m in (suc i, e)

  pub any_of_Member :
      (p : A → Bool) (xs : List A) (x : A) → Member x xs → p x ≡ true → any p xs ≡ true
  any_of_Member p [] x m h = elim m [ ]
  any_of_Member p (y ∷ ys) x (inl e) h = rw (e, h)
  any_of_Member p (y ∷ ys) x (inr m) h = ground (arith, any_of_Member p ys x m h)

  pub Member-of_any :
      (p : A → Bool) (xs : List A) → any p xs ≡ true → (x : A) × Member x xs × (p x ≡ true)
  Member-of_any p [] h = cc
  Member-of_any p (y ∷ ys) h = elim (Bool-cases (p y)) [
    | inl e ↦ (y, inl refl, e)
    | inr e ↦ let (x, m, k) = Member-of_any p ys (ground arith) in (x, inr m, k)
  ]

module _ {ℓ κ μ} {A : Type ℓ} {B : Type κ} (P : B → Type μ) (f : A → B) where
  pub All-map_of : (xs : List A) → All (λ x. P (f x)) xs → All P (map f xs)
  All-map_of [] h = tt
  All-map_of (x ∷ xs) (p, h) = (p, All-map_of xs h)

-- P of the value, if there is one
abbrev pub IfSome {ℓ κ} : {A : Type ℓ} → (A → Type κ) → Option A → Type κ
IfSome P none = Unit
IfSome P (some x) = P x

pub All-compact {ℓ κ} :
    {A : Type ℓ} (P : A → Type κ) (xs : List (Option A)) → All (IfSome P) xs → All P (compact xs)
All-compact P [] h = tt
All-compact P (none ∷ xs) (_, h) = All-compact P xs h
All-compact P (some x ∷ xs) (p, h) = (p, All-compact P xs h)

-- what a filter keeps stands in the list and passes the test
pub All-filter-Member :
    {A : Type 0} (p : A → Bool) (xs : List A) → All (λ x. Member x xs × (p x ≡ true)) (filter p xs)
All-filter-Member p xs = All_of_Member _ (filter p xs) λ x m. (
  Member-filter p xs x m,
  All-Member (λ y. p y ≡ true) (filter p xs) (All-filter_self (λ y. p y ≡ true) p (λ y e. e) xs) x
      m,
)

pub is_some-find {ℓ} : {A : Type ℓ} (p : A → Bool) (xs : List A) → is_some (find p xs) ≡ any p xs
is_some-find p [] = refl
is_some-find p (x ∷ xs) = ground (arith, is_some-find p xs)

pub map-eq-nil {ℓ κ} : {A : Type ℓ} {B : Type κ} (f : A → B) (xs : List A) → map f xs ≡ [] → xs ≡ []
map-eq-nil f [] h = refl
map-eq-nil f (x ∷ xs) h = cc

module _ {ℓ κ μ} {A : Type ℓ} {B : Type κ} (P : B → Type μ) (f : A → List B) where
  pub All-flat_map_of : (xs : List A) → All (λ x. All P (f x)) xs → All P (flat_map f xs)
  unfolding flat_map
  All-flat_map_of [] h = tt
  All-flat_map_of (x ∷ xs) (p, h) = All-append P (f x) (flat_map f xs) p (All-flat_map_of xs h)

pub filter_empty {ℓ} :
    {A : Type ℓ} (p : A → Bool) (xs : List A) → is_empty (filter p xs) ≡ true → any p xs ≡ false
filter_empty p [] h = refl
filter_empty p (x ∷ xs) h = ground (arith, filter_empty p xs)

module _ {ℓ κ} {A : Type ℓ} (P : A → Type κ) where
  pub All-middle : (x : A) (xs ys : List A) → P x → All P (xs ++ ys) → All P (xs ++ x ∷ ys)
  All-middle x [] ys p h = (p, h)
  All-middle x (z ∷ xs) ys p (q, h) = (q, All-middle x xs ys p h)

  pub All-unmiddle : (x : A) (xs ys : List A) → All P (xs ++ x ∷ ys) → P x × All P (xs ++ ys)
  All-unmiddle x [] ys h = h
  All-unmiddle x (z ∷ xs) ys (q, h) = let (p, k) = All-unmiddle x xs ys h in (p, (q, k))

  pub All-filter_with :
      (p : A → Bool) (xs : List A) → All P xs → All (λ x. P x × (p x ≡ true)) (filter p xs)
  All-filter_with p [] h = tt
  All-filter_with p (x ∷ xs) (q, h) = elim (Bool-cases (p x)) [
    | inl e ↦ rw e ((q, e), All-filter_with p xs h)
    | inr e ↦ rw e (All-filter_with p xs h)
  ]

  pub All_of_append : (xs ys : List A) → All P (xs ++ ys) → All P xs × All P ys
  All_of_append [] ys h = (tt, h)
  All_of_append (x ∷ xs) ys (p, h) = let (a, b) = All_of_append xs ys h in ((p, a), b)

  pub All_of_compact : (xs : List (Option A)) → All P (compact xs) → All (IfSome P) xs
  All_of_compact [] h = tt
  All_of_compact (none ∷ xs) h = (tt, All_of_compact xs h)
  All_of_compact (some x ∷ xs) (p, h) = (p, All_of_compact xs h)

pub All_of_map {ℓ κ μ} :
    {A : Type ℓ} {B : Type κ} (P : B → Type μ) (f : A → B) (xs : List A)
    → All P (map f xs)
    → All (λ x. P (f x)) xs
All_of_map P f [] h = tt
All_of_map P f (x ∷ xs) (p, h) = (p, All_of_map P f xs h)

-- The first element that passes a test.
pub record IsFirst {ℓ} {A : Type ℓ} (p : A → Bool) (xs : List A) (x : A) : Type ℓ where
  pub before : List A
  pub after : List A
  pub whole : xs ≡ before ++ x ∷ after
  pub passes : p x ≡ true
  pub none_before : All (λ y. p y ≡ false) before

module _ {ℓ} {A : Type ℓ} (p : A → Bool) where
  find-append :
      (x : A) (before after : List A)
      → p x ≡ true
      → All (λ y. p y ≡ false) before
      → find p (before ++ x ∷ after) ≡ some x
  find-append x [] after e h = rw e refl
  find-append x (y ∷ before) after e (n, h) = rw (n, find-append x before after e h) refl

  pub find-IsFirst : (xs : List A) (x : A) → IsFirst p xs x → find p xs ≡ some x
  find-IsFirst xs x h = rw h.whole (find-append x h.before h.after h.passes h.none_before)

  pub find-All : (xs : List A) → All (λ x. p x ≡ false) xs → find p xs ≡ none
  find-All [] h = refl
  find-All (x ∷ xs) (n, h) = rw (n, find-All xs h) refl

-- what holds of what a filter keeps holds of the elements that pass its test
pub All_of_filter {ℓ κ} :
    {A : Type ℓ} (P : A → Type κ) (p : A → Bool) (xs : List A)
    → All P (filter p xs)
    → All (λ x. p x ≡ true → P x) xs
All_of_filter P p [] h = tt
All_of_filter P p (x ∷ xs) h = elim (Bool-cases (p x)) [
  | inl e ↦ let (q, k) : P x × All P (filter p xs) = rw e at h in (λ _. q, All_of_filter P p xs k)
  | inr e ↦ (λ f. cc, All_of_filter P p xs (rw e at h))
]

-- Members of lists that are built from other lists.
module _ {A : Type 0} where
  pub Member-append_left : (x : A) (xs ys : List A) → Member x xs → Member x (xs ++ ys)
  Member-append_left x [] ys m = elim m [ ]
  Member-append_left x (z ∷ xs) ys (inl e) = inl e
  Member-append_left x (z ∷ xs) ys (inr m) = inr (Member-append_left x xs ys m)

  pub Member-append_right : (x : A) (xs ys : List A) → Member x ys → Member x (xs ++ ys)
  Member-append_right x [] ys m = m
  Member-append_right x (z ∷ xs) ys m = inr (Member-append_right x xs ys m)

  pub Member-of_filter :
      (p : A → Bool) (xs : List A) (x : A) → Member x xs → p x ≡ true → Member x (filter p xs)
  Member-of_filter p [] x m h = elim m [ ]
  Member-of_filter p (y ∷ ys) x (inl e) h = rw (subst (λ z. p z ≡ true) (sym e) h) (inl e)
  Member-of_filter p (y ∷ ys) x (inr m) h = elim (Bool-cases (p y)) [
    | inl e ↦ rw e (inr (Member-of_filter p ys x m h))
    | inr e ↦ rw e (Member-of_filter p ys x m h)
  ]

module _ {A : Type 0} {B : Type 0} where
  pub Member-map : (f : A → B) (xs : List A) (x : A) → Member x xs → Member (f x) (map f xs)
  Member-map f [] x m = elim m [ ]
  Member-map f (y ∷ ys) x (inl e) = inl (ap f e)
  Member-map f (y ∷ ys) x (inr m) = inr (Member-map f ys x m)

  pub Member-flat_map :
      (f : A → List B) (xs : List A) (x : A) (y : B)
      → Member x xs
      → Member y (f x)
      → Member y (flat_map f xs)
  unfolding flat_map
  Member-flat_map f [] x y m h = elim m [ ]
  Member-flat_map f (z ∷ xs) x y (inl e) h =
      Member-append_left y (f z) (flat_map f xs) (subst (λ w. Member y (f w)) (sym e) h)
  Member-flat_map f (z ∷ xs) x y (inr m) h =
      Member-append_right y (f z) (flat_map f xs) (Member-flat_map f xs x y m h)
