-- ===== src/Compose/Service/Comparison/Modes.antt =====
-- compose/service.ts: the network modes of a container and of its target.
use balena_supervisor.Common.{
  String, Bool, true, false, ◌&&◌, Option, none, some, str_eq, some_and, if◌then◌else◌, ◌≡◌, refl,
  sym, ◌↔◌, inl, inr, arith, eq_iff, Bool-cases, Option-cases, some_injective, ◌∙◌, ap,
}
use balena_supervisor.Common.Equality.{nat_eq, int_eq, string_eq, bool_eq, option_eq, list_eq}
use balena_supervisor.Common.Dicts.{Dict, lookup}
use balena_supervisor.Compose.ServiceTypes.{ServiceConfig}
use balena_supervisor.Compose.ServiceTypes.Equality.{
  range_eq, volume_eq, healthcheck_eq, device_eq, ulimit_eq, words_eq,
}
use balena_supervisor.Compose.Service.NetworkMode.{service_mode, container_mode}
use balena_supervisor.Compose.Service.Comparison.{mode_matches, same_network_mode}

-- The mode names the container that runs the service.
abbrev pub IsContainer : Dict String → String → String → Type 0
IsContainer ids name mode =
    (id : String) × (container_mode mode ≡ some id) × (lookup name ids ≡ some id)

-- When two modes agree, by the services that they name.
abbrev pub ModesAgree : (a b : ServiceConfig) → Dict String → Option String → Option String → Type 0
ModesAgree a b ids none none = (a.network_mode ≡ b.network_mode) × (a.hostname ≡ b.hostname)
ModesAgree a b ids (some name) (some other) = a.network_mode ≡ b.network_mode
ModesAgree a b ids (some name) none = IsContainer ids name b.network_mode
ModesAgree a b ids none (some name) = IsContainer ids name a.network_mode

abbrev pub SameMode : ServiceConfig → ServiceConfig → Dict String → Type 0
SameMode a b ids = ModesAgree a b ids (service_mode a.network_mode) (service_mode b.network_mode)

IsContainer-iff :
    (ids : Dict String) (name mode : String)
    → (elim (container_mode mode) as (λ _. Bool) [
      | none ↦ false
      | some id ↦ some_and (lookup name ids) (str_eq id)
    ]
        ≡ true)
      ↔ IsContainer ids name mode
IsContainer-iff ids name mode = elim (Option-cases (container_mode mode)) [
  | inl e ↦ rw e (λ h. cc, λ (id, k, l). cc)
  | inr (id, e) ↦ elim (Option-cases (lookup name ids)) [
    | inl f ↦ rw (e, f) (λ h. cc, λ (i, k, l). cc)
    | inr (found, f) ↦
        rw (e, f)
          (
            λ h. (id, refl, rw ((eq_iff id found).0 h) refl),
            λ (i, k, l). (eq_iff id found).1 (some_injective k ∙ sym (some_injective l)),
          )
  ]
]

str_eq_comm : (s t : String) → str_eq s t ≡ str_eq t s
str_eq_comm s t = ground (arith, eq_iff s t, eq_iff t s)

-- Texts that differ in the service that they name are different.
ne_of_modes :
    (s t name : String) → service_mode s ≡ none → service_mode t ≡ some name → str_eq s t ≡ false
ne_of_modes s t name es et = elim (Bool-cases (str_eq s t)) [
  | inl e ↦ let same : service_mode s ≡ service_mode t = ap service_mode ((eq_iff s t).0 e) in cc
  | inr e ↦ e
]

both_agree :
    (m n x y : String)
    → (if str_eq m n && str_eq x y then true else str_eq n m && str_eq x y) ≡ true
    → (m ≡ n) × (x ≡ y)
both_agree m n x y h = ground (arith, eq_iff m n, eq_iff n m, eq_iff x y)

one_agrees : (m n : String) → (if str_eq m n then true else str_eq n m) ≡ true → m ≡ n
one_agrees m n h = ground (arith, eq_iff m n, eq_iff n m)

if_else_false : (b : Bool) → (if b then true else false) ≡ b
if_else_false true = refl
if_else_false false = refl

mode_matches-none :
    (a b : String) (host : Bool) (ids : Dict String)
    → service_mode a ≡ none
    → mode_matches a b host ids ≡ (str_eq a b && host)
unfolding mode_matches
mode_matches-none a b host ids e = rw (e, mode_matches) refl

mode_matches-IsContainer :
    (a b name : String) (host : Bool) (ids : Dict String)
    → service_mode a ≡ some name
    → service_mode b ≡ none
    → (mode_matches a b host ids ≡ true) ↔ IsContainer ids name b
unfolding mode_matches
mode_matches-IsContainer a b name host ids e f =
    rw (e, mode_matches) (rw f (IsContainer-iff ids name b))

mode_matches-services :
    (a b name other : String) (host : Bool) (ids : Dict String)
    → service_mode a ≡ some name
    → service_mode b ≡ some other
    → mode_matches a b host ids ≡ str_eq a b
unfolding mode_matches
mode_matches-services a b name other host ids e f = rw (e, mode_matches) (rw f refl)

if_false : (b : Bool) {c : Bool} → b ≡ false → (if b then true else c) ≡ c
if_false b e = rw e refl

module _ (a b : ServiceConfig) (ids : Dict String) where
  same_host : Bool
  same_host = str_eq a.hostname b.hostname

  -- the two rounds of the loop
  rounds :
      (x y : Bool)
      → mode_matches a.network_mode b.network_mode same_host ids ≡ x
      → mode_matches b.network_mode a.network_mode same_host ids ≡ y
      → same_network_mode a b ids ≡ (if x then true else y)
  unfolding same_network_mode same_host
  rounds x y e f = rw (e, f) refl

  pub same_network_mode_iff : (same_network_mode a b ids ≡ true) ↔ SameMode a b ids
  unfolding same_host
  same_network_mode_iff = elim (Option-cases (service_mode a.network_mode)) [
    | inl ea ↦ elim (Option-cases (service_mode b.network_mode)) [
      | inl eb ↦
          rw
            (
              rounds _ _ (mode_matches-none a.network_mode b.network_mode same_host ids ea)
                  (mode_matches-none b.network_mode a.network_mode same_host ids eb),
              ea,
              eb,
            )
            (
              both_agree a.network_mode b.network_mode a.hostname b.hostname,
              λ (m, n).
                  rw
                    ((eq_iff a.network_mode b.network_mode).1 m, (eq_iff a.hostname b.hostname).1 n)
                    refl,
            )
      | inr (name, eb) ↦
          rw
            (
              rounds false _
                  (mode_matches-none a.network_mode b.network_mode same_host ids ea
                    ∙ ap (λ x. x && same_host)
                        (ne_of_modes a.network_mode b.network_mode name ea eb))
                  refl,
              ea,
              eb,
            )
            (mode_matches-IsContainer b.network_mode a.network_mode name same_host ids eb ea)
    ]
    | inr (name, ea) ↦ elim (Option-cases (service_mode b.network_mode)) [
      | inl eb ↦
          rw
            (
              rounds _ false refl (
                  mode_matches-none b.network_mode a.network_mode same_host ids eb
                  ∙ ap (λ x. x && same_host)
                      (ne_of_modes b.network_mode a.network_mode name eb ea)),
              if_else_false,
              ea,
              eb,
            )
            (mode_matches-IsContainer a.network_mode b.network_mode name same_host ids ea eb)
      | inr (other, eb) ↦
          rw
            (
              rounds _ _
                  (mode_matches-services a.network_mode b.network_mode name other same_host ids ea
                    eb)
                  (mode_matches-services b.network_mode a.network_mode other name same_host ids eb
                    ea),
              ea,
              eb,
            )
            (
              one_agrees a.network_mode b.network_mode,
              λ m. rw ((eq_iff a.network_mode b.network_mode).1 m) refl,
            )
    ]
  ]
