-- ===== src/Compose/Utils/NormalLabels/Normal.antt =====
-- compose/utils.ts: labels that are normal already.
use balena_supervisor.Common.{
  ◌+◌, String, Bool, true, false, ◌||◌, ◌&&◌, not, [], ◌∷◌, ◌++◌, Option, some, none, filter,
  length, ◌≡◌, refl, All, arith, eq_iff, str_eq, same_option, length-append, Bool-cases, inl, inr,
  every_of_All, All-append, All-filter,
}
use balena_supervisor.Common.Texts.{str_eq_self}
use balena_supervisor.Common.Dicts.{IsDict, has_key, assign, assign-nil, assign-Apart, Apart}
use balena_supervisor.Compose.Labels.{Labels, label, has_label, same_labels}
use balena_supervisor.Compose.Utils.NormalLabels.{is_legacy, is_balena, normalize_labels}

-- No label has an old name.
abbrev pub IsNormal : Labels → Type 0
IsNormal labels = All (λ (k, v). is_legacy k ≡ false) labels

no_legacy : (labels : Labels) → IsNormal labels → filter (λ (k, v). is_legacy k) labels ≡ []
no_legacy [] h = refl
no_legacy ((k, v) ∷ labels) (e, h) = rw e (no_legacy labels h)

abbrev others : Labels → Labels
others = filter (λ (k, v). not (is_balena k || is_legacy k))

abbrev balenas : Labels → Labels
balenas = filter (λ (k, v). is_balena k)

has_key-filter :
    (p : String × Option String → Bool) (k : String) (labels : Labels)
    → has_key k labels ≡ false
    → has_key k (filter p labels) ≡ false
unfolding has_key
has_key-filter p k [] h = refl
has_key-filter p k ((j, v) ∷ labels) h = ground (arith, has_key-filter p k labels)

IsDict-filter :
    (p : String × Option String → Bool) (labels : Labels) → IsDict labels → IsDict (filter p labels)
IsDict-filter p [] h = tt
IsDict-filter p ((k, v) ∷ labels) (f, h) = elim (Bool-cases (p (k, v))) [
  | inl e ↦ rw e (has_key-filter p k labels f, IsDict-filter p labels h)
  | inr e ↦ rw e (IsDict-filter p labels h)
]

-- A key of one part is none of the other.
apart_key : (k : String) (labels : Labels) → is_balena k ≡ true → has_key k (others labels) ≡ false
unfolding has_key
apart_key k [] h = refl
apart_key k ((j, v) ∷ labels) h = elim (Bool-cases (str_eq j k)) [
  | inl e ↦ rw ((eq_iff j k).0 e, h) (apart_key k labels h)
  | inr e ↦ ground (arith, apart_key k labels h)
]

parts-Apart : (all labels : Labels) → Apart (others all) (balenas labels)
parts-Apart all [] = tt
parts-Apart all ((k, v) ∷ labels) = elim (Bool-cases (is_balena k)) [
  | inl e ↦ rw e (apart_key k all e, parts-Apart all labels)
  | inr e ↦ rw e (parts-Apart all labels)
]

normalize_labels-IsNormal :
    (labels : Labels)
    → IsDict labels
    → IsNormal labels
    → normalize_labels labels ≡ others labels ++ balenas labels
unfolding normalize_labels assign
normalize_labels-IsNormal labels d n =
    rw
      (
        no_legacy labels n,
        assign-nil (others labels) (IsDict-filter _ labels d),
        assign-Apart (others labels) (balenas labels) (IsDict-filter _ labels d)
            (parts-Apart labels labels),
      )
      refl

length-parts :
    (labels : Labels)
    → IsNormal labels
    → length (others labels) + length (balenas labels) ≡ length labels
length-parts [] h = refl
length-parts ((k, v) ∷ labels) (e, h) = elim (Bool-cases (is_balena k)) [
  | inl b ↦ rw b (omega (arith, length-parts labels h))
  | inr b ↦ rw (b, e) (omega (arith, length-parts labels h))
]

abbrev Found : Labels → String × Option String → Type 0
Found labels (k, v) = (has_label k labels && same_option str_eq v (label k labels)) ≡ true

Found-skip :
    (k : String) (v : Option String) (some_labels labels : Labels)
    → has_key k some_labels ≡ false
    → All (Found labels) some_labels
    → All (Found ((k, v) ∷ labels)) some_labels
unfolding has_label label has_key
Found-skip k v [] labels f h = tt
Found-skip k v ((j, w) ∷ some_labels) labels f (e, h) =
    (ground (arith, eq_iff k j, eq_iff j k), Found-skip k v some_labels labels (ground arith) h)

same_value : (v : Option String) → same_option str_eq v v ≡ true
same_value none = refl
same_value (some s) = str_eq_self s

Found-self : (labels : Labels) → IsDict labels → All (Found labels) labels
unfolding has_label label
Found-self [] h = tt
Found-self ((k, v) ∷ labels) (f, h) =
    (rw (str_eq_self k, same_value v) refl, Found-skip k v labels labels f (Found-self labels h))

-- Labels without old names that are normalised again compare equal to what they were.
pub same_labels-normalize_labels :
    (labels : Labels)
    → IsDict labels
    → IsNormal labels
    → same_labels (normalize_labels labels) labels ≡ true
unfolding same_labels
same_labels-normalize_labels labels d n =
    let found = Found-self labels d in
    rw
      (
        normalize_labels-IsNormal labels d n,
        length-append (others labels) (balenas labels),
        length-parts labels n,
        every_of_All (λ (k, v). has_label k labels && same_option str_eq v (label k labels))
            (others labels ++ balenas labels)
            (All-append (Found labels) (others labels) (balenas labels)
              (All-filter (Found labels) (λ (k, v). not (is_balena k || is_legacy k)) labels found)
              (All-filter (Found labels) (λ (k, v). is_balena k) labels found)),
      )
      (ground arith)
