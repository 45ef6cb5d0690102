-- ===== src/DeviceConfig/Store/Stored.antt =====
-- device-config.ts and config/index.ts: what the options read as once their changes are stored.
use balena_supervisor.Common.{
  String, Bool, true, false, not, List, [], ◌∷◌, Option, none, some, str_eq, eq_iff, every,
  if◌then◌else◌, ◌≡◌, refl, sym, ap, ◌∙◌, inl, inr, arith, Bool-cases, Option-cases, All,
}
use balena_supervisor.Common.Dicts.{Dict, lookup}
use balena_supervisor.Common.Results.{ok, ◌>>=◌}
use balena_supervisor.DeviceConfig.{
  ConfigOption, with_change, changing_value, change_for, collect_changes,
}
use balena_supervisor.DeviceConfig.Store.{
  Value, text, decode_key, Store, get, write, set_key, set, or_empty, value_to_string,
}
use balena_supervisor.DeviceConfig.Store.Settled.{IsExact, IsConsistent, change_for-Settles}
use balena_supervisor.DeviceConfig.Store.Writes.{get-write, get-write_other, write_total}

-- No key of the options is `key`.
abbrev pub no_key : (ConfigOption → String) → String → List ConfigOption → Bool
no_key f key options = every (λ o. not (str_eq (f o) key)) options

abbrev pub distinct : (ConfigOption → String) → List ConfigOption → Bool
distinct f [] = true
distinct f (o ∷ options) = if no_key f (f o) options then distinct f options else false

-- Each option reads as `v`, and that is what the dictionary shows.
abbrev pub IsRead : Store → Dict String → ConfigOption → Type 0
IsRead s current o =
    (v : Option Value) × (get o.key s ≡ ok v) × (lookup o.env_var_name current ≡ some (or_empty v))

-- The option reads as a value for which no change is due.
abbrev pub IsSettled : Dict String → Store → ConfigOption → Type 0
IsSettled target s o =
    (v : Option Value) × (get o.key s ≡ ok v)
    × (change_for o (some (or_empty v)) (lookup o.env_var_name target) ≡ none)

set_key-write :
    (key value : String) (d : Value) (s : Store)
    → decode_key key (text value) ≡ some d
    → set_key key value s ≡ write key d s
unfolding set_key
set_key-write key value d s h = rw (h, set_key) refl

set-cons :
    (key value : String) (rest : Dict String) (s s1 : Store)
    → set_key key value s ≡ ok s1
    → set ((key, value) ∷ rest) s ≡ set rest s1
unfolding set
set-cons key value rest s s1 h = ap (λ r. r >>= λ s'. set rest s') h

pub distinct_cons :
    (f : ConfigOption → String) (o : ConfigOption) (options : List ConfigOption)
    → distinct f (o ∷ options) ≡ true
    → (no_key f (f o) options ≡ true) × (distinct f options ≡ true)
distinct_cons f o options h = elim (Bool-cases (no_key f (f o) options)) [
  | inl e ↦ (e, rw (e, if◌then◌else◌) at h)
  | inr e ↦ let k : false ≡ true = rw (e, if◌then◌else◌) at h in cc
]

module _ (current target : Dict String) where
  -- what the options come to when their changes are stored
  abbrev pub Stored : List ConfigOption → Store → Type 0
  Stored options s =
      (s' : Store) × (set (collect_changes current target options).config_changes s ≡ ok s')
      × All (IsSettled target s') options
      × ((key : String) → no_key (λ o. o.key) key options ≡ true → get key s' ≡ get key s)

  same_reads :
      (options : List ConfigOption) (key : String) (s t : Store)
      → no_key (λ o. o.key) key options ≡ true
      → ((k : String) → str_eq k key ≡ false → get k t ≡ get k s)
      → All (IsRead s current) options
      → All (IsRead t current) options
  same_reads [] key s t n k h = tt
  same_reads (o ∷ options) key s t n k ((v, g, l), h) =
      ((v, k o.key (ground arith) ∙ g, l), same_reads options key s t (ground arith) k h)

  pub change_due :
      (o : ConfigOption) (v : Option Value)
      → lookup o.env_var_name current ≡ some (or_empty v)
      → changing_value current target o
        ≡ change_for o (some (or_empty v)) (lookup o.env_var_name target)
  unfolding changing_value
  change_due o v l = ap (λ now. change_for o now (lookup o.env_var_name target)) l

  bring_quiet :
      (o : ConfigOption) (options : List ConfigOption) (s : Store)
      → no_key (λ o. o.key) o.key options ≡ true
      → IsRead s current o
      → changing_value current target o ≡ none
      → Stored options s
      → Stored (o ∷ options) s
  unfolding collect_changes
  bring_quiet o options s n (v, g, l) e (s', eq, settled, frame) = (
    s',
    ap (λ c. set (with_change o c (collect_changes current target options)).config_changes s) e
        ∙ eq,
    ((v, frame o.key n ∙ g, sym (change_due o v l) ∙ e), settled),
    λ key k. frame key (ground arith),
  )

  bring_change :
      (o : ConfigOption) (options : List ConfigOption) (s s1 : Store) (value : String) (d : Value)
      → no_key (λ o. o.key) o.key options ≡ true
      → changing_value current target o ≡ some value
      → decode_key o.key (text value) ≡ some d
      → change_for o (some (value_to_string d)) (lookup o.env_var_name target) ≡ none
      → write o.key d s ≡ ok s1
      → Stored options s1
      → Stored (o ∷ options) s
  unfolding collect_changes
  bring_change o options s s1 value d n e f q w (s', eq, settled, frame) = (
    s',
    ap (λ c. set (with_change o c (collect_changes current target options)).config_changes s) e
        ∙ set-cons o.key value (collect_changes current target options).config_changes s s1
            (set_key-write o.key value d s f ∙ w)
        ∙ eq,
    ((some d, frame o.key n ∙ get-write o.key value d s s1 f w, q), settled),
    λ key k. frame key (ground arith) ∙ get-write_other key o.key d s s1 (ground arith) w,
  )

  pub bring :
      (options : List ConfigOption) (s : Store)
      → distinct (λ o. o.key) options ≡ true
      → All IsConsistent options
      → All (λ o. IsExact o.var_type (lookup o.env_var_name target)) options
      → All (IsRead s current) options
      → Stored options s
  unfolding collect_changes set
  bring [] s dis c x r = (s, refl, tt, λ key n. refl)
  bring (o ∷ options) s dis (c, cs) (x, xs) ((v, g, l), r) =
      let (n, dis') = distinct_cons (λ o. o.key) o options dis in
      elim (Option-cases (changing_value current target o)) [
        | inl e ↦ bring_quiet o options s n (v, g, l) e (bring options s dis' cs xs r)
        | inr (value, e) ↦
            let (d, f, q) =
              change_for-Settles o c (some (or_empty v)) (lookup o.env_var_name target) value x
                (sym (change_due o v l) ∙ e) in
            let (s1, w) = write_total o.key d s v g in
            bring_change o options s s1 value d n e f q w (
              bring options s1 dis' cs xs (
                same_reads options o.key s s1 n
                  (λ k h. get-write_other k o.key d s s1 (flipped k o.key h) w) r))
      ]
    where
      flipped : (a b : String) → str_eq a b ≡ false → str_eq b a ≡ false
      flipped a b h = ground (arith, eq_iff a b, eq_iff b a)

  pub no_changes_due :
      (options : List ConfigOption)
      → All (λ o. changing_value current target o ≡ none) options
      → (collect_changes current target options).config_changes ≡ []
  unfolding collect_changes
  no_changes_due [] h = refl
  no_changes_due (o ∷ options) (e, h) =
      ap (λ c. (with_change o c (collect_changes current target options)).config_changes) e
      ∙ no_changes_due options h
