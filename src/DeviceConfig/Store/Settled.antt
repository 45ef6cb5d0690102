-- ===== src/DeviceConfig/Store/Settled.antt =====
-- device-config.ts and config/index.ts: a change of one option, once it is stored.
use balena_supervisor.Common.{
  String, Bool, true, false, Option, none, some, str_eq, same_option, if◌then◌else◌, ◌≡◌, refl,
  subst, ◌∙◌, inl, inr, Bool-cases, Option-cases,
}
use balena_supervisor.Common.Dicts.{lookup}
use balena_supervisor.Common.Equality.{ℤ, equal_bools, int_eq, is_equal_self}
use balena_supervisor.Common.Texts.{str_eq_self}
use balena_supervisor.Compose.Labels.{check_truthy}
use balena_supervisor.DeviceConfig.{
  VarType, int, bool, string, ConfigOption, SchemaType, permissive_number, permissive_boolean,
  string_or_null, schema_types, config_test, value_is_valid, decodes, change_for,
}
use balena_supervisor.DeviceConfig.Store.{
  Value, flag, number, text, decode, decode_key, value_to_string,
}
use balena_supervisor.DeviceConfig.Store.Writes.{decode_number, decode_flag}
use balena_supervisor.Library.Validation.{check_int, parse_int}
use balena_supervisor.Library.Validation.Decimals.{check_int-int_text}

abbrev pub schema_of : VarType → SchemaType
schema_of int = permissive_number
schema_of bool = permissive_boolean
schema_of string = string_or_null

-- Where parseInt reads a number from an integer option, checkInt reads the same one.
abbrev pub IsExact : VarType → Option String → Type 0
IsExact int (some s) = (n : ℤ) → parse_int s ≡ some n → check_int (some s) ≡ some n
IsExact _ _ = Unit

-- The type of an option is that of the schema, and its default is valid.
pub record IsConsistent (o : ConfigOption) : Type 0 where
  pub schema : lookup o.key schema_types ≡ some (schema_of o.var_type)
  pub valid : value_is_valid o.key (some o.default_value) ≡ true
  pub exact : IsExact o.var_type (some o.default_value)

-- a value that decodes is shown as a text that the comparison takes for the same
shown_same :
    (v : VarType) (s : String) (d : Value)
    → IsExact v (some s)
    → decode (schema_of v) (text s) ≡ some d
    → config_test v (some (value_to_string d)) (some s) ≡ true
unfolding config_test value_to_string decode check_truthy
shown_same int s d exact h =
    let (n, e, f) = decode_number s d h in
    rw (f, value_to_string, exact n e, check_int-int_text n) (is_equal_self n)
shown_same bool s d exact h = rw (decode_flag s d h) (same_flag (check_truthy (some s)))
  where
    same_flag : (b : Bool) → equal_bools (check_truthy (some (value_to_string (flag b)))) b ≡ true
    same_flag true = refl
    same_flag false = refl
shown_same string s d exact h =
    let k : text s ≡ d = cc in
    subst (λ d. same_option str_eq (some (value_to_string d)) (some s) ≡ true) k (str_eq_self s)

valid_decodes :
    (t : SchemaType) (s : String)
    → decodes t (some s) ≡ true
    → (d : Value) × (decode t (text s) ≡ some d)
unfolding decodes decode
valid_decodes permissive_number s h = elim (Option-cases (parse_int s)) [
  | inl e ↦ let k : false ≡ true = rw (e, decodes) at h in cc
  | inr (n, e) ↦ (number n, rw (e, decode) refl)
]
valid_decodes permissive_boolean s h = (flag (check_truthy (some s)), rw (h, decode) refl)
valid_decodes string_or_null s h = (text s, refl)

nothing : (b : Bool) (o : Option String) → o ≡ none → (if b then none else o) ≡ none
nothing true o h = refl
nothing false o h = h

module _ (o : ConfigOption) (c : IsConsistent o) where
  decode_key-schema :
      (s : String) → decode_key o.key (text s) ≡ decode (schema_of o.var_type) (text s)
  unfolding decode_key
  decode_key-schema s = rw (c.schema, decode_key) refl

  stored :
      (s : String)
      → IsExact o.var_type (some s)
      → value_is_valid o.key (some s) ≡ true
      → (d : Value) × (decode_key o.key (text s) ≡ some d)
        × (config_test o.var_type (some (value_to_string d)) (some s) ≡ true)
  unfolding value_is_valid
  stored s exact valid =
      let k : decodes (schema_of o.var_type) (some s) ≡ true =
        rw (c.schema, value_is_valid) at valid in
      let (d, e) = valid_decodes (schema_of o.var_type) s k in
      (d, decode_key-schema s ∙ e, shown_same o.var_type s d exact e)

  -- A value that an option is changed to can be stored, and when it is shown, no change is due.
  pub change_for-Settles :
      (now wanted : Option String) (v : String)
      → IsExact o.var_type wanted
      → change_for o now wanted ≡ some v
      → (d : Value) × (decode_key o.key (text v) ≡ some d)
        × (change_for o (some (value_to_string d)) wanted ≡ none)
  unfolding change_for
  change_for-Settles now wanted v exact h = elim (Bool-cases (config_test o.var_type now wanted)) [
    | inl e ↦ let k : none ≡ some v = rw (e, change_for) at h in cc
    | inr e ↦ elim (Bool-cases (value_is_valid o.key wanted)) [
      | inl valid ↦
          let k : wanted ≡ some v = rw (e, valid, change_for) at h in
          let (d, f, g) =
            stored v (subst (IsExact o.var_type) k exact)
              (subst (λ w. value_is_valid o.key w ≡ true) k valid) in
          (d, f, rw k (rw g refl))
      | inr invalid ↦ elim (Bool-cases (config_test o.var_type now (some o.default_value))) [
        | inl t ↦ let k : none ≡ some v = rw (e, invalid, t, change_for) at h in cc
        | inr t ↦
            let k : some o.default_value ≡ some v = rw (e, invalid, t, change_for) at h in
            let (d, f, g) = stored o.default_value c.exact c.valid in
            let same : o.default_value ≡ v = cc in
            (
              d,
              subst (λ v. decode_key o.key (text v) ≡ some d) same f,
              rw (invalid, g)
                  (nothing (config_test o.var_type (some (value_to_string d)) wanted) none refl),
            )
      ]
    ]
  ]
