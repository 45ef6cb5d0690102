-- ===== src/DeviceConfig/Store/Writes.antt =====
-- config/index.ts: what a key reads as after it was set, and what the others do.
use balena_supervisor.Common.{
  String, Bool, true, false, ◌&&◌, Option, none, some, str_eq, eq_iff, some_and, if◌then◌else◌, ◌≡◌,
  refl, sym, ap, subst, ◌∙◌, ◌⊎◌, not, inl, inr, arith, Bool-cases, Option-cases,
}
use balena_supervisor.Common.Dicts.{lookup, insert, lookup-insert}
use balena_supervisor.Common.Equality.{ℤ, bool_iff, int_iff}
use balena_supervisor.Common.Results.{ok, ◌>>=◌, >>=-eq-ok, ok_injective}
use balena_supervisor.Common.Texts.{includes, str_eq_self}
use balena_supervisor.Compose.Labels.{check_truthy}
use balena_supervisor.DeviceConfig.{
  SchemaType, permissive_number, permissive_boolean, string_or_null, schema_types,
}
use balena_supervisor.DeviceConfig.Store.{
  Value, flag, number, text, equal_values, decode, decode_key, value_to_string, Store, json_keys,
  get_schema, get, write, write_db, check_value_decode, as_text, value_of,
}
use balena_supervisor.Library.Validation.{check_booleanish, parse_int, check_falsey}
use balena_supervisor.Library.Validation.Decimals.{parse_int-int_text}

equal_values_sound : (a b : Value) → equal_values a b ≡ true → a ≡ b
equal_values_sound (flag a) (flag b) h = ap flag ((bool_iff a b).0 h)
equal_values_sound (number a) (number b) h = ap number ((int_iff a b).0 h)
equal_values_sound (text a) (text b) h = ap text ((eq_iff a b).0 h)
equal_values_sound (flag a) (number b) h = cc
equal_values_sound (flag a) (text b) h = cc
equal_values_sound (number a) (flag b) h = cc
equal_values_sound (number a) (text b) h = cc
equal_values_sound (text a) (flag b) h = cc
equal_values_sound (text a) (number b) h = cc

-- what a text decodes to, by type
pub decode_number :
    (s : String) (d : Value)
    → decode permissive_number (text s) ≡ some d
    → (n : ℤ) × (parse_int s ≡ some n) × (d ≡ number n)
unfolding decode
decode_number s d h = elim (Option-cases (parse_int s)) [
  | inl e ↦ let k : none ≡ some d = rw (e, decode) at h in cc
  | inr (n, e) ↦ let k : some (number n) ≡ some d = rw (e, decode) at h in (n, e, cc)
]

pub decode_flag :
    (s : String) (d : Value)
    → decode permissive_boolean (text s) ≡ some d
    → d ≡ flag (check_truthy (some s))
unfolding decode
decode_flag s d h = elim (Bool-cases (check_booleanish (some s))) [
  | inl e ↦ let k : some (flag (check_truthy (some s))) ≡ some d = rw e at h in cc
  | inr e ↦ let k : none ≡ some d = rw (e, if◌then◌else◌) at h in cc
]

-- A value that was decoded decodes to itself, and so does the text that stands for it.
decode_again :
    (t : SchemaType) (s : String) (d : Value)
    → decode t (text s) ≡ some d
    → (decode t d ≡ some d) × (decode t (text (value_to_string d)) ≡ some d)
unfolding decode value_to_string check_booleanish check_truthy check_falsey
decode_again permissive_number s d h =
    let (n, e, f) = decode_number s d h in rw f (refl, rw (parse_int-int_text n, decode) refl)
decode_again permissive_boolean s d h =
    rw (decode_flag s d h) (refl, of_flag (check_truthy (some s)))
  where
    of_flag :
        (b : Bool) → decode permissive_boolean (text (value_to_string (flag b))) ≡ some (flag b)
    of_flag true = refl
    of_flag false = refl
decode_again string_or_null s d h =
    let k : text s ≡ d = cc in
    subst
      (λ d.
        (decode string_or_null d ≡ some d)
        × (decode string_or_null (text (value_to_string d)) ≡ some d))
      k (refl, refl)

decode_key_again :
    (key s : String) (d : Value)
    → decode_key key (text s) ≡ some d
    → (decode_key key d ≡ some d) × (decode_key key (text (value_to_string d)) ≡ some d)
unfolding decode_key
decode_key_again key s d h = elim (Option-cases (lookup key schema_types)) [
  | inl e ↦ let k : none ≡ some d = rw (e, decode_key) at h in cc
  | inr (t, e) ↦
      let k : decode t (text s) ≡ some d = rw (e, decode_key) at h in
      rw (e, decode_key) (decode_again t s d k)
]

-- a value that decodes to `d` is read as `d`
read_back :
    (key : String) (v d : Value) (s : Store)
    → get_schema key s ≡ some v
    → decode_key key v ≡ some d
    → get key s ≡ ok (some d)
unfolding get value_of
read_back key v d s e h = ap (value_of key) e ∙ ap check_value_decode h

get_schema-json :
    (key k : String) (v : Value) (s : Store)
    → get_schema key (record s { json = insert k v s.json })
      ≡ (if includes json_keys key && str_eq k key then some v else get_schema key s)
unfolding get_schema
get_schema-json key k v s = ground (arith, lookup-insert key k v s.json)

get_schema-db :
    (key k value : String) (s : Store)
    → get_schema key (record s { db = insert k value s.db }) ≡ (
        if not (includes json_keys key) && str_eq k key
        then some (text value)
        else get_schema key s)
unfolding get_schema
get_schema-db key k value s = elim (Bool-cases (includes json_keys key)) [
  | inl e ↦ rw e refl
  | inr e ↦ rw e (rw (lookup-insert key k value s.db) (chosen (str_eq k key)))
]
  where
    chosen :
        (b : Bool)
        → as_text (if b then some value else lookup key s.db)
          ≡ (if b then some (text value) else as_text (lookup key s.db))
    chosen true = refl
    chosen false = refl

-- what a write to the database needs and does
abbrev put : Option Value → String → Value → Store → Store
put old key d s =
    if some_and old (equal_values d)
    then s
    else record s { db = insert key (value_to_string d) s.db }

write_db-put :
    (key : String) (d : Value) (s s' : Store)
    → write_db key d s ≡ ok s'
    → (old : Option Value) × (get key s ≡ ok old) × (put old key d s ≡ s')
unfolding write_db
write_db-put key d s s' w = let (old, g, l) = >>=-eq-ok (get key s) _ w in (old, g, ok_injective l)

write-eq-write_db :
    (key : String) (d : Value) (s : Store)
    → includes json_keys key ≡ false
    → write key d s ≡ write_db key d s
unfolding write
write-eq-write_db key d s e = chosen (includes json_keys key) e
  where
    chosen :
        (b : Bool)
        → b ≡ false
        → (if b then ok (record s { json = insert key d s.json }) else write_db key d s)
          ≡ write_db key d s
    chosen true e = cc
    chosen false e = refl

write-put :
    (key : String) (d : Value) (s s' : Store)
    → includes json_keys key ≡ false
    → write key d s ≡ ok s'
    → (old : Option Value) × (get key s ≡ ok old) × (put old key d s ≡ s')
write-put key d s s' e w = write_db-put key d s s' (sym (write-eq-write_db key d s e) ∙ w)

write_db_total :
    (key : String) (d : Value) (s : Store) (old : Option Value)
    → get key s ≡ ok old
    → write_db key d s ≡ ok (put old key d s)
unfolding write_db
write_db_total key d s old g = ap (λ r. r >>= λ old. ok (put old key d s)) g

-- A key reads as the value that was written, whatever stood there before.
pub get-write :
    (key value : String) (d : Value) (s s' : Store)
    → decode_key key (text value) ≡ some d
    → write key d s ≡ ok s'
    → get key s' ≡ ok (some d)
unfolding write
get-write key value d s s' h w = elim (Bool-cases (includes json_keys key)) [
  | inl e ↦
      let k : ok (record s { json = insert key d s.json }) ≡ ok s' = rw e at w in
      subst (λ s'. get key s' ≡ ok (some d)) (ok_injective k)
        (read_back key d d _ (get_schema-json key key d s ∙ rw (e, str_eq_self key) refl)
          (decode_key_again key value d h).0)
  | inr e ↦
      let (old, g, l) = write-put key d s s' e w in
      subst (λ s'. get key s' ≡ ok (some d)) l
        (written e old g (Bool-cases (some_and old (equal_values d))))
]
  where
    found : (old : Option Value) → some_and old (equal_values d) ≡ true → old ≡ some d
    found none h = cc
    found (some v) h = ap some (sym (equal_values_sound d v h))

    written :
        includes json_keys key ≡ false
        → (old : Option Value) → get key s ≡ ok old
        → (some_and old (equal_values d) ≡ true) ⊎ (some_and old (equal_values d) ≡ false)
        → get key (
            if some_and old (equal_values d)
            then s
            else record s { db = insert key (value_to_string d) s.db })
          ≡ ok (some d)
    written e old g (inl f) = rw f (g ∙ ap ok (found old f))
    written e old g (inr f) = rw f (
        read_back key (text (value_to_string d)) d _
          (get_schema-db key key (value_to_string d) s ∙ rw (e, str_eq_self key) refl)
          (decode_key_again key value d h).1)

-- The other keys read as before.
pub get-write_other :
    (key k : String) (d : Value) (s s' : Store)
    → str_eq k key ≡ false
    → write k d s ≡ ok s'
    → get key s' ≡ get key s
unfolding write get
get-write_other key k d s s' n w = elim (Bool-cases (includes json_keys k)) [
  | inl e ↦
      let h : ok (record s { json = insert k d s.json }) ≡ ok s' = rw e at w in
      subst (λ s'. get key s' ≡ get key s) (ok_injective h)
        (same_read _ (get_schema-json key k d s ∙ rw n (ground arith)))
  | inr e ↦
      let (old, g, l) = write-put k d s s' e w in
      subst (λ s'. get key s' ≡ get key s) l (kept (some_and old (equal_values d)))
]
  where
    same_read : (t : Store) → get_schema key t ≡ get_schema key s → get key t ≡ get key s
    same_read t e = ap (value_of key) e

    kept :
        (b : Bool)
        → get key (if b then s else record s { db = insert k (value_to_string d) s.db }) ≡ get key s
    kept true = refl
    kept false = same_read _ (get_schema-db key k (value_to_string d) s ∙ rw n (ground arith))

-- A key that can be read can be written.
pub write_total :
    (key : String) (d : Value) (s : Store) (old : Option Value)
    → get key s ≡ ok old
    → (s' : Store) × (write key d s ≡ ok s')
unfolding write
write_total key d s old g = elim (Bool-cases (includes json_keys key)) [
  | inl e ↦ (record s { json = insert key d s.json }, rw (e, write) refl)
  | inr e ↦ (put old key d s, write-eq-write_db key d s e ∙ write_db_total key d s old g)
]
