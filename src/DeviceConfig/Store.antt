-- ===== src/DeviceConfig/Store.antt =====
-- config/index.ts: the configuration store, as far as the keys of the table of device-config.ts go.
pub mod Writes
pub mod Settled
mod Tests
pub mod Stored
pub mod Convergence
use balena_supervisor.Common.{
  ℕ, String, Bool, true, false, ◌&&◌, List, [], ◌∷◌, Option, none, some, str_eq, some_and, is_some,
  ◌==◌, if◌then◌else◌,
}
use balena_supervisor.Common.Dicts.{Dict, lookup, insert}
use balena_supervisor.Common.Equality.{ℤ, pos, negsuc, equal_bools, equal_ints}
use balena_supervisor.Common.Results.{
  Result, ok, thrown, Exception, internal_inconsistency, type_error, ◌>>=◌, map_result,
}
use balena_supervisor.Common.Texts.{includes}
use balena_supervisor.Compose.Labels.{check_truthy}
use balena_supervisor.DeviceConfig.{
  SchemaType, permissive_number, permissive_boolean, string_or_null, schema_types, ConfigOption,
  config_keys,
}
use balena_supervisor.Library.Validation.{check_booleanish, parse_int}
use balena_supervisor.Library.Validation.Decimals.{int_text}

-- a value of the store
pub data Value : Type 0 where
  flag : Bool → Value
  number : ℤ → Value
  text : String → Value

abbrev pub equal_values : Value → Value → Bool
equal_values (flag a) (flag b) = equal_bools a b
equal_values (number a) (number b) = equal_ints a b
equal_values (text a) (text b) = str_eq a b
equal_values _ _ = false

-- type.decode of a value that is not null
unfoldable pub decode : SchemaType → Value → Option Value
decode permissive_number (number n) = some (number n)
decode permissive_number (text s) = elim (parse_int s) [ none ↦ none | some n ↦ some (number n) ]
decode permissive_number (flag b) = none
decode permissive_boolean (flag b) = some (flag b)
decode permissive_boolean (text s) =
    if check_booleanish (some s) then some (flag (check_truthy (some s))) else none
decode permissive_boolean (number (pos n)) =
    if n == 1 then some (flag true) else if n == 0 then some (flag false) else none
decode permissive_boolean (number (negsuc n)) = none
decode string_or_null (text s) = some (text s)
decode string_or_null _ = none

unfoldable pub decode_key : String → Value → Option Value
unfolding decode
decode_key key v = elim (lookup key schema_types) [ none ↦ none | some t ↦ decode t v ]

-- valueToString, and toString
unfoldable pub value_to_string : Value → String
value_to_string (flag true) = "true"
value_to_string (flag false) = "false"
value_to_string (number n) = int_text n
value_to_string (text s) = s

-- the defaults of the schema; there is none for firewallMode
abbrev pub schema_defaults : Dict Value
schema_defaults =
    ("appUpdatePollInterval", number (pos 900000))
    ∷ ("instantUpdates", flag true)
    ∷ ("persistentLogging", flag false)
    ∷ ("loggingEnabled", flag true)
    ∷ ("connectivityCheckEnabled", flag true)
    ∷ ("delta", flag false)
    ∷ ("deltaRequestTimeout", number (pos 59000))
    ∷ ("deltaApplyTimeout", number (pos 0))
    ∷ ("deltaRetryCount", number (pos 30))
    ∷ ("deltaRetryInterval", number (pos 10000))
    ∷ ("deltaVersion", number (pos 2))
    ∷ ("lockOverride", flag false)
    ∷ ("localMode", flag false)
    ∷ ("hostDiscoverability", flag true)
    ∷ ("hardwareMetrics", flag true)
    ∷ []

-- the keys whose source is config.json; that of the others is the database
abbrev pub json_keys : List String
json_keys = "appUpdatePollInterval" ∷ "persistentLogging" ∷ []

-- config.json with its values, and the table `config` of the database with its texts
pub record Store : Type 0 where
  pub json : Dict Value
  pub db : Dict String

abbrev pub as_text : Option String → Option Value
as_text none = none
as_text (some s) = some (text s)

-- getSchema
unfoldable pub get_schema : String → Store → Option Value
get_schema key s = if includes json_keys key then lookup key s.json else as_text (lookup key s.db)

abbrev pub check_value_decode : Option Value → Result (Option Value)
check_value_decode none = thrown (internal_inconsistency "ConfigurationValidationError")
check_value_decode (some v) = ok (some v)

-- the default of a missing value, and the value of another
unfoldable pub value_of : String → Option Value → Result (Option Value)
unfolding decode_key
value_of key none = ok (lookup key schema_defaults)
value_of key (some v) = check_value_decode (decode_key key v)

unfoldable pub get : String → Store → Result (Option Value)
unfolding get_schema value_of
get key s = value_of key (get_schema key s)

-- the database is left alone where it has the value
unfoldable pub write_db : String → Value → Store → Result Store
unfolding get
write_db key v s = get key s >>= λ old. ok (
    if some_and old (equal_values v)
    then s
    else record s { db = insert key (value_to_string v) s.db })

-- the write of a value that was decoded
unfoldable pub write : String → Value → Store → Result Store
unfolding write_db
write key v s =
    if includes json_keys key
    then ok (record s { json = insert key v s.json })
    else write_db key v s

-- One key of validateConfigMap and of the write.
unfoldable pub set_key : String → String → Store → Result Store
unfolding write
set_key key value s = elim (decode_key key (text value)) [
  | none ↦ thrown type_error
  | some v ↦ write key v s
]

-- config.set; the transaction is rolled back if a key is refused
unfoldable pub set : Dict String → Store → Result Store
unfolding set_key
set [] s = ok s
set ((key, value) ∷ rest) s = set_key key value s >>= λ s'. set rest s'

abbrev pub or_empty : Option Value → String
or_empty none = ""
or_empty (some v) = value_to_string v

-- the part of getCurrent that reads the store
unfoldable pub current_options : Store → List ConfigOption → Result (Dict String)
unfolding get
current_options s [] = ok []
current_options s (o ∷ options) = get o.key s >>= λ v.
    current_options s options >>= λ rest. ok ((o.env_var_name, or_empty v) ∷ rest)
