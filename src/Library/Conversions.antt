-- ===== src/Library/Conversions.antt =====
-- lib/conversions.ts: the environment of a container as an object and as an array.
pub mod RoundTrip
use Prim.Native.String
use balena_supervisor.Common.{
  String, Bool, List, [], ◌∷◌, Option, none, some, map, compact, str_eq, if◌then◌else◌,
}
use balena_supervisor.Common.Texts.{before, after}
use balena_supervisor.Common.Dicts.{Dict, assign}

-- `${k}=${v}`
abbrev pub key_value : String → String → String
key_value k v = String.◌++◌ k (String.◌++◌ "=" v)

unfoldable pub env_object_to_array : Dict String → List String
env_object_to_array env = map (λ (k, v). key_value k v) env

-- the groups of /^([^=]+)=([^]*)$/
unfoldable pub to_pair : String → Option (String × String)
to_pair key_val = elim (after b'=' key_val) [
  | none ↦ none
  | some v ↦ if str_eq (before b'=' key_val) "" then none else some (before b'=' key_val, v)
]

unfoldable pub env_array_to_object : List String → Dict String
unfolding to_pair
env_array_to_object env = assign [] (compact (map to_pair env))
