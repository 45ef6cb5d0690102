-- ===== src/Library/Conversions/RoundTrip.antt =====
-- lib/conversions.ts: an environment that is turned into an array and back.
use Prim.Native.String
use text.Mathlib.TextLemmas.{nil-append, cons-append, append-nil}
use balena_supervisor.Common.{
  String, false, [], ◌∷◌, some, map, compact, str_eq, ◌≡◌, refl, ap, ◌∙◌, All,
}
use balena_supervisor.Common.Texts.{before, after, has_char, before-append, after-append}
use balena_supervisor.Common.Dicts.{Dict, IsDict, assign-nil}
use balena_supervisor.Library.Conversions.{
  key_value, env_object_to_array, to_pair, env_array_to_object,
}

-- A name of a variable: some characters, and no equals sign.
abbrev pub IsName : String → Type 0
IsName k = (str_eq k "" ≡ false) × (has_char b'=' k ≡ false)

-- the equals sign and the value
rest : (v : String) → String.◌++◌ "=" v ≡ String.◌∷◌ "=" v
rest v = cons-append "=" "" v ∙ rw (nil-append v) refl

before-key_value : (k v : String) → has_char b'=' k ≡ false → before b'=' (key_value k v) ≡ k
unfolding before
before-key_value k v h = before-append b'=' k _ h ∙ rw (rest v) (append-nil k)

after-key_value : (k v : String) → has_char b'=' k ≡ false → after b'=' (key_value k v) ≡ some v
unfolding after
after-key_value k v h = after-append b'=' k _ h ∙ rw (rest v) refl

to_pair-key_value : (k v : String) → IsName k → to_pair (key_value k v) ≡ some (k, v)
unfolding to_pair
to_pair-key_value k v (e, n) =
    rw (after-key_value k v n, to_pair) (rw (before-key_value k v n, e) refl)

pairs_back :
    (env : Dict String)
    → All (λ (k, v). IsName k) env
    → compact (map to_pair (env_object_to_array env)) ≡ env
unfolding env_object_to_array
pairs_back [] h = refl
pairs_back ((k, v) ∷ env) (n, h) =
    rw (to_pair-key_value k v n) (ap (λ d. (k, v) ∷ d) (pairs_back env h))

-- An environment whose names are distinct, not empty and without an equals sign is read back from
-- its array of strings, whatever its values.
pub env_array_to_object-env_object_to_array :
    (env : Dict String)
    → IsDict env
    → All (λ (k, v). IsName k) env
    → env_array_to_object (env_object_to_array env) ≡ env
unfolding env_array_to_object
env_array_to_object-env_object_to_array env d h = rw (pairs_back env h) (assign-nil env d)
