-- ===== src/Compose/Labels.antt =====
-- Dictionaries of strings, as labels are, and the tests of lib/validation.ts that read them.
use balena_supervisor.Common.{
  String, Bool, false, ◌&&◌, ◌||◌, List, [], ◌∷◌, Option, none, some, str_eq, every, length, ◌==◌,
  if◌then◌else◌, same_option,
}
use balena_supervisor.Common.Texts.{same_lower, includes}

-- A value is none where the code stores `undefined` under a key that is there.
abbrev pub Labels : Type 0
Labels = List (String × Option String)

-- labels[key]
unfoldable pub label : String → Labels → Option String
label key [] = none
label key ((k, v) ∷ rest) = if str_eq k key then v else label key rest

-- labels[key] = value
unfoldable pub set_label : String → Option String → Labels → Labels
set_label key value [] = (key, value) ∷ []
set_label key value ((k, v) ∷ rest) =
    if str_eq k key then (key, value) ∷ rest else (k, v) ∷ set_label key value rest

-- key in labels
unfoldable pub has_label : String → Labels → Bool
has_label key [] = false
has_label key ((k, v) ∷ rest) = str_eq k key || has_label key rest

-- lodash's isEqual of two dictionaries: as many keys, and the same value under each
unfoldable pub same_labels : Labels → Labels → Bool
unfolding label has_label
same_labels a b =
    length a == length b && every (λ (k, v). has_label k b && same_option str_eq v (label k b)) a

-- checkTruthy, of a string: '1', 'true' and 'on', in any case
unfoldable pub check_truthy : Option String → Bool
unfolding same_lower
check_truthy none = false
check_truthy (some s) = same_lower s "1" || same_lower s "true" || same_lower s "on"

-- checkString: a string that is neither empty nor the word for a missing value
unfoldable pub check_string : Option String → Option String
check_string none = none
check_string (some s) = if includes ("null" ∷ "undefined" ∷ "" ∷ []) s then none else some s
