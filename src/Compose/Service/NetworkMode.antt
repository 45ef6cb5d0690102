-- ===== src/Compose/Service/NetworkMode.antt =====
-- compose/service.ts: SERVICE_NETWORK_MODE_REGEX and CONTAINER_NETWORK_MODE_REGEX.
use Prim.Native.Char.{code}
use Prim.Native.String.{String, [], ◌∷◌}
use balena_supervisor.Common.{
  ℕ, Bool, ◌&&◌, ◌||◌, Option, none, some, ◌==◌, leb, if◌then◌else◌, ◌≡◌, refl,
}

-- what `\s` matches
unfoldable pub is_space : ℕ → Bool
is_space c =
    leb 9 c && leb c 13
    || c == 32
    || c == 0xa0
    || c == 0x1680
    || leb 0x2000 c && leb c 0x200a
    || c == 0x2028
    || c == 0x2029
    || c == 0x202f
    || c == 0x205f
    || c == 0x3000
    || c == 0xfeff

-- what `.` does not match
unfoldable pub is_line_end : ℕ → Bool
is_line_end c = c == 10 || c == 13 || c == 0x2028 || c == 0x2029

-- `(.*)`: what stands before the end of the line
unfoldable pub line : String → String
unfolding is_line_end
line [] = []
line (c ∷ s) = if is_line_end (code c) then [] else c ∷ line s

-- the last character of a text of blanks that `.` matches
last_blank : String → Option String
unfolding is_line_end
last_blank [] = none
last_blank (c ∷ s) = elim (last_blank s) [
  | some t ↦ some t
  | none ↦ if is_line_end (code c) then none else some (c ∷ [])
]

trim_start : String → String
unfolding is_space
trim_start [] = []
trim_start (c ∷ s) = if is_space (code c) then trim_start s else c ∷ s

-- the group of `\s*(.+)` at the start of a text: behind the blanks, or the last of them
unfoldable pub argument : String → Option String
unfolding trim_start line last_blank
argument s = elim (trim_start s) [ [] ↦ last_blank s | c ∷ t ↦ some (line (c ∷ t)) ]

-- the text behind a prefix
unfoldable pub strip : String → String → Option String
strip [] s = some s
strip (p ∷ ps) [] = none
strip (p ∷ ps) (c ∷ s) = if code c == code p then strip ps s else none

-- the group of `prefix\s*(.+)` at the first place of a text where it matches
unfoldable pub match_after : String → String → Option String
unfolding strip argument
match_after prefix [] = none
match_after prefix (c ∷ s) =
    elim (elim (strip prefix (c ∷ s)) as (λ _. Option String) [
      | none ↦ none
      | some t ↦ argument t
    ]) [ some group ↦ some group | none ↦ match_after prefix s ]

unfoldable pub service_mode : String → Option String
unfolding match_after
service_mode = match_after "service:"

unfoldable pub container_mode : String → Option String
unfolding match_after
container_mode = match_after "container:"

service_mode_test : service_mode "service: db" ≡ some "db"
unfolding service_mode
service_mode_test = refl

container_mode_test : container_mode "service:" ≡ none
unfolding container_mode
container_mode_test = refl
