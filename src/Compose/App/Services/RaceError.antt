-- ===== src/Compose/App/Services/RaceError.antt =====
-- compose/app.ts: the test /userland proxy.*cannot assign requested address$/i.
use Prim.Native.Char.{code}
use Prim.Native.String.{String, [], ◌∷◌}
use mathlib.Core.Bool.{Bool, true, false, not, ◌&&◌, ◌||◌}
use mathlib.Core.Option.{none, some}
use mathlib.Core.Path.{◌≡◌, refl}
use Prim.Native.Nat.{ℕ}
use balena_supervisor.Common.{◌==◌}
use balena_supervisor.Common.Texts.{same_lower, strip_lower}

-- the characters that `.` does not match
abbrev is_line_end : ℕ → Bool
is_line_end c = c == 0x0a || c == 0x0d || c == 0x2028 || c == 0x2029

-- .*cannot assign requested address$
ends_race : String → Bool
unfolding same_lower
ends_race [] = false
ends_race (c ∷ s) =
    same_lower (c ∷ s) "cannot assign requested address"
    || not (is_line_end (code c)) && ends_race s

-- a match that begins here
abbrev race_here : String → Bool
race_here s = elim (strip_lower s "userland proxy") [ none ↦ false | some rest ↦ ends_race rest ]

unfoldable pub host_race_error : String → Bool
unfolding ends_race strip_lower
host_race_error [] = false
host_race_error (c ∷ s) = race_here (c ∷ s) || host_race_error s

race_test :
    (host_race_error "starting Userland proxy: listen: cannot assign requested address" ≡ true)
    × (host_race_error "userland proxy: cannot assign requested address: x" ≡ false)
unfolding host_race_error
race_test = (refl, refl)
