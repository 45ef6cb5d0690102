-- ===== src/Library/Validation.antt =====
-- lib/validation.ts: checkInt, checkFalsey and checkBooleanish of a string, and JavaScript's parseInt.
-- Numbers are exact, where the code rounds those from 2 ^ 53 on.
pub mod Decimals
use Prim.Native.Char.{code}
use balena_supervisor.Common.{
  ℕ, zero, suc, ◌+◌, ◌-◌, ◌*◌, String, Bool, true, false, ◌&&◌, ◌||◌, Option, none, some, ◌==◌, leb,
  if◌then◌else◌, ◌≡◌, refl,
}
use balena_supervisor.Common.Equality.{ℤ, pos, negsuc}
use balena_supervisor.Common.Texts.{same_lower}
use balena_supervisor.Compose.Labels.{check_truthy}
use balena_supervisor.Compose.Service.NetworkMode.{is_space}

abbrev pub is_digit : ℕ → Bool
is_digit c = leb b'0' c && leb c b'9'

-- the number `n`, with one more digit
abbrev pub and_digit : ℕ → ℕ → ℕ
and_digit n c = n * 10 + (c - b'0')

abbrev pub negated : ℕ → ℤ
negated zero = pos 0
negated (suc n) = negsuc n

-- what `0*$` matches
unfoldable pub only_zeros : String → Bool
only_zeros String.[] = true
only_zeros (String.◌∷◌ c s) = code c == b'0' && only_zeros s

-- what `[0-9]*\.?0*$` matches, behind the digits of `n`: the number with these digits
unfoldable pub whole_number : ℕ → String → Option ℕ
unfolding only_zeros
whole_number n String.[] = some n
whole_number n (String.◌∷◌ c s) =
    let more = whole_number (and_digit n (code c)) s in
    if is_digit (code c) then more else if code c == b'.' && only_zeros s then some n else none

-- the same, with a digit at the beginning
unfoldable pub unsigned : String → Option ℕ
unfolding whole_number
unsigned String.[] = none
unsigned (String.◌∷◌ c s) = if is_digit (code c) then whole_number 0 (String.◌∷◌ c s) else none

abbrev pub with_sign : (ℕ → ℤ) → Option ℕ → Option ℤ
with_sign sign none = none
with_sign sign (some n) = some (sign n)

-- checkInt(s), where a missing value is no number; -0 counts as 0
unfoldable pub check_int : Option String → Option ℤ
unfolding unsigned
check_int none = none
check_int (some String.[]) = none
check_int (some (String.◌∷◌ c s)) =
    if code c == b'-'
    then with_sign negated (unsigned s)
    else with_sign pos (unsigned (String.◌∷◌ c s))

-- '0', 'false' and 'off', in any case
unfoldable pub check_falsey : Option String → Bool
unfolding same_lower
check_falsey none = false
check_falsey (some s) = same_lower s "0" || same_lower s "false" || same_lower s "off"

unfoldable pub check_booleanish : Option String → Bool
unfolding check_truthy check_falsey
check_booleanish v = check_truthy v || check_falsey v

-- the digits at the beginning of a text, behind those of `n`
unfoldable pub leading_digits : ℕ → String → ℕ
leading_digits n String.[] = n
leading_digits n (String.◌∷◌ c s) =
    let more = leading_digits (and_digit n (code c)) s in if is_digit (code c) then more else n

-- the number that a text begins with, NaN if there is none
unfoldable pub leading_number : String → Option ℕ
unfolding leading_digits
leading_number String.[] = none
leading_number (String.◌∷◌ c s) =
    if is_digit (code c) then some (leading_digits 0 (String.◌∷◌ c s)) else none

-- parseInt(s, 10): blanks, a sign, digits, and anything else behind them
unfoldable pub parse_int : String → Option ℤ
unfolding leading_number is_space
parse_int String.[] = none
parse_int (String.◌∷◌ c s) =
    let behind = parse_int s in
    if is_space (code c)
    then behind
    else if code c == b'-'
    then with_sign negated (leading_number s)
    else if code c == b'+'
    then with_sign pos (leading_number s)
    else with_sign pos (leading_number (String.◌∷◌ c s))

check_int_tests :
    (check_int (some "-10.00") ≡ some (negsuc 9))
    × (check_int (some "10abc") ≡ none)
    × (parse_int " 10abc" ≡ some (pos 10))
unfolding check_int parse_int
check_int_tests = (refl, refl, refl)
