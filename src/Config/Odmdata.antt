-- ===== src/Config/Odmdata.antt =====
-- config/backends/odmdata.ts: the mode of ODMDATA, a byte that stands three times on a partition.
pub mod RoundTrip
pub mod Locking
mod Tests
use Prim.Native.Char.{code}
use Prim.Native.String
use balena_supervisor.Common.{
  ℕ, zero, suc, ◌+◌, ◌-◌, ◌*◌, String, Bool, true, false, ◌&&◌, ◌||◌, not, List, [], ◌∷◌, Option,
  none, some, str_eq, get_elem?, ◌==◌, ltb, leb, if◌then◌else◌,
}
use balena_supervisor.Common.Results.{Result, ok, thrown, Exception, internal_inconsistency, ◌>>=◌}

-- The boot partition, byte by byte, and the flag that protects it.
pub record Partition : Type 0 where
  pub byte_at : ℕ → ℕ
  pub read_only : Bool

-- Which operations of the file system fail: writing the flag, writing a byte, reading a byte.
pub record Faults : Type 0 where
  pub flag_fails : Bool → Bool
  pub write_fails : ℕ → Bool
  pub read_fails : ℕ → Bool

abbrev pub odmdata_error : Exception
odmdata_error = internal_inconsistency "ODMDataError"

abbrev pub byte_offsets : List ℕ
byte_offsets = 1659 ∷ 5243 ∷ 18043 ∷ []

abbrev pub config_bytes : List ℕ
config_bytes = 0 ∷ 1 ∷ 6 ∷ 7 ∷ 2 ∷ 3 ∷ []

-- the partition after an operation, and whether that threw
abbrev pub Done : Type 0
Done = Partition × Result (Unit {0})

-- what follows an operation that did not throw
abbrev pub after : Done → (Partition → Done) → Done
after (p, thrown e) next = (p, thrown e)
after (p, ok u) next = next p

unfoldable pub set_read_only : Faults → Bool → Partition → Done
set_read_only f value p =
    if f.flag_fails value
    then (p, thrown odmdata_error)
    else (record p { read_only = value }, ok tt)

abbrev pub write_byte : ℕ → ℕ → Partition → Partition
write_byte position value p = record p {
  byte_at = λ k. if k == position then value else p.byte_at k;
}

-- A protected partition takes no byte. The index NaN, none, is refused by the write.
unfoldable pub set_byte_at_offset : Faults → Option ℕ → ℕ → Partition → Done
set_byte_at_offset f none position p = (p, thrown odmdata_error)
set_byte_at_offset f (some value) position p =
    if p.read_only || f.write_fails position
    then (p, thrown odmdata_error)
    else (write_byte position value p, ok tt)

-- the loop over the offsets, which the first error ends
unfoldable pub set_bytes : Faults → Option ℕ → List ℕ → Partition → Done
unfolding set_byte_at_offset
set_bytes f value [] p = (p, ok tt)
set_bytes f value (position ∷ rest) p =
    after (set_byte_at_offset f value position p) (set_bytes f value rest)

-- finally: an error of the last operation counts before one of the first
abbrev pub in_the_end : Result (Unit {0}) → Result (Unit {0}) → Result (Unit {0})
in_the_end first (thrown e) = thrown e
in_the_end first (ok u) = first

-- the protection is put on again
unfoldable pub close : Faults → Done → Done
unfolding set_read_only
close f (p, r) = let closed = set_read_only f true p in (closed.0, in_the_end r closed.1)

-- The bytes are written while the protection is off; it is put on again even after an error.
unfoldable pub write_mode : Faults → Option ℕ → Partition → Done
unfolding set_read_only set_bytes close
write_mode f value p =
    after (set_read_only f false p) (λ opened. close f (set_bytes f value byte_offsets opened))

-- The test of the mode, none being NaN, which no comparison refuses.
unfoldable pub set_mode : Faults → Option ℕ → Partition → Done
unfolding write_mode
set_mode f none p = write_mode f none p
set_mode f (some mode) p =
    if ltb mode 1 || ltb 6 mode
    then (p, ok tt)
    else write_mode f (get_elem? config_bytes (mode - 1)) p

abbrev is_digit : ℕ → Bool
is_digit c = leb b'0' c && leb c b'9'

-- the digits at the beginning of a text, read after `n`
leading_digits : ℕ → String → ℕ
leading_digits n String.[] = n
leading_digits n (String.◌∷◌ c s) =
    let value = leading_digits (n * 10 + (code c - b'0')) s in
    if is_digit (code c) then value else n

-- the number that a text begins with; NaN if there is none
abbrev unsigned : String → Option ℕ
unsigned String.[] = none
unsigned (String.◌∷◌ c s) =
    if is_digit (code c) then some (leading_digits 0 (String.◌∷◌ c s)) else none

-- A negative number is refused as 0 is, for which it stands here.
abbrev negated : Option ℕ → Option ℕ
negated none = none
negated (some n) = some 0

abbrev is_space : ℕ → Bool
is_space c = c == 32 || leb 9 c && leb c 13

-- parseInt(s, 10): blanks, a sign, digits
unfoldable pub parse_mode : String → Option ℕ
unfolding leading_digits
parse_mode String.[] = none
parse_mode (String.◌∷◌ c s) =
    let after_space = parse_mode s in
    if is_space (code c)
    then after_space
    else if code c == b'-'
    then negated (unsigned s)
    else if code c == b'+'
    then unsigned s
    else unsigned (String.◌∷◌ c s)

-- supportedOptions.configuration
unfoldable pub configuration : List (String × String) → Option String
configuration [] = none
configuration ((k, v) ∷ rest) = if str_eq k "configuration" then some v else configuration rest

unfoldable pub set_boot_config : Faults → List (String × String) → Partition → Done
unfolding configuration parse_mode set_mode
set_boot_config f opts p = elim (configuration opts) [
  | none ↦ (p, ok tt)
  | some text ↦ if str_eq text "" then (p, ok tt) else set_mode f (parse_mode text) p
]

unfoldable pub read_byte : Faults → Partition → ℕ → Result ℕ
read_byte f p position =
    if f.read_fails position then thrown odmdata_error else ok (p.byte_at position)

-- CONFIG_BYTES.findIndex
unfoldable pub find_config : ℕ → List ℕ → Option ℕ
find_config byte [] = none
find_config byte (b ∷ rest) =
    if b == byte
    then some 0
    else elim (find_config byte rest) [ none ↦ none | some i ↦ some (suc i) ]

-- the number of the mode that three bytes stand for
unfoldable pub parse_options : ℕ → ℕ → ℕ → Result ℕ
unfolding find_config
parse_options a b c =
    if not (a == b && b == c)
    then thrown odmdata_error
    else elim (find_config a config_bytes) [ none ↦ thrown odmdata_error | some i ↦ ok (suc i) ]

unfoldable pub get_boot_config : Faults → Partition → Result ℕ
unfolding read_byte parse_options
get_boot_config f p = do
  a ← read_byte f p 1659
  b ← read_byte f p 5243
  c ← read_byte f p 18043
  parse_options a b c
