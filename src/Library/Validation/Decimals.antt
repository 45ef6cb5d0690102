-- ===== src/Library/Validation/Decimals.antt =====
-- lib/validation.ts: checkInt of the text of a number.
use Prim.Native.Char.{Char, code}
use Prim.Native.String
use Prim.Native.String.{slice}
use text.Mathlib.TextLemmas.{nil-append, cons-append}
use balena_supervisor.Common.{
  ℕ, zero, suc, ◌+◌, ◌-◌, ◌*◌, ◌/◌, ◌%◌, ◌<◌, String, true, false, some, ◌==◌, ltb, ◌≡◌, refl, sym,
  ap, subst, ◌∙◌, inl, inr, arith, Bool-cases,
}
use balena_supervisor.Common.Equality.{ℤ, pos, negsuc}
use balena_supervisor.Common.Texts.{decimal, decimal_from}
use balena_supervisor.Library.Validation.{
  is_digit, negated, whole_number, unsigned, with_sign, check_int, leading_digits, leading_number,
  parse_int,
}
use balena_supervisor.Compose.Service.NetworkMode.{is_space}

-- a digit, as a text of one character
abbrev IsDigit : ℕ → String → Type 0
IsDigit d s =
    (c : Char) × (s ≡ String.◌∷◌ c String.[]) × (is_digit (code c) ≡ true) × (code c - b'0' ≡ d)

IsDigit-slice : (d : ℕ) → d < 10 → IsDigit d (slice "0123456789" d (d + 1))
IsDigit-slice zero h = (_, refl, refl, refl)
IsDigit-slice (suc zero) h = (_, refl, refl, refl)
IsDigit-slice (suc (suc zero)) h = (_, refl, refl, refl)
IsDigit-slice (suc (suc (suc zero))) h = (_, refl, refl, refl)
IsDigit-slice (suc (suc (suc (suc zero)))) h = (_, refl, refl, refl)
IsDigit-slice (suc (suc (suc (suc (suc zero))))) h = (_, refl, refl, refl)
IsDigit-slice (suc (suc (suc (suc (suc (suc zero)))))) h = (_, refl, refl, refl)
IsDigit-slice (suc (suc (suc (suc (suc (suc (suc zero))))))) h = (_, refl, refl, refl)
IsDigit-slice (suc (suc (suc (suc (suc (suc (suc (suc zero)))))))) h = (_, refl, refl, refl)
IsDigit-slice (suc (suc (suc (suc (suc (suc (suc (suc (suc zero))))))))) h = (_, refl, refl, refl)
IsDigit-slice (suc (suc (suc (suc (suc (suc (suc (suc (suc (suc d)))))))))) h =
    elim (impossible h) [ ]
  where
    impossible : suc (suc (suc (suc (suc (suc (suc (suc (suc (suc d))))))))) < 10 → ⊥
    impossible h = omega arith

whole_number-digit :
    (m d : ℕ) (s rest : String)
    → IsDigit d s
    → whole_number m (String.◌++◌ s rest) ≡ whole_number (m * 10 + d) rest
unfolding whole_number
whole_number-digit m d s rest (c, e, digit, value) =
    rw (e, cons-append c String.[] rest, nil-append rest, digit, value) refl

-- what a number is printed to is read back, whatever digits stand behind it
whole_number-decimal_from :
    (fuel n : ℕ) (rest : String)
    → n < fuel
    → whole_number 0 (decimal_from fuel n rest) ≡ whole_number n rest
unfolding decimal_from
whole_number-decimal_from zero n rest h = elim (impossible h) [ ]
  where
    impossible : n < 0 → ⊥
    impossible h = omega arith
whole_number-decimal_from (suc fuel) n rest h = elim (Bool-cases (ltb n 10)) [
  | inl e ↦
      rw (e, decimal_from)
        (whole_number-digit 0 (n % 10) _ rest (IsDigit-slice (n % 10) (omega arith))
          ∙ ap (λ k. whole_number k rest) (small e))
  | inr e ↦
      rw (e, decimal_from)
        (whole_number-decimal_from fuel (n / 10) _ (ground arith)
          ∙ whole_number-digit (n / 10) (n % 10) _ rest (IsDigit-slice (n % 10) (omega arith))
          ∙ ap (λ k. whole_number k rest) (omega arith))
]
  where
    small : ltb n 10 ≡ true → 0 * 10 + n % 10 ≡ n
    small e = let k : n < 10 = ground arith in omega arith

-- a text that begins with a digit
abbrev StartsWithDigit : String → Type 0
StartsWithDigit s = (c : Char) × (t : String) × (s ≡ String.◌∷◌ c t) × (is_digit (code c) ≡ true)

decimal_from-StartsWithDigit :
    (fuel n : ℕ) (rest : String) → n < fuel → StartsWithDigit (decimal_from fuel n rest)
unfolding decimal_from
decimal_from-StartsWithDigit zero n rest h = elim (impossible h) [ ]
  where
    impossible : n < 0 → ⊥
    impossible h = omega arith
decimal_from-StartsWithDigit (suc fuel) n rest h = elim (Bool-cases (ltb n 10)) [
  | inl e ↦ rw (e, decimal_from) (start (n % 10) _ (IsDigit-slice (n % 10) (omega arith)))
  | inr e ↦ rw (e, decimal_from) (decimal_from-StartsWithDigit fuel (n / 10) _ (ground arith))
]
  where
    start : (d : ℕ) (s : String) → IsDigit d s → StartsWithDigit (String.◌++◌ s rest)
    start d s (c, e, digit, value) =
        (c, rest, rw (e, cons-append c String.[] rest, nil-append rest) refl, digit)

decimal-StartsWithDigit : (n : ℕ) → StartsWithDigit (decimal n)
unfolding decimal
decimal-StartsWithDigit n = decimal_from-StartsWithDigit (suc n) n "" (omega arith)

whole_number-decimal : (n : ℕ) → whole_number 0 (decimal n) ≡ some n
unfolding decimal whole_number
whole_number-decimal n = whole_number-decimal_from (suc n) n "" (omega arith)

unsigned_of_digit : (s : String) → StartsWithDigit s → unsigned s ≡ whole_number 0 s
unfolding unsigned
unsigned_of_digit s (c, t, e, digit) =
    subst (λ s. unsigned s ≡ whole_number 0 s) (sym e) (rw digit refl)

check_int_of_digit :
    (s : String) → StartsWithDigit s → check_int (some s) ≡ with_sign pos (unsigned s)
unfolding check_int
check_int_of_digit s (c, t, e, digit) =
    subst (λ s. check_int (some s) ≡ with_sign pos (unsigned s)) (sym e) (rw (no_dash digit) refl)
  where
    no_dash : is_digit (code c) ≡ true → (code c == b'-') ≡ false
    no_dash digit = ground arith

check_int_of_dash :
    (s : String) → check_int (some (String.◌++◌ "-" s)) ≡ with_sign negated (unsigned s)
unfolding check_int
check_int_of_dash s = rw (cons-append _ "" s, nil-append s) refl

unsigned-decimal : (n : ℕ) → unsigned (decimal n) ≡ some n
unsigned-decimal n =
    unsigned_of_digit (decimal n) (decimal-StartsWithDigit n) ∙ whole_number-decimal n

-- `${n}`, of an integer
unfoldable pub int_text : ℤ → String
int_text (pos n) = decimal n
int_text (negsuc n) = String.◌++◌ "-" (decimal (suc n))

pub check_int-int_text : (n : ℤ) → check_int (some (int_text n)) ≡ some n
unfolding int_text
check_int-int_text (pos n) =
    check_int_of_digit (decimal n) (decimal-StartsWithDigit n)
    ∙ ap (with_sign pos) (unsigned-decimal n)
check_int-int_text (negsuc n) =
    check_int_of_dash (decimal (suc n)) ∙ ap (with_sign negated) (unsigned-decimal (suc n))

-- what parseInt reads of a number, whatever digits stand behind it
leading_digits-digit :
    (m d : ℕ) (s rest : String)
    → IsDigit d s
    → leading_digits m (String.◌++◌ s rest) ≡ leading_digits (m * 10 + d) rest
unfolding leading_digits
leading_digits-digit m d s rest (c, e, digit, value) =
    rw (e, cons-append c String.[] rest, nil-append rest, digit, value) refl

leading_digits-decimal_from :
    (fuel n : ℕ) (rest : String)
    → n < fuel
    → leading_digits 0 (decimal_from fuel n rest) ≡ leading_digits n rest
unfolding decimal_from
leading_digits-decimal_from zero n rest h = elim (impossible h) [ ]
  where
    impossible : n < 0 → ⊥
    impossible h = omega arith
leading_digits-decimal_from (suc fuel) n rest h = elim (Bool-cases (ltb n 10)) [
  | inl e ↦
      rw (e, decimal_from)
        (leading_digits-digit 0 (n % 10) _ rest (IsDigit-slice (n % 10) (omega arith))
          ∙ ap (λ k. leading_digits k rest) (small e))
  | inr e ↦
      rw (e, decimal_from)
        (leading_digits-decimal_from fuel (n / 10) _ (ground arith)
          ∙ leading_digits-digit (n / 10) (n % 10) _ rest (IsDigit-slice (n % 10) (omega arith))
          ∙ ap (λ k. leading_digits k rest) (omega arith))
]
  where
    small : ltb n 10 ≡ true → 0 * 10 + n % 10 ≡ n
    small e = let k : n < 10 = ground arith in omega arith

leading_digits-decimal : (n : ℕ) → leading_digits 0 (decimal n) ≡ n
unfolding decimal leading_digits
leading_digits-decimal n = leading_digits-decimal_from (suc n) n "" (omega arith)

leading_number_of_digit :
    (s : String) → StartsWithDigit s → leading_number s ≡ some (leading_digits 0 s)
unfolding leading_number
leading_number_of_digit s (c, t, e, digit) =
    subst (λ s. leading_number s ≡ some (leading_digits 0 s)) (sym e) (rw digit refl)

leading_number-decimal : (n : ℕ) → leading_number (decimal n) ≡ some n
leading_number-decimal n =
    leading_number_of_digit (decimal n) (decimal-StartsWithDigit n)
    ∙ ap some (leading_digits-decimal n)

no_space : (c : ℕ) → is_digit c ≡ true → is_space c ≡ false
unfolding is_space
no_space c digit = ground arith

parse_int_of_digit :
    (s : String) → StartsWithDigit s → parse_int s ≡ with_sign pos (leading_number s)
unfolding parse_int
parse_int_of_digit s (c, t, e, digit) =
    subst (λ s. parse_int s ≡ with_sign pos (leading_number s)) (sym e)
      (rw (no_space (code c) digit, no_dash digit, no_plus digit) refl)
  where
    no_dash : is_digit (code c) ≡ true → (code c == b'-') ≡ false
    no_dash digit = ground arith

    no_plus : is_digit (code c) ≡ true → (code c == b'+') ≡ false
    no_plus digit = ground arith

parse_int_of_dash :
    (s : String) → parse_int (String.◌++◌ "-" s) ≡ with_sign negated (leading_number s)
unfolding parse_int is_space
parse_int_of_dash s = rw (cons-append _ "" s, nil-append s) refl

pub parse_int-int_text : (n : ℤ) → parse_int (int_text n) ≡ some n
unfolding int_text
parse_int-int_text (pos n) =
    parse_int_of_digit (decimal n) (decimal-StartsWithDigit n)
    ∙ ap (with_sign pos) (leading_number-decimal n)
parse_int-int_text (negsuc n) =
    parse_int_of_dash (decimal (suc n)) ∙ ap (with_sign negated) (leading_number-decimal (suc n))
