-- ===== src/Common/Texts.antt =====
-- Strings: the methods of JavaScript's `String` that the program calls, over code points.
use Prim.Native.Nat.{ℕ, zero, suc, ◌+◌, ◌/◌, ◌%◌}
use Prim.Native.Char.{code}
use Prim.Native.String
use Prim.Native.String.{String, [], ◌∷◌, slice}
use mathlib.Core.Bool.{Bool, true, false, ◌&&◌, ◌||◌}
use mathlib.Core.Option.{Option, none, some}
use mathlib.Core.List.{List}
use mathlib.Core.Path.{◌≡◌, refl}
use mathlib.Core.Logic.{inl, inr}
use native.Mathlib.Omega.{arith}
use text.Mathlib.TextEquality.{eq_iff}
use text.Mathlib.TextLemmas.{nil-append, cons-append}
use text.Mathlib.Text.{◌==◌ as str_eq, starts_with}
use balena_supervisor.Common.Tests.{◌==◌, leb, ltb, if◌then◌else◌, Bool-cases}
use balena_supervisor.Common.Lists.{Any}

-- what stands before the first `c`, or the whole text: s.split(c)[0]
unfoldable pub before : ℕ → String → String
before c [] = []
before c (x ∷ s) = if code x == c then [] else x ∷ before c s

-- what stands behind the first `c`, if there is one
unfoldable pub after : ℕ → String → Option String
after c [] = none
after c (x ∷ s) = if code x == c then some s else after c s

-- s.includes(c)
unfoldable pub has_char : ℕ → String → Bool
has_char c [] = false
has_char c (x ∷ s) = code x == c || has_char c s

-- s.split(c)[1]
unfoldable pub second_part : ℕ → String → Option String
unfolding before after
second_part c s = elim (after c s) [ none ↦ none | some t ↦ some (before c t) ]

-- path.isAbsolute(s), as Node defines it on Linux
unfoldable pub is_absolute : String → Bool
is_absolute s = starts_with s "/"

-- the code of an ASCII letter in lower case; other characters are kept
unfoldable pub lower_code : ℕ → ℕ
lower_code c = if leb b'A' c && leb c b'Z' then c + 32 else c

-- Does `s` read as the lower case text `t`, whatever the case of its ASCII letters?
unfoldable pub same_lower : String → String → Bool
unfolding lower_code
same_lower [] [] = true
same_lower (c ∷ s) (d ∷ t) = lower_code (code c) == code d && same_lower s t
same_lower _ _ = false

-- Does `s` begin with the lower case text `t`, whatever its case? The rest of `s`, if so.
unfoldable pub strip_lower : String → String → Option String
unfolding lower_code
strip_lower s [] = some s
strip_lower [] (d ∷ t) = none
strip_lower (c ∷ s) (d ∷ t) = if lower_code (code c) == code d then strip_lower s t else none

-- The decimal digits of a number below 10 ^ fuel, before `rest`.
unfoldable pub decimal_from : ℕ → ℕ → String → String
decimal_from zero n rest = rest
decimal_from (suc fuel) n rest =
    let rest' = String.◌++◌ (slice "0123456789" (n % 10) (n % 10 + 1)) rest in
    elim (ltb n 10) [ true ↦ rest' | false ↦ decimal_from fuel (n / 10) rest' ]

-- `${n}`; a number below 10 ^ (n + 1) has at most n + 1 digits
unfoldable pub decimal : ℕ → String
unfolding decimal_from
decimal n = decimal_from (suc n) n ""

-- xs.includes(s)
abbrev pub includes : List String → String → Bool
includes List.[] s = false
includes (List.◌∷◌ x xs) s = str_eq x s || includes xs s

decimal_test : decimal 1054 ≡ "1054"
unfolding decimal
decimal_test = refl

second_part_test : second_part b'@' "reg/img@sha256:1@x" ≡ some "sha256:1"
unfolding second_part
second_part_test = refl

pub includes-eq-true : (xs : List String) (s : String) → includes xs s ≡ true → Any (λ x. x ≡ s) xs
includes-eq-true List.[] s h = cc
includes-eq-true (List.◌∷◌ x xs) s h = elim (Bool-cases (str_eq x s)) [
  | inl e ↦ inl ((eq_iff x s).0 e)
  | inr e ↦ inr (includes-eq-true xs s (ground arith))
]

pub str_eq_self : (s : String) → str_eq s s ≡ true
str_eq_self s = (eq_iff s s).1 refl

-- equal texts are the same to every test
pub eq_of_str_eq : (s t : String) → str_eq s t ≡ true → s ≡ t
eq_of_str_eq s t h = (eq_iff s t).0 h

-- s <= t, by the codes of the characters
unfoldable pub text_leb : String → String → Bool
text_leb [] t = true
text_leb (c ∷ s) [] = false
text_leb (c ∷ s) (d ∷ t) = ltb (code c) (code d) || code c == code d && text_leb s t

pub text_leb_self : (s : String) → text_leb s s ≡ true
unfolding text_leb
text_leb_self [] = refl
text_leb_self (c ∷ s) = ground (arith, text_leb_self s)

module _ (c : ℕ) where
  -- a text without the character, followed by another text
  pub before-append :
      (k s : String)
      → has_char c k ≡ false
      → before c (String.◌++◌ k s) ≡ String.◌++◌ k (before c s)
  unfolding before has_char
  before-append [] s h = rw (nil-append s, nil-append (before c s)) refl
  before-append (x ∷ k) s h =
      rw (cons-append x k s, cons-append x k (before c s)) (ground (arith, before-append k s))

  pub after-append : (k s : String) → has_char c k ≡ false → after c (String.◌++◌ k s) ≡ after c s
  unfolding after has_char
  after-append [] s h = rw (nil-append s) refl
  after-append (x ∷ k) s h = rw (cons-append x k s) (ground (arith, after-append k s))
