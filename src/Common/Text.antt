-- ===== src/Common/Text.antt =====
-- Texts as lists of code units, and decimal numerals.
use Prim.Native.Char.{code}
use Prim.Native.String.{String}
use Prim.Native.Nat.{ℕ, zero, suc, ◌+◌, ◌-◌, ◌*◌, ◌/◌, ◌%◌, ◌<◌}
use mathlib.Core.Path.{◌≡◌, refl, ap, ◌∙◌, sym}
use mathlib.Core.Logic.{◌↔◌, inl, inr}
use mathlib.Core.Bool.{Bool, true, false, ◌&&◌, ◌||◌}
use mathlib.Core.List.{List, [], ◌∷◌}
use native.Mathlib.Omega.{arith}
use locus_pi.Common.Tests.{◌==◌, ltb, leb, Bool-cases, if◌then◌else◌}

abbrev pub Text : Type 0
Text = List ℕ

-- The code units of an ASCII literal.
abbrev pub codes : String → Text
codes String.[] = []
codes (String.◌∷◌ c s) = code c ∷ codes s

-- `===` on strings
abbrev pub text_eq : Text → Text → Bool
text_eq [] [] = true
text_eq [] (y ∷ ys) = false
text_eq (x ∷ xs) [] = false
text_eq (x ∷ xs) (y ∷ ys) = x == y && text_eq xs ys

pub text_eq_iff : (s t : Text) → (text_eq s t ≡ true) ↔ (s ≡ t)
text_eq_iff [] [] = (λ _. refl, λ _. refl)
text_eq_iff [] (y ∷ ys) = ground arith
text_eq_iff (x ∷ xs) [] = ground arith
text_eq_iff (x ∷ xs) (y ∷ ys) = ground (arith, text_eq_iff xs ys)

pub text_eq_refl : (s : Text) → text_eq s s ≡ true
text_eq_refl s = (text_eq_iff s s).1 refl

-- The code units that `trim` takes away: white space and line ends.
abbrev pub is_white_space : ℕ → Bool
is_white_space c =
    (leb 9 c && leb c 13)
    || c == 32
    || c == 160
    || c == 0x1680
    || (leb 0x2000 c && leb c 0x200a)
    || c == 0x2028
    || c == 0x2029
    || c == 0x202f
    || c == 0x205f
    || c == 0x3000
    || c == 0xfeff

-- A control character of either block
abbrev pub is_control : ℕ → Bool
is_control c = leb c 0x1f || (leb 0x7f c && leb c 0x9f)

-- `text.trim() === ""`
abbrev pub is_blank : Text → Bool
is_blank [] = true
is_blank (c ∷ cs) = is_white_space c && is_blank cs

-- `String(n)`, by the last digit first; the fuel is above the number.
decimal_from : ℕ → ℕ → Text → Text
decimal_from zero n rest = rest
decimal_from (suc fuel) n rest =
    let more = decimal_from fuel (n / 10) ((n % 10 + b'0') ∷ rest) in
    if ltb n 10 then (n + b'0') ∷ rest else more

unfoldable pub decimal : ℕ → Text
unfolding decimal_from
decimal n = decimal_from (suc n) n []

-- The number that a numeral stands for, read from the front.
value_from : ℕ → Text → ℕ
value_from acc [] = acc
value_from acc (c ∷ cs) = value_from (acc * 10 + (c - b'0')) cs

value_from-decimal_from :
    (fuel n : ℕ) (rest : Text)
    → n < fuel
    → value_from 0 (decimal_from fuel n rest) ≡ value_from n rest
unfolding value_from decimal_from
value_from-decimal_from zero n rest h = absurd (omega arith)
value_from-decimal_from (suc fuel) n rest h =
    let short : 0 * 10 + (n + b'0' - b'0') ≡ n = omega arith in
    let long : n / 10 * 10 + (n % 10 + b'0' - b'0') ≡ n = omega arith in
    let ih = value_from-decimal_from fuel (n / 10) ((n % 10 + b'0') ∷ rest) in
    elim (Bool-cases (ltb n 10)) [
      | inl small ↦ rw small (ap (λ a. value_from a rest) short)
      | inr large ↦ rw large (ih (ground arith) ∙ ap (λ a. value_from a rest) long)
    ]

pub decimal-injective : (m n : ℕ) → decimal m ≡ decimal n → m ≡ n
unfolding decimal value_from
decimal-injective m n e =
    sym (value_from-decimal_from (suc m) m [] (omega arith))
    ∙ ap (value_from 0) e
    ∙ value_from-decimal_from (suc n) n [] (omega arith)
