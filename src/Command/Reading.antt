-- ===== src/Command/Reading.antt =====
-- The tokens that command-parser.ts writes are read back by it.
use mathlib.Core.List.{append_assoc}
use locus_pi.Common.{
  ℕ, ◌≡◌, refl, ap, ◌∙◌, true, false, [], ◌∷◌, ◌++◌, none, some, ◌==◌, if_intro, and_parts,
  if_of_true, if_of_false, arith, every,
}
use locus_pi.Common.Text.{Text, is_white_space}
use locus_pi.Command.Strings.{stringify, escape_units, scan, plain}
use locus_pi.Command.Quoting.{scan-escape_units}
use locus_pi.Command.Tokens.{
  trim_start, is_separated, first_word, after_word, is_plain_unit, is_plain, format_token, quoted,
  word, parse_token,
}

pub plain_white : (c : ℕ) → is_plain_unit c ≡ true → is_white_space c ≡ false
plain_white c h = ground arith

plain_quote : (c : ℕ) → is_plain_unit c ≡ true → (c == 34) ≡ false
plain_quote c h = ground arith

separated_word :
    (rest : Text) → is_separated rest ≡ true → (first_word rest ≡ []) × (after_word rest ≡ rest)
unfolding first_word after_word
separated_word [] h = (refl, refl)
separated_word (c ∷ cs) h =
    (if_of_true (is_white_space c) [] _ h, if_of_true (is_white_space c) (c ∷ cs) _ h)

word-append :
    (value rest : Text)
    → every is_plain_unit value ≡ true
    → is_separated rest ≡ true
    → (first_word (value ++ rest) ≡ value) × (after_word (value ++ rest) ≡ rest)
unfolding first_word after_word
word-append [] rest h g = separated_word rest g
word-append (c ∷ cs) rest h g =
    let (unit, units) = and_parts (is_plain_unit c) (every is_plain_unit cs) h in
    let white = plain_white c unit in
    let (first, after) = word-append cs rest units g in
    (
      if_of_false (is_white_space c) [] (c ∷ first_word (cs ++ rest)) white ∙ ap (λ r. c ∷ r) first,
      if_of_false (is_white_space c) (c ∷ cs ++ rest) (after_word (cs ++ rest)) white ∙ after,
    )

plain_token :
    (value rest : Text)
    → is_plain value ≡ true
    → is_separated rest ≡ true
    → parse_token (value ++ rest) ≡ some (value, trim_start rest)
unfolding parse_token
plain_token [] rest h g = ground arith
plain_token (c ∷ cs) rest h g =
    let (unit, units) = and_parts (is_plain_unit c) (every is_plain_unit cs) h in
    let (first, after) = word-append (c ∷ cs) rest h g in
    if_of_false (c == 34) (quoted (scan plain (cs ++ rest)))
      (word (first_word (c ∷ cs ++ rest)) (after_word (c ∷ cs ++ rest))) (plain_quote c unit)
    ∙ ap (λ x. word x (after_word (c ∷ cs ++ rest))) first
    ∙ ap (word (c ∷ cs)) after

quoted_token :
    (value rest : Text)
    → is_separated rest ≡ true
    → parse_token (stringify value ++ rest) ≡ some (value, trim_start rest)
unfolding parse_token stringify
quoted_token value rest g =
    ap (λ x. quoted (scan plain x)) (append_assoc (escape_units false value) (34 ∷ []) rest)
    ∙ ap quoted (scan-escape_units false value rest)
    ∙ if_of_true (is_separated rest) (some (value, trim_start rest)) none g

-- A token is read back with what follows it, when that begins with white space or is empty.
pub parse_token-format_token :
    (value rest : Text)
    → is_separated rest ≡ true
    → parse_token (format_token value ++ rest) ≡ some (value, trim_start rest)
unfolding format_token
parse_token-format_token value rest h =
    if_intro (λ x. parse_token (x ++ rest) ≡ some (value, trim_start rest)) (is_plain value)
      (λ e. plain_token value rest e h) (λ _. quoted_token value rest h)
