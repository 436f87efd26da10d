-- ===== src/Command/Lengths.antt =====
-- What the readers of command-parser.ts leave of a text is no longer than it.
use locus_pi.Common.{
  ℕ, suc, ◌<◌, ◌≤◌, Bool, true, false, [], ◌∷◌, Option, none, some, if◌then◌else◌, ◌==◌, arith,
  length, if_intro,
}
use locus_pi.Common.Text.{Text, is_white_space}
use locus_pi.Command.Strings.{Mode, closes, refuses, emits, moves, plain, move, put, scan}
use locus_pi.Command.Tokens.{
  trim_start, parse_token, quoted, word, first_word, after_word, is_separated,
}
use locus_pi.Command.Options.{strip_prefix, after_space, at_start, option_value, taken, is_reserved}

-- What is left is no longer than the text, or shorter.
abbrev LeftLe : ℕ → Option Text → Type 0
LeftLe n none = Unit {0}
LeftLe n (some rest) = length rest ≤ n

abbrev pub LeftLt : ℕ → Option Text → Type 0
LeftLt n none = Unit {0}
LeftLt n (some rest) = length rest < n

abbrev pub TailLe : ℕ → Option (Text × Text) → Type 0
TailLe n none = Unit {0}
TailLe n (some (v, rest)) = length rest ≤ n

le-weaken : (m n : ℕ) (o : Option Text) → m ≤ n → LeftLe m o → LeftLe n o
le-weaken m n none h e = tt
le-weaken m n (some rest) h e = omega (arith, h, e)

lt-weaken : (m n : ℕ) (o : Option Text) → m < n → LeftLe m o → LeftLt n o
lt-weaken m n none h e = tt
lt-weaken m n (some rest) h e = omega (arith, h, e)

tail-weaken : (m n : ℕ) (o : Option (Text × Text)) → m ≤ n → TailLe m o → TailLe n o
tail-weaken m n none h e = tt
tail-weaken m n (some (v, rest)) h e = omega (arith, h, e)

pub length-trim_start : (t : Text) → length (trim_start t) ≤ length t
unfolding trim_start
length-trim_start [] = omega arith
length-trim_start (c ∷ cs) =
    let ih = length-trim_start cs in
    if_intro (λ x. length x ≤ suc (length cs)) (is_white_space c) {x = trim_start cs} {y = c ∷ cs}
      (λ _. omega (arith, ih)) (λ _. omega arith)

length-after_word : (t : Text) → length (after_word t) ≤ length t
unfolding after_word
length-after_word [] = omega arith
length-after_word (c ∷ cs) =
    let ih = length-after_word cs in
    if_intro (λ x. length x ≤ suc (length cs)) (is_white_space c) {x = c ∷ cs} {y = after_word cs}
      (λ _. omega arith) (λ _. omega (arith, ih))

strip_prefix_le : (name text : Text) → LeftLe (length text) (strip_prefix name text)
strip_prefix_le [] text = omega arith
strip_prefix_le (c ∷ cs) [] = tt
strip_prefix_le (c ∷ cs) (d ∷ ds) =
    if_intro (LeftLe (suc (length ds))) (c == d)
      (λ _. le-weaken (length ds) _ (strip_prefix cs ds) (omega arith) (strip_prefix_le cs ds))
      (λ _. tt)

strip_prefix_lt : (c : ℕ) (name text : Text) → LeftLt (length text) (strip_prefix (c ∷ name) text)
strip_prefix_lt c name [] = tt
strip_prefix_lt c name (d ∷ ds) =
    if_intro (LeftLt (suc (length ds))) (c == d)
      (λ _. lt-weaken (length ds) _ (strip_prefix name ds) (omega arith) (strip_prefix_le name ds))
      (λ _. tt)

after_space_lt : (n : ℕ) (o : Option Text) → LeftLt n o → LeftLt n (after_space o)
after_space_lt n none h = tt
after_space_lt n (some []) h = h
after_space_lt n (some (c ∷ cs)) h =
    let shorter = length-trim_start (c ∷ cs) in
    if_intro (LeftLt n) (is_white_space c) {x = some (trim_start (c ∷ cs))} {y = none}
      (λ _. omega (arith, h, shorter)) (λ _. tt)

pub at_start_lt : (c : ℕ) (name text : Text) → LeftLt (length text) (at_start (c ∷ name) text)
unfolding at_start
at_start_lt c name text =
    after_space_lt (length text) (strip_prefix (c ∷ name) text) (strip_prefix_lt c name text)

put_le : (v n : ℕ) (o : Option (Text × Text)) → TailLe n o → TailLe n (put v o)
put_le v n none h = tt
put_le v n (some (t, rest)) h = h

scan_le : (m : Mode) (t : Text) → TailLe (length t) (scan m t)
unfolding scan
scan_le m [] = tt
scan_le m (c ∷ cs) =
    elim (move m c)
      as (λ d. TailLe (suc (length cs)) (elim d [
        | closes ↦ some ([], cs)
        | refuses ↦ none
        | emits v ↦ put v (scan plain cs)
        | moves n ↦ scan n cs
      ])) [
        | closes ↦ omega arith
        | refuses ↦ tt
        | emits v ↦
            tail-weaken (length cs) _ (put v (scan plain cs)) (omega arith)
              (put_le v (length cs) (scan plain cs) (scan_le plain cs))
        | moves n ↦ tail-weaken (length cs) _ (scan n cs) (omega arith) (scan_le n cs)
      ]

quoted_le : (n : ℕ) (o : Option (Text × Text)) → TailLe n o → TailLe n (quoted o)
quoted_le n none h = tt
quoted_le n (some (v, rest)) h =
    let shorter = length-trim_start rest in
    if_intro (TailLe n) (is_separated rest) {x = some (v, trim_start rest)} {y = none}
      (λ _. omega (arith, h, shorter)) (λ _. tt)

word_le : (n : ℕ) (v rest : Text) → length rest ≤ n → TailLe n (word v rest)
word_le n [] rest h = tt
word_le n (c ∷ cs) rest h = let shorter = length-trim_start rest in omega (arith, h, shorter)

word_or_none_le :
    (b : Bool) (c : ℕ) (cs : Text)
    → TailLe
        (length cs)
        (word (if b then [] else c ∷ first_word cs) (if b then c ∷ cs else after_word cs))
word_or_none_le true c cs = tt
word_or_none_le false c cs = word_le _ (c ∷ first_word cs) (after_word cs) (length-after_word cs)

-- A token has at least one unit.
pub parse_token_lt : (c : ℕ) (cs : Text) → TailLe (length cs) (parse_token (c ∷ cs))
unfolding parse_token
parse_token_lt c cs =
    if_intro (TailLe (length cs)) (c == 34) (λ _. quoted_le _ (scan plain cs) (scan_le plain cs))
      (λ _. word_or_none_le (is_white_space c) c cs)

taken_le : (n : ℕ) (o : Option (Text × Text)) → TailLe n o → TailLe n (taken o)
taken_le n none h = tt
taken_le n (some (v, rest)) h =
    if_intro (TailLe n) (is_reserved v) {x = none} {y = some (v, rest)} (λ _. tt) (λ _. h)

pub option_value_le : (t : Text) → TailLe (length t) (option_value t)
unfolding option_value
option_value_le [] = tt
option_value_le (c ∷ cs) =
    tail-weaken (length cs) _ (taken (parse_token (c ∷ cs))) (omega arith)
      (taken_le _ (parse_token (c ∷ cs)) (parse_token_lt c cs))
