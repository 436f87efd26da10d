-- ===== src/Command/Tokens.antt =====
-- The tokens of a command: extensions/workflows/command/command-parser.ts.
use locus_pi.Common.{
  ℕ, zero, suc, Bool, true, false, not, ◌&&◌, List, [], ◌∷◌, Option, none, some, if◌then◌else◌,
  ◌==◌, every, length,
}
use locus_pi.Common.Text.{Text, is_white_space, is_control}
use locus_pi.Command.Strings.{stringify, scan, plain}

-- `trimStart`, `trimEnd` and `trim`
unfoldable pub trim_start : Text → Text
trim_start [] = []
trim_start (c ∷ cs) = let rest = trim_start cs in if is_white_space c then rest else c ∷ cs

unfoldable pub trim_end : Text → Text
trim_end [] = []
trim_end (c ∷ cs) = elim (trim_end cs) [
  | [] ↦ if is_white_space c then [] else c ∷ []
  | d ∷ ds ↦ c ∷ d ∷ ds
]

unfoldable pub trim : Text → Text
unfolding trim_start trim_end
trim text = trim_end (trim_start text)

-- `/^\s/` holds, or the text is empty.
abbrev pub is_separated : Text → Bool
is_separated [] = true
is_separated (c ∷ cs) = is_white_space c

-- `\S*` at the start, and what follows it
unfoldable pub first_word : Text → Text
first_word [] = []
first_word (c ∷ cs) = let rest = first_word cs in if is_white_space c then [] else c ∷ rest

unfoldable pub after_word : Text → Text
after_word [] = []
after_word (c ∷ cs) = let rest = after_word cs in if is_white_space c then c ∷ cs else rest

abbrev pub is_plain_unit : ℕ → Bool
is_plain_unit c = not (is_white_space c) && not (c == 34) && not (c == 92) && not (is_control c)

abbrev pub is_plain : Text → Bool
is_plain [] = false
is_plain (c ∷ cs) = every is_plain_unit (c ∷ cs)

-- `formatWorkflowCommandToken`
unfoldable pub format_token : Text → Text
unfolding stringify
format_token value = if is_plain value then value else stringify value

abbrev pub quoted : Option (Text × Text) → Option (Text × Text)
quoted none = none
quoted (some (value, rest)) = if is_separated rest then some (value, trim_start rest) else none

abbrev pub word : Text → Text → Option (Text × Text)
word [] rest = none
word (c ∷ cs) rest = some (c ∷ cs, trim_start rest)

-- `parseWorkflowCommandToken`
unfoldable pub parse_token : Text → Option (Text × Text)
unfolding scan first_word after_word trim_start
parse_token [] = none
parse_token (c ∷ cs) =
    if c == 34 then quoted (scan plain cs) else word (first_word (c ∷ cs)) (after_word (c ∷ cs))

abbrev pub ends_with_space : Text → Bool
ends_with_space [] = false
ends_with_space (c ∷ []) = is_white_space c
ends_with_space (c ∷ d ∷ ds) = ends_with_space (d ∷ ds)

abbrev pub put_token : Text → Option (List Text) → Option (List Text)
put_token value none = none
put_token value (some tokens) = some (value ∷ tokens)

-- The loop of `scanWorkflowRunOptionTokens`
unfoldable pub scan_from : ℕ → Text → Option (List Text)
unfolding parse_token
scan_from fuel [] = some []
scan_from zero (c ∷ cs) = none
scan_from (suc fuel) (c ∷ cs) = elim (parse_token (c ∷ cs)) [
  | none ↦ none
  | some (value, rest) ↦ put_token value (scan_from fuel rest)
]

abbrev pub with_end : Bool → Option (List Text) → Option (List Text × Bool)
with_end ends none = none
with_end ends (some tokens) = some (tokens, ends)

unfoldable pub scan_tokens : Text → Option (List Text × Bool)
unfolding trim scan_from
scan_tokens raw_tail =
    with_end (ends_with_space raw_tail) (scan_from (length (trim raw_tail)) (trim raw_tail))
