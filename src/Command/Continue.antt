-- ===== src/Command/Continue.antt =====
-- `parseContinueCommand`: extensions/workflows/command/command-parser.ts.
use locus_pi.Common.{Bool, true, false, [], ◌∷◌, Option, none, some, if◌then◌else◌}
use locus_pi.Common.Text.{Text, codes, is_white_space}
use locus_pi.Command.Tokens.{trim_start, trim, first_word, after_word}
use locus_pi.Command.Options.{strip_prefix}

-- `ParsedContinueCommand`
pub record ParsedContinue : Type 0 where
  pub run_id : Option Text
  pub answer : Option Text
  pub missing_answer : Bool

abbrev pub no_answer : Text → ParsedContinue
no_answer run_id = record { run_id = some run_id; answer = none; missing_answer = true }

abbrev pub answered : Text → Text → ParsedContinue
answered run_id [] = no_answer run_id
answered run_id (c ∷ cs) = record {
  run_id = some run_id;
  answer = some (c ∷ cs);
  missing_answer = false;
}

-- After the id of the run
unfoldable pub read_answer : Text → Text → ParsedContinue
unfolding trim
read_answer run_id [] = record { run_id = some run_id; answer = none; missing_answer = false }
read_answer run_id (c ∷ cs) = elim (strip_prefix (codes "--answer ") (c ∷ cs)) [
  | none ↦ no_answer run_id
  | some tail ↦ answered run_id (trim tail)
]

-- `(\S+)(?:\s+([\s\S]*))?$`
unfoldable pub read_run_id : Text → Text → Option ParsedContinue
unfolding trim read_answer
read_run_id [] rest = none
read_run_id (c ∷ cs) rest = some (read_answer (c ∷ cs) (trim rest))

unfoldable pub parse_continue_command : Text → Option ParsedContinue
unfolding trim_start first_word after_word read_run_id
parse_continue_command text = elim (strip_prefix (codes "continue") text) [
  | none ↦ none
  | some [] ↦ some (record { run_id = none; answer = none; missing_answer = false })
  | some (c ∷ cs) ↦
      if is_white_space c
      then read_run_id (first_word (trim_start (c ∷ cs))) (after_word (trim_start (c ∷ cs)))
      else none
]
