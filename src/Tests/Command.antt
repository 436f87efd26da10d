-- ===== src/Tests/Command.antt =====
-- The grammar of the commands at concrete lines.
use locus_pi.Common.{◌≡◌, refl, true, false, List, [], ◌∷◌, ◌++◌, Option, none, some}
use locus_pi.Common.Text.{Text, codes}
use locus_pi.Common.Json.{Json, null}
use locus_pi.Command.Strings.{escape_unit, escape_units, stringify, scan}
use locus_pi.Command.Tokens.{
  trim_start, trim_end, trim, first_word, after_word, format_token, parse_token, scan_from,
  scan_tokens,
}
use locus_pi.Command.Options.{
  no_options, at_start, option_at_start, is_reserved, option_value, run_name,
}
use locus_pi.Command.Run.{
  option_round, round, read_options, has_json_word, read_input, finish, after_run, parse_tail,
  parse_run_command, plain_run, non_empty, mixed_json,
}
use locus_pi.Command.Continue.{read_answer, read_run_id, parse_continue_command, answered}
use locus_pi.Command.Reading.{parse_token-format_token}
use locus_pi.Command.Rereading
use locus_pi.Command.Rereading.{Given, run_line, options_meant, parse_run_command-run_line}

commands : Unit {0}
unfolding escape_unit escape_units stringify scan trim_start trim_end trim first_word after_word
    format_token parse_token scan_from scan_tokens at_start option_at_start is_reserved option_value
    option_round round read_options has_json_word read_input finish after_run parse_tail
    parse_run_command read_answer read_run_id parse_continue_command
commands = tt

abbrev no_json : Text → Option Json
no_json text = none

-- A quote, a line end, a surrogate without its other half, and a space
abbrev odd : Text
odd = 34 ∷ 10 ∷ 0xd800 ∷ 32 ∷ []

odd_token : format_token odd ≡ codes "\"\\\"\\n\\ud800 \""
unfolding commands
odd_token = refl

parse_token-format_token_example :
    parse_token (format_token odd ++ codes "  rest") ≡ some (odd, trim_start (codes "  rest"))
parse_token-format_token_example = parse_token-format_token odd (codes "  rest") refl

two_tokens : scan_tokens (codes " a \"b c\" ") ≡ some (codes "a" ∷ codes "b c" ∷ [], true)
unfolding commands
two_tokens = refl

abbrev options : List Given
options =
    Rereading.field run_name (codes "first")
    ∷ Rereading.force
    ∷ Rereading.mode true
    ∷ Rereading.field run_name (codes "second one")
    ∷ Rereading.mode false
    ∷ []

parse_run_command-run_line_example :
    parse_run_command no_json (run_line (codes "fix") options (codes "--force  "))
    ≡ some (record (plain_run (codes "fix") (options_meant no_options options)) {
      input = non_empty (codes "--force  ");
    })
unfolding is_reserved
parse_run_command-run_line_example =
    parse_run_command-run_line no_json b'f' (codes "ix") options (codes "--force  ") refl

missing_value :
    parse_run_command no_json (codes "run fix --run-name --force")
    ≡ some (record (plain_run (codes "fix") no_options) { missing = some run_name })
unfolding commands
missing_value = refl

mixed_input :
    parse_run_command no_json (codes "run fix some --input-json {}")
    ≡ some (record (plain_run (codes "fix") no_options) { input_json_error = some mixed_json })
unfolding commands
mixed_input = refl

typed_input :
    parse_run_command (λ _. some null) (codes "run fix --force --input-json null")
    ≡ some (record (plain_run (codes "fix") (record no_options { force = true })) {
      input_value = some null;
    })
unfolding commands
typed_input = refl

an_answer :
    parse_continue_command (codes "continue r1 --answer  yes ")
    ≡ some (answered (codes "r1") (codes "yes"))
unfolding commands
an_answer = refl
