-- ===== src/Command/Run.antt =====
-- `parseRunCommand`: extensions/workflows/command/command-parser.ts.
use locus_pi.Common.{
  ℕ, zero, suc, Bool, true, false, not, ◌&&◌, ◌||◌, [], ◌∷◌, Option, none, some, if◌then◌else◌,
  length, is_some, drop,
}
use locus_pi.Common.Text.{Text, codes, is_white_space}
use locus_pi.Common.Json.{Json}
use locus_pi.Command.Tokens.{trim_start, trim, parse_token}
use locus_pi.Command.Options.{
  Field, Options, ParsedRun, no_options, set_field, at_start, strip_prefix, option_at_start,
  option_value, force_flag, mode_flag, json_flag,
}

-- How one round of the loop goes on, with the text that is left.
pub data Round : Type 0 where
  obsolete : Round
  forces : Text → Round
  sets_mode : Bool → Text → Round
  takes : Field → (value rest : Text) → Round
  lacks : Field → Round
  ends : Round

unfoldable pub option_round : Text → Round
unfolding option_at_start option_value trim_start
option_round rest = elim (option_at_start rest) [
  | none ↦ ends
  | some (field, after) ↦ elim (option_value after) [
    | none ↦ lacks field
    | some (value, tail) ↦ takes field value (trim_start tail)
  ]
]

unfoldable pub round : Text → Round
unfolding at_start option_round
round rest = elim (at_start (codes "--output-dir") rest) [
  | some after ↦ obsolete
  | none ↦ elim (at_start force_flag rest) [
    | some after ↦ forces after
    | none ↦ elim (at_start (mode_flag true) rest) [
      | some after ↦ sets_mode true after
      | none ↦ elim (at_start (mode_flag false) rest) [
        | some after ↦ sets_mode false after
        | none ↦ option_round rest
      ]
    ]
  ]
]

-- How the loop ends: with its options and the text after them, or without a result of its own.
pub data Ending : Type 0 where
  is_obsolete : Ending
  lacks_value : Options → Field → Ending
  reads : Options → Text → Ending

unfoldable pub read_options : ℕ → Options → Text → Ending
read_options zero o rest = reads o rest
read_options (suc fuel) o rest = elim (round rest) [
  | obsolete ↦ is_obsolete
  | forces after ↦ read_options fuel (record o { force = true }) after
  | sets_mode b after ↦ read_options fuel (record o { no_operator = some b }) after
  | takes field value after ↦ read_options fuel (set_field o field value) after
  | lacks field ↦ lacks_value o field
  | ends ↦ reads o rest
]

abbrev pub plain_run : Text → Options → ParsedRun
plain_run ref o = record {
  script_ref = ref;
  input = none;
  input_value = none;
  input_json_error = none;
  options = o;
  obsolete_output_dir = false;
  missing = none;
}

abbrev pub non_empty : Text → Option Text
non_empty [] = none
non_empty (c ∷ cs) = some (c ∷ cs)

-- `/(?:^|\s)--input-json(?:\s|$)/` matches; the flag says that a match may begin here.
unfoldable pub has_json_word : Bool → Text → Bool
unfolding at_start
has_json_word here [] = false
has_json_word here (c ∷ cs) =
    let later = has_json_word (is_white_space c) cs in
    (here && is_some (at_start json_flag (c ∷ cs))) || later

abbrev pub bad_json : Text
bad_json = codes "--input-json requires one complete JSON value as the entire remaining tail"

abbrev pub mixed_json : Text
mixed_json = codes "--input-json cannot be mixed with legacy text input"

abbrev pub json_run : Text → Options → Option Json → ParsedRun
json_run ref o none = record (plain_run ref o) { input_json_error = some bad_json }
json_run ref o (some value) = record (plain_run ref o) { input_value = some value }

-- `/^--(?:\s|$)/` matches.
abbrev pub is_marked : Text → Bool
is_marked rest = is_some (at_start (codes "--") rest)

-- The input, after the options
unfoldable pub read_input : (Text → Option Json) → Text → Options → Text → ParsedRun
unfolding at_start has_json_word trim
read_input parse_json ref o rest = elim (at_start json_flag rest) [
  | some tail ↦ json_run ref o (parse_json tail)
  | none ↦
      if not (is_marked rest) && has_json_word true rest
      then record (plain_run ref no_options) { input_json_error = some mixed_json }
      else if is_marked rest
      then record (plain_run ref o) { input = non_empty (drop 3 rest) }
      else record (plain_run ref o) { input = non_empty (trim rest) }
]

unfoldable pub finish : (Text → Option Json) → Text → Ending → ParsedRun
unfolding read_input
finish parse_json ref is_obsolete = record (plain_run ref no_options) { obsolete_output_dir = true }
finish parse_json ref (lacks_value o field) = record (plain_run ref o) { missing = some field }
finish parse_json ref (reads o rest) = read_input parse_json ref o rest

-- `/^run\s+/`, with what follows it
unfoldable pub after_run : Text → Option Text
unfolding trim_start
after_run text = elim (strip_prefix (codes "run") text) [
  | none ↦ none
  | some [] ↦ none
  | some (c ∷ cs) ↦ if is_white_space c then some (trim_start (c ∷ cs)) else none
]

-- After the script's token
unfoldable pub parse_tail : (Text → Option Json) → Text → Text → ParsedRun
unfolding trim_start read_options finish
parse_tail parse_json ref tail =
    let rest = trim_start tail in
    finish parse_json ref (read_options (suc (length rest)) no_options rest)

abbrev pub run_of : (Text → Option Json) → Option (Text × Text) → Option ParsedRun
run_of parse_json none = none
run_of parse_json (some ([], tail)) = none
run_of parse_json (some (c ∷ cs, tail)) = some (parse_tail parse_json (c ∷ cs) tail)

abbrev pub run_after : (Text → Option Json) → Option Text → Option ParsedRun
run_after parse_json none = none
run_after parse_json (some rest) = run_of parse_json (parse_token rest)

unfoldable pub parse_run_command : (Text → Option Json) → Text → Option ParsedRun
parse_run_command parse_json text = run_after parse_json (after_run text)
