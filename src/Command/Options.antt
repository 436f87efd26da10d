-- ===== src/Command/Options.antt =====
-- The options of a run command: extensions/workflows/command/command-parser.ts.
use locus_pi.Common.{Bool, true, false, ◌||◌, [], ◌∷◌, Option, none, some, if◌then◌else◌, ◌==◌}
use locus_pi.Common.Text.{Text, codes, text_eq, is_white_space}
use locus_pi.Common.Json.{Json}
use locus_pi.Command.Tokens.{trim_start, parse_token}

-- The three options that take a value, by the field that they set.
pub data Field : Type 0 where
  run_name workspace_dir resume_from_run_id : Field

abbrev pub name_of : Field → Text
name_of run_name = codes "--run-name"
name_of workspace_dir = codes "--workspace-dir"
name_of resume_from_run_id = codes "--resume"

abbrev pub force_flag : Text
force_flag = codes "--force"

-- The flag that asserts this `noOperator`
abbrev pub mode_flag : Bool → Text
mode_flag true = codes "--no-operator"
mode_flag false = codes "--operator"

abbrev pub json_flag : Text
json_flag = codes "--input-json"

-- What `parseRunCommand` has read before the input.
pub record Options : Type 0 where
  pub workspace_dir : Option Text
  pub run_name : Option Text
  pub resume_from_run_id : Option Text
  pub force : Bool
  pub no_operator : Option Bool

abbrev pub no_options : Options
no_options = record {
  workspace_dir = none;
  run_name = none;
  resume_from_run_id = none;
  force = false;
  no_operator = none;
}

abbrev pub set_field : Options → Field → Text → Options
set_field o run_name v = record o { run_name = some v }
set_field o workspace_dir v = record o { workspace_dir = some v }
set_field o resume_from_run_id v = record o { resume_from_run_id = some v }

-- `ParsedRunCommand`
pub record ParsedRun : Type 0 where
  pub script_ref : Text
  pub input : Option Text
  pub input_value : Option Json
  pub input_json_error : Option Text
  pub options : Options
  pub obsolete_output_dir : Bool
  pub missing : Option Field

-- What follows a prefix
abbrev pub strip_prefix : Text → Text → Option Text
strip_prefix [] text = some text
strip_prefix (c ∷ cs) [] = none
strip_prefix (c ∷ cs) (d ∷ ds) = let rest = strip_prefix cs ds in if c == d then rest else none

abbrev pub after_space : Option Text → Option Text
after_space none = none
after_space (some []) = some []
after_space (some (c ∷ cs)) = if is_white_space c then some (trim_start (c ∷ cs)) else none

-- The text is this flag, or begins with it and white space.
unfoldable pub at_start : Text → Text → Option Text
unfolding trim_start
at_start name text = after_space (strip_prefix name text)

-- `workflowRunOptionAtStart`
unfoldable pub option_at_start : Text → Option (Field × Text)
unfolding at_start
option_at_start text = elim (at_start (name_of run_name) text) [
  | some after ↦ some (run_name, after)
  | none ↦ elim (at_start (name_of workspace_dir) text) [
    | some after ↦ some (workspace_dir, after)
    | none ↦ elim (at_start (name_of resume_from_run_id) text) [
      | some after ↦ some (resume_from_run_id, after)
      | none ↦ none
    ]
  ]
]

-- What an option does not take for its value.
unfoldable pub is_reserved : Text → Bool
is_reserved v =
    text_eq v []
    || text_eq v (codes "--")
    || text_eq v json_flag
    || text_eq v (name_of run_name)
    || text_eq v (name_of workspace_dir)
    || text_eq v (name_of resume_from_run_id)
    || text_eq v force_flag
    || text_eq v (mode_flag true)
    || text_eq v (mode_flag false)

abbrev pub taken : Option (Text × Text) → Option (Text × Text)
taken none = none
taken (some (v, rest)) = if is_reserved v then none else some (v, rest)

unfoldable pub option_value : Text → Option (Text × Text)
option_value [] = none
option_value (c ∷ cs) = taken (parse_token (c ∷ cs))
