-- ===== src/Command/Usage.antt =====
-- What command-parser.ts shows of the grammar of a run command.
use locus_pi.Common.{Bool, true, false, List, [], ◌∷◌, ◌++◌, Option, none, some}
use locus_pi.Common.Text.{Text, codes}
use locus_pi.Command.Tokens.{format_token}
use locus_pi.Command.Options.{
  Field, run_name, workspace_dir, resume_from_run_id, name_of, Options, ParsedRun, force_flag,
  mode_flag,
}

abbrev pub option_usage : Text
option_usage =
    codes
      "[--run-name <name> | --workspace-dir <path>] [--resume <runId>] [--force] [--no-operator|--operator] [--] [input] | --input-json <JSON tail>"

-- `workflowRunUsage`
abbrev pub workflow_run_usage : Text → Text → Text
workflow_run_usage target command = command ++ b' ' ∷ target ++ b' ' ∷ option_usage

-- `buildWorkflowRunCommand`, of the target's ref
unfoldable pub build_workflow_run_command : Text → Text
unfolding format_token
build_workflow_run_command ref = codes "/workflows run " ++ format_token ref

-- `parts.join(" ")`
abbrev pub join : List Text → Text
join [] = []
join (part ∷ []) = part
join (part ∷ next ∷ parts) = part ++ b' ' ∷ join (next ∷ parts)

-- An option that has its value
abbrev pub shown : Field → Option Text → List Text
shown f none = []
shown f (some v) = name_of f ∷ format_token v ∷ []

abbrev pub named_or_placed : Options → List Text
named_or_placed o = elim o.run_name [
  | some name ↦ shown run_name (some name)
  | none ↦ elim o.workspace_dir [
    | some dir ↦ shown workspace_dir (some dir)
    | none ↦ codes "[--run-name <name> | --workspace-dir <path>]" ∷ []
  ]
]

-- The parts for the name and the workspace
abbrev pub place_parts : Options → Option Field → List Text
place_parts o (some run_name) =
    shown workspace_dir o.workspace_dir
    ++ shown run_name o.run_name
    ++ codes "--run-name" ∷ codes "<name>" ∷ []
place_parts o (some workspace_dir) =
    shown run_name o.run_name
    ++ shown workspace_dir o.workspace_dir
    ++ codes "--workspace-dir" ∷ codes "<path>" ∷ []
place_parts o _ = named_or_placed o

abbrev pub resume_parts : Options → Option Field → List Text
resume_parts o (some resume_from_run_id) =
    shown resume_from_run_id o.resume_from_run_id ++ codes "--resume" ∷ codes "<runId>" ∷ []
resume_parts o _ = elim o.resume_from_run_id [
  | none ↦ codes "[--resume <runId>]" ∷ []
  | some id ↦ shown resume_from_run_id (some id)
]

abbrev pub mode_parts : Option Bool → List Text
mode_parts none = []
mode_parts (some b) = mode_flag b ∷ []

abbrev pub force_parts : Bool → List Text
force_parts true = force_flag ∷ []
force_parts false = []

-- `workflowRunRecoveryUsage`
unfoldable pub workflow_run_recovery_usage : ParsedRun → Text
unfolding format_token
workflow_run_recovery_usage p =
    let o = p.options in
    join (
      codes "/workflows run" ∷ format_token p.script_ref ∷ []
      ++ place_parts o p.missing
      ++ resume_parts o p.missing
      ++ mode_parts o.no_operator
      ++ force_parts o.force
      ++ codes "[--]" ∷ codes "[input]" ∷ [])
