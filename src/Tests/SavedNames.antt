-- ===== src/Tests/SavedNames.antt =====
-- Saved names, references and target identities at concrete texts.
use locus_pi.Common.{◌≡◌, ◌↔◌, All, refl, true, false, List, none, some}
use locus_pi.Common.Text.{Text, codes}
use locus_pi.Common.Json.{Json, string, object, no_fields, field}
use locus_pi.SavedNames.Grammar.{
  until_slash, after_slash, ends_with_extension, matches_pattern, is_workflow_saved_name, Parts,
  workflow_saved_name_parts,
}
use locus_pi.SavedNames.Segments.{join, are_parts}
use locus_pi.SavedNames.Division.{workflow_saved_name_parts_iff}
use locus_pi.SavedNames.Paths.{split_slash, join_slash, add_part, add_parts, normalize_relative}
use locus_pi.SavedNames.Normal.{normalize_relative_twice, IsProper}
use locus_pi.SavedNames.Targets
use locus_pi.SavedNames.Targets.{
  NodePath, Target, TargetError, Parsed, normalize_project_ref, canonical_target_path,
  canonical_workflow_target_ref, workflow_target_identity_key, is_post_code_review_target,
  kind_problem, read_fields, parse_workflow_target_identity,
}
use locus_pi.SavedNames.Identity.{IsTarget, written, parse_workflow_target_identity_twice}

saved_names : Unit {0}
unfolding until_slash after_slash ends_with_extension matches_pattern is_workflow_saved_name
    workflow_saved_name_parts split_slash join_slash add_part add_parts normalize_relative
    normalize_project_ref canonical_target_path canonical_workflow_target_ref
    workflow_target_identity_key is_post_code_review_target kind_problem read_fields
    parse_workflow_target_identity
saved_names = tt

refused_names :
    (is_workflow_saved_name (codes "a/b/c") ≡ false)
    × (is_workflow_saved_name (codes "../x") ≡ false)
    × (is_workflow_saved_name (codes "fix.MJS") ≡ false)
    × (is_workflow_saved_name (codes " fix") ≡ false)
    × (is_workflow_saved_name (codes "fix/ .") ≡ false)
unfolding saved_names
refused_names = (refl, refl, refl, refl, refl)

abbrev fix_parts : Parts
fix_parts = record { root = codes "fix it"; child = some (codes ".tests") }

fix_are_parts : are_parts fix_parts ≡ true
unfolding saved_names
fix_are_parts = refl

workflow_saved_name_parts_iff_example :
    (workflow_saved_name_parts (codes "fix it/.tests") ≡ some fix_parts)
    ↔ ((join fix_parts ≡ codes "fix it/.tests") × (are_parts fix_parts ≡ true))
workflow_saved_name_parts_iff_example =
    workflow_saved_name_parts_iff (codes "fix it/.tests") fix_parts

left_root : normalize_relative (codes "a/../../b") ≡ none
unfolding saved_names
left_root = refl

normal : normalize_relative (codes "./a//b/../c") ≡ some (codes "a/c")
unfolding saved_names
normal = refl

normalize_relative_twice_example :
    ((parts : List Text) × All IsProper parts × (codes "a/c" ≡ join_slash parts))
    × (normalize_relative (codes "a/c") ≡ some (codes "a/c"))
normalize_relative_twice_example =
    normalize_relative_twice (codes "./a//b/../c") (codes "a/c") normal

abbrev script : Target
script = record { kind = Targets.script_path; ref = codes "w/fix.mjs"; source = Targets.project }

-- The runner's path is not kept.
abbrev persisted : Json
persisted = object (
    field (codes "path") (string (codes "/p/w/fix.mjs")) (
      field (codes "source") (string (codes "project")) (
        field (codes "kind") (string (codes "scriptPath"))
          (field (codes "ref") (string (codes "w/fix.mjs")) no_fields))))

persisted-script : parse_workflow_target_identity persisted ≡ Targets.target script
unfolding saved_names
persisted-script = refl

parse_workflow_target_identity_twice_example :
    IsTarget script × (parse_workflow_target_identity (written script) ≡ Targets.target script)
parse_workflow_target_identity_twice_example =
    parse_workflow_target_identity_twice persisted script persisted-script

foreign_script :
    parse_workflow_target_identity (written (record script { source = Targets.packaged }))
    ≡ Targets.refused Targets.foreign_script
unfolding saved_names
foreign_script = refl

-- A path that lies in the project keeps its relative form, whatever names the target.
abbrev posix : NodePath
posix = record {
  is_absolute = λ t. Targets.starts_with (codes "/") t;
  relative = λ root t. codes "w/fix.mjs";
  resolve = λ t. t;
  slashes = λ t. t;
  real_path = some;
}

same_key :
    workflow_target_identity_key posix script none (some (codes "/p"))
    ≡ workflow_target_identity_key posix
        (record script { ref = codes "/p/w/fix.mjs" })
        (some (codes "/p/w/fix.mjs"))
        (some (codes "/p"))
unfolding saved_names
same_key = refl
