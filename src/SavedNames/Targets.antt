-- ===== src/SavedNames/Targets.antt =====
-- The identities of workflow targets: extensions/workflows/runtime/workflow-saved-name.ts.
use locus_pi.Common.{
  Bool, true, false, not, ◌&&◌, ◌||◌, [], ◌∷◌, ◌++◌, Option, none, some, get_or, is_some,
  if◌then◌else◌, map, ◌==◌,
}
use locus_pi.Common.Text.{Text, codes, text_eq}
use locus_pi.Common.Json.{Json, Fields, string, no_fields, field, get_field, has_field, fields_of}
use locus_pi.SavedNames.Grammar.{is_empty, is_workflow_saved_name}
use locus_pi.SavedNames.Paths.{normalize_relative}

pub data Kind : Type 0 where
  name script_path : Kind

pub data Source : Type 0 where
  project personal packaged : Source

pub record Target : Type 0 where
  pub kind : Kind
  pub ref : Text
  pub source : Source

abbrev pub kind_text : Kind → Text
kind_text name = codes "name"
kind_text script_path = codes "scriptPath"

abbrev pub source_text : Source → Text
source_text project = codes "project"
source_text personal = codes "personal"
source_text packaged = codes "package"

-- `node:path` and `realpathSync`, whose error is none; `slashes` is `split(path.sep).join("/")`.
pub record NodePath : Type 0 where
  pub is_absolute : Text → Bool
  pub relative : Text → Text → Text
  pub resolve : Text → Text
  pub slashes : Text → Text
  pub real_path : Text → Option Text

abbrev pub starts_with : Text → Text → Bool
starts_with [] text = true
starts_with (c ∷ cs) [] = false
starts_with (c ∷ cs) (d ∷ ds) = c == d && starts_with cs ds

-- `replaceAll("\\", "/")`
abbrev pub replace_backslashes : Text → Text
replace_backslashes = map (λ c. if c == 92 then b'/' else c)

module _ (path : NodePath) where
  -- `normalizeProjectWorkflowRef`
  unfoldable pub normalize_project_ref : Text → Option Text → Option Text
  normalize_project_ref ref project_root =
      if path.is_absolute ref
      then elim project_root [
        | none ↦ none
        | some root ↦
            let relative = path.relative (path.resolve root) (path.resolve ref) in
            if is_empty relative || starts_with (codes "..") relative || path.is_absolute relative
            then none
            else normalize_relative relative
      ]
      else normalize_relative ref

  -- A path below the root, by its relative form
  abbrev pub below_root : Text → Option Text
  below_root relative =
      if is_empty relative
        || starts_with (codes "../") relative
        || text_eq relative (codes "..")
        || path.is_absolute relative
      then none
      else some relative

  abbrev pub relative_to : Text → Option Text → Option Text
  relative_to physical none = some physical
  relative_to physical (some root) = elim (path.real_path root) [
    | none ↦ none
    | some physical_root ↦ below_root (path.slashes (path.relative physical_root physical))
  ]

  -- `canonicalTargetPath`
  unfoldable pub canonical_target_path : Option Text → Option Text → Option Text
  canonical_target_path none project_root = none
  canonical_target_path (some resolved) project_root = elim (path.real_path resolved) [
    | none ↦ none
    | some physical ↦ relative_to (replace_backslashes physical) project_root
  ]

  abbrev pub script_ref : Kind → Text → Option Text → Text
  script_ref name ref project_root = ref
  script_ref script_path ref project_root = get_or (normalize_project_ref ref project_root) ref

  unfoldable pub canonical_workflow_target_ref : Target → Option Text → Option Text → Text
  canonical_workflow_target_ref target resolved project_root =
      elim (canonical_target_path resolved project_root) [
        | some canonical ↦ canonical
        | none ↦ script_ref target.kind (replace_backslashes target.ref) project_root
      ]

  abbrev pub is_project_script : Target → Option Text → Bool
  is_project_script target none = false
  is_project_script target (some root) = elim target.kind [
    | name ↦ false
    | script_path ↦ is_some (normalize_project_ref (replace_backslashes target.ref) (some root))
  ]

  -- `workflowTargetIdentityKey`
  unfoldable pub workflow_target_identity_key : Target → Option Text → Option Text → Text
  workflow_target_identity_key target resolved project_root =
      (if is_some (canonical_target_path resolved project_root)
          || is_project_script target project_root
        then codes "resolvedPath"
        else kind_text target.kind)
      ++ 0 ∷ source_text target.source
      ++ 0 ∷ canonical_workflow_target_ref target resolved project_root

  -- `WORKFLOW_SAVED_SOURCE_RELATIVE_ROOT` is the argument `saved_root`.
  abbrev pub is_review_ref : Text → Text → Bool
  is_review_ref saved_root ref =
      text_eq ref (saved_root ++ codes "/post-code-review.workflow.mjs")
      || starts_with (saved_root ++ codes "/post-code-review/") ref

  abbrev pub is_review_name : Source → Text → Bool
  is_review_name personal ref = false
  is_review_name _ ref =
      text_eq ref (codes "post-code-review") || starts_with (codes "post-code-review/") ref

  abbrev pub is_project : Source → Bool
  is_project project = true
  is_project _ = false

  -- `isPostCodeReviewTargetProjection`; `isPostCodeReviewTargetIdentity` is it without a resolved path.
  unfoldable pub is_post_code_review_target : Text → Target → Option Text → Option Text → Bool
  is_post_code_review_target saved_root target resolved project_root = elim target.kind [
    | name ↦ is_review_name target.source target.ref
    | script_path ↦
        is_project target.source
        && is_review_ref saved_root (canonical_workflow_target_ref target resolved project_root)
  ]

-- The errors of `parseWorkflowTargetIdentity`, in the order of its tests
pub data TargetError : Type 0 where
  not_object : TargetError
  unknown_field : Text → TargetError
  bad_kind bad_ref bad_source : TargetError
  bad_name : Text → TargetError
  foreign_script bad_path : TargetError

pub data Parsed : Type 0 where
  refused : TargetError → Parsed
  target : Target → Parsed

abbrev pub is_known_field : Text → Bool
is_known_field key =
    text_eq key (codes "kind")
    || text_eq key (codes "ref")
    || text_eq key (codes "source")
    || text_eq key (codes "path")

abbrev pub unknown_key : Fields → Option Text
unknown_key no_fields = none
unknown_key (field key value rest) = if is_known_field key then unknown_key rest else some key

abbrev pub read_kind : Option Json → Option Kind
read_kind (some (string t)) =
    if text_eq t (codes "name")
    then some name
    else if text_eq t (codes "scriptPath")
    then some script_path
    else none
read_kind _ = none

abbrev pub read_ref : Option Json → Option Text
read_ref (some (string [])) = none
read_ref (some (string (c ∷ cs))) = some (c ∷ cs)
read_ref _ = none

abbrev pub read_source : Option Json → Option Source
read_source (some (string t)) =
    if text_eq t (codes "project")
    then some project
    else if text_eq t (codes "personal")
    then some personal
    else if text_eq t (codes "package")
    then some packaged
    else none
read_source _ = none

-- The rule for the kind, which a target that is read keeps
unfoldable pub kind_problem : Kind → Text → Source → Option TargetError
kind_problem name ref source = if is_workflow_saved_name ref then none else some (bad_name ref)
kind_problem script_path ref project = none
kind_problem script_path ref _ = some foreign_script

abbrev pub is_string : Option Json → Bool
is_string (some (string t)) = true
is_string _ = false

abbrev pub has_bad_path : Fields → Bool
has_bad_path fields =
    has_field (codes "path") fields && not (is_string (get_field (codes "path") fields))

abbrev pub accepted : Option TargetError → Bool → Target → Parsed
accepted (some problem) path_is_bad t = refused problem
accepted none path_is_bad t = if path_is_bad then refused bad_path else target t

abbrev pub checked : Fields → Kind → Text → Source → Parsed
checked fields kind ref source =
    accepted (kind_problem kind ref source) (has_bad_path fields)
      (record { kind = kind; ref = ref; source = source })

unfoldable pub read_fields : Fields → Parsed
read_fields fields = elim (unknown_key fields) [
  | some key ↦ refused (unknown_field key)
  | none ↦ elim (read_kind (get_field (codes "kind") fields)) [
    | none ↦ refused bad_kind
    | some kind ↦ elim (read_ref (get_field (codes "ref") fields)) [
      | none ↦ refused bad_ref
      | some ref ↦ elim (read_source (get_field (codes "source") fields)) [
        | none ↦ refused bad_source
        | some source ↦ checked fields kind ref source
      ]
    ]
  ]
]

-- `parseWorkflowTargetIdentity`
unfoldable pub parse_workflow_target_identity : Json → Parsed
parse_workflow_target_identity value = elim (fields_of (some value)) [
  | none ↦ refused not_object
  | some fields ↦ read_fields fields
]
