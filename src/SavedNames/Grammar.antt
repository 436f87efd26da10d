-- ===== src/SavedNames/Grammar.antt =====
-- The pattern of saved names: extensions/workflows/runtime/workflow-saved-name.ts.
--
-- A lookahead of the pattern is a test of its name on the text, on what stands in front of its first
-- slash, and on what follows that slash.
use locus_pi.Common.{
  ℕ, Bool, true, false, not, ◌&&◌, ◌||◌, [], ◌∷◌, Option, none, some, is_some, if◌then◌else◌, leb,
  ◌==◌, any, length,
}
use locus_pi.Common.Text.{Text, codes, text_eq, is_white_space, is_control}

abbrev pub is_slash : ℕ → Bool
is_slash c = c == b'/'

abbrev pub is_backslash : ℕ → Bool
is_backslash c = c == 92

-- `[^/]*` at the start, and what follows the slash after it
unfoldable pub until_slash : Text → Text
until_slash [] = []
until_slash (c ∷ cs) = let rest = until_slash cs in if is_slash c then [] else c ∷ rest

unfoldable pub after_slash : Text → Option Text
after_slash [] = none
after_slash (c ∷ cs) = let rest = after_slash cs in if is_slash c then some cs else rest

abbrev pub starts_white : Text → Bool
starts_white [] = false
starts_white (c ∷ cs) = is_white_space c

abbrev pub ends_white : Text → Bool
ends_white [] = false
ends_white (c ∷ []) = is_white_space c
ends_white (c ∷ d ∷ ds) = ends_white (d ∷ ds)

abbrev pub is_empty : Text → Bool
is_empty [] = true
is_empty (c ∷ cs) = false

-- `\.{1,2}`, and nothing else
abbrev pub is_dots : Text → Bool
is_dots s = text_eq s (codes ".") || text_eq s (codes "..")

-- `\.[mM][jJ][sS]`, and nothing else
abbrev pub is_extension : Text → Bool
is_extension (a ∷ b ∷ c ∷ d ∷ []) =
    a == b'.' && (b == b'm' || b == b'M') && (c == b'j' || c == b'J') && (d == b's' || d == b'S')
is_extension _ = false

-- `\.[mM][jJ][sS]$`
unfoldable pub ends_with_extension : Text → Bool
ends_with_extension [] = false
ends_with_extension (c ∷ cs) = is_extension (c ∷ cs) || ends_with_extension cs

-- The lookaheads that ask for a slash
abbrev pub white_before_slash : Text → Option Text → Bool
white_before_slash first after = ends_white first && is_some after

abbrev pub white_after_slash : Option Text → Bool
white_after_slash none = false
white_after_slash (some child) = starts_white child

abbrev pub has_dots_child : Text → Option Text → Bool
has_dots_child first none = false
has_dots_child first (some child) = not (is_empty first) && is_dots child

abbrev pub has_extension_child : Text → Option Text → Bool
has_extension_child first none = false
has_extension_child first (some child) =
    not (is_empty first) && not (any is_slash child) && ends_with_extension child

-- `[^/]+(?:/[^/]+)?$`
abbrev pub is_path : Text → Option Text → Bool
is_path first none = not (is_empty first)
is_path first (some child) =
    not (is_empty first) && not (is_empty child) && not (any is_slash child)

-- `WORKFLOW_SAVED_NAME_PATTERN`, a test for each of its parts
unfoldable pub matches_pattern : Text → Text → Option Text → Bool
matches_pattern value first after =
    (leb 1 (length value) && leb (length value) 200)
    && not (starts_white value)
    && not (white_before_slash first after)
    && not (white_after_slash after)
    && not (ends_white value)
    && not (any is_backslash value)
    && not (any is_control value)
    && not (is_dots first)
    && not (has_dots_child first after)
    && not (ends_with_extension first)
    && not (has_extension_child first after)
    && is_path first after

-- `isWorkflowSavedName`, of a text
unfoldable pub is_workflow_saved_name : Text → Bool
is_workflow_saved_name value =
    leb (length value) 200 && matches_pattern value (until_slash value) (after_slash value)

-- `WorkflowSavedNameParts`
pub record Parts : Type 0 where
  pub root : Text
  pub child : Option Text

-- The first two pieces of `split("/")`
abbrev pub first_parts : Text → Option Text → Parts
first_parts root none = record { root = root; child = none }
first_parts root (some rest) = record { root = root; child = some (until_slash rest) }

-- `workflowSavedNameParts`; none is the error.
unfoldable pub workflow_saved_name_parts : Text → Option Parts
workflow_saved_name_parts value =
    if is_workflow_saved_name value
    then some (first_parts (until_slash value) (after_slash value))
    else none
