-- ===== src/SavedNames/Paths.antt =====
-- References to workflow files: extensions/workflows/runtime/workflow-saved-name.ts.
use locus_pi.Common.{ℕ, Bool, ◌||◌, List, [], ◌∷◌, ◌++◌, Option, none, some, if◌then◌else◌}
use locus_pi.Common.Text.{Text, codes, text_eq}
use locus_pi.SavedNames.Grammar.{is_slash, is_empty}

-- `split("/")`
abbrev pub add_unit : ℕ → List Text → List Text
add_unit c [] = (c ∷ []) ∷ []
add_unit c (s ∷ ss) = (c ∷ s) ∷ ss

unfoldable pub split_slash : Text → List Text
split_slash [] = [] ∷ []
split_slash (c ∷ cs) =
    let rest = split_slash cs in if is_slash c then [] ∷ rest else add_unit c rest

-- `join("/")`
unfoldable pub join_slash : List Text → Text
join_slash [] = []
join_slash (s ∷ []) = s
join_slash (s ∷ t ∷ ts) = s ++ b'/' ∷ join_slash (t ∷ ts)

abbrev pub drop_last : List Text → List Text
drop_last [] = []
drop_last (s ∷ []) = []
drop_last (s ∷ t ∷ ts) = s ∷ drop_last (t ∷ ts)

abbrev pub is_skipped : Text → Bool
is_skipped part = is_empty part || text_eq part (codes ".")

abbrev pub is_up : Text → Bool
is_up part = text_eq part (codes "..")

-- `parts.pop()`, but from none
abbrev pub up_from : List Text → Option (List Text)
up_from [] = none
up_from (s ∷ ss) = some (drop_last (s ∷ ss))

-- The parts after one more; none is the way out of the root.
unfoldable pub add_part : List Text → Text → Option (List Text)
add_part parts part =
    if is_skipped part
    then some parts
    else if is_up part
    then up_from parts
    else some (parts ++ part ∷ [])

-- The loop of `normalizeProjectWorkflowRef`
unfoldable pub add_parts : List Text → List Text → Option (List Text)
add_parts parts [] = some parts
add_parts parts (part ∷ rest) = elim (add_part parts part) [
  | none ↦ none
  | some next ↦ add_parts next rest
]

abbrev pub joined : Option (List Text) → Option Text
joined none = none
joined (some parts) = some (join_slash parts)

-- `normalizeProjectWorkflowRef` of a reference that is not absolute
unfoldable pub normalize_relative : Text → Option Text
normalize_relative ref = joined (add_parts [] (split_slash ref))
