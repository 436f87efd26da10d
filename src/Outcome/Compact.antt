-- ===== src/Outcome/Compact.antt =====
-- workflow-outcome.ts: `value.replace(/\s+/gu, " ").trim()`.
use locus_pi.Common.{
  ◌≡◌, refl, Bool, true, false, Option, none, some, [], ◌∷◌, if◌then◌else◌, arith, Bool-cases, inl,
  inr,
}
use locus_pi.Common.Text.{Text, is_white_space}

-- Inside a text (`started`) a run of white space is one space, which is written before the next
-- character.
abbrev pub compact_from : Bool → Bool → Text → Text
compact_from started waiting [] = []
compact_from started waiting (c ∷ cs) =
    if is_white_space c
    then compact_from started started cs
    else if waiting
    then 32 ∷ c ∷ compact_from true false cs
    else c ∷ compact_from true false cs

abbrev pub compact : Text → Text
compact t = compact_from false false t

-- `nonEmptyString` of a string
abbrev pub non_empty : Text → Option Text
non_empty [] = none
non_empty (c ∷ cs) = some (c ∷ cs)

-- `nonEmptyString` of an optional string
abbrev pub non_empty_string : Option Text → Option Text
non_empty_string none = none
non_empty_string (some t) = non_empty (compact t)

compact_from-compact_from :
    (w : Bool) (t : Text) → compact_from true false (compact_from true w t) ≡ compact_from true w t
compact_from-compact_from w [] = refl
compact_from-compact_from true (c ∷ cs) = elim (Bool-cases (is_white_space c)) [
  | inl white ↦ ground (arith, compact_from-compact_from true cs)
  | inr black ↦ ground (arith, compact_from-compact_from false cs)
]
compact_from-compact_from false (c ∷ cs) = elim (Bool-cases (is_white_space c)) [
  | inl white ↦ ground (arith, compact_from-compact_from true cs)
  | inr black ↦ ground (arith, compact_from-compact_from false cs)
]

-- Compacting twice is compacting once.
pub compact-compact : (t : Text) → compact (compact t) ≡ compact t
compact-compact [] = refl
compact-compact (c ∷ cs) = elim (Bool-cases (is_white_space c)) [
  | inl white ↦ ground (arith, compact-compact cs)
  | inr black ↦ ground (arith, compact_from-compact_from false cs)
]
