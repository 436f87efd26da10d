-- ===== src/Outcome/Bounds.antt =====
-- workflow-outcome.ts: the texts that are cut to a bound.
use locus_pi.Common.{
  refl, true, false, if_intro, ap, leb→le, ℕ, ◌-◌, ◌≤◌, ◌≡◌, max, none, some, leb, if◌then◌else◌,
  length, take, length-append, length-take-le, ◌++◌, [], ◌∷◌, arith,
}
use locus_pi.Common.Text.{Text, codes}
use locus_pi.Outcome.Compact.{compact, non_empty}

-- U+2026
abbrev ellipsis : Text
ellipsis = 0x2026 ∷ []

abbrev pub finalization_error_max_chars : ℕ
finalization_error_max_chars = 1000

-- A text that is longer than the limit is cut, so that the suffix fits.
abbrev cut : ℕ → Text → Text → Text
cut limit suffix t = take (limit - length suffix) t ++ suffix

abbrev finalization_suffix : Text
finalization_suffix = ellipsis ++ codes " [truncated]"

-- `workflowFinalizationError`: its message
unfoldable pub finalization_message : Text → Text
finalization_message message =
    if leb (length message) finalization_error_max_chars
    then message
    else cut finalization_error_max_chars finalization_suffix message

abbrev detail_suffix : Text
detail_suffix = ellipsis ++ codes " [truncated; full result in result.json]"

-- `formatWorkflowResultDetail`, of the serialized result
unfoldable pub format_result_detail : Text → ℕ → Text
format_result_detail json max_chars =
    let limit = max 1 max_chars in
    if leb (length json) limit
    then json
    else if leb limit (length detail_suffix)
    then take limit detail_suffix
    else cut limit detail_suffix json

-- `safeErrorMessage`, of the error's message
unfoldable pub safe_error_message : Text → Text
safe_error_message message = elim (non_empty (compact message)) [
  | none ↦ codes "unknown error"
  | some t ↦ take 240 t
]

leb-false : (a b : ℕ) → leb a b ≡ false → b ≤ a
leb-false a b h = ground arith

le-leb : (a b : ℕ) → a ≤ b → leb a b ≡ true
le-leb a b h = ground arith

length-cut :
    (limit : ℕ) (suffix t : Text) → length suffix ≤ limit → length (cut limit suffix t) ≤ limit
length-cut limit suffix t h = ground (
  arith,
  length-append (take (limit - length suffix) t) suffix,
  length-take-le (limit - length suffix) t,
)

length-finalization_message : (m : Text) → length (finalization_message m) ≤ 1000
unfolding finalization_message
length-finalization_message m =
    if_intro (λ t. length t ≤ 1000) (leb (length m) finalization_error_max_chars) {x = m}
      {y = cut finalization_error_max_chars finalization_suffix m}
      (λ fits. leb→le (length m) 1000 fits)
      (λ long. length-cut finalization_error_max_chars finalization_suffix m (leb→le 13 1000 refl))

length-format_result_detail :
    (json : Text) (max_chars : ℕ) → length (format_result_detail json max_chars) ≤ max 1 max_chars
unfolding format_result_detail
length-format_result_detail json max_chars =
    let limit = max 1 max_chars in
    if_intro (λ t. length t ≤ limit) (leb (length json) limit) {x = json}
      {y = if leb limit (length detail_suffix)
        then take limit detail_suffix
        else cut limit detail_suffix json}
      (λ fits. leb→le (length json) limit fits)
      (λ long.
        if_intro (λ t. length t ≤ limit) (leb limit (length detail_suffix))
          {x = take limit detail_suffix} {y = cut limit detail_suffix json}
          (λ small. length-take-le limit detail_suffix)
          (λ large.
            length-cut limit detail_suffix json (leb-false limit (length detail_suffix) large)))

kept_message : (m : Text) → length m ≤ 1000 → finalization_message m ≡ m
unfolding finalization_message
kept_message m h =
    ap (λ b. if b then m else cut finalization_error_max_chars finalization_suffix m)
      (le-leb (length m) 1000 h)

-- A stored finalization message has at most a thousand characters, and a detail view at most its
-- limit, or one when the limit is 0; a text within the bound is kept as it is.
pub length-finalization_message-format_result_detail :
    (message json : Text) (max_chars : ℕ)
    → (length (finalization_message message) ≤ 1000)
      × (length (format_result_detail json max_chars) ≤ max 1 max_chars)
      × (length message ≤ 1000 → finalization_message message ≡ message)
length-finalization_message-format_result_detail message json max_chars = (
  length-finalization_message message,
  length-format_result_detail json max_chars,
  kept_message message,
)
