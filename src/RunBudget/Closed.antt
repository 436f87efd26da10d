-- ===== src/RunBudget/Closed.antt =====
-- workflow-budget.ts: which overrides are refused.
use locus_pi.Common.{
  ◌≡◌, refl, ap, ◌∙◌, Bool, true, false, ◌||◌, ◌&&◌, not, Option, none, some, List, [], ◌∷◌, any,
  if◌then◌else◌, is_some, arith, Option-cases, inl, inr,
}
use locus_pi.Common.Text.{Text}
use locus_pi.Common.Number.{Number, is_positive_safe}
use locus_pi.RunBudget.Axes.{
  Error, Axis, workflow_budget_axes, axis_name, checked_value, Resolved, Resolution, resolved,
  refused,
}
use locus_pi.RunBudget.Resolve.{
  Override, get_value, is_axis, key_error, removed_key, closed_keys_error, apply_value, apply_axes,
  initial, resolve_entries, resolve_workflow_budget,
}

abbrev pub is_resolved : Resolution → Bool
is_resolved (resolved s) = true
is_resolved (refused e) = false

-- A value that no run could be bounded by.
abbrev pub is_unusable : Option Number → Bool
is_unusable none = false
is_unusable (some v) = not (is_positive_safe v)

-- A key with a value that is no axis.
abbrev pub is_stray : Text × Option Number → Bool
is_stray (key, value) = not (is_axis key) && is_some value

checked_some : (v : Number) → is_some (checked_value v) ≡ is_positive_safe v
unfolding checked_value
checked_some v = ground arith

is_resolved-apply_axes :
    (axes : List Axis) (o : Override) (r : Resolved)
    → is_resolved (apply_axes axes o r)
      ≡ not (any (λ a. is_unusable (get_value (axis_name a) o)) axes)
unfolding apply_axes
is_resolved-apply_axes [] o r = refl
is_resolved-apply_axes (a ∷ axes) o r = elim (Option-cases (get_value (axis_name a) o)) [
  | inl missing ↦ ground (arith, is_resolved-apply_axes axes o r)
  | inr (v, found) ↦ elim (Option-cases (checked_value v)) [
    | inl wrong ↦ ground (arith, checked_some v)
    | inr (n, fine) ↦
        ground (arith, checked_some v, is_resolved-apply_axes axes o (apply_value a n r))
  ]
]

guarded :
    (b v : Bool) (rest : Option Error) (e : Error)
    → is_some (if b || not v then rest else some e) ≡ ((not b && v) || is_some rest)
guarded b v rest e = ground arith

after_keys :
    (c : Option Error) (x : Resolution)
    → is_resolved (elim c [ some e ↦ refused e | none ↦ x ]) ≡ (not (is_some c) && is_resolved x)
after_keys none x = refl
after_keys (some e) x = refl

is_some-closed_keys_error : (o : Override) → is_some (closed_keys_error o) ≡ any is_stray o
unfolding closed_keys_error
is_some-closed_keys_error [] = refl
is_some-closed_keys_error ((key, value) ∷ entries) =
    guarded (is_axis key) (is_some value) (closed_keys_error entries)
      (key_error key (removed_key key))
    ∙ ap ((not (is_axis key) && is_some value) ||◌) (is_some-closed_keys_error entries)

-- An override is accepted exactly when every key that has a value is an axis and every value on an
-- axis is a positive safe integer: nothing is ignored and nothing else is refused.
pub is_resolved-resolve_workflow_budget :
    (o : Override) (headless : Bool)
    → is_resolved (resolve_workflow_budget (some o) headless) ≡ (
        not (any is_stray o)
        && not (any (λ a. is_unusable (get_value (axis_name a) o)) workflow_budget_axes))
unfolding resolve_workflow_budget resolve_entries
is_resolved-resolve_workflow_budget o headless =
    after_keys (closed_keys_error o) (apply_axes workflow_budget_axes o (initial headless))
    ∙ ap (λ b. not b && is_resolved (apply_axes workflow_budget_axes o (initial headless)))
        (is_some-closed_keys_error o)
    ∙ ap (not (any is_stray o) &&◌)
        (is_resolved-apply_axes workflow_budget_axes o (initial headless))
