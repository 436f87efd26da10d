-- ===== src/RunBudget/Exact.antt =====
-- workflow-budget.ts: a resolved budget is the defaults under the override.
use locus_pi.Common.{
  ℕ, ◌≡◌, refl, ap, ◌∙◌, Bool, true, false, ◌||◌, Option, none, some, List, [], ◌∷◌, ◌++◌, any, ltb,
  if◌then◌else◌, arith, Option-cases, Bool-cases, inl, inr,
}
use locus_pi.RunBudget.Axes.{
  Axis, concurrency, total_agents, runtime_ms, timeout_ms, tool_calls, turns, Budget,
  workflow_budget_axes, axis_name, axis_eq, get_axis, set_axis, checked_value, Raise, Resolved,
  resolved,
}
use locus_pi.RunBudget.Resolve.{
  Override, get_value, default_budget, closed_keys_error, raise_for, apply_value, apply_axes,
  initial, resolve_entries, resolve_workflow_budget,
}

-- The value that an override asks for on an axis.
abbrev pub asked : Axis → Override → Option ℕ
asked a o = elim (get_value (axis_name a) o) [ none ↦ none | some v ↦ checked_value v ]

-- `x ?? y`
abbrev pub or_value : Option ℕ → Option ℕ → Option ℕ
or_value (some n) old = some n
or_value none old = old

abbrev pub above : Option ℕ → Option ℕ → Bool
above (some n) (some applied) = ltb applied n
above (some n) none = false
above none old = false

abbrev pub raises_axis : Axis → List Raise → Bool
raises_axis a raises = any (λ r. axis_eq a r.axis) raises

get_axis-set_axis :
    (a b : Axis) (n : ℕ) (bd : Budget)
    → get_axis a (set_axis b n bd) ≡ (if axis_eq a b then some n else get_axis a bd)
get_axis-set_axis a concurrency n bd = ground arith
get_axis-set_axis a total_agents n bd = ground arith
get_axis-set_axis a runtime_ms n bd = ground arith
get_axis-set_axis a timeout_ms n bd = ground arith
get_axis-set_axis a tool_calls n bd = ground arith
get_axis-set_axis a turns n bd = ground arith

axis_eq_iff : (a b : Axis) → axis_eq a b ≡ true → a ≡ b
axis_eq_iff a concurrency h = ground arith
axis_eq_iff a total_agents h = ground arith
axis_eq_iff a runtime_ms h = ground arith
axis_eq_iff a timeout_ms h = ground arith
axis_eq_iff a tool_calls h = ground arith
axis_eq_iff a turns h = ground arith

-- What the loop leaves on an axis, and whether it reports a raise of it.
abbrev Applied : Axis → List Axis → Override → Resolved → Resolved → Type 0
Applied a axes o r s =
    (get_axis a s.budget ≡ (
      if any (axis_eq a) axes
      then or_value (asked a o) (get_axis a r.budget)
      else get_axis a r.budget))
    × (raises_axis a s.raises ≡ (
        raises_axis a r.raises
        || (if any (axis_eq a) axes then above (asked a o) (get_axis a r.budget) else false)))

raises-raise_for :
    (a b : Axis) (n : ℕ) (old : Option ℕ)
    → raises_axis a (raise_for b n old) ≡ (if axis_eq a b then above (some n) old else false)
raises-raise_for a b n none = ground arith
raises-raise_for a b n (some applied) = ground arith

raises-append :
    (a : Axis) (xs ys : List Raise)
    → raises_axis a (xs ++ ys) ≡ (raises_axis a xs || raises_axis a ys)
raises-append a [] ys = refl
raises-append a (x ∷ xs) ys = ground (arith, raises-append a xs ys)

module _ (a : Axis) (o : Override) where
  value_applied :
      (b : Axis) (n : ℕ) (r : Resolved)
      → (get_axis a (apply_value b n r).budget
          ≡ (if axis_eq a b then some n else get_axis a r.budget))
        × (raises_axis a (apply_value b n r).raises ≡ (
            raises_axis a r.raises
            || (if axis_eq a b then above (some n) (get_axis b r.budget) else false)))
  value_applied b n r = (
    get_axis-set_axis a b n r.budget,
    raises-append a r.raises (raise_for b n (get_axis b r.budget))
        ∙ ap (raises_axis a r.raises ||◌) (raises-raise_for a b n (get_axis b r.budget)),
  )

  skip :
      (b : Axis) (axes : List Axis) (r s : Resolved)
      → asked b o ≡ none
      → Applied a axes o r s
      → Applied a (b ∷ axes) o r s
  skip b axes r s none_asked (g, x) = elim (Bool-cases (axis_eq a b)) [
    | inr differs ↦ ground arith
    | inl same ↦
        let mine : asked a o ≡ none = ap (λ c. asked c o) (axis_eq_iff a b same) ∙ none_asked in
        ground arith
  ]

  ltb_irrefl : (n : ℕ) → ltb n n ≡ false
  ltb_irrefl n = ground arith

  apply_next :
      (b : Axis) (axes : List Axis) (n : ℕ) (r s : Resolved)
      → asked b o ≡ some n
      → Applied a axes o (apply_value b n r) s
      → Applied a (b ∷ axes) o r s
  apply_next b axes n r s some_asked (g, x) =
      let (gv, rv) = value_applied b n r in
      elim (Bool-cases (axis_eq a b)) [
        | inr differs ↦ (ground arith, ground arith)
        | inl same ↦
            let e : a ≡ b = axis_eq_iff a b same in
            let mine : asked a o ≡ some n = ap (λ c. asked c o) e ∙ some_asked in
            let old : get_axis a r.budget ≡ get_axis b r.budget = ap (λ c. get_axis c r.budget) e in
            (ground arith, ground (arith, ltb_irrefl n))
      ]

  apply_axes_lem :
      (axes : List Axis) (r s : Resolved) → apply_axes axes o r ≡ resolved s → Applied a axes o r s
  unfolding apply_axes
  apply_axes_lem [] r s h = let same : r ≡ s = ground arith in (ground arith, ground arith)
  apply_axes_lem (b ∷ axes) r s h = elim (Option-cases (get_value (axis_name b) o)) [
    | inl missing ↦ skip b axes r s (ground arith) (apply_axes_lem axes r s (ground arith))
    | inr (v, found) ↦ elim (Option-cases (checked_value v)) [
      | inl wrong ↦ absurd (ground arith)
      | inr (n, fine) ↦
          apply_next b axes n r s (ground arith)
            (apply_axes_lem axes (apply_value b n r) s (ground arith))
    ]
  ]

in_axes : (a : Axis) → any (axis_eq a) workflow_budget_axes ≡ true
in_axes a = ground arith

-- A resolved budget has on every axis the value that the override asks for and the default where it
-- asks for none; a raise is reported for an axis exactly when the value asked for is above the
-- default.
pub resolve_workflow_budget_exact :
    (o : Override) (headless : Bool) (s : Resolved) (a : Axis)
    → resolve_workflow_budget (some o) headless ≡ resolved s
    → (get_axis a s.budget ≡ or_value (asked a o) (get_axis a (default_budget headless)))
      × (raises_axis a s.raises ≡ above (asked a o) (get_axis a (default_budget headless)))
unfolding resolve_workflow_budget resolve_entries
resolve_workflow_budget_exact o headless s a h = elim (Option-cases (closed_keys_error o)) [
  | inr (e, found) ↦ absurd (ground arith)
  | inl closed ↦
      let (g, x) = apply_axes_lem a o workflow_budget_axes (initial headless) s (ground arith) in
      let inside = in_axes a in (ground arith, ground arith)
]
