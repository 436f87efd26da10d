-- ===== src/Common/Map.antt =====
-- Maps from texts, as the list of their entries in the order of insertion: the language's `Map`.
use mathlib.Core.Path.{◌≡◌, refl, ap, sym, ◌∙◌}
use mathlib.Core.Bool.{true, false}
use mathlib.Core.Logic.{◌⊎◌, inl, inr}
use mathlib.Core.Option.{Option, none, some}
use mathlib.Core.List.{List, [], ◌∷◌}
use native.Mathlib.Omega.{arith}
use locus_pi.Common.Tests.{if◌then◌else◌, Bool-cases, is_some}
use locus_pi.Common.Text.{Text, text_eq, text_eq_iff, text_eq_refl}

abbrev pub Entries {ℓ} : Type ℓ → Type ℓ
Entries A = List (Text × A)

module _ {ℓ} {A : Type ℓ} where
  -- `map.get(key)`
  abbrev pub lookup : Entries A → Text → Option A
  lookup [] k = none
  lookup ((x, v) ∷ es) k = if text_eq x k then some v else lookup es k

  -- `map.set(key, value)` keeps the place of a key that is there.
  abbrev pub store : Entries A → Text → A → Entries A
  store [] k v = (k, v) ∷ []
  store ((x, w) ∷ es) k v = if text_eq x k then (x, v) ∷ es else (x, w) ∷ store es k v

  -- `map.delete(key)`
  abbrev pub discard : Entries A → Text → Entries A
  discard [] k = []
  discard ((x, w) ∷ es) k = if text_eq x k then discard es k else (x, w) ∷ discard es k

  pub lookup-store : (es : Entries A) (k : Text) (v : A) → lookup (store es k v) k ≡ some v
  lookup-store [] k v = rw (text_eq_refl k) refl
  lookup-store ((x, w) ∷ es) k v = elim (Bool-cases (text_eq x k)) [
    | inl same ↦ ground arith
    | inr other ↦ ground (arith, lookup-store es k v)
  ]

  pub lookup-store_other :
      (es : Entries A) (k j : Text) (v : A)
      → text_eq k j ≡ false
      → lookup (store es k v) j ≡ lookup es j
  lookup-store_other [] k j v h = rw h refl
  lookup-store_other ((x, w) ∷ es) k j v h = elim (Bool-cases (text_eq x k)) [
    | inl same ↦
        let apart : text_eq x j ≡ false = ap (λ y. text_eq y j) ((text_eq_iff x k).0 same) ∙ h in
        ground arith
    | inr other ↦ ground (arith, lookup-store_other es k j v h)
  ]

  pub lookup-discard : (es : Entries A) (k : Text) → lookup (discard es k) k ≡ none
  lookup-discard [] k = refl
  lookup-discard ((x, w) ∷ es) k = ground (arith, lookup-discard es k)

  pub lookup-discard_other :
      (es : Entries A) (k j : Text) → text_eq k j ≡ false → lookup (discard es k) j ≡ lookup es j
  lookup-discard_other [] k j h = refl
  lookup-discard_other ((x, w) ∷ es) k j h = elim (Bool-cases (text_eq x k)) [
    | inl same ↦
        let apart : text_eq x j ≡ false = ap (λ y. text_eq y j) ((text_eq_iff x k).0 same) ∙ h in
        ground (arith, lookup-discard_other es k j h)
    | inr other ↦ ground (arith, lookup-discard_other es k j h)
  ]

-- Two keys are the same, or differ.
pub key-cases : (k j : Text) → (k ≡ j) ⊎ (text_eq k j ≡ false)
key-cases k j = elim (Bool-cases (text_eq k j)) [
  | inl same ↦ inl ((text_eq_iff k j).0 same)
  | inr other ↦ inr other
]

module _ {ℓ} {A : Type ℓ} (es : Entries A) (k j : Text) where
  -- What is found after an entry was dropped, or written.
  pub discard-some :
      (v : A) → lookup (discard es k) j ≡ some v → (lookup es j ≡ some v) × (text_eq k j ≡ false)
  discard-some v e = elim (key-cases k j) [
    | inl same ↦
        absurd (let f = ap (lookup (discard es k)) (sym same) ∙ lookup-discard es k in ground arith)
    | inr other ↦ (sym (lookup-discard_other es k j other) ∙ e, other)
  ]

  pub store-some :
      (w v : A)
      → lookup (store es k w) j ≡ some v
      → ((k ≡ j) × (w ≡ v)) ⊎ ((lookup es j ≡ some v) × (text_eq k j ≡ false))
  store-some w v e = elim (key-cases k j) [
    | inl same ↦
        let f = sym (lookup-store es k w) ∙ ap (lookup (store es k w)) same ∙ e in
        inl (same, ground arith)
    | inr other ↦ inr (sym (lookup-store_other es k j w other) ∙ e, other)
  ]

  -- A write to a key that is there adds no key.
  pub is_some-store :
      (w v : A) → lookup es k ≡ some v → is_some (lookup (store es k w) j) ≡ is_some (lookup es j)
  is_some-store w v e = elim (key-cases k j) [
    | inl same ↦
        let f = sym (ap (lookup (store es k w)) same) ∙ lookup-store es k w in
        let g = sym (ap (lookup es) same) ∙ e in ap is_some f ∙ sym (ap is_some g)
    | inr other ↦ ap is_some (lookup-store_other es k j w other)
  ]

  -- A key that was written is there.
  pub store-is_some : (w : A) → k ≡ j → is_some (lookup (store es k w) j) ≡ true
  store-is_some w same = ap is_some (ap (lookup (store es k w)) (sym same) ∙ lookup-store es k w)
