-- ===== src/Names/Fresh.antt =====
-- `assign` of agent-names.ts ends with a name that nobody holds.
use locus_pi.Common.{
  ℕ, zero, suc, ◌+◌, ◌≤◌, ◌<◌, ◌≡◌, ◌≢◌, refl, sym, ◌∙◌, inl, inr, Bool, true, false, List, [], ◌∷◌,
  ◌++◌, Option, none, some, is_some, Bool-cases, length, arith,
}
use locus_pi.Common.Text.{Text, text_eq, text_eq_iff, decimal-injective}
use locus_pi.Common.Map.{Entries, lookup}
use locus_pi.Names.{candidate, free_name}

append_cancel : (base s t : Text) → base ++ s ≡ base ++ t → s ≡ t
append_cancel [] s t e = e
append_cancel (c ∷ cs) s t e = append_cancel cs s t (ground arith)

append_longer : (base s : Text) (c : ℕ) → base ≢ base ++ c ∷ s
append_longer [] s c e = ground arith
append_longer (b ∷ bs) s c e = append_longer bs s c (ground arith)

candidate-injective : (base : Text) (m n : ℕ) → candidate base m ≡ candidate base n → m ≡ n
candidate-injective base zero zero e = refl
candidate-injective base zero (suc n) e = absurd (append_longer base _ b'-' e)
candidate-injective base (suc m) zero e = absurd (append_longer base _ b'-' (sym e))
candidate-injective base (suc m) (suc n) e =
    let f = append_cancel base _ _ e in
    let g = decimal-injective (suc (suc m)) (suc (suc n)) (append_cancel (b'-' ∷ []) _ _ f) in
    omega (arith, g)

-- How many of the first `n` candidates are keys, and how many are one text.
abbrev one_if : Bool → ℕ
one_if true = 1
one_if false = 0

taken : Entries (List Text) → Text → ℕ → ℕ
taken held base zero = 0
taken held base (suc n) = one_if (is_some (lookup held (candidate base n))) + taken held base n

equals : Text → Text → ℕ → ℕ
equals k base zero = 0
equals k base (suc n) = one_if (text_eq k (candidate base n)) + equals k base n

equals_none : (k base : Text) (n m : ℕ) → k ≡ candidate base m → n ≤ m → equals k base n ≡ 0
unfolding equals
equals_none k base zero m e h = refl
equals_none k base (suc n) m e h = elim (Bool-cases (text_eq k (candidate base n))) [
  | inl same ↦
      let f = candidate-injective base m n (sym e ∙ (text_eq_iff k (candidate base n)).0 same) in
      absurd (omega (arith, f, h))
  | inr other ↦ ground (arith, equals_none k base n m e (omega arith))
]

equals-le-one : (k base : Text) (n : ℕ) → equals k base n ≤ 1
unfolding equals
equals-le-one k base zero = omega arith
equals-le-one k base (suc n) = elim (Bool-cases (text_eq k (candidate base n))) [
  | inl same ↦
      let f = equals_none k base n n ((text_eq_iff k (candidate base n)).0 same) (omega arith) in
      ground (arith, f)
  | inr other ↦ ground (arith, equals-le-one k base n)
]

taken-cons :
    (k : Text) (v : List Text) (held : Entries (List Text)) (base : Text) (n : ℕ)
    → taken ((k, v) ∷ held) base n ≤ equals k base n + taken held base n
unfolding taken equals
taken-cons k v held base zero = omega arith
taken-cons k v held base (suc n) = ground (arith, taken-cons k v held base n)

taken-le-length :
    (held : Entries (List Text)) (base : Text) (n : ℕ) → taken held base n ≤ length held
unfolding taken
taken-le-length [] base zero = omega arith
taken-le-length [] base (suc n) = ground (arith, taken-le-length [] base n)
taken-le-length ((k, v) ∷ held) base n =
    omega (arith, taken-cons k v held base n, equals-le-one k base n, taken-le-length held base n)

no_value {ℓ} : {A : Type ℓ} (o : Option A) → is_some o ≡ false → o ≡ none
no_value none h = refl
no_value (some v) h = ground arith

-- After rounds that all found their candidate in use.
free-from :
    (fuel n : ℕ) (held : Entries (List Text)) (base : Text)
    → taken held base n ≡ n
    → length held < n + fuel
    → lookup held (free_name fuel held base n) ≡ none
unfolding free_name taken
free-from zero n held base all h = absurd (omega (arith, taken-le-length held base n, all, h))
free-from (suc fuel) n held base all h =
    elim (Bool-cases (is_some (lookup held (candidate base n)))) [
      | inl used ↦ rw used (free-from fuel (suc n) held base (ground arith) (omega arith))
      | inr free ↦ rw free (no_value (lookup held (candidate base n)) free)
    ]

-- The loop of `assign` ends with a name without holders.
pub free_name_lem :
    (held : Entries (List Text)) (base : Text)
    → lookup held (free_name (suc (length held)) held base 0) ≡ none
unfolding taken
free_name_lem held base = free-from (suc (length held)) 0 held base refl (omega arith)
