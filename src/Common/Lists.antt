-- ===== src/Common/Lists.antt =====
-- Lists measured and indexed by native numbers, under the library's names.
use Prim.Native.Nat.{ℕ, zero, suc, ◌+◌, ◌-◌, ◌≤◌}
use mathlib.Core.Path.{◌≡◌, refl, ap, subst}
use mathlib.Core.Logic.{◌≢◌, ◌⊎◌, inl, inr}
use mathlib.Core.Bool.{Bool, true, false, ◌&&◌, ◌||◌}
use mathlib.Core.List.{List, [], ◌∷◌, ◌++◌, map}
use mathlib.Core.Option.{Option, none, some}
use native.Mathlib.Omega.{arith}
use locus_pi.Common.Tests.{if◌then◌else◌, if_intro, Bool-cases}

module _ {ℓ} {A : Type ℓ} where
  abbrev pub length : List A → ℕ
  length [] = 0
  length (x ∷ xs) = suc (length xs)

  abbrev pub get_elem? : List A → ℕ → Option A
  get_elem? [] i = none
  get_elem? (x ∷ xs) zero = some x
  get_elem? (x ∷ xs) (suc i) = get_elem? xs i

  -- A write out of bounds changes nothing.
  abbrev pub set : List A → ℕ → A → List A
  set [] i v = []
  set (x ∷ xs) zero v = v ∷ xs
  set (x ∷ xs) (suc i) v = x ∷ set xs i v

  abbrev pub take : ℕ → List A → List A
  take zero xs = []
  take (suc n) [] = []
  take (suc n) (x ∷ xs) = x ∷ take n xs

  abbrev pub drop : ℕ → List A → List A
  drop zero xs = xs
  drop (suc n) [] = []
  drop (suc n) (x ∷ xs) = drop n xs

  -- `Array.filter`, `find`, `some` and `every` with a Boolean test
  abbrev pub keep : (A → Bool) → List A → List A
  keep p [] = []
  keep p (x ∷ xs) = if p x then x ∷ keep p xs else keep p xs

  abbrev pub find? : (A → Bool) → List A → Option A
  find? p [] = none
  find? p (x ∷ xs) = if p x then some x else find? p xs

  abbrev pub any : (A → Bool) → List A → Bool
  any p [] = false
  any p (x ∷ xs) = p x || any p xs

  abbrev pub every : (A → Bool) → List A → Bool
  every p [] = true
  every p (x ∷ xs) = p x && every p xs

  -- How many elements pass a test.
  abbrev pub count : (A → Bool) → List A → ℕ
  count p [] = 0
  count p (x ∷ xs) = if p x then suc (count p xs) else count p xs

  pub length-append : (xs ys : List A) → length (xs ++ ys) ≡ length xs + length ys
  length-append [] ys = omega arith
  length-append (x ∷ xs) ys = omega (arith, length-append xs ys)

  pub length-take-le : (n : ℕ) (xs : List A) → length (take n xs) ≤ n
  length-take-le zero xs = omega arith
  length-take-le (suc n) [] = omega arith
  length-take-le (suc n) (x ∷ xs) = omega (arith, length-take-le n xs)

  pub length-drop : (n : ℕ) (xs : List A) → length (drop n xs) ≡ length xs - n
  length-drop zero xs = omega arith
  length-drop (suc n) [] = omega arith
  length-drop (suc n) (x ∷ xs) = omega (arith, length-drop n xs)

  pub take-append-drop : (n : ℕ) (xs : List A) → take n xs ++ drop n xs ≡ xs
  take-append-drop zero xs = refl
  take-append-drop (suc n) [] = refl
  take-append-drop (suc n) (x ∷ xs) = ap (◌∷◌ x) (take-append-drop n xs)

module _ {ℓ} {A : Type ℓ} where
  pub length-set : (xs : List A) (i : ℕ) (v : A) → length (set xs i v) ≡ length xs
  length-set [] i v = refl
  length-set (x ∷ xs) zero v = refl
  length-set (x ∷ xs) (suc i) v = ap suc (length-set xs i v)

module _ {ℓ} {A : Type ℓ} where
  pub get_elem?-append_some :
      (xs ys : List A) (i : ℕ) (v : A) → get_elem? xs i ≡ some v → get_elem? (xs ++ ys) i ≡ some v
  get_elem?-append_some [] ys i v e = ground arith
  get_elem?-append_some (x ∷ xs) ys zero v e = e
  get_elem?-append_some (x ∷ xs) ys (suc i) v e = get_elem?-append_some xs ys i v e

  pub get_elem?-append_length :
      (xs : List A) (v : A) → get_elem? (xs ++ v ∷ []) (length xs) ≡ some v
  get_elem?-append_length [] v = refl
  get_elem?-append_length (x ∷ xs) v = get_elem?-append_length xs v

  pub get_elem?-set_ne :
      (xs : List A) (i j : ℕ) (v : A) → i ≢ j → get_elem? (set xs i v) j ≡ get_elem? xs j
  get_elem?-set_ne [] i j v h = refl
  get_elem?-set_ne (x ∷ xs) zero zero v h = absurd (h refl)
  get_elem?-set_ne (x ∷ xs) zero (suc j) v h = refl
  get_elem?-set_ne (x ∷ xs) (suc i) zero v h = refl
  get_elem?-set_ne (x ∷ xs) (suc i) (suc j) v h = get_elem?-set_ne xs i j v (λ e. h (ground arith))

  pub get_elem?-set_self :
      (xs : List A) (i : ℕ) (v w : A) → get_elem? xs i ≡ some v → get_elem? (set xs i w) i ≡ some w
  get_elem?-set_self [] i v w e = ground arith
  get_elem?-set_self (x ∷ xs) zero v w e = refl
  get_elem?-set_self (x ∷ xs) (suc i) v w e = get_elem?-set_self xs i v w e

module _ {ℓ κ} {A : Type ℓ} (P : A → Type κ) where
  abbrev pub All : List A → Type κ
  All [] = Unit
  All (x ∷ xs) = P x × All xs

  pub All-append : (xs ys : List A) → All xs → All ys → All (xs ++ ys)
  All-append [] ys h k = k
  All-append (x ∷ xs) ys h k = (h.0, All-append xs ys h.1 k)

module _ {ℓ} {A : Type ℓ} (p : A → Bool) where
  pub count-append : (xs ys : List A) → count p (xs ++ ys) ≡ count p xs + count p ys
  count-append [] ys = omega arith
  count-append (x ∷ xs) ys = ground (arith, count-append xs ys)

  pub count-le-length : (xs : List A) → count p xs ≤ length xs
  count-le-length [] = omega arith
  count-le-length (x ∷ xs) = ground (arith, count-le-length xs)

  pub count-keep-le : (q : A → Bool) (xs : List A) → count p (keep q xs) ≤ count p xs
  count-keep-le q [] = omega arith
  count-keep-le q (x ∷ xs) = ground (arith, count-keep-le q xs)

  pub count-keep : (q : A → Bool) (xs : List A) → count p (keep q xs) ≡ count (λ x. q x && p x) xs
  count-keep q [] = refl
  count-keep q (x ∷ xs) = ground (arith, count-keep q xs)

  -- A change that makes no element pass lowers the count at most.
  pub count-map-le :
      (f : A → A) (xs : List A)
      → ((x : A) → p (f x) ≡ true → p x ≡ true)
      → count p (map f xs) ≤ count p xs
  count-map-le f [] h = omega arith
  count-map-le f (x ∷ xs) h = ground (arith, count-map-le f xs h, h x)

  pub count_of_find_none : (xs : List A) → find? p xs ≡ none → count p xs ≡ 0
  count_of_find_none [] e = refl
  count_of_find_none (x ∷ xs) e = ground (arith, count_of_find_none xs)

  pub count_of_any : (xs : List A) → any p xs ≡ true → 1 ≤ count p xs
  count_of_any [] e = ground arith
  count_of_any (x ∷ xs) e = ground (arith, count_of_any xs)

  pub any_of_count : (xs : List A) → 1 ≤ count p xs → any p xs ≡ true
  any_of_count [] h = ground arith
  any_of_count (x ∷ xs) h = ground (arith, any_of_count xs)

module _ {ℓ κ} {A : Type ℓ} (P : A → Type κ) where
  pub All-keep : (q : A → Bool) (xs : List A) → All P xs → All P (keep q xs)
  All-keep q [] h = tt
  All-keep q (x ∷ xs) h =
      if_intro (All P) (q x) (λ _. (h.0, All-keep q xs h.1)) (λ _. All-keep q xs h.1)

  pub All-find : (q : A → Bool) (xs : List A) (x : A) → All P xs → find? q xs ≡ some x → P x
  All-find q [] x h e = absurd (cc)
  All-find q (y ∷ xs) x h e = elim (Bool-cases (q y)) [
    | inl hit ↦ subst P (ground arith) h.0
    | inr miss ↦ All-find q xs x h.1 (ground arith)
  ]

pub All-zip {ℓ κ ι υ} :
    {A : Type ℓ} (P : A → Type κ) (Q : A → Type ι) (R : A → Type υ)
    → ((x : A) → P x → Q x → R x)
    → (xs : List A) → All P xs
    → All Q xs
    → All R xs
All-zip P Q R f [] h k = tt
All-zip P Q R f (x ∷ xs) h k = (f x h.0 k.0, All-zip P Q R f xs h.1 k.1)

module _ {ℓ} {A : Type ℓ} where
  pub count_congr : (p q : A → Bool) (xs : List A) → ((x : A) → p x ≡ q x) → count p xs ≡ count q xs
  count_congr p q [] h = refl
  count_congr p q (x ∷ xs) h = ground (arith, count_congr p q xs h, h x)

  pub count_none : (p : A → Bool) (xs : List A) → All (λ x. p x ≡ false) xs → count p xs ≡ 0
  count_none p [] h = refl
  count_none p (x ∷ xs) h = ground (arith, count_none p xs h.1, h.0)

  pub All-drop {κ} : (P : A → Type κ) (n : ℕ) (xs : List A) → All P xs → All P (drop n xs)
  All-drop P zero xs h = h
  All-drop P (suc n) [] h = tt
  All-drop P (suc n) (x ∷ xs) h = All-drop P n xs h.1

  pub All-true {κ} : (P : A → Type κ) (xs : List A) → ((x : A) → P x) → All P xs
  All-true P [] h = tt
  All-true P (x ∷ xs) h = (h x, All-true P xs h)

  pub any-append : (p : A → Bool) (xs ys : List A) → any p xs ≡ true → any p (xs ++ ys) ≡ true
  any-append p [] ys h = ground arith
  any-append p (x ∷ xs) ys h = ground (arith, any-append p xs ys)

  pub any-map :
      (p : A → Bool) (f : A → A) (xs : List A)
      → ((x : A) → p x ≡ true → p (f x) ≡ true)
      → any p xs ≡ true
      → any p (map f xs) ≡ true
  any-map p f [] h e = ground arith
  any-map p f (x ∷ xs) h e = ground (arith, any-map p f xs h, h x)

  pub any-keep :
      (p q : A → Bool) (xs : List A)
      → All (λ x. p x ≡ true → q x ≡ true) xs
      → any p xs ≡ true
      → any p (keep q xs) ≡ true
  any-keep p q [] h e = ground arith
  any-keep p q (x ∷ xs) h e = ground (arith, any-keep p q xs h.1, h.0)

  -- What stands at a position after a write, after an addition and after a map.
  pub get_elem?-set_cases :
      (xs : List A) (i j : ℕ) (w x : A)
      → get_elem? (set xs i w) j ≡ some x
      → ((j ≡ i) × (x ≡ w)) ⊎ (get_elem? xs j ≡ some x)
  get_elem?-set_cases [] i j w x e = inr e
  get_elem?-set_cases (y ∷ ys) zero zero w x e = ground arith
  get_elem?-set_cases (y ∷ ys) zero (suc j) w x e = inr e
  get_elem?-set_cases (y ∷ ys) (suc i) zero w x e = inr e
  get_elem?-set_cases (y ∷ ys) (suc i) (suc j) w x e =
      ground (arith, get_elem?-set_cases ys i j w x e)

  pub get_elem?-append_cases :
      (xs : List A) (w : A) (j : ℕ) (x : A)
      → get_elem? (xs ++ w ∷ []) j ≡ some x
      → ((j ≡ length xs) × (x ≡ w)) ⊎ (get_elem? xs j ≡ some x)
  get_elem?-append_cases [] w zero x e = ground arith
  get_elem?-append_cases [] w (suc j) x e = ground arith
  get_elem?-append_cases (y ∷ ys) w zero x e = inr e
  get_elem?-append_cases (y ∷ ys) w (suc j) x e = ground (arith, get_elem?-append_cases ys w j x e)

module _ {ℓ κ} {A : Type ℓ} {B : Type κ} (f : A → B) where
  pub get_elem?-map-some :
      (xs : List A) (i : ℕ) (x : A) → get_elem? xs i ≡ some x → get_elem? (map f xs) i ≡ some (f x)
  get_elem?-map-some [] i x e = ground arith
  get_elem?-map-some (y ∷ ys) zero x e = ground arith
  get_elem?-map-some (y ∷ ys) (suc i) x e = get_elem?-map-some ys i x e

  pub map-set : (xs : List A) (i : ℕ) (w : A) → map f (set xs i w) ≡ set (map f xs) i (f w)
  map-set [] i w = refl
  map-set (y ∷ ys) zero w = refl
  map-set (y ∷ ys) (suc i) w = ap (◌∷◌ (f y)) (map-set ys i w)

  pub length-map : (xs : List A) → length (map f xs) ≡ length xs
  length-map [] = refl
  length-map (x ∷ xs) = ap suc (length-map xs)

  pub map-append : (xs ys : List A) → map f (xs ++ ys) ≡ map f xs ++ map f ys
  map-append [] ys = refl
  map-append (x ∷ xs) ys = ap (◌∷◌ (f x)) (map-append xs ys)

  -- A write that the map does not see.
  pub map-set_same :
      (xs : List A) (i : ℕ) (x w : A)
      → get_elem? xs i ≡ some x
      → f w ≡ f x
      → map f (set xs i w) ≡ map f xs
  map-set_same [] i x w e h = refl
  map-set_same (y ∷ ys) zero x w e h = ground arith
  map-set_same (y ∷ ys) (suc i) x w e h = ap (◌∷◌ (f y)) (map-set_same ys i x w e h)
