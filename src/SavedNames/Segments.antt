-- ===== src/SavedNames/Segments.antt =====
-- The saved names of workflow-saved-name.ts by their segments.
use locus_pi.Common.{
  ◌≡◌, refl, Bool, true, false, not, ◌&&◌, ◌||◌, List, [], ◌∷◌, ◌++◌, Option, none, some, leb, any,
  length, arith,
}
use locus_pi.Common.Text.{Text, is_control}
use locus_pi.SavedNames.Grammar.{
  is_slash, is_backslash, until_slash, after_slash, starts_white, ends_white, is_empty, is_dots,
  ends_with_extension, matches_pattern, Parts,
}

-- A segment of a name: some units, none of them a slash, a backslash or a control, without white
-- space at an end, no dots alone, and no module's extension at its end.
abbrev pub is_segment : Text → Bool
is_segment s =
    not (is_empty s)
    && not (starts_white s)
    && not (ends_white s)
    && not (any is_slash s)
    && not (any is_backslash s)
    && not (any is_control s)
    && not (is_dots s)
    && not (ends_with_extension s)

-- A name from its parts
abbrev pub join : Parts → Text
join p = elim p.child [ none ↦ p.root | some child ↦ p.root ++ b'/' ∷ child ]

abbrev pub is_segment_or_none : Option Text → Bool
is_segment_or_none none = true
is_segment_or_none (some s) = is_segment s

-- One segment or two, of at most 200 units with the slash
abbrev pub are_parts : Parts → Bool
are_parts p = leb (length (join p)) 200 && is_segment p.root && is_segment_or_none p.child

pub until_slash-no_slash : (v : Text) → any is_slash (until_slash v) ≡ false
unfolding until_slash
until_slash-no_slash [] = refl
until_slash-no_slash (c ∷ cs) = ground (arith, until_slash-no_slash cs)

pub no_slash-append :
    (s t : Text)
    → any is_slash s ≡ false
    → (until_slash (s ++ b'/' ∷ t) ≡ s) × (after_slash (s ++ b'/' ∷ t) ≡ some t)
unfolding until_slash after_slash
no_slash-append [] t h = (refl, refl)
no_slash-append (c ∷ cs) t h = ground (arith, no_slash-append cs t)

pub no_slash : (s : Text) → any is_slash s ≡ false → (until_slash s ≡ s) × (after_slash s ≡ none)
unfolding until_slash after_slash
no_slash [] h = (refl, refl)
no_slash (c ∷ cs) h = ground (arith, no_slash cs)

pub at_slash : (v t : Text) → after_slash v ≡ some t → v ≡ until_slash v ++ b'/' ∷ t
unfolding until_slash after_slash
at_slash [] t h = ground arith
at_slash (c ∷ cs) t h = ground (arith, at_slash cs t)

pub no_after : (v : Text) → after_slash v ≡ none → until_slash v ≡ v
unfolding until_slash after_slash
no_after [] h = refl
no_after (c ∷ cs) h = ground (arith, no_after cs)

any-append_or {ℓ} :
    {A : Type ℓ} (p : A → Bool) (xs ys : List A) → any p (xs ++ ys) ≡ (any p xs || any p ys)
any-append_or p [] ys = refl
any-append_or p (x ∷ xs) ys = ground (arith, any-append_or p xs ys)

nonempty : (v : Text) → leb 1 (length v) ≡ not (is_empty v)
nonempty [] = refl
nonempty (c ∷ cs) = ground arith

-- The tests of the pattern, without a child and with one, as those of segments.
root_tests :
    (one len empty white_end white_start slash backslash control dots extension : Bool)
    → one ≡ not empty
    → slash ≡ false
    → ((one && len)
        && not white_start
        && not (white_end && false)
        && not false
        && not white_end
        && not backslash
        && not control
        && not dots
        && not false
        && not extension
        && not false
        && not empty)
      ≡ (len
          && (not empty
              && not white_start
              && not white_end
              && not slash
              && not backslash
              && not control
              && not dots
              && not extension))
root_tests one len empty white_end white_start slash backslash control dots extension h g =
    ground arith

pub pattern_root :
    (v : Text)
    → any is_slash v ≡ false
    → matches_pattern v v none ≡ (leb (length v) 200 && is_segment v)
unfolding matches_pattern
pattern_root v h =
    root_tests (leb 1 (length v)) (leb (length v) 200) (is_empty v) (ends_white v) (starts_white v)
      (any is_slash v) (any is_backslash v) (any is_control v) (is_dots v) (ends_with_extension v)
      (nonempty v) h

child_tests :
    (one len empty₁ white_end₁ white_start₁ slash₁ backslash₁ control₁ dots₁ extension₁ : Bool)
    → (empty₂ white_end₂ white_start₂ slash₂ backslash₂ control₂ dots₂ extension₂ : Bool)
    → one ≡ true
    → slash₁ ≡ false
    → ((one && len)
        && not white_start₁
        && not (white_end₁ && true)
        && not white_start₂
        && not white_end₂
        && not (backslash₁ || backslash₂)
        && not (control₁ || control₂)
        && not dots₁
        && not (not empty₁ && dots₂)
        && not extension₁
        && not (not empty₁ && not slash₂ && extension₂)
        && (not empty₁ && not empty₂ && not slash₂))
      ≡ (len
          && (not empty₁
              && not white_start₁
              && not white_end₁
              && not slash₁
              && not backslash₁
              && not control₁
              && not dots₁
              && not extension₁)
          && (not empty₂
              && not white_start₂
              && not white_end₂
              && not slash₂
              && not backslash₂
              && not control₂
              && not dots₂
              && not extension₂))
child_tests one len empty₁ white_end₁ white_start₁ slash₁ backslash₁ control₁ dots₁ extension₁
      empty₂ white_end₂ white_start₂ slash₂ backslash₂ control₂ dots₂ extension₂ h g =
    ground arith

starts_white-append : (s t : Text) → starts_white (s ++ b'/' ∷ t) ≡ starts_white s
starts_white-append [] t = refl
starts_white-append (c ∷ cs) t = refl

ends_white-slash : (s t : Text) → ends_white (s ++ b'/' ∷ t) ≡ ends_white t
ends_white-slash [] [] = refl
ends_white-slash [] (d ∷ t) = refl
ends_white-slash (x ∷ []) [] = refl
ends_white-slash (x ∷ []) (d ∷ t) = refl
ends_white-slash (x ∷ y ∷ s) t = ends_white-slash (y ∷ s) t

long_enough : (s t : Text) → leb 1 (length (s ++ b'/' ∷ t)) ≡ true
long_enough [] t = ground arith
long_enough (c ∷ cs) t = ground arith

pub pattern_child :
    (s t : Text)
    → any is_slash s ≡ false
    → matches_pattern (s ++ b'/' ∷ t) s (some t)
      ≡ (leb (length (s ++ b'/' ∷ t)) 200 && is_segment s && is_segment t)
unfolding matches_pattern
pattern_child s t h =
    rw
      (
        starts_white-append s t,
        ends_white-slash s t,
        any-append_or is_backslash s (b'/' ∷ t),
        any-append_or is_control s (b'/' ∷ t),
      )
      (child_tests (leb 1 (length (s ++ b'/' ∷ t))) (leb (length (s ++ b'/' ∷ t)) 200) (is_empty s)
        (ends_white s) (starts_white s) (any is_slash s) (any is_backslash s) (any is_control s)
        (is_dots s) (ends_with_extension s) (is_empty t) (ends_white t) (starts_white t)
        (any is_slash t) (any is_backslash t) (any is_control t) (is_dots t) (ends_with_extension t)
        (long_enough s t) h)
