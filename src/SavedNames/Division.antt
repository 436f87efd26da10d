-- ===== src/SavedNames/Division.antt =====
-- `workflowSavedNameParts` of workflow-saved-name.ts takes a name apart into its segments.
use locus_pi.Common.{
  ◌≡◌, ◌≢◌, ◌↔◌, refl, sym, ap, subst, ◌∙◌, inl, inr, Bool, true, false, not, ◌&&◌, ◌∷◌, ◌++◌,
  Option, none, some, if◌then◌else◌, leb, any, length, Bool-cases, arith,
}
use locus_pi.Common.Text.{Text, is_control}
use locus_pi.SavedNames.Grammar.{
  is_slash, is_backslash, until_slash, after_slash, starts_white, ends_white, is_empty, is_dots,
  ends_with_extension, matches_pattern, is_workflow_saved_name, Parts, workflow_saved_name_parts,
  first_parts,
}
use locus_pi.SavedNames.Segments.{
  is_segment, join, are_parts, until_slash-no_slash, no_slash-append, no_slash, at_slash, no_after,
  pattern_root, pattern_child,
}

slashed :
    (empty white_start white_end slash backslash control dots extension : Bool)
    → slash ≡ true
    → (not empty
        && not white_start
        && not white_end
        && not slash
        && not backslash
        && not control
        && not dots
        && not extension)
      ≢ true
slashed empty white_start white_end slash backslash control dots extension h e = ground arith

segment_no_slash : (s : Text) → is_segment s ≡ true → any is_slash s ≡ false
segment_no_slash s h = elim (Bool-cases (any is_slash s)) [
  | inl has ↦ absurd (
      slashed (is_empty s) (starts_white s) (ends_white s) (any is_slash s) (any is_backslash s)
        (any is_control s) (is_dots s) (ends_with_extension s) has h)
  | inr free ↦ free
]

some_if :
    {A : Type 0} (b c : Bool) (x y : A)
    → b ≡ c
    → (c ≡ true → x ≡ y)
    → (if b then some x else none) ≡ (if c then some y else none)
some_if true true x y e f = ap some (f refl)
some_if true false x y e f = ground arith
some_if false true x y e f = ground arith
some_if false false x y e f = refl

-- What `workflow_saved_name_parts` does with the pieces of the text
abbrev parts_of : Text → Text → Option Text → Option Parts
parts_of v first after =
    if leb (length v) 200 && matches_pattern v first after
    then some (first_parts first after)
    else none

parts_of_lem : (v : Text) → workflow_saved_name_parts v ≡ parts_of v (until_slash v) (after_slash v)
unfolding workflow_saved_name_parts is_workflow_saved_name
parts_of_lem v = refl

and_true : (a : Bool) → (a && true) ≡ a
and_true true = refl
and_true false = refl

last_true : (a b : Bool) → (a && b) ≡ true → b ≡ true
last_true true b h = h
last_true false b h = ground arith

thrice : (a b c : Bool) → (a && (a && b && c)) ≡ (a && b && c)
thrice true b c = refl
thrice false b c = refl

twice : (a b : Bool) → (a && (a && b)) ≡ (a && b)
twice true b = refl
twice false b = refl

parts_root :
    (v : Text)
    → any is_slash v ≡ false
    → let p : Parts = record { root = v; child = none } in
      parts_of v v none ≡ (if are_parts p then some p else none)
parts_root v h =
    some_if (leb (length v) 200 && matches_pattern v v none) _ _ _
      (ap (λ x. leb (length v) 200 && x) (pattern_root v h)
        ∙ twice (leb (length v) 200) (is_segment v)
        ∙ sym (and_true (leb (length v) 200 && is_segment v)))
      (λ _. refl)

parts_child :
    (s t : Text)
    → any is_slash s ≡ false
    → let p : Parts = record { root = s; child = some t } in
      parts_of (join p) s (some t) ≡ (if are_parts p then some p else none)
parts_child s t h =
    let v = s ++ b'/' ∷ t in
    some_if (leb (length v) 200 && matches_pattern v s (some t))
      (leb (length v) 200 && is_segment s && is_segment t) _ _
      (ap (λ x. leb (length v) 200 && x) (pattern_child s t h)
        ∙ thrice (leb (length v) 200) (is_segment s) (is_segment t))
      (λ e.
        ap (λ x. record { root = s; child = some x })
          (no_slash t (
            segment_no_slash t
              (last_true (leb (length v) 200 && is_segment s) (is_segment t) e))).0)

is_some_of :
    {A : Type 0} (b : Bool) (p q : A) → (if b then some p else none) ≡ some q → (p ≡ q) × (b ≡ true)
is_some_of true p q e = (ground arith, refl)
is_some_of false p q e = ground arith

read_parts :
    (v : Text) (after : Option Text) (p : Parts)
    → after_slash v ≡ after
    → workflow_saved_name_parts v ≡ some p
    → (join p ≡ v) × (are_parts p ≡ true)
read_parts v none p a e =
    let whole = no_after v a in
    let free = subst (λ x. any is_slash x ≡ false) whole (until_slash-no_slash v) in
    let (same, ok) = is_some_of _ _ p (
      sym (parts_root v free)
      ∙ sym (ap (parts_of v v) a)
      ∙ sym (ap (λ f. parts_of v f (after_slash v)) whole)
      ∙ sym (parts_of_lem v)
      ∙ e) in
    (sym (ap join same), subst (λ q. are_parts q ≡ true) same ok)
read_parts v (some t) p a e =
    let whole = at_slash v t a in
    let (same, ok) = is_some_of _ _ p (
      sym (parts_child (until_slash v) t (until_slash-no_slash v))
      ∙ ap (λ x. parts_of x (until_slash v) (some t)) (sym whole)
      ∙ sym (ap (parts_of v (until_slash v)) a)
      ∙ sym (parts_of_lem v)
      ∙ e) in
    (sym (ap join same) ∙ sym whole, subst (λ q. are_parts q ≡ true) same ok)

middle_true : (a b c : Bool) → (a && b && c) ≡ true → b ≡ true
middle_true a true c h = refl
middle_true true false c h = ground arith
middle_true false false c h = ground arith

written_parts :
    (root : Text) (child : Option Text)
    → let p : Parts = record { root = root; child = child } in
      are_parts p ≡ true → workflow_saved_name_parts (join p) ≡ some p
written_parts s none h =
    let free = segment_no_slash s (middle_true (leb (length s) 200) (is_segment s) true h) in
    let p : Parts = record { root = s; child = none } in
    let (until, after) = no_slash s free in
    parts_of_lem s
    ∙ ap (λ f. parts_of s f (after_slash s)) until
    ∙ ap (parts_of s s) after
    ∙ parts_root s free
    ∙ ap (λ b. if b then some p else none) h
written_parts s (some t) h =
    let v = s ++ b'/' ∷ t in
    let free =
      segment_no_slash s (middle_true (leb (length v) 200) (is_segment s) (is_segment t) h) in
    let p : Parts = record { root = s; child = some t } in
    let (until, after) = no_slash-append s t free in
    parts_of_lem v
    ∙ ap (λ f. parts_of v f (after_slash v)) until
    ∙ ap (parts_of v s) after
    ∙ parts_child s t free
    ∙ ap (λ b. if b then some p else none) h

-- The accepted names are those of one segment or of two with a slash between them, of at most 200
-- units, and a name is taken apart into exactly these.
pub workflow_saved_name_parts_iff :
    (v : Text) (p : Parts)
    → (workflow_saved_name_parts v ≡ some p) ↔ ((join p ≡ v) × (are_parts p ≡ true))
workflow_saved_name_parts_iff v p = (
  λ e. read_parts v (after_slash v) p refl e,
  λ (same, ok).
      subst (λ x. workflow_saved_name_parts x ≡ some p) same (written_parts p.root p.child ok),
)
