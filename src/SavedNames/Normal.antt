-- ===== src/SavedNames/Normal.antt =====
-- The normal form of a reference in workflow-saved-name.ts.
use mathlib.Core.List.{append-nil, append_assoc}
use locus_pi.Common.{
  if_of_false, ℕ, ◌≡◌, refl, sym, ap, subst, ◌∙◌, false, List, [], ◌∷◌, ◌++◌, Option, none, some,
  if◌then◌else◌, All, All-append, any, if_intro, arith,
}
use locus_pi.Common.Text.{Text}
use locus_pi.SavedNames.Grammar.{is_slash}
use locus_pi.SavedNames.Paths.{
  add_unit, split_slash, join_slash, drop_last, is_skipped, is_up, up_from, add_part, add_parts,
  joined, normalize_relative,
}

-- A part that names a file or a directory below
abbrev pub IsProper : Text → Type 0
IsProper s = (is_skipped s ≡ false) × (is_up s ≡ false) × (any is_slash s ≡ false)

abbrev HasNoSlash : Text → Type 0
HasNoSlash s = any is_slash s ≡ false

All-add_unit :
    (c : ℕ) (ss : List Text)
    → is_slash c ≡ false
    → All HasNoSlash ss
    → All HasNoSlash (add_unit c ss)
All-add_unit c [] h v = (ground arith, tt)
All-add_unit c (s ∷ ss) h (one, rest) = (ground arith, rest)

split_slash-HasNoSlash : (t : Text) → All HasNoSlash (split_slash t)
unfolding split_slash
split_slash-HasNoSlash [] = (refl, tt)
split_slash-HasNoSlash (c ∷ cs) =
    let ih = split_slash-HasNoSlash cs in
    if_intro (All HasNoSlash) (is_slash c) {x = [] ∷ split_slash cs}
      {y = add_unit c (split_slash cs)} (λ _. (refl, ih))
      (λ e. All-add_unit c (split_slash cs) e ih)

-- The text of one part, and of a part with more after it
split_slash-part : (s : Text) → any is_slash s ≡ false → split_slash s ≡ s ∷ []
unfolding split_slash
split_slash-part [] h = refl
split_slash-part (c ∷ cs) h = ground (arith, split_slash-part cs)

split_slash-append :
    (s t : Text) → any is_slash s ≡ false → split_slash (s ++ b'/' ∷ t) ≡ s ∷ split_slash t
unfolding split_slash
split_slash-append [] t h = refl
split_slash-append (c ∷ cs) t h = ground (arith, split_slash-append cs t)

split_slash-join_slash :
    (s : Text) (ss : List Text) → All IsProper (s ∷ ss) → split_slash (join_slash (s ∷ ss)) ≡ s ∷ ss
unfolding join_slash
split_slash-join_slash s [] ((_, _, free), _) = split_slash-part s free
split_slash-join_slash s (t ∷ ts) ((_, _, free), rest) =
    split_slash-append s (join_slash (t ∷ ts)) free
    ∙ ap (λ x. s ∷ x) (split_slash-join_slash t ts rest)

All-drop_last : (ss : List Text) → All IsProper ss → All IsProper (drop_last ss)
All-drop_last [] v = tt
All-drop_last (s ∷ []) v = tt
All-drop_last (s ∷ t ∷ ts) (one, rest) = (one, All-drop_last (t ∷ ts) rest)

abbrev AreProper : Option (List Text) → Type 0
AreProper none = Unit {0}
AreProper (some parts) = All IsProper parts

up_from-AreProper : (parts : List Text) → All IsProper parts → AreProper (up_from parts)
up_from-AreProper [] v = tt
up_from-AreProper (s ∷ ss) v = All-drop_last (s ∷ ss) v

add_part-AreProper :
    (parts : List Text) (part : Text)
    → All IsProper parts
    → HasNoSlash part
    → AreProper (add_part parts part)
unfolding add_part
add_part-AreProper parts part v h =
    if_intro AreProper (is_skipped part) (λ _. v)
      (λ named.
        if_intro AreProper (is_up part) (λ _. up_from-AreProper parts v)
          (λ down. All-append IsProper parts (part ∷ []) v ((named, down, h), tt)))

go_on-AreProper :
    (rest : List Text) (o : Option (List Text))
    → AreProper o
    → ((next : List Text) → All IsProper next → AreProper (add_parts next rest))
    → AreProper (elim o [ none ↦ none | some next ↦ add_parts next rest ])
go_on-AreProper rest none v f = tt
go_on-AreProper rest (some next) v f = f next v

add_parts-AreProper :
    (parts rest : List Text)
    → All IsProper parts
    → All HasNoSlash rest
    → AreProper (add_parts parts rest)
unfolding add_parts
add_parts-AreProper parts [] v h = v
add_parts-AreProper parts (part ∷ rest) v (one, more) =
    go_on-AreProper rest (add_part parts part) (add_part-AreProper parts part v one)
      (λ next w. add_parts-AreProper next rest w more)

add_part-IsProper :
    (parts : List Text) (part : Text)
    → IsProper part
    → add_part parts part ≡ some (parts ++ part ∷ [])
unfolding add_part
add_part-IsProper parts part (named, down, free) =
    if_of_false (is_skipped part) (some parts)
      (if is_up part then up_from parts else some (parts ++ part ∷ [])) named
    ∙ if_of_false (is_up part) (up_from parts) (some (parts ++ part ∷ [])) down

-- Proper parts are only added.
add_parts-IsProper :
    (parts rest : List Text) → All IsProper rest → add_parts parts rest ≡ some (parts ++ rest)
unfolding add_parts
add_parts-IsProper parts [] v = ap some (sym (append-nil parts))
add_parts-IsProper parts (part ∷ rest) (one, more) =
    rw (add_part-IsProper parts part one, add_parts)
      (add_parts-IsProper (parts ++ part ∷ []) rest more
        ∙ ap some (append_assoc parts (part ∷ []) rest))

again :
    (parts : List Text)
    → All IsProper parts
    → normalize_relative (join_slash parts) ≡ some (join_slash parts)
unfolding normalize_relative
again [] v = unfold join_slash split_slash add_parts add_part in refl
again (s ∷ ss) v =
    ap (λ x. joined (add_parts [] x)) (split_slash-join_slash s ss v)
    ∙ ap joined (add_parts-IsProper [] (s ∷ ss) v)

-- The parts of a normalized reference
from_parts :
    (o : Option (List Text)) (n : Text)
    → AreProper o
    → joined o ≡ some n
    → (parts : List Text) × All IsProper parts × (n ≡ join_slash parts)
from_parts none n v e = ground arith
from_parts (some parts) n v e = (parts, v, ground arith)

-- A reference that does not leave the root is normalized to named parts alone, with a slash between
-- them: none is empty, a dot or two dots. To normalize it again changes nothing.
pub normalize_relative_twice :
    (ref n : Text)
    → normalize_relative ref ≡ some n
    → ((parts : List Text) × All IsProper parts × (n ≡ join_slash parts))
      × (normalize_relative n ≡ some n)
unfolding normalize_relative
normalize_relative_twice ref n e =
    let shape =
      from_parts (add_parts [] (split_slash ref)) n
        (add_parts-AreProper [] (split_slash ref) tt (split_slash-HasNoSlash ref)) e in
    let (parts, proper, same) = shape in
    (shape, subst (λ x. normalize_relative x ≡ some x) (sym same) (again parts proper))
