-- ===== src/SavedNames/Identity.antt =====
-- A persisted target identity of workflow-saved-name.ts is read back.
use locus_pi.Common.{ℕ, ◌≡◌, refl, ap, subst, Bool, true, false, [], ◌∷◌, Option, none, some, arith}
use locus_pi.Common.Text.{Text, codes}
use locus_pi.Common.Json.{
  Json, Fields, string, object, null, boolean, number, array, no_fields, field, get_field,
}
use locus_pi.SavedNames.Grammar.{is_empty}
use locus_pi.SavedNames.Targets.{
  Kind, name, script_path, Source, project, personal, packaged, Target, kind_text, source_text,
  TargetError, target, refused, unknown_field, bad_kind, bad_ref, bad_source, unknown_key,
  read_kind, read_ref, read_source, kind_problem, has_bad_path, accepted, checked, read_fields,
  parse_workflow_target_identity,
}

-- A target that may be persisted: with a ref, which is a saved name where it is a name, and else the
-- project's.
abbrev pub IsTarget : Target → Type 0
IsTarget t = (is_empty t.ref ≡ false) × (kind_problem t.kind t.ref t.source ≡ none)

abbrev pub written : Target → Json
written t = object (
    field (codes "kind") (string (kind_text t.kind)) (
      field (codes "ref") (string t.ref)
        (field (codes "source") (string (source_text t.source)) no_fields)))

accepted-target :
    (p : Option TargetError) (b : Bool) (t u : Target)
    → accepted p b t ≡ target u
    → (p ≡ none) × (t ≡ u)
accepted-target (some problem) b t u e = ground arith
accepted-target none true t u e = ground arith
accepted-target none false t u e = (refl, ground arith)

read_ref-filled : (v : Option Json) (r : Text) → read_ref v ≡ some r → is_empty r ≡ false
read_ref-filled v r e = ground arith

with_source :
    (fs : Fields) (kind : Kind) (ref : Text) (source : Option Source) (t : Target)
    → is_empty ref ≡ false
    → elim source [ none ↦ refused bad_source | some s ↦ checked fs kind ref s ] ≡ target t
    → IsTarget t
with_source fs kind ref none t f e = ground arith
with_source fs kind ref (some s) t f e =
    let (fine, same) =
      accepted-target (kind_problem kind ref s) (has_bad_path fs)
        (record { kind = kind; ref = ref; source = s }) t e in
    subst IsTarget same (f, fine)

with_ref :
    (fs : Fields) (kind : Kind) (ref : Option Text) (source : Option Source) (t : Target)
    → ((r : Text) → ref ≡ some r → is_empty r ≡ false)
    → elim ref [
      | none ↦ refused bad_ref
      | some r ↦ elim source [ none ↦ refused bad_source | some s ↦ checked fs kind r s ]
    ]
      ≡ target t
    → IsTarget t
with_ref fs kind none source t f e = ground arith
with_ref fs kind (some r) source t f e = with_source fs kind r source t (f r refl) e

with_kind :
    (fs : Fields) (kind : Option Kind) (ref : Option Text) (source : Option Source) (t : Target)
    → ((r : Text) → ref ≡ some r → is_empty r ≡ false)
    → elim kind [
      | none ↦ refused bad_kind
      | some k ↦ elim ref [
        | none ↦ refused bad_ref
        | some r ↦ elim source [ none ↦ refused bad_source | some s ↦ checked fs k r s ]
      ]
    ]
      ≡ target t
    → IsTarget t
with_kind fs none ref source t f e = ground arith
with_kind fs (some k) ref source t f e = with_ref fs k ref source t f e

with_keys :
    (fs : Fields) (unknown : Option Text) (kind : Option Kind) (ref : Option Text)
    (source : Option Source) (t : Target)
    → ((r : Text) → ref ≡ some r → is_empty r ≡ false)
    → elim unknown [
      | some key ↦ refused (unknown_field key)
      | none ↦ elim kind [
        | none ↦ refused bad_kind
        | some k ↦ elim ref [
          | none ↦ refused bad_ref
          | some r ↦ elim source [ none ↦ refused bad_source | some s ↦ checked fs k r s ]
        ]
      ]
    ]
      ≡ target t
    → IsTarget t
with_keys fs none kind ref source t f e = with_kind fs kind ref source t f e
with_keys fs (some key) kind ref source t f e = ground arith

read_fields-IsTarget : (fs : Fields) (t : Target) → read_fields fs ≡ target t → IsTarget t
unfolding read_fields
read_fields-IsTarget fs t e =
    with_keys fs (unknown_key fs) (read_kind (get_field (codes "kind") fs))
      (read_ref (get_field (codes "ref") fs)) (read_source (get_field (codes "source") fs)) t
      (read_ref-filled (get_field (codes "ref") fs)) e

parse-IsTarget : (v : Json) (t : Target) → parse_workflow_target_identity v ≡ target t → IsTarget t
unfolding parse_workflow_target_identity
parse-IsTarget (object fs) t e = read_fields-IsTarget fs t e
parse-IsTarget null t e = ground arith
parse-IsTarget (boolean b) t e = ground arith
parse-IsTarget (number n) t e = ground arith
parse-IsTarget (string s) t e = ground arith
parse-IsTarget (array items) t e = ground arith

written-read :
    (kind : Kind) (c : ℕ) (cs : Text) (source : Source)
    → kind_problem kind (c ∷ cs) source ≡ none
    → let t : Target = record { kind = kind; ref = c ∷ cs; source = source } in
      parse_workflow_target_identity (written t) ≡ target t
unfolding parse_workflow_target_identity read_fields
written-read name c cs project h =
    ap (λ p. accepted p false (record { kind = name; ref = c ∷ cs; source = project })) h
written-read name c cs personal h =
    ap (λ p. accepted p false (record { kind = name; ref = c ∷ cs; source = personal })) h
written-read name c cs packaged h =
    ap (λ p. accepted p false (record { kind = name; ref = c ∷ cs; source = packaged })) h
written-read script_path c cs project h =
    ap (λ p. accepted p false (record { kind = script_path; ref = c ∷ cs; source = project })) h
written-read script_path c cs personal h =
    ap (λ p. accepted p false (record { kind = script_path; ref = c ∷ cs; source = personal })) h
written-read script_path c cs packaged h =
    ap (λ p. accepted p false (record { kind = script_path; ref = c ∷ cs; source = packaged })) h

from_ref :
    (kind : Kind) (ref : Text) (source : Source)
    → is_empty ref ≡ false
    → kind_problem kind ref source ≡ none
    → let t : Target = record { kind = kind; ref = ref; source = source } in
      parse_workflow_target_identity (written t) ≡ target t
from_ref kind [] source filled fine = ground arith
from_ref kind (c ∷ cs) source filled fine = written-read kind c cs source fine

written-IsTarget : (t : Target) → IsTarget t → parse_workflow_target_identity (written t) ≡ target t
written-IsTarget t (filled, fine) = from_ref t.kind t.ref t.source filled fine

-- A value that is read as a target keeps the rule of its kind, with a ref, and the target that was
-- read is read again to itself from its kind, ref and source.
pub parse_workflow_target_identity_twice :
    (v : Json) (t : Target)
    → parse_workflow_target_identity v ≡ target t
    → IsTarget t × (parse_workflow_target_identity (written t) ≡ target t)
parse_workflow_target_identity_twice v t e =
    let kept = parse-IsTarget v t e in (kept, written-IsTarget t kept)
