-- ===== src/Names/Releasing.antt =====
-- A release keeps the two maps of the registry of agent-names.ts in agreement.
use locus_pi.Common.{◌≡◌, sym, ap, subst, ◌∙◌, inl, inr, true, false, List, some, arith}
use locus_pi.Common.Text.{Text, text_eq, text_eq_refl}
use locus_pi.Common.Map.{Entries, lookup, discard, lookup-discard, lookup-discard_other, key-cases}
use locus_pi.Names.{Registry, has, without, drop_holder}
use locus_pi.Names.Sets.{
  has-without, has-without_inv, has-without_self, entry_of, entry-some, some-entry,
  drop_holder_self, drop_holder-other, some-injective,
}
use locus_pi.Names.Holders.{IsHeld}

module _ (r : Registry) (v : IsHeld r) where
  module _ (id name : Text) (has_name : lookup r.by_id id ≡ some name) where
    abbrev left_by_id : Entries Text
    left_by_id = discard r.by_id id

    abbrev left_held : Entries (List Text)
    left_held = drop_holder r.holders_by_name name id

    here : (hs : List Text) × (lookup r.holders_by_name name ≡ some hs) × (has id hs ≡ true)
    here = v.listed id name has_name

    left_self : lookup left_held name ≡ entry_of (without id here.0)
    left_self = drop_holder_self r.holders_by_name name id here.0 here.1

    left_other :
        (n : Text) → text_eq name n ≡ false → lookup left_held n ≡ lookup r.holders_by_name n
    left_other n other = drop_holder-other r.holders_by_name name id n other

    released :
        (j n : Text)
        → lookup left_by_id j ≡ some n
        → (lookup r.by_id j ≡ some n) × (text_eq id j ≡ false)
    released j n e = elim (key-cases id j) [
      | inl same ↦
          absurd
            (let f = ap (lookup left_by_id) (sym same) ∙ lookup-discard r.by_id id in ground arith)
      | inr other ↦ (sym (lookup-discard_other r.by_id id j other) ∙ e, other)
    ]

    abbrev StillListed : Text → Text → Type 0
    StillListed j n = (hs : List Text) × (lookup left_held n ≡ some hs) × (has j hs ≡ true)

    still_listed : (j n : Text) → lookup r.by_id j ≡ some n → text_eq id j ≡ false → StillListed j n
    still_listed j n e other =
        let (hs, found, member) = v.listed j n e in
        elim (key-cases name n) [
          | inl same ↦
              let equal : here.0 ≡ hs =
                some-injective (sym here.1 ∙ ap (lookup r.holders_by_name) same ∙ found) in
              let left = has-without j id here.0 (ap (has j) equal ∙ member) other in
              subst (λ y. StillListed j y) same
                (without id here.0, left_self ∙ some-entry j (without id here.0) left, left)
          | inr apart ↦ (hs, left_other n apart ∙ found, member)
        ]

    still_named :
        (j n : Text) (hs : List Text)
        → lookup left_held n ≡ some hs
        → has j hs ≡ true
        → lookup left_by_id j ≡ some n
    still_named j n hs e member = elim (key-cases name n) [
      | inl same ↦
          let (list, _) =
            entry-some (without id here.0) hs (sym left_self ∙ ap (lookup left_held) same ∙ e) in
          let inside = sym (ap (has j) list) ∙ member in
          let old = v.named j name here.0 here.1 (has-without_inv j id here.0 inside) in
          elim (key-cases id j) [
            | inl gone ↦ absurd (
                let f = ap (λ y. has y (without id here.0)) gone in
                let g = has-without_self id here.0 in ground arith)
            | inr other ↦ lookup-discard_other r.by_id id j other ∙ old ∙ ap some same
          ]
      | inr apart ↦
          let old = v.named j n hs (sym (left_other n apart) ∙ e) member in
          elim (key-cases id j) [
            | inl gone ↦ absurd (
                let both : name ≡ n =
                  some-injective (sym has_name ∙ ap (lookup r.by_id) gone ∙ old) in
                let f = ap (text_eq name) both in let g = text_eq_refl name in ground arith)
            | inr other ↦ lookup-discard_other r.by_id id j other ∙ old
          ]
    ]

    pub release-IsHeld : IsHeld (record { by_id = left_by_id; holders_by_name = left_held })
    release-IsHeld = record {
      listed = λ j n e. still_listed j n (released j n e).0 (released j n e).1;
      held = λ n hs e. elim (key-cases name n) [
        | inl same ↦
            (entry-some (without id here.0) hs (sym left_self ∙ ap (lookup left_held) same ∙ e)).1
        | inr apart ↦ v.held n hs (sym (left_other n apart) ∙ e)
      ];
      named = still_named;
    }
