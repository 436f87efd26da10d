-- ===== src/Names/Sets.antt =====
-- Sets of ids, and the entry of a name whose holder leaves: agent-names.ts.
use locus_pi.Common.{
  ◌≡◌, refl, sym, ap, subst, ◌∙◌, inl, inr, true, false, List, [], ◌∷◌, ◌++◌, Option, none, some,
  Bool-cases, on_option, arith,
}
use locus_pi.Common.Text.{Text, text_eq, text_eq_iff, text_eq_refl}
use locus_pi.Common.Map.{
  Entries, lookup, store, discard, lookup-store, lookup-store_other, lookup-discard,
  lookup-discard_other,
}
use locus_pi.Names.{has, add, without, drop_holder}

pub has-append : (id h : Text) (hs : List Text) → has id hs ≡ true → has id (hs ++ h ∷ []) ≡ true
has-append id h [] e = ground arith
has-append id h (x ∷ hs) e = ground (arith, has-append id h hs)

pub has-append_self : (id : Text) (hs : List Text) → has id (hs ++ id ∷ []) ≡ true
has-append_self id [] = ground (arith, text_eq_refl id)
has-append_self id (x ∷ hs) = ground (arith, has-append_self id hs)

pub has-append_inv :
    (id h : Text) (hs : List Text)
    → has id (hs ++ h ∷ []) ≡ true
    → text_eq h id ≡ false
    → has id hs ≡ true
has-append_inv id h [] e o = ground arith
has-append_inv id h (x ∷ hs) e o = ground (arith, has-append_inv id h hs)

pub has-add_self : (id : Text) (hs : List Text) → has id (add id hs) ≡ true
has-add_self id hs = ground (arith, has-append_self id hs)

pub has-add : (id h : Text) (hs : List Text) → has id hs ≡ true → has id (add h hs) ≡ true
has-add id h hs e = ground (arith, has-append id h hs e)

pub has-add_inv :
    (id h : Text) (hs : List Text)
    → has id (add h hs) ≡ true
    → text_eq h id ≡ false
    → has id hs ≡ true
has-add_inv id h hs e o = ground (arith, has-append_inv id h hs)

pub has-without :
    (id h : Text) (hs : List Text)
    → has id hs ≡ true
    → text_eq h id ≡ false
    → has id (without h hs) ≡ true
has-without id h [] e o = ground arith
has-without id h (x ∷ hs) e o = elim (Bool-cases (text_eq x h)) [
  | inl same ↦
      let apart : text_eq x id ≡ false = ap (λ y. text_eq y id) ((text_eq_iff x h).0 same) ∙ o in
      ground (arith, has-without id h hs)
  | inr other ↦ ground (arith, has-without id h hs)
]

pub has-without_inv :
    (id h : Text) (hs : List Text) → has id (without h hs) ≡ true → has id hs ≡ true
has-without_inv id h [] e = e
has-without_inv id h (x ∷ hs) e = ground (arith, has-without_inv id h hs)

pub has-without_self : (h : Text) (hs : List Text) → has h (without h hs) ≡ false
has-without_self h [] = refl
has-without_self h (x ∷ hs) = ground (arith, has-without_self h hs)

pub some-injective : {A : Type 0} {x y : A} → some x ≡ some y → x ≡ y
some-injective e = ground arith

on_list {ℓ κ ι} :
    {A : Type ℓ} {B : Type κ} (P : B → Type ι) (l : List A) {y : B} {f : A → List A → B}
    → (l ≡ [] → P y)
    → ((h : A) (t : List A) → l ≡ h ∷ t → P (f h t))
    → P (elim l [ [] ↦ y | h ∷ t ↦ f h t ])
on_list P [] p q = p refl
on_list P (h ∷ t) p q = q h t refl

-- What is left of a list of holders, as an entry.
abbrev pub entry_of : List Text → Option (List Text)
entry_of [] = none
entry_of (h ∷ t) = some (h ∷ t)

pub leave_self :
    (held : Entries (List Text)) (name : Text) (l : List Text)
    → lookup (elim l [ [] ↦ discard held name | h ∷ t ↦ store held name (h ∷ t) ]) name ≡ entry_of l
leave_self held name [] = lookup-discard held name
leave_self held name (h ∷ t) = lookup-store held name (h ∷ t)

pub drop_holder_self :
    (held : Entries (List Text)) (name id : Text) (hs : List Text)
    → lookup held name ≡ some hs
    → lookup (drop_holder held name id) name ≡ entry_of (without id hs)
drop_holder_self held name id hs found =
    ap
      (λ o.
        lookup
          (elim o [
            | none ↦ held
            | some l ↦ elim (without id l) [
              | [] ↦ discard held name
              | h ∷ t ↦ store held name (h ∷ t)
            ]
          ])
          name)
      found
    ∙ leave_self held name (without id hs)

pub entry-some :
    (l hs : List Text) → entry_of l ≡ some hs → (hs ≡ l) × ((h : Text) × (has h hs ≡ true))
entry-some [] hs e = ground arith
entry-some (h ∷ t) hs e = (
  sym (some-injective e),
  (h, subst (λ x. has h x ≡ true) (some-injective e) (ground (arith, text_eq_refl h))),
)

pub some-entry : (j : Text) (l : List Text) → has j l ≡ true → entry_of l ≡ some l
some-entry j [] e = ground arith
some-entry j (h ∷ t) e = refl

pub drop_holder-other :
    (held : Entries (List Text)) (name id n : Text)
    → text_eq name n ≡ false
    → lookup (drop_holder held name id) n ≡ lookup held n
drop_holder-other held name id n other =
    on_option (λ m. lookup m n ≡ lookup held n) (lookup held name) (λ _. refl)
      (λ hs _.
        on_list (λ m. lookup m n ≡ lookup held n) (without id hs)
          (λ _. lookup-discard_other held name n other)
          (λ h t _. lookup-store_other held name n (h ∷ t) other))
