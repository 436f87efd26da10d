-- ===== src/Names/Holders.antt =====
-- The two maps of the registry of agent-names.ts agree, and a new holder keeps them so.
use locus_pi.Common.{
  ◌≡◌, sym, ap, subst, ◌∙◌, inl, inr, true, List, [], none, some, get_or, Option-cases, arith,
}
use locus_pi.Common.Text.{Text}
use locus_pi.Common.Map.{Entries, lookup, store, lookup-store, lookup-store_other, key-cases}
use locus_pi.Names.{Registry, new_registry, has, add, hold}
use locus_pi.Names.Sets.{has-add_self, has-add, has-add_inv, some-injective}

-- A name's holders are the ids that have it, and there is one.
pub record IsHeld (r : Registry) : Type 0 where
  pub listed :
      (id name : Text)
      → lookup r.by_id id ≡ some name
      → (hs : List Text) × (lookup r.holders_by_name name ≡ some hs) × (has id hs ≡ true)
  pub held :
      (name : Text) (hs : List Text)
      → lookup r.holders_by_name name ≡ some hs
      → (h : Text) × (has h hs ≡ true)
  pub named :
      (id name : Text) (hs : List Text)
      → lookup r.holders_by_name name ≡ some hs
      → has id hs ≡ true
      → lookup r.by_id id ≡ some name

module _ (r : Registry) (v : IsHeld r) where
  -- The ids of a name, and none for a name that is free.
  abbrev holders : Text → List Text
  holders name = get_or (lookup r.holders_by_name name) []

  holders_named : (id name : Text) → has id (holders name) ≡ true → lookup r.by_id id ≡ some name
  holders_named id name e = elim (Option-cases (lookup r.holders_by_name name)) [
    | inl free ↦ absurd (ground arith)
    | inr (hs, found) ↦ v.named id name hs found (sym (ap (λ o. has id (get_or o [])) found) ∙ e)
  ]

  module _ (id name : Text) (free : lookup r.by_id id ≡ none) where
    abbrev by_id' : Entries Text
    by_id' = store r.by_id id name

    abbrev held' : Entries (List Text)
    held' = store r.holders_by_name name (add id (holders name))

    abbrev Listed : Text → Text → Type 0
    Listed j n = (hs : List Text) × (lookup held' n ≡ some hs) × (has j hs ≡ true)

    Listed-new : (j n : Text) → id ≡ j → name ≡ n → Listed j n
    Listed-new j n same_id same =
        subst (λ y. Listed j y) same
          (subst (λ y. Listed y name) same_id
            (
              add id (holders name),
              lookup-store r.holders_by_name name (add id (holders name)),
              has-add_self id (holders name),
            ))

    Listed-old : (j n : Text) → lookup r.by_id j ≡ some n → Listed j n
    Listed-old j n e =
        let (hs, found, member) = v.listed j n e in
        elim (key-cases name n) [
          | inl same ↦
              subst (λ y. Listed j y) same
                (
                  add id (holders name),
                  lookup-store r.holders_by_name name (add id (holders name)),
                  has-add j id (holders name) (
                      ap (λ o. has j (get_or o [])) (ap (lookup r.holders_by_name) same ∙ found)
                      ∙ member),
                )
          | inr other ↦ (hs, lookup-store_other r.holders_by_name name n _ other ∙ found, member)
        ]

    named_new : (j : Text) → has j (add id (holders name)) ≡ true → lookup by_id' j ≡ some name
    named_new j member = elim (key-cases id j) [
      | inl same ↦ ap (lookup by_id') (sym same) ∙ lookup-store r.by_id id name
      | inr other ↦
          lookup-store_other r.by_id id j name other
          ∙ holders_named j name (has-add_inv j id (holders name) member other)
    ]

    named_old : (j n : Text) → lookup r.by_id j ≡ some n → lookup by_id' j ≡ some n
    named_old j n e = elim (key-cases id j) [
      | inl same ↦ absurd (let f = ap (lookup r.by_id) same in ground arith)
      | inr other ↦ lookup-store_other r.by_id id j name other ∙ e
    ]

    pub hold-IsHeld : IsHeld (hold r id name)
    unfolding hold
    hold-IsHeld = record {
      listed = λ j n e. elim (key-cases id j) [
        | inl same ↦
            Listed-new j n same
              (some-injective (sym (lookup-store r.by_id id name) ∙ ap (lookup by_id') same ∙ e))
        | inr other ↦ Listed-old j n (sym (lookup-store_other r.by_id id j name other) ∙ e)
      ];
      held = λ n hs e. elim (key-cases name n) [
        | inl same ↦ (
          id,
          subst (λ x. has id x ≡ true)
              (some-injective (
                sym (lookup-store r.holders_by_name name (add id (holders name)))
                ∙ ap (lookup held') same
                ∙ e))
              (has-add_self id (holders name)),
        )
        | inr other ↦ v.held n hs (sym (lookup-store_other r.holders_by_name name n _ other) ∙ e)
      ];
      named = λ j n hs e member. elim (key-cases name n) [
        | inl same ↦
            let list = some-injective (
              sym (lookup-store r.holders_by_name name (add id (holders name)))
              ∙ ap (lookup held') same
              ∙ e) in
            named_new j (ap (has j) list ∙ member) ∙ ap some same
        | inr other ↦
            named_old j n (
              v.named j n hs (sym (lookup-store_other r.holders_by_name name n _ other) ∙ e) member)
      ];
    }

pub new-IsHeld : IsHeld new_registry
new-IsHeld = record {
  listed = λ id name e. ground arith;
  held = λ name hs e. ground arith;
  named = λ id name hs e member. ground arith;
}
