-- ===== src/LiveStore/Ownership.antt =====
-- A live row has one current execution, and its callbacks belong to it:
-- extensions/_shared/agent-runtime/agent-live-store.ts.
use locus_pi.Common.{
  ℕ, ◌≡◌, refl, sym, ap, subst, ◌∙◌, inl, inr, Bool, [], ◌∷◌, ◌++◌, some, is_some, length,
  get_elem?, arith, get_elem?-append_some, get_elem?-append_length,
}
use locus_pi.Common.Text.{Text}
use locus_pi.Common.Map.{
  lookup, store, discard, lookup-store_other, lookup-discard, lookup-discard_other, discard-some,
  store-some, is_some-store, store-is_some, key-cases,
}
use locus_pi.LiveStore.Records.{Store, Row, BeginOptions, CancelRegistration, InputRegistration}
use locus_pi.LiveStore.Defs.{emit, reset, remove_row, current_row}
use locus_pi.LiveStore.Registrations.{add_cancel}
use locus_pi.LiveStore.Begin.{begin_at}

-- Each row has exactly one execution, which knows its row; its callbacks were registered by it.
pub record IsOwned (s : Store) : Type 0 where
  pub owned : (id : Text) → is_some (lookup s.execution_authorities id) ≡ is_some (lookup s.rows id)
  pub known :
      (id : Text) (h : ℕ)
      → lookup s.execution_authorities id ≡ some h
      → get_elem? s.execution_rows h ≡ some id
  pub cancels :
      (id : Text) (c : CancelRegistration)
      → lookup s.cancel_registrations id ≡ some c
      → (lookup s.execution_authorities id ≡ some c.execution)
        × (get_elem? s.cancellation_rows c.authority ≡ some id)
  pub inputs :
      (id : Text) (i : InputRegistration)
      → lookup s.input_registrations id ≡ some i
      → lookup s.execution_authorities id ≡ some i.execution

pub current_row-some :
    (s : Store) (h : ℕ) (id : Text)
    → current_row s h ≡ some id
    → lookup s.execution_authorities id ≡ some h
unfolding current_row
current_row-some s h id e = ground arith

module _ (s : Store) (v : IsOwned s) where
  pub write-IsOwned :
      (id : Text) (current row : Row)
      → lookup s.rows id ≡ some current
      → IsOwned (emit (record s { rows = store s.rows id row }))
  write-IsOwned id current row found = record {
    owned = λ j. v.owned j ∙ sym (is_some-store s.rows id j row current found);
    known = v.known;
    cancels = v.cancels;
    inputs = v.inputs;
  }

  pub emit-IsOwned : IsOwned (emit s)
  emit-IsOwned = record { owned = v.owned; known = v.known; cancels = v.cancels; inputs = v.inputs }

  pub reset-IsOwned : IsOwned (reset s)
  unfolding reset
  reset-IsOwned = record {
    owned = λ id. refl;
    known = λ id h e. ground arith;
    cancels = λ id c e. ground arith;
    inputs = λ id i e. ground arith;
  }

  pub remove_row-IsOwned : (id : Text) → IsOwned (remove_row s id)
  remove_row-IsOwned id = record {
    owned = λ j. elim (key-cases id j) [
      | inl same ↦
          subst
            (λ y.
              is_some (lookup (discard s.execution_authorities id) y)
              ≡ is_some (lookup (discard s.rows id) y))
            same
            (ap is_some (lookup-discard s.execution_authorities id)
              ∙ sym (ap is_some (lookup-discard s.rows id)))
      | inr other ↦
          ap is_some (lookup-discard_other s.execution_authorities id j other)
          ∙ v.owned j
          ∙ sym (ap is_some (lookup-discard_other s.rows id j other))
    ];
    known = λ j h e. v.known j h (discard-some s.execution_authorities id j h e).0;
    cancels = λ j c e.
        let (old, other) = discard-some s.cancel_registrations id j c e in
        let (execution, place) = v.cancels j c old in
        (lookup-discard_other s.execution_authorities id j other ∙ execution, place);
    inputs = λ j i e.
        let (old, other) = discard-some s.input_registrations id j i e in
        lookup-discard_other s.execution_authorities id j other ∙ v.inputs j i old;
  }

  pub add_cancel-IsOwned :
      (id : Text) (h c : ℕ)
      → lookup s.execution_authorities id ≡ some h
      → IsOwned (add_cancel s id h c)
  add_cancel-IsOwned id h c has = record {
    owned = v.owned;
    known = v.known;
    cancels = λ j r e. elim (store-some s.cancel_registrations id j _ r e) [
      | inl (same, now) ↦ (
        ap (lookup s.execution_authorities) (sym same) ∙ has ∙ ap (λ x. some x.execution) now,
        ap (get_elem? (s.cancellation_rows ++ id ∷ [])) (ap (λ x. x.authority) (sym now))
            ∙ get_elem?-append_length s.cancellation_rows id
            ∙ ap some same,
      )
      | inr (old, other) ↦
          let (execution, place) = v.cancels j r old in
          (execution, get_elem?-append_some s.cancellation_rows (id ∷ []) r.authority j place)
    ];
    inputs = v.inputs;
  }

  pub add_input-IsOwned :
      (id : Text) (i : InputRegistration) (n : ℕ)
      → lookup s.execution_authorities id ≡ some i.execution
      → IsOwned (
          emit
            (record s { input_registrations = store s.input_registrations id i; next_input = n }))
  add_input-IsOwned id i n has = record {
    owned = v.owned;
    known = v.known;
    cancels = v.cancels;
    inputs = λ j k e. elim (store-some s.input_registrations id j i k e) [
      | inl (same, now) ↦
          ap (lookup s.execution_authorities) (sym same) ∙ has ∙ ap (λ x. some x.execution) now
      | inr (old, other) ↦ v.inputs j k old
    ];
  }

  pub drop_cancel-IsOwned :
      (id : Text) → IsOwned (record s { cancel_registrations = discard s.cancel_registrations id })
  drop_cancel-IsOwned id = record {
    owned = v.owned;
    known = v.known;
    cancels = λ j c e. v.cancels j c (discard-some s.cancel_registrations id j c e).0;
    inputs = v.inputs;
  }

  pub drop_input-IsOwned :
      (id : Text)
      → IsOwned (emit (record s { input_registrations = discard s.input_registrations id }))
  drop_input-IsOwned id = record {
    owned = v.owned;
    known = v.known;
    cancels = v.cancels;
    inputs = λ j i e. v.inputs j i (discard-some s.input_registrations id j i e).0;
  }

  pub begin_at-IsOwned :
      (id : Text) (options : BeginOptions) (fresh : Bool) → IsOwned (begin_at s id options fresh)
  begin_at-IsOwned id options fresh = record {
    owned = λ j. elim (key-cases id j) [
      | inl same ↦
          store-is_some s.execution_authorities id j _ same ∙ sym (store-is_some s.rows id j _ same)
      | inr other ↦
          ap is_some (lookup-store_other s.execution_authorities id j _ other)
          ∙ v.owned j
          ∙ sym (ap is_some (lookup-store_other s.rows id j _ other))
    ];
    known = λ j h e. elim (store-some s.execution_authorities id j (length s.execution_rows) h e) [
      | inl (same, now) ↦
          ap (get_elem? (s.execution_rows ++ id ∷ [])) (sym now)
          ∙ get_elem?-append_length s.execution_rows id
          ∙ ap some same
      | inr (old, other) ↦ get_elem?-append_some s.execution_rows (id ∷ []) h j (v.known j h old)
    ];
    cancels = λ j c e.
        let (old, other) = discard-some s.cancel_registrations id j c e in
        let (execution, place) = v.cancels j c old in
        (lookup-store_other s.execution_authorities id j _ other ∙ execution, place);
    inputs = λ j i e.
        let (old, other) = discard-some s.input_registrations id j i e in
        lookup-store_other s.execution_authorities id j _ other ∙ v.inputs j i old;
  }
