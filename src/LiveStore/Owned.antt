-- ===== src/LiveStore/Owned.antt =====
-- Every call of the live store keeps the ownership of its rows:
-- extensions/_shared/agent-runtime/agent-live-store.ts.
use locus_pi.Common.{
  ℕ, ◌+◌, refl, Bool, true, ◌&&◌, List, [], ◌∷◌, ◌++◌, is_some, if_intro, ◌==◌, on_option,
  get_elem?, arith,
}
use locus_pi.Common.Text.{Text, text_eq}
use locus_pi.Common.Map.{lookup}
use locus_pi.LiveStore.Records.{Store, BeginOptions, Patch}
use locus_pi.LiveStore.Defs.{
  new_store, remove_row, remove_from, remove_rows, current_row, is_current,
}
use locus_pi.LiveStore.Registrations.{
  register_cancel, register_cancel_for_execution, unregister_cancel, register_input,
  unregister_input, cancel, cancel_with, capture_cancellation,
}
use locus_pi.LiveStore.Writes.{Missing, patch, patch_execution, write_labels}
use locus_pi.LiveStore
use locus_pi.LiveStore.{Event, step, run}
use locus_pi.LiveStore.Begin.{begin, claim_queued_execution, claimable, plain_options}
use locus_pi.LiveStore.Ownership.{
  IsOwned, current_row-some, write-IsOwned, emit-IsOwned, reset-IsOwned, remove_row-IsOwned,
  add_cancel-IsOwned, add_input-IsOwned, drop_cancel-IsOwned, drop_input-IsOwned, begin_at-IsOwned,
}

remove_from-IsOwned :
    (s : Store) (ids : List Text) (n : ℕ) → IsOwned s → IsOwned (remove_from s ids n).0
unfolding remove_from
remove_from-IsOwned s [] n v = v
remove_from-IsOwned s (id ∷ ids) n v =
    if_intro {A = Store × ℕ} (λ x. IsOwned x.0) (is_some (lookup s.rows id))
      (λ _. remove_from-IsOwned (remove_row s id) ids (n + 1) (remove_row-IsOwned s v id))
      (λ _. remove_from-IsOwned s ids n v)

remove_rows-IsOwned : (s : Store) (ids : List Text) → IsOwned s → IsOwned (remove_rows s ids).0
unfolding remove_rows
remove_rows-IsOwned s ids v =
    let w = remove_from-IsOwned s ids 0 v in
    if_intro IsOwned ((remove_from s ids 0).1 == 0) (λ _. w)
      (λ _. emit-IsOwned (remove_from s ids 0).0 w)

module _ (s : Store) (v : IsOwned s) where
  register_cancel-IsOwned : (id : Text) (c : ℕ) → IsOwned (register_cancel s id c)
  unfolding register_cancel
  register_cancel-IsOwned id c =
      on_option IsOwned (lookup s.execution_authorities id) (λ _. v)
        (λ h has. add_cancel-IsOwned s v id h c has)

  register_cancel_for-IsOwned : (h c : ℕ) → IsOwned (register_cancel_for_execution s h c)
  unfolding register_cancel_for_execution
  register_cancel_for-IsOwned h c =
      on_option IsOwned (current_row s h) (λ _. v)
        (λ id now. add_cancel-IsOwned s v id h c (current_row-some s h id now))

  unregister_cancel-IsOwned : (id : Text) (a : ℕ) → IsOwned (unregister_cancel s id a)
  unfolding unregister_cancel
  unregister_cancel-IsOwned id a =
      on_option IsOwned (lookup s.cancel_registrations id) (λ _. v)
        (λ c _. if_intro IsOwned (c.authority == a) (λ _. drop_cancel-IsOwned s v id) (λ _. v))

  register_input-IsOwned : (h : ℕ) → IsOwned (register_input s h)
  unfolding register_input
  register_input-IsOwned h =
      on_option IsOwned (current_row s h) (λ _. v)
        (λ id now.
          add_input-IsOwned s v id (record { number = s.next_input; execution = h })
            (s.next_input + 1) (current_row-some s h id now))

  unregister_input-IsOwned : (id : Text) (n : ℕ) → IsOwned (unregister_input s id n)
  unfolding unregister_input
  unregister_input-IsOwned id n =
      on_option IsOwned (lookup s.input_registrations id) (λ _. v)
        (λ i _. if_intro IsOwned (i.number == n) (λ _. drop_input-IsOwned s v id) (λ _. v))

  patch-IsOwned : (id : Text) (p : Patch) (now : ℕ) → IsOwned (patch s id p now)
  unfolding patch
  patch-IsOwned id p now =
      on_option IsOwned (lookup s.rows id) (λ _. v)
        (λ current found. write-IsOwned s v id current _ found)

  patch_execution-IsOwned : (h : ℕ) (p : Patch) (now : ℕ) → IsOwned (patch_execution s h p now)
  unfolding patch_execution
  patch_execution-IsOwned h p now =
      on_option IsOwned (current_row s h) (λ _. v) (λ id _. patch-IsOwned id p now)

  write_labels-IsOwned : (h : ℕ) (id : Text) (m : Missing) → IsOwned (write_labels s h id m)
  unfolding write_labels
  write_labels-IsOwned h id m =
      on_option IsOwned (current_row s h) (λ _. v)
        (λ now_id _.
          if_intro IsOwned (text_eq now_id id)
            (λ _.
              on_option IsOwned (lookup s.rows id) (λ _. v)
                (λ row found. write-IsOwned s v id row _ found))
            (λ _. v))

  cancelled-IsOwned : (c : ℕ) → IsOwned (record s { cancels = s.cancels ++ c ∷ [] })
  cancelled-IsOwned c = record {
    owned = v.owned;
    known = v.known;
    cancels = v.cancels;
    inputs = v.inputs;
  }

  cancel_with-IsOwned : (a : ℕ) → IsOwned (cancel_with s a).0
  unfolding cancel_with
  cancel_with-IsOwned a =
      on_option {B = Store × Bool} (λ x. IsOwned x.0) (get_elem? s.cancellation_rows a) (λ _. v)
        (λ id _.
          on_option {B = Store × Bool} (λ x. IsOwned x.0) (lookup s.cancel_registrations id)
            (λ _. v)
            (λ c _.
              if_intro {A = Store × Bool} (λ x. IsOwned x.0)
                (c.authority == a && is_current s c.execution) (λ _. cancelled-IsOwned c.cancel)
                (λ _. v)))

  cancel-IsOwned : (id : Text) → IsOwned (cancel s id).0
  unfolding cancel
  cancel-IsOwned id =
      on_option {B = Store × Bool} (λ x. IsOwned x.0) (capture_cancellation s id) (λ _. v)
        (λ a _. cancel_with-IsOwned a)

  begin-IsOwned :
      (options : BeginOptions) (fresh : Bool) (clock : ℕ) → IsOwned (begin s options fresh clock)
  unfolding begin
  begin-IsOwned options fresh clock =
      on_option IsOwned options.id
        (λ _.
          begin_at-IsOwned (record s { next_id = s.next_id + 1 })
            (record { owned = v.owned; known = v.known; cancels = v.cancels; inputs = v.inputs }) _
            options fresh)
        (λ id _. begin_at-IsOwned s v id options fresh)

  claim-IsOwned :
      (name label : Text) (clock : ℕ) → IsOwned (claim_queued_execution s name label clock).0
  unfolding claim_queued_execution
  claim-IsOwned name label clock =
      on_option {B = Store × ℕ} (λ x. IsOwned x.0) (claimable s name s.rows)
        (λ _. begin-IsOwned (plain_options name label) true clock) (λ h _. v)

  pub step-IsOwned : (e : Event) → IsOwned (step s e)
  unfolding step
  step-IsOwned LiveStore.resets = reset-IsOwned s v
  step-IsOwned (LiveStore.removes ids) = remove_rows-IsOwned s ids v
  step-IsOwned (LiveStore.registers_cancel id c) = register_cancel-IsOwned id c
  step-IsOwned (LiveStore.registers_cancel_for h c) = register_cancel_for-IsOwned h c
  step-IsOwned (LiveStore.unregisters_cancel id a) = unregister_cancel-IsOwned id a
  step-IsOwned (LiveStore.registers_input h) = register_input-IsOwned h
  step-IsOwned (LiveStore.unregisters_input id n) = unregister_input-IsOwned id n
  step-IsOwned (LiveStore.cancels_row id) = cancel-IsOwned id
  step-IsOwned (LiveStore.cancels_authority a) = cancel_with-IsOwned a
  step-IsOwned (LiveStore.patches id p now) = patch-IsOwned id p now
  step-IsOwned (LiveStore.patches_execution h p now) = patch_execution-IsOwned h p now
  step-IsOwned (LiveStore.writes_labels h id m) = write_labels-IsOwned h id m
  step-IsOwned (LiveStore.begins options fresh clock) = begin-IsOwned options fresh clock
  step-IsOwned (LiveStore.claims name label clock) = claim-IsOwned name label clock

new-IsOwned : IsOwned new_store
new-IsOwned = record {
  owned = λ id. refl;
  known = λ id h e. ground arith;
  cancels = λ id c e. ground arith;
  inputs = λ id i e. ground arith;
}

run-IsOwned : (s : Store) (es : List Event) → IsOwned s → IsOwned (run s es)
unfolding run
run-IsOwned s [] v = v
run-IsOwned s (e ∷ es) v = run-IsOwned (step s e) es (step-IsOwned s v e)

-- After any calls on a new store, exactly the rows have a current execution, which is known to be that
-- row's, and every callback that cancels a row or takes its input was registered by that execution.
pub run-new-IsOwned : (es : List Event) → IsOwned (run new_store es)
run-new-IsOwned es = run-IsOwned new_store es new-IsOwned
