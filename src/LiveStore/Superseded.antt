-- ===== src/LiveStore/Superseded.antt =====
-- An execution that was superseded never becomes current again:
-- extensions/_shared/agent-runtime/agent-live-store.ts.
use locus_pi.Common.{
  ℕ, zero, suc, ◌+◌, ◌<◌, ◌≡◌, ◌≢◌, refl, sym, ap, ◌∙◌, inl, inr, Bool, true, List, [], ◌∷◌, none,
  some, is_some, if_intro, ◌==◌, on_option, Option-cases, length, get_elem?, arith,
  get_elem?-append_some,
}
use locus_pi.Common.Text.{Text}
use locus_pi.Common.Map.{lookup, lookup-store, discard-some, store-some}
use locus_pi.LiveStore.Records.{Store, BeginOptions, Patch}
use locus_pi.LiveStore.Defs.{new_store, reset, remove_row, remove_from, remove_rows, current_row}
use locus_pi.LiveStore.Registrations.{
  register_cancel, register_cancel_for_execution, unregister_cancel, register_input,
  unregister_input, cancel, cancel_with, open_input,
}
use locus_pi.LiveStore.Writes.{Missing, patch, patch_execution, write_labels, row_for_execution}
use locus_pi.LiveStore
use locus_pi.LiveStore.Ownership.{IsOwned, current_row-some}
use locus_pi.LiveStore.Owned.{run-new-IsOwned}
use locus_pi.LiveStore.{Event, step, run}
use locus_pi.LiveStore.Begin.{begin, begin_at, claim_queued_execution, claimable, plain_options}

-- A handle that was given out and is no row's execution.
abbrev pub IsStale : ℕ → Store → Type 0
IsStale h s =
    (id : Text) × (get_elem? s.execution_rows h ≡ some id)
    × (lookup s.execution_authorities id ≢ some h)

-- The calls that give no handle out and take none back.
abbrev Quiet : Store → Store → Type 0
Quiet s s' =
    (s'.execution_authorities ≡ s.execution_authorities) × (s'.execution_rows ≡ s.execution_rows)

Quiet-IsStale : (s s' : Store) (h : ℕ) → Quiet s s' → IsStale h s → IsStale h s'
Quiet-IsStale s s' h (authorities, rows) (id, known, other) = (
  id,
  ap (λ x. get_elem? x h) rows ∙ known,
  λ e. other (ap (λ x. lookup x id) (sym authorities) ∙ e),
)

module _ (s : Store) where
  patch-Quiet : (id : Text) (p : Patch) (now : ℕ) → Quiet s (patch s id p now)
  unfolding patch
  patch-Quiet id p now = ground arith

  patch_execution-Quiet : (h : ℕ) (p : Patch) (now : ℕ) → Quiet s (patch_execution s h p now)
  unfolding patch_execution patch
  patch_execution-Quiet h p now = ground arith

  write_labels-Quiet : (h : ℕ) (id : Text) (m : Missing) → Quiet s (write_labels s h id m)
  unfolding write_labels
  write_labels-Quiet h id m = ground arith

  cancel_with-Quiet : (a : ℕ) → Quiet s (cancel_with s a).0
  unfolding cancel_with
  cancel_with-Quiet a = ground arith

  cancel-Quiet : (id : Text) → Quiet s (cancel s id).0
  unfolding cancel cancel_with
  cancel-Quiet id = ground arith

  register_cancel-Quiet : (id : Text) (c : ℕ) → Quiet s (register_cancel s id c)
  unfolding register_cancel
  register_cancel-Quiet id c = ground arith

  register_cancel_for-Quiet : (h c : ℕ) → Quiet s (register_cancel_for_execution s h c)
  unfolding register_cancel_for_execution
  register_cancel_for-Quiet h c = ground arith

  unregister_cancel-Quiet : (id : Text) (a : ℕ) → Quiet s (unregister_cancel s id a)
  unfolding unregister_cancel
  unregister_cancel-Quiet id a = ground arith

  register_input-Quiet : (h : ℕ) → Quiet s (register_input s h)
  unfolding register_input
  register_input-Quiet h = ground arith

  unregister_input-Quiet : (id : Text) (n : ℕ) → Quiet s (unregister_input s id n)
  unfolding unregister_input
  unregister_input-Quiet id n = ground arith

remove_row-IsStale : (s : Store) (id : Text) (h : ℕ) → IsStale h s → IsStale h (remove_row s id)
remove_row-IsStale s id h (j, known, other) =
    (j, known, λ e. other (discard-some s.execution_authorities id j h e).0)

remove_from-IsStale :
    (s : Store) (ids : List Text) (n h : ℕ) → IsStale h s → IsStale h (remove_from s ids n).0
unfolding remove_from
remove_from-IsStale s [] n h v = v
remove_from-IsStale s (id ∷ ids) n h v =
    if_intro {A = Store × ℕ} (λ x. IsStale h x.0) (is_some (lookup s.rows id))
      (λ _. remove_from-IsStale (remove_row s id) ids (n + 1) h (remove_row-IsStale s id h v))
      (λ _. remove_from-IsStale s ids n h v)

remove_rows-IsStale :
    (s : Store) (ids : List Text) (h : ℕ) → IsStale h s → IsStale h (remove_rows s ids).0
unfolding remove_rows
remove_rows-IsStale s ids h v =
    let w = remove_from-IsStale s ids 0 h v in
    if_intro (IsStale h) ((remove_from s ids 0).1 == 0) (λ _. w) (λ _. w)

-- A new handle is none of those given out.
get-lt : {A : Type 0} (xs : List A) (i : ℕ) (x : A) → get_elem? xs i ≡ some x → i < length xs
get-lt [] i x e = ground arith
get-lt (y ∷ ys) zero x e = ground arith
get-lt (y ∷ ys) (suc i) x e = ground (arith, get-lt ys i x e)

begin_at-IsStale :
    (s : Store) (id : Text) (options : BeginOptions) (fresh : Bool) (h : ℕ)
    → IsStale h s
    → IsStale h (begin_at s id options fresh)
begin_at-IsStale s id options fresh h (j, known, other) = (
  j,
  get_elem?-append_some s.execution_rows (id ∷ []) h j known,
  λ e. elim (store-some s.execution_authorities id j (length s.execution_rows) h e) [
    | inl (same, now) ↦ let f = get-lt s.execution_rows h j known in omega (arith, f, now)
    | inr (old, apart) ↦ other old
  ],
)

begin-IsStale :
    (s : Store) (options : BeginOptions) (fresh : Bool) (clock h : ℕ)
    → IsStale h s
    → IsStale h (begin s options fresh clock)
unfolding begin
begin-IsStale s options fresh clock h v =
    on_option (IsStale h) options.id
      (λ _. begin_at-IsStale (record s { next_id = s.next_id + 1 }) _ options fresh h v)
      (λ id _. begin_at-IsStale s id options fresh h v)

claim-IsStale :
    (s : Store) (name label : Text) (clock h : ℕ)
    → IsStale h s
    → IsStale h (claim_queued_execution s name label clock).0
unfolding claim_queued_execution
claim-IsStale s name label clock h v =
    on_option {B = Store × ℕ} (λ x. IsStale h x.0) (claimable s name s.rows)
      (λ _. begin-IsStale s (plain_options name label) true clock h v) (λ k _. v)

module _ (s : Store) (h : ℕ) (v : IsStale h s) where
  reset-IsStale : IsStale h (reset s)
  unfolding reset
  reset-IsStale = let (id, known, other) = v in (id, known, λ e. ground arith)

  step-IsStale : (e : Event) → IsStale h (step s e)
  unfolding step
  step-IsStale LiveStore.resets = reset-IsStale
  step-IsStale (LiveStore.removes ids) = remove_rows-IsStale s ids h v
  step-IsStale (LiveStore.registers_cancel id c) =
      Quiet-IsStale s (register_cancel s id c) h (register_cancel-Quiet s id c) v
  step-IsStale (LiveStore.registers_cancel_for k c) =
      Quiet-IsStale s (register_cancel_for_execution s k c) h (register_cancel_for-Quiet s k c) v
  step-IsStale (LiveStore.unregisters_cancel id a) =
      Quiet-IsStale s (unregister_cancel s id a) h (unregister_cancel-Quiet s id a) v
  step-IsStale (LiveStore.registers_input k) =
      Quiet-IsStale s (register_input s k) h (register_input-Quiet s k) v
  step-IsStale (LiveStore.unregisters_input id n) =
      Quiet-IsStale s (unregister_input s id n) h (unregister_input-Quiet s id n) v
  step-IsStale (LiveStore.cancels_row id) = Quiet-IsStale s (cancel s id).0 h (cancel-Quiet s id) v
  step-IsStale (LiveStore.cancels_authority a) =
      Quiet-IsStale s (cancel_with s a).0 h (cancel_with-Quiet s a) v
  step-IsStale (LiveStore.patches id p now) =
      Quiet-IsStale s (patch s id p now) h (patch-Quiet s id p now) v
  step-IsStale (LiveStore.patches_execution k p now) =
      Quiet-IsStale s (patch_execution s k p now) h (patch_execution-Quiet s k p now) v
  step-IsStale (LiveStore.writes_labels k id m) =
      Quiet-IsStale s (write_labels s k id m) h (write_labels-Quiet s k id m) v
  step-IsStale (LiveStore.begins options fresh clock) = begin-IsStale s options fresh clock h v
  step-IsStale (LiveStore.claims name label clock) = claim-IsStale s name label clock h v

run-IsStale : (s : Store) (es : List Event) (h : ℕ) → IsStale h s → IsStale h (run s es)
unfolding run
run-IsStale s [] h v = v
run-IsStale s (e ∷ es) h v = run-IsStale (step s e) es h (step-IsStale s h v e)

-- What a stale handle can do.
abbrev pub Powerless : Store → ℕ → Type 0
Powerless s h =
    (current_row s h ≡ none)
    × (row_for_execution s h ≡ none)
    × ((p : Patch) (now : ℕ) → patch_execution s h p now ≡ s)
    × ((c : ℕ) → register_cancel_for_execution s h c ≡ s)
    × (register_input s h ≡ s)
    × ((available : ℕ → Bool) → open_input s h available ≡ none)

stale_row : (s : Store) (h : ℕ) → IsStale h s → current_row s h ≡ none
unfolding current_row
stale_row s h (id, known, other) = elim (Option-cases (lookup s.execution_authorities id)) [
  | inl none_at ↦ ground arith
  | inr (k, at) ↦ ground arith
]

stale-Powerless : (s : Store) (h : ℕ) → IsStale h s → Powerless s h
unfolding row_for_execution patch_execution register_cancel_for_execution register_input open_input
stale-Powerless s h v =
    let gone = stale_row s h v in
    (
      gone,
      rw (gone, row_for_execution) refl,
      λ p now. rw (gone, patch_execution) refl,
      λ c. rw (gone, register_cancel_for_execution) refl,
      rw (gone, register_input) refl,
      λ available. rw (gone, open_input) refl,
    )

superseded :
    (s : Store) (h : ℕ) (id : Text) (options : BeginOptions) (fresh : Bool)
    → current_row s h ≡ some id
    → IsOwned s
    → IsStale h (begin_at s id options fresh)
superseded s h id options fresh now v =
    let known = v.known id h (current_row-some s h id now) in
    (
      id,
      get_elem?-append_some s.execution_rows (id ∷ []) h id known,
      λ e.
          let f = get-lt s.execution_rows h id known in
          let g = sym (lookup-store s.execution_authorities id (length s.execution_rows)) ∙ e in
          ground arith,
    )

-- Once a row has begun again, the execution that it had can do nothing any more, whatever calls
-- follow: it names no row, its writes and its registrations change nothing, and its input is refused.
pub run-begin-Powerless :
    (before later : List Event) (h : ℕ) (id : Text) (options : BeginOptions) (fresh : Bool)
    (clock : ℕ)
    → options.id ≡ some id
    → current_row (run new_store before) h ≡ some id
    → Powerless (run (begin (run new_store before) options fresh clock) later) h
unfolding begin
run-begin-Powerless before later h id options fresh clock names now =
    let s = run new_store before in
    stale-Powerless _ h (
      run-IsStale (begin s options fresh clock) later h
        (rw (names, begin) (superseded s h id options fresh now (run-new-IsOwned before))))
