-- ===== src/LiveStore/Registrations.antt =====
-- The callbacks of a live row, which cancel it and take its input:
-- extensions/_shared/agent-runtime/agent-live-store.ts.
use locus_pi.Common.{
  ℕ, ◌+◌, Bool, true, false, ◌&&◌, [], ◌∷◌, ◌++◌, Option, none, some, if◌then◌else◌, ◌==◌, length,
  get_elem?,
}
use locus_pi.Common.Text.{Text, is_blank}
use locus_pi.Common.Map.{lookup, store, discard}
use locus_pi.LiveStore.Records.{Store}
use locus_pi.LiveStore.Defs.{emit, current_row, is_current}

-- `#registerCancel`; the new authority is the second part.
abbrev pub add_cancel : Store → Text → ℕ → ℕ → Store
add_cancel s id h cancel = record s {
  cancellation_rows = s.cancellation_rows ++ id ∷ [];
  cancel_registrations =
      store s.cancel_registrations id
        (record { authority = length s.cancellation_rows; cancel = cancel; execution = h });
}

unfoldable pub register_cancel : Store → Text → ℕ → Store
register_cancel s id cancel = elim (lookup s.execution_authorities id) [
  | none ↦ s
  | some h ↦ add_cancel s id h cancel
]

unfoldable pub register_cancel_for_execution : Store → ℕ → ℕ → Store
unfolding current_row
register_cancel_for_execution s h cancel = elim (current_row s h) [
  | none ↦ s
  | some id ↦ add_cancel s id h cancel
]

-- The cleanup that a registration returns.
unfoldable pub unregister_cancel : Store → Text → ℕ → Store
unregister_cancel s id authority = elim (lookup s.cancel_registrations id) [
  | none ↦ s
  | some c ↦
      if c.authority == authority
      then record s { cancel_registrations = discard s.cancel_registrations id }
      else s
]

unfoldable pub register_input : Store → ℕ → Store
unfolding current_row
register_input s h = elim (current_row s h) [
  | none ↦ s
  | some id ↦ emit (record s {
    input_registrations =
        store s.input_registrations id (record { number = s.next_input; execution = h });
    next_input = s.next_input + 1;
  })
]

unfoldable pub unregister_input : Store → Text → ℕ → Store
unregister_input s id number = elim (lookup s.input_registrations id) [
  | none ↦ s
  | some i ↦
      if i.number == number
      then emit (record s { input_registrations = discard s.input_registrations id })
      else s
]

-- The registration that takes a handle's input; `available` is what the callbacks say.
unfoldable pub open_input : Store → ℕ → (ℕ → Bool) → Option ℕ
unfolding current_row
open_input s h available = elim (current_row s h) [
  | none ↦ none
  | some id ↦ elim (lookup s.input_registrations id) [
    | none ↦ none
    | some i ↦ if i.execution == h && available i.number then some i.number else none
  ]
]

pub data InputResult : Type 0 where
  sent : ℕ → InputResult
  blank_input not_accepting : InputResult
  send_failed : Text → InputResult

-- `sendInputForExecution`; `send` is the error of a callback, if any.
unfoldable pub send_input : Store → ℕ → Text → (ℕ → Bool) → (ℕ → Option Text) → InputResult
unfolding open_input
send_input s h text available send =
    if is_blank text then blank_input else elim (open_input s h available) [
      | none ↦ not_accepting
      | some n ↦ elim (send n) [ none ↦ sent n | some reason ↦ send_failed reason ]
    ]

unfoldable pub capture_cancellation : Store → Text → Option ℕ
unfolding current_row
capture_cancellation s id = elim (lookup s.cancel_registrations id) [
  | none ↦ none
  | some c ↦ if is_current s c.execution then some c.authority else none
]

-- `cancelWithAuthority`
unfoldable pub cancel_with : Store → ℕ → Store × Bool
unfolding current_row
cancel_with s authority = elim (get_elem? s.cancellation_rows authority) [
  | none ↦ (s, false)
  | some id ↦ elim (lookup s.cancel_registrations id) [
    | none ↦ (s, false)
    | some c ↦
        if c.authority == authority && is_current s c.execution
        then (record s { cancels = s.cancels ++ c.cancel ∷ [] }, true)
        else (s, false)
  ]
]

unfoldable pub cancel : Store → Text → Store × Bool
unfolding capture_cancellation cancel_with
cancel s id = elim (capture_cancellation s id) [
  | none ↦ (s, false)
  | some authority ↦ cancel_with s authority
]
