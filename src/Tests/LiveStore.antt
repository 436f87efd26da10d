-- ===== src/Tests/LiveStore.antt =====
-- The store of live rows at concrete calls.
use locus_pi.Common.{◌≡◌, refl, true, List, [], ◌∷◌, some}
use locus_pi.Common.Text.{codes}
use locus_pi.LiveStore
use locus_pi.LiveStore.{Event, step, run}
use locus_pi.LiveStore.Records.{BeginOptions}
use locus_pi.LiveStore.Defs.{new_store, reset, remove_rows, remove_from, current_row}
use locus_pi.LiveStore.Registrations.{
  register_cancel, register_cancel_for_execution, unregister_cancel, register_input,
  unregister_input, cancel, cancel_with, capture_cancellation, open_input,
}
use locus_pi.LiveStore.Writes.{patch, patch_execution, write_labels}
use locus_pi.LiveStore.Begin.{begin, begin_name, claim_queued_execution, claimable, plain_options}
use locus_pi.LiveStore.Rows.{begin_row, patch_row, bounded_request}
use locus_pi.LiveStore.Ownership.{IsOwned}
use locus_pi.LiveStore.Owned.{run-new-IsOwned}
use locus_pi.LiveStore.Superseded.{run-begin-Powerless, Powerless}

live_store : Unit {0}
unfolding reset remove_rows remove_from current_row register_cancel register_cancel_for_execution
    unregister_cancel register_input unregister_input cancel cancel_with capture_cancellation
    open_input patch patch_execution write_labels begin begin_name claim_queued_execution claimable
    begin_row patch_row bounded_request step run
live_store = tt

abbrev scout : BeginOptions
scout = record (plain_options (codes "scout") (codes "scan")) { id = some (codes "slot-1") }

-- A slot begins, and its execution takes a cancel and an input.
abbrev first_round : List Event
first_round =
    LiveStore.begins scout true 7
    ∷ LiveStore.registers_cancel_for 0 11
    ∷ LiveStore.registers_input 0
    ∷ []

abbrev next_round : List Event
next_round = LiveStore.registers_cancel_for 0 12 ∷ LiveStore.registers_cancel_for 1 13 ∷ []

-- The second execution's callback is the one that is called.
second_round :
    (run (begin (run new_store first_round) scout true 9) (
      LiveStore.registers_cancel_for 0 12
      ∷ LiveStore.registers_cancel_for 1 13
      ∷ LiveStore.cancels_row (codes "slot-1")
      ∷ [])).cancels
    ≡ 13 ∷ []
unfolding live_store
second_round = refl

current : current_row (run new_store first_round) 0 ≡ some (codes "slot-1")
unfolding live_store
current = refl

run-new-IsOwned_example : IsOwned (run new_store first_round)
run-new-IsOwned_example = run-new-IsOwned first_round

run-begin-Powerless_example :
    Powerless (run (begin (run new_store first_round) scout true 9) next_round) 0
run-begin-Powerless_example =
    run-begin-Powerless first_round next_round 0 (codes "slot-1") scout true 9 refl current
