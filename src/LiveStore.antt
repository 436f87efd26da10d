-- ===== src/LiveStore.antt =====
-- extensions/_shared/agent-runtime/agent-live-store.ts, the store of live agent rows.
--
-- `feedSessionEvent`, `applySessionStats` and the transcripts' content are left out: they make a patch
-- from a host event, and write it by `patch`.
pub mod Records
pub mod Rows
pub mod Defs
pub mod Registrations
pub mod Writes
pub mod Begin
pub mod Ownership
pub mod Owned
pub mod Superseded
use locus_pi.Common.{ℕ, Bool, List, [], ◌∷◌}
use locus_pi.Common.Text.{Text}
use locus_pi.LiveStore.Records.{Store, BeginOptions, Patch}
use locus_pi.LiveStore.Defs.{reset, remove_rows}
use locus_pi.LiveStore.Registrations.{
  register_cancel, register_cancel_for_execution, unregister_cancel, register_input,
  unregister_input, cancel, cancel_with,
}
use locus_pi.LiveStore.Writes.{Missing, patch, patch_execution, write_labels}
use locus_pi.LiveStore.Begin.{begin, claim_queued_execution}

-- The calls of the store. `writes_labels` is the second half of a patch without readback, since a
-- listener may make other calls between the two.
pub data Event : Type 0 where
  resets : Event
  removes : List Text → Event
  registers_cancel : Text → ℕ → Event
  registers_cancel_for : (execution cancel : ℕ) → Event
  unregisters_cancel : Text → ℕ → Event
  registers_input : ℕ → Event
  unregisters_input : Text → ℕ → Event
  cancels_row : Text → Event
  cancels_authority : ℕ → Event
  patches : Text → Patch → ℕ → Event
  patches_execution : ℕ → Patch → ℕ → Event
  writes_labels : ℕ → Text → Missing → Event
  begins : BeginOptions → Bool → ℕ → Event
  claims : (name label : Text) → ℕ → Event

unfoldable pub step : Store → Event → Store
step s resets = reset s
step s (removes ids) = (remove_rows s ids).0
step s (registers_cancel id c) = register_cancel s id c
step s (registers_cancel_for h c) = register_cancel_for_execution s h c
step s (unregisters_cancel id a) = unregister_cancel s id a
step s (registers_input h) = register_input s h
step s (unregisters_input id n) = unregister_input s id n
step s (cancels_row id) = (cancel s id).0
step s (cancels_authority a) = (cancel_with s a).0
step s (patches id p now) = patch s id p now
step s (patches_execution h p now) = patch_execution s h p now
step s (writes_labels h id missing) = write_labels s h id missing
step s (begins options fresh clock) = begin s options fresh clock
step s (claims name label clock) = (claim_queued_execution s name label clock).0

unfoldable pub run : Store → List Event → Store
run s [] = s
run s (e ∷ es) = run (step s e) es
