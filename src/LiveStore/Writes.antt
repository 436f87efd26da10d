-- ===== src/LiveStore/Writes.antt =====
-- The writes to a live row: extensions/_shared/agent-runtime/agent-live-store.ts.
use locus_pi.Common.{ℕ, Option, none, some, if◌then◌else◌}
use locus_pi.Common.Text.{Text, text_eq}
use locus_pi.Common.Map.{lookup, store}
use locus_pi.LiveStore.Records.{Store, Row, Patch}
use locus_pi.LiveStore.Rows.{patch_row}
use locus_pi.LiveStore.Defs.{emit, current_row}

unfoldable pub row_for_execution : Store → ℕ → Option Row
unfolding current_row
row_for_execution s h = elim (current_row s h) [ none ↦ none | some id ↦ lookup s.rows id ]

-- `patch`
unfoldable pub patch : Store → Text → Patch → ℕ → Store
patch s id p now = elim (lookup s.rows id) [
  | none ↦ s
  | some current ↦ emit (record s { rows = store s.rows id (patch_row current p now) })
]

unfoldable pub patch_execution : Store → ℕ → Patch → ℕ → Store
unfolding current_row patch
patch_execution s h p now = elim (current_row s h) [ none ↦ s | some id ↦ patch s id p now ]

-- Which readback the host did not give.
pub data Missing : Type 0 where
  no_model no_thinking : Missing

abbrev pub clear_labels : Missing → Row → Row
clear_labels no_model row = record row { model = none; thinking = none }
clear_labels no_thinking row = record row { thinking = none }

-- The second write of `patchExecutionWithoutReadback`, which asks again for the owner.
unfoldable pub write_labels : Store → ℕ → Text → Missing → Store
unfolding current_row
write_labels s h id missing = elim (current_row s h) [
  | none ↦ s
  | some now_id ↦
      if text_eq now_id id
      then elim (lookup s.rows id) [
        | none ↦ s
        | some row ↦ emit (record s { rows = store s.rows id (clear_labels missing row) })
      ]
      else s
]

unfoldable pub patch_without_readback : Store → ℕ → Missing → Patch → ℕ → (Store → Store) → Store
unfolding current_row patch write_labels
patch_without_readback s h missing p now heard = elim (current_row s h) [
  | none ↦ s
  | some id ↦ elim (lookup s.rows id) [
    | none ↦ s
    | some row ↦ write_labels (heard (patch s id p now)) h id missing
  ]
]
