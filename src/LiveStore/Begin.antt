-- ===== src/LiveStore/Begin.antt =====
-- How a live row begins, and is claimed: extensions/_shared/agent-runtime/agent-live-store.ts.
use locus_pi.Common.{
  ℕ, ◌+◌, Bool, true, false, ◌&&◌, ◌||◌, [], ◌∷◌, ◌++◌, Option, none, some, if◌then◌else◌, length,
}
use locus_pi.Common.Text.{Text, text_eq, codes, decimal}
use locus_pi.Common.Map.{Entries, lookup, store, discard}
use locus_pi.Names
use locus_pi.Names.{Registry, new_registry}
use locus_pi.LiveStore.Records.{Store, Row, BeginOptions, Status, queued}
use locus_pi.LiveStore.Rows.{begin_row, of_row, or_else, is_group_row, is_new_round}
use locus_pi.LiveStore.Defs.{emit}

-- The name that a parent's row shares with its child: a group's row has none to share.
abbrev pub inherited : Store → Option Text → Option Text
inherited s none = none
inherited s (some parent) = elim (lookup s.rows parent) [
  | none ↦ none
  | some r ↦ elim r.group_kind [ none ↦ r.display_name | some k ↦ none ]
]

-- `#displayNameFor`
abbrev pub display_name_for : Store → Text → Option Text → Registry × Text
display_name_for s id parent = elim (inherited s parent) [
  | none ↦ Names.assign s.petnames id
  | some name ↦ Names.adopt s.petnames id name
]

abbrev pub no_name : Store → Registry × Option Text
no_name s = (s.petnames, none)

abbrev pub named : Registry × Text → Registry × Option Text
named (r, name) = (r, some name)

-- The display name of `#begin`, with the registry after it.
unfoldable pub begin_name : Store → Text → BeginOptions → Registry × Option Text
begin_name s id options =
    let existing = lookup s.rows id in
    elim (of_row existing (λ r. r.display_name)) [
      | some name ↦ (s.petnames, some name)
      | none ↦
          if is_group_row options existing
          then no_name s
          else named (
              display_name_for s id
                (or_else (of_row existing (λ r. r.parent_row_id)) options.parent_row_id))
    ]

abbrev pub set_name : Entries Text → Text → Option Text → Entries Text
set_name names id none = names
set_name names id (some name) = store names id name

-- `#begin` of the row `id`; the handle is the number of handles before.
abbrev pub begin_at : Store → Text → BeginOptions → Bool → Store
begin_at s id options fresh =
    let existing = lookup s.rows id in
    let (petnames, display_name) = begin_name s id options in
    emit (record s {
      rows = store s.rows id (begin_row id options existing display_name fresh);
      agent_names = set_name s.agent_names id options.agent_name;
      petnames = petnames;
      execution_authorities = store s.execution_authorities id (length s.execution_rows);
      execution_rows = s.execution_rows ++ id ∷ [];
      cancel_registrations = discard s.cancel_registrations id;
      input_registrations = discard s.input_registrations id;
      transcripts =
          if fresh || is_new_round options existing
          then discard s.transcripts id
          else s.transcripts;
    })

abbrev pub new_id : Store → ℕ → Text
new_id s clock = codes "agent-live-" ++ decimal clock ++ codes "-" ++ decimal (s.next_id + 1)

-- `begin`, and `beginExecution` when the execution is fresh.
unfoldable pub begin : Store → BeginOptions → Bool → ℕ → Store
unfolding begin_name
begin s options fresh clock = elim options.id [
  | some id ↦ begin_at s id options fresh
  | none ↦ begin_at (record s { next_id = s.next_id + 1 }) (new_id s clock) options fresh
]

-- `{ agentName, label }`
abbrev pub plain_options : Text → Text → BeginOptions
plain_options name label = record {
  id = none;
  parent_row_id = none;
  workflow_run_id = none;
  agent_name = some name;
  label = label;
  title = none;
  request = none;
  slot_key = none;
  round = none;
  model = none;
  thinking = none;
  current_path = none;
  isolated = none;
  no_mcp = none;
  group_kind = none;
  group_total = none;
  now = none;
}

abbrev pub is_queued : Status → Bool
is_queued queued = true
is_queued _ = false

abbrev pub has_agent_name : Store → Text → Text → Bool
has_agent_name s id name = elim (lookup s.agent_names id) [ none ↦ false | some n ↦ text_eq n name ]

-- The first queued row of the agent that has an execution.
unfoldable pub claimable : Store → Text → Entries Row → Option ℕ
claimable s name [] = none
claimable s name ((id, row) ∷ rest) =
    let later = claimable s name rest in
    if is_queued row.status && has_agent_name s id name
    then elim (lookup s.execution_authorities id) [ none ↦ later | some h ↦ some h ]
    else later

-- `claimQueuedExecution`, with the handle that it returns.
unfoldable pub claim_queued_execution : Store → Text → Text → ℕ → Store × ℕ
unfolding claimable begin
claim_queued_execution s name label clock = elim (claimable s name s.rows) [
  | some h ↦ (s, h)
  | none ↦ (begin s (plain_options name label) true clock, length s.execution_rows)
]
