-- ===== src/LiveStore/Rows.antt =====
-- The rows that the live store makes and changes: extensions/_shared/agent-runtime/agent-live-store.ts.
use locus_pi.Common.{
  ℕ, ◌-◌, Bool, true, false, ◌||◌, [], ◌∷◌, ◌++◌, Option, none, some, get_or, is_some,
  if◌then◌else◌, ltb, leb, length, take,
}
use locus_pi.Common.Text.{Text, decimal, codes}
use locus_pi.LiveStore.Records.{
  Status, queued, working, done, cancelled, error, Activity, waiting, active, completed, stopped,
  failed, Row, BeginOptions, Patch,
}

abbrev pub activity_state_for_status : Status → Activity
activity_state_for_status queued = waiting
activity_state_for_status working = active
activity_state_for_status done = completed
activity_state_for_status cancelled = stopped
activity_state_for_status error = failed

abbrev pub is_terminal : Status → Bool
is_terminal queued = false
is_terminal working = false
is_terminal done = true
is_terminal cancelled = true
is_terminal error = true

-- `a ?? b` of values that may be absent
abbrev pub or_else {ℓ} : {A : Type ℓ} → Option A → Option A → Option A
or_else none b = b
or_else (some a) b = some a

-- A field of the row that is there, if any.
abbrev pub of_row {ℓ} : {A : Type ℓ} → Option Row → (Row → Option A) → Option A
of_row none f = none
of_row (some r) f = f r

abbrev pub field_or {ℓ} : {A : Type ℓ} → Option Row → (Row → A) → A → A
field_or none f d = d
field_or (some r) f d = f r

abbrev pub unless {ℓ} : {A : Type ℓ} → Bool → Option A → Option A
unless true a = none
unless false a = a

unfoldable pub bounded_request : Text → Text
bounded_request value =
    if leb (length value) 32000
    then value
    else take 32000 value
      ++ 10 ∷ 10 ∷ 0x2026 ∷ codes " "
      ++ decimal (length value - 32000)
      ++ codes " additional request character(s) omitted"

-- `options.groupKind ?? existing?.groupKind` names a group.
abbrev pub is_group_row : BeginOptions → Option Row → Bool
is_group_row options existing =
    is_some (or_else options.group_kind (of_row existing (λ r. r.group_kind)))

-- A strictly higher round of the slot
abbrev pub is_new_round : BeginOptions → Option Row → Bool
is_new_round options none = false
is_new_round options (some r) = elim options.round [
  | none ↦ false
  | some n ↦ ltb (get_or r.round 0) n
]

-- The value of an execution that begins, or of the row that is there.
abbrev pub prefer {ℓ} : {A : Type ℓ} → Bool → Option A → Option A → Option A
prefer fresh option existing = if fresh then or_else option existing else or_else existing option

abbrev pub bounded : Option Text → Option Text
bounded none = none
bounded (some t) = some (bounded_request t)

-- The row of `#begin`
unfoldable pub begin_row : Text → BeginOptions → Option Row → Option Text → Bool → Row
begin_row id options existing display_name fresh =
    let reset = fresh || is_new_round options existing in
    record {
      id = id;
      parent_row_id = or_else (of_row existing (λ r. r.parent_row_id)) options.parent_row_id;
      workflow_run_id = or_else (of_row existing (λ r. r.workflow_run_id)) options.workflow_run_id;
      agent_name = or_else (of_row existing (λ r. r.agent_name)) options.agent_name;
      display_name = display_name;
      label = options.label;
      title = or_else (of_row existing (λ r. r.title)) options.title;
      request = bounded (or_else options.request (unless fresh (of_row existing (λ r. r.request))));
      slot_key = or_else options.slot_key (of_row existing (λ r. r.slot_key));
      round = or_else options.round (of_row existing (λ r. r.round));
      status = if fresh then queued else field_or existing (λ r. r.status) queued;
      activity_state =
          if fresh
          then some waiting
          else or_else (of_row existing (λ r. r.activity_state))
              (some (activity_state_for_status (field_or existing (λ r. r.status) queued)));
      started_at = unless fresh (of_row existing (λ r. r.started_at));
      elapsed_ms = unless reset (of_row existing (λ r. r.elapsed_ms));
      last_activity_at =
          if fresh
          then options.now
          else or_else (of_row existing (λ r. r.last_activity_at)) options.now;
      model = prefer fresh options.model (of_row existing (λ r. r.model));
      thinking = prefer fresh options.thinking (of_row existing (λ r. r.thinking));
      current_path = prefer fresh options.current_path (of_row existing (λ r. r.current_path));
      current_tools = if reset then [] else field_or existing (λ r. r.current_tools) [];
      current_tool_args = unless reset (of_row existing (λ r. r.current_tool_args));
      current_tool_start_ms = unless reset (of_row existing (λ r. r.current_tool_start_ms));
      step_count = if fresh then 0 else field_or existing (λ r. r.step_count) 0;
      turn_count = unless fresh (of_row existing (λ r. r.turn_count));
      token_count = unless reset (of_row existing (λ r. r.token_count));
      child_session_id = unless fresh (of_row existing (λ r. r.child_session_id));
      result_artifact = unless fresh (of_row existing (λ r. r.result_artifact));
      final_answer = unless fresh (of_row existing (λ r. r.final_answer));
      isolated = get_or options.isolated (field_or existing (λ r. r.isolated) false);
      no_mcp = get_or options.no_mcp (field_or existing (λ r. r.no_mcp) false);
      group_kind = prefer fresh options.group_kind (of_row existing (λ r. r.group_kind));
      group_total = prefer fresh options.group_total (of_row existing (λ r. r.group_total));
      group_completed = unless fresh (of_row existing (λ r. r.group_completed));
      group_failed = unless fresh (of_row existing (λ r. r.group_failed));
      errors = if fresh then [] else field_or existing (λ r. r.errors) [];
      event_lines = if fresh then [] else field_or existing (λ r. r.event_lines) [];
      transcript = unless reset (of_row existing (λ r. r.transcript));
      latest_message = unless reset (of_row existing (λ r. r.latest_message));
    }

-- `...patch` over `...current`
abbrev pub present {ℓ} : {A : Type ℓ} → Option A → Option A → Option A
present none current = current
present (some v) current = some v

abbrev pub spread : Row → Patch → Row
spread current patch = record {
  id = current.id;
  parent_row_id = present patch.parent_row_id current.parent_row_id;
  workflow_run_id = present patch.workflow_run_id current.workflow_run_id;
  agent_name = present patch.agent_name current.agent_name;
  display_name = present patch.display_name current.display_name;
  label = get_or patch.label current.label;
  title = present patch.title current.title;
  request = present patch.request current.request;
  slot_key = present patch.slot_key current.slot_key;
  round = present patch.round current.round;
  status = get_or patch.status current.status;
  activity_state = present patch.activity_state current.activity_state;
  started_at = present patch.started_at current.started_at;
  elapsed_ms = present patch.elapsed_ms current.elapsed_ms;
  last_activity_at = present patch.last_activity_at current.last_activity_at;
  model = present patch.model current.model;
  thinking = present patch.thinking current.thinking;
  current_path = present patch.current_path current.current_path;
  current_tools = get_or patch.current_tools current.current_tools;
  current_tool_args = get_or patch.current_tool_args current.current_tool_args;
  current_tool_start_ms = get_or patch.current_tool_start_ms current.current_tool_start_ms;
  step_count = get_or patch.step_count current.step_count;
  turn_count = present patch.turn_count current.turn_count;
  token_count = present patch.token_count current.token_count;
  child_session_id = present patch.child_session_id current.child_session_id;
  result_artifact = present patch.result_artifact current.result_artifact;
  final_answer = present patch.final_answer current.final_answer;
  isolated = get_or patch.isolated current.isolated;
  no_mcp = get_or patch.no_mcp current.no_mcp;
  group_kind = present patch.group_kind current.group_kind;
  group_total = present patch.group_total current.group_total;
  group_completed = present patch.group_completed current.group_completed;
  group_failed = present patch.group_failed current.group_failed;
  errors = get_or patch.errors current.errors;
  event_lines = get_or patch.event_lines current.event_lines;
  transcript = present patch.transcript current.transcript;
  latest_message = get_or patch.latest_message current.latest_message;
}

-- What a terminal status clears.
abbrev pub end_tools : Row → Option ℕ → Row
end_tools row elapsed_ms = record row {
  current_tools = [];
  current_tool_args = none;
  current_tool_start_ms = none;
  elapsed_ms = elapsed_ms;
}

-- The elapsed time of a row that ends: none of its own, but a start.
abbrev pub elapsed_at_end : Row → Patch → ℕ → Option ℕ
elapsed_at_end current patch now =
    if is_some patch.elapsed_ms || is_some current.elapsed_ms
    then present patch.elapsed_ms current.elapsed_ms
    else elim current.started_at [ none ↦ none | some at ↦ some (now - at) ]

-- The row of `patch`
unfoldable pub patch_row : Row → Patch → ℕ → Row
patch_row current patch now =
    let row : Row = elim patch.status [
      | none ↦ spread current patch
      | some status ↦
          if is_terminal status
          then end_tools (spread current patch) (elapsed_at_end current patch now)
          else spread current patch
    ] in
    record row {
      activity_state = or_else patch.activity_state (elim patch.status [
        | none ↦ current.activity_state
        | some status ↦ some (activity_state_for_status status)
      ]);
    }
