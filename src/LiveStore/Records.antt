-- ===== src/LiveStore/Records.antt =====
-- extensions/_shared/agent-runtime/agent-live-store.ts: the rows of the live store and its maps.
--
-- A field that may be absent is an option. A handle is a number in the order of creation, of its own
-- kind, and the weak maps from handles to rows are lists at these numbers. A callback is a number. A
-- transcript and its snapshots are numbers too: their content is another component's.
use locus_pi.Common.{ℕ, Bool, Option, List}
use locus_pi.Common.Text.{Text}
use locus_pi.Common.Map.{Entries}
use locus_pi.Names.{Registry}

pub data Status : Type 0 where
  queued working done cancelled error : Status

-- `AgentLiveActivityState`; `stopped` is its "cancelled".
pub data Activity : Type 0 where
  waiting active completed stopped failed : Activity

pub data GroupKind : Type 0 where
  parallel pipeline : GroupKind

pub record Row : Type 0 where
  pub id : Text
  pub parent_row_id : Option Text
  pub workflow_run_id : Option Text
  pub agent_name : Option Text
  pub display_name : Option Text
  pub label : Text
  pub title : Option Text
  pub request : Option Text
  pub slot_key : Option Text
  pub round : Option ℕ
  pub status : Status
  pub activity_state : Option Activity
  pub started_at : Option ℕ
  pub elapsed_ms : Option ℕ
  pub last_activity_at : Option ℕ
  pub model : Option Text
  pub thinking : Option Text
  pub current_path : Option Text
  pub current_tools : List Text
  pub current_tool_args : Option Text
  pub current_tool_start_ms : Option ℕ
  pub step_count : ℕ
  pub turn_count : Option ℕ
  pub token_count : Option (ℕ × ℕ)
  pub child_session_id : Option Text
  pub result_artifact : Option Text
  pub final_answer : Option Text
  pub isolated : Bool
  pub no_mcp : Bool
  pub group_kind : Option GroupKind
  pub group_total : Option ℕ
  pub group_completed : Option ℕ
  pub group_failed : Option ℕ
  pub errors : List Text
  pub event_lines : List Text
  pub transcript : Option ℕ
  pub latest_message : Option Text

pub record BeginOptions : Type 0 where
  pub id : Option Text
  pub parent_row_id : Option Text
  pub workflow_run_id : Option Text
  pub agent_name : Option Text
  pub label : Text
  pub title : Option Text
  pub request : Option Text
  pub slot_key : Option Text
  pub round : Option ℕ
  pub model : Option Text
  pub thinking : Option Text
  pub current_path : Option Text
  pub isolated : Option Bool
  pub no_mcp : Option Bool
  pub group_kind : Option GroupKind
  pub group_total : Option ℕ
  pub now : Option ℕ

-- `Partial<Omit<AgentLiveRow, "id">>`: the fields that are present. One that may be written as
-- `undefined` has an option of its own for the value.
pub record Patch : Type 0 where
  pub parent_row_id : Option Text
  pub workflow_run_id : Option Text
  pub agent_name : Option Text
  pub display_name : Option Text
  pub label : Option Text
  pub title : Option Text
  pub request : Option Text
  pub slot_key : Option Text
  pub round : Option ℕ
  pub status : Option Status
  pub activity_state : Option Activity
  pub started_at : Option ℕ
  pub elapsed_ms : Option ℕ
  pub last_activity_at : Option ℕ
  pub model : Option Text
  pub thinking : Option Text
  pub current_path : Option Text
  pub current_tools : Option (List Text)
  pub current_tool_args : Option (Option Text)
  pub current_tool_start_ms : Option (Option ℕ)
  pub step_count : Option ℕ
  pub turn_count : Option ℕ
  pub token_count : Option (ℕ × ℕ)
  pub child_session_id : Option Text
  pub result_artifact : Option Text
  pub final_answer : Option Text
  pub isolated : Option Bool
  pub no_mcp : Option Bool
  pub group_kind : Option GroupKind
  pub group_total : Option ℕ
  pub group_completed : Option ℕ
  pub group_failed : Option ℕ
  pub errors : Option (List Text)
  pub event_lines : Option (List Text)
  pub transcript : Option ℕ
  pub latest_message : Option (Option Text)

pub record CancelRegistration : Type 0 where
  pub authority : ℕ
  pub cancel : ℕ
  pub execution : ℕ

-- `send` and `available` are the two callbacks of a registration, under its own number.
pub record InputRegistration : Type 0 where
  pub number : ℕ
  pub execution : ℕ

-- `AgentLiveStore`; `cancels` are the cancel callbacks that were called, `changes` the changes that
-- were announced.
pub record Store : Type 0 where
  pub rows : Entries Row
  pub agent_names : Entries Text
  pub petnames : Registry
  pub execution_authorities : Entries ℕ
  pub execution_rows : List Text
  pub cancel_registrations : Entries CancelRegistration
  pub cancellation_rows : List Text
  pub input_registrations : Entries InputRegistration
  pub next_input : ℕ
  pub transcripts : Entries ℕ
  pub next_id : ℕ
  pub cancels : List ℕ
  pub changes : ℕ
