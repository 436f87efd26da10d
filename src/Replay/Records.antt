-- ===== src/Replay/Records.antt =====
-- workflow-replay.ts: entries of the record and what a lookup answers.
use locus_pi.Common.{ℕ, Bool, true, false, ◌||◌, Option, none, some, ◌==◌}
use locus_pi.Common.Text.{Text}

-- `AgentStructuredReceipt`: its version, and its content.
pub record Structured : Type 0 where
  pub version : Option ℕ
  pub content : Text

-- A failed call keeps its key unless its row was unreadable.
pub data Recorded : Type 0 where
  succeeded : (key text : Text) → Option Structured → Recorded
  failed : Option Text → Recorded

-- `WorkflowReplaySchemaVersion`
pub data LogVersion : Type 0 where
  v3 v4 : LogVersion

-- `WorkflowReplayAgentEntry`; `v` is the log's schema version and `rcv` the call's return contract.
pub record AgentEntry : Type 0 where
  pub v : LogVersion
  pub seq : ℕ
  pub node : Option Text
  pub rcv : Option ℕ
  pub outcome : Recorded

pub data ValueKind : Type 0 where
  clock random : ValueKind

-- A recorded number is carried and never computed with, so a natural stands for each.
pub record ValueEntry : Type 0 where
  pub v : LogVersion
  pub seq : ℕ
  pub kind : ValueKind
  pub value : ℕ

-- `WorkflowReplayEntry`
pub data Entry : Type 0 where
  agent : AgentEntry → Entry
  value : ValueEntry → Entry

-- `entry.v === WORKFLOW_REPLAY_SCHEMA_VERSION`
abbrev pub is_current_version : LogVersion → Bool
is_current_version v3 = false
is_current_version v4 = true

abbrev pub return_contract_v1 : ℕ
return_contract_v1 = 1

-- `WorkflowReplayMissReason`
pub data MissReason : Type 0 where
  no_record invocation_identity_unproven recorded_sequence_invalid unnamed_node : MissReason
  node_mismatch return_contract_changed key_mismatch recorded_failure : MissReason
  side_effecting_call diverged : MissReason

-- `WorkflowReplayAgentCall & { replayable }`
pub record Call : Type 0 where
  pub node : Option Text
  pub canonical_request : Text
  pub return_contract_version : Option ℕ
  pub replayable : Bool

-- A strict refusal names the call and the reason of the divergence.
pub record Refusal : Type 0 where
  pub typed : Bool
  pub ordinal : ℕ
  pub reason : MissReason

pub data Error : Type 0 where
  strict : Refusal → Error
  prefix_unavailable : MissReason → Error
  prefix_diverged historical_native unordered_native typed_without_record : Error
  foreign_receipt incomplete : Error

-- What `beginAgentAttempt` answers, or throws.
pub data Lookup : Type 0 where
  replayed : Text → Option Structured → Lookup
  fresh : MissReason → Lookup
  thrown : Error → Lookup

abbrev is_five : Option ℕ → Bool
is_five none = false
is_five (some n) = n == 5

abbrev has_version_five : Option Structured → Bool
has_version_five none = false
has_version_five (some s) = is_five s.version

abbrev receipt_is_five : Recorded → Bool
receipt_is_five (succeeded key text structured) = has_version_five structured
receipt_is_five (failed key) = false

-- `retiredNativeReplay`
abbrev pub is_retired : AgentEntry → Bool
is_retired e = is_five e.rcv || receipt_is_five e.outcome

-- `retiredNativeMarker` of an entry with a readable position.
abbrev pub retired_marker : AgentEntry → AgentEntry
retired_marker e = record { v = e.v; seq = e.seq; node = none; rcv = some 5; outcome = failed none }
