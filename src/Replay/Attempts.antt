-- ===== src/Replay/Attempts.antt =====
-- workflow-replay.ts: the controller's operations.
use locus_pi.Common.{
  ℕ, ◌+◌, ◌-◌, Bool, true, false, not, ◌&&◌, ◌||◌, Option, none, some, ◌==◌, ltb, leb, List, [],
  ◌∷◌, ◌++◌, if◌then◌else◌, is_some, get_or, any, find?, keep,
}
use locus_pi.Common.Text.{Text, text_eq}
use locus_pi.Replay.Records.{
  Structured, Recorded, succeeded, failed, AgentEntry, agent, v4, is_current_version,
  return_contract_v1, MissReason, no_record, invocation_identity_unproven,
  recorded_sequence_invalid, unnamed_node, node_mismatch, return_contract_changed, key_mismatch,
  recorded_failure, side_effecting_call, diverged, Call, Error, strict, prefix_unavailable,
  prefix_diverged, historical_native, foreign_receipt, Lookup, replayed, fresh, thrown,
}
use locus_pi.Replay.Controller.{Controller, Admission, get_slot, refuse_prefix, is_retired_slot}

-- `call.returnContractVersion === 4 || … === 5`
abbrev pub is_structured : Call → Bool
is_structured call = elim call.return_contract_version [ none ↦ false | some n ↦ n == 4 || n == 5 ]

-- `===` on optional values
abbrev pub option_eq : Option ℕ → Option ℕ → Bool
option_eq none none = true
option_eq (some m) (some n) = m == n
option_eq none (some n) = false
option_eq (some m) none = false

abbrev pub has_ordinal : ℕ → Option (List ℕ) → Bool
has_ordinal n none = false
has_ordinal n (some ns) = any (λ m. m == n) ns

-- `#canExtend`
abbrev pub can_extend : Controller → ℕ → ℕ → Bool
can_extend c ordinal extent =
    is_some c.typed_retry_ordinals && (ltb 0 c.fresh_calls && leb extent ordinal)

-- `#fresh`
abbrev pub count_fresh : Controller → MissReason → Controller × Lookup
count_fresh c reason = (record c { fresh_calls = c.fresh_calls + 1 }, fresh reason)

-- The end of `miss`, after the prefix has been refused.
abbrev pub after_refusal : Controller → Call → MissReason → Controller × Lookup
after_refusal c call reason =
    if is_structured call
    then (c, thrown (prefix_unavailable reason))
    else elim c.strict_refusal [ some r ↦ (c, thrown (strict r)) | none ↦ count_fresh c reason ]

unfoldable pub miss : Controller → ℕ → Call → MissReason → Controller × Lookup
unfolding refuse_prefix
miss c ordinal call reason = after_refusal (refuse_prefix c ordinal call.node reason) call reason

-- The names of a repaired source: the reason of a mismatch, if there is one.
abbrev pub node_problem : Option Text → Option Text → Option MissReason
node_problem none m = some unnamed_node
node_problem (some n) none = some unnamed_node
node_problem (some n) (some m) = if text_eq n m then none else some node_mismatch

abbrev pub name_problem : Bool → Option Text → Option Text → Option MissReason
name_problem true n m = node_problem n m
name_problem false n m = none

abbrev pub same_key : Option Text → Text → Bool
same_key none k = false
same_key (some j) k = text_eq j k

abbrev pub key_of : Recorded → Option Text
key_of (succeeded key text structured) = some key
key_of (failed key) = key

-- The reason of a changed key: an older return contract is named first.
abbrev pub key_problem : Option ℕ → Option ℕ → MissReason
key_problem none recorded = key_mismatch
key_problem (some wanted) recorded =
    if ltb (get_or recorded return_contract_v1) wanted
    then return_contract_changed
    else key_mismatch

module _ (hash : Text → Text) where
  -- The identity tests, in the order of the code; `none` passes them all.
  unfoldable pub identity_problem : Controller → Call → AgentEntry → Option MissReason
  identity_problem c call e =
      if not (is_current_version e.v) && not c.require_recorded_prefix
      then some invocation_identity_unproven
      else elim (name_problem c.source_script_changed e.node call.node) [
        | some reason ↦ some reason
        | none ↦
            if is_structured call && not (option_eq e.rcv call.return_contract_version)
            then some return_contract_changed
            else if same_key (key_of e.outcome) (hash call.canonical_request)
            then none
            else some (key_problem call.return_contract_version e.rcv)
      ]

  -- The recorded outcome of a call whose identity is proven.
  unfoldable pub reuse : Controller → ℕ → Call → Recorded → Controller × Lookup
  reuse c ordinal call (failed key) =
      if not (is_structured call) && has_ordinal ordinal c.typed_retry_ordinals
      then count_fresh c recorded_failure
      else miss c ordinal call recorded_failure
  reuse c ordinal call (succeeded key text structured) =
      if call.replayable
      then (record c { replayed_calls = c.replayed_calls + 1 }, replayed text structured)
      else miss c ordinal call side_effecting_call

  unfoldable pub match_entry : Controller → ℕ → Call → AgentEntry → Controller × Lookup
  unfolding identity_problem reuse
  match_entry c ordinal call e = elim (identity_problem c call e) [
    | some reason ↦ miss c ordinal call reason
    | none ↦ reuse c ordinal call e.outcome
  ]

  unfoldable pub lookup_slot : Controller → ℕ → Call → Option AgentEntry → Controller × Lookup
  unfolding match_entry
  lookup_slot c ordinal call none =
      if can_extend c ordinal c.recorded_agent_extent
      then count_fresh c no_record
      else miss c ordinal call
          (if ltb ordinal c.recorded_agent_extent then recorded_sequence_invalid else no_record)
  lookup_slot c ordinal call (some e) = match_entry c ordinal call e

  unfoldable pub lookup_open : Controller → ℕ → Call → Option AgentEntry → Controller × Lookup
  unfolding lookup_slot
  lookup_open c ordinal call slot =
      if is_retired_slot slot
      then (refuse_prefix c ordinal call.node return_contract_changed, thrown historical_native)
      else if not c.replay_enabled
      then count_fresh c no_record
      else if c.has_diverged
      then if is_structured call then (c, thrown prefix_diverged) else count_fresh c diverged
      else lookup_slot c ordinal call slot

  -- `#lookupAgent`
  unfoldable pub lookup_agent : Controller → ℕ → Call → Controller × Lookup
  unfolding lookup_open
  lookup_agent c ordinal call = elim c.strict_refusal [
    | some r ↦ (c, thrown (strict r))
    | none ↦ lookup_open c ordinal call (get_slot ordinal c.recorded_agents)
  ]

  abbrev pub admit : ℕ → Call → Controller × Lookup → Controller × Lookup
  admit ordinal call (c, thrown e) = (c, thrown e)
  admit ordinal call (c, fresh reason) = (
    record c {
      admissions = record { seq = ordinal; call = call; was_replayed = false } ∷ c.admissions;
    },
    fresh reason,
  )
  admit ordinal call (c, replayed text structured) = (
    record c {
      admissions = record { seq = ordinal; call = call; was_replayed = true } ∷ c.admissions;
    },
    replayed text structured,
  )

  -- `beginAgentAttempt`: the ordinal is claimed also when the lookup throws.
  unfoldable pub begin_agent_attempt : Controller → Call → Controller × Lookup
  unfolding lookup_agent
  begin_agent_attempt c call =
      admit c.read_cursor call
        (lookup_agent (record c { read_cursor = c.read_cursor + 1 }) c.read_cursor call)

  -- What the agent attempt came to.
  abbrev pub recorded_outcome : Call → Option (Text × Option Structured) → Recorded
  recorded_outcome call none = failed (some (hash call.canonical_request))
  recorded_outcome call (some (text, structured)) =
      succeeded (hash call.canonical_request) text structured

  abbrev pub log_entry : ℕ → Call → Option (Text × Option Structured) → AgentEntry
  log_entry seq call outcome = record {
    v = v4;
    seq = seq;
    node = call.node;
    rcv = call.return_contract_version;
    outcome = recorded_outcome call outcome;
  }

  abbrev pub settle_admission : Controller → Admission → Bool → Controller
  settle_admission c a succeeded_now =
      if a.was_replayed && not succeeded_now
      then refuse_prefix (record c { replayed_calls = c.replayed_calls - 1 }) a.seq a.call.node
          recorded_failure
      else c

  unfoldable pub record_admitted :
      Controller
      → ℕ
      → Option (Text × Option Structured)
      → Option Admission
      → Controller × Option Error
  record_admitted c receipt outcome none = (c, some foreign_receipt)
  record_admitted c receipt outcome (some a) =
      let claimed = record c { admissions = keep (λ b. not (b.seq == receipt)) c.admissions } in
      let settled = settle_admission claimed a (is_some outcome) in
      (record settled { log = settled.log ++ agent (log_entry a.seq a.call outcome) ∷ [] }, none)

  -- `recordAgentAttempt`; `none` is the outcome `{ ok: false }`.
  unfoldable pub record_agent_attempt :
      Controller → ℕ → Option (Text × Option Structured) → Controller × Option Error
  unfolding record_admitted refuse_prefix
  record_agent_attempt c receipt outcome =
      record_admitted c receipt outcome (find? (λ a. a.seq == receipt) c.admissions)
