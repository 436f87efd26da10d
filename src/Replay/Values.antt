-- ===== src/Replay/Values.antt =====
-- workflow-replay.ts: recorded clock and random values, completeness and counts.
use locus_pi.Common.{
  ℕ, ◌+◌, Bool, not, ◌&&◌, Option, none, some, leb, [], ◌∷◌, ◌++◌, if◌then◌else◌, is_some, length,
}
use locus_pi.Common.Text.{Text}
use locus_pi.Replay.Records.{
  ValueKind, clock, random, value, v4, recorded_sequence_invalid, Error, strict, incomplete,
}
use locus_pi.Replay.Controller.{Controller, Slots, get_slot, refuse_prefix}
use locus_pi.Replay.Attempts.{can_extend}

abbrev pub values_of : ValueKind → Controller → Slots ℕ
values_of clock c = c.recorded_clocks
values_of random c = c.recorded_randoms

abbrev pub cursor_of : ValueKind → Controller → ℕ
cursor_of clock c = c.clock_cursor
cursor_of random c = c.random_cursor

abbrev pub advance : ValueKind → Controller → Controller
advance clock c = record c { clock_cursor = c.clock_cursor + 1 }
advance random c = record c { random_cursor = c.random_cursor + 1 }

-- What `resolveValue` answers, or throws.
pub data Resolved : Type 0 where
  resolved : ℕ → Resolved
  failed_value : Error → Resolved

abbrev pub put_value : Controller → ValueKind → ℕ → ℕ → Controller × Resolved
put_value c kind ordinal n = (
  record c { log = c.log ++ value (record { v = v4; seq = ordinal; kind = kind; value = n }) ∷ [] },
  resolved n,
)

abbrev pub put_after_refusal : Controller → ValueKind → ℕ → ℕ → Controller × Resolved
put_after_refusal c kind ordinal produced = elim c.strict_refusal [
  | some r ↦ (c, failed_value (strict r))
  | none ↦ put_value c kind ordinal produced
]

unfoldable pub resolve_slot : Controller → ValueKind → ℕ → ℕ → Option ℕ → Controller × Resolved
unfolding refuse_prefix
resolve_slot c kind ordinal produced (some recorded) = put_value c kind ordinal recorded
resolve_slot c kind ordinal produced none =
    if can_extend c ordinal (length (values_of kind c))
    then put_value c kind ordinal produced
    else put_after_refusal (refuse_prefix c c.read_cursor none recorded_sequence_invalid) kind
        ordinal produced

-- `resolveValue`; `produced` is what `produce()` gives when it is called.
unfoldable pub resolve_value : Controller → ValueKind → ℕ → Controller × Resolved
unfolding resolve_slot
resolve_value c kind produced =
    let ordinal = cursor_of kind c in
    let next = advance kind c in
    elim c.strict_refusal [
      | some r ↦ (c, failed_value (strict r))
      | none ↦
          if c.replay_enabled && not c.has_diverged
          then resolve_slot next kind ordinal produced (get_slot ordinal (values_of kind c))
          else put_value next kind ordinal produced
    ]

-- `assertComplete`
abbrev pub is_consumed : Controller → Bool
is_consumed c =
    leb c.recorded_agent_extent c.read_cursor
    && (leb (length c.recorded_clocks) c.clock_cursor
        && leb (length c.recorded_randoms) c.random_cursor)

unfoldable pub assert_complete : Controller → Option Error
assert_complete c = if not (is_some c.typed_retry_ordinals) then none else elim c.strict_refusal [
  | some r ↦ some (strict r)
  | none ↦ if is_consumed c then none else some incomplete
]

-- `counts()`
unfoldable pub counts : Controller → ℕ × ℕ × Option ℕ × Option Text
counts c = (c.replayed_calls, c.fresh_calls, c.diverged_at_call, c.diverged_at_node)
