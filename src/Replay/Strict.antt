-- ===== src/Replay/Strict.antt =====
-- workflow-replay.ts: a strict refusal is final.
use locus_pi.Common.{ℕ, ◌≡◌, Option, none, some, List, [], ◌∷◌, arith, ◌==◌, find?}
use locus_pi.Common.Text.{Text}
use locus_pi.Replay.Records.{Structured, Call, Refusal, strict, thrown, ValueKind}
use locus_pi.Replay.Controller.{Controller, Admission, refuse_prefix}
use locus_pi.Replay.Attempts.{
  lookup_agent, begin_agent_attempt, record_admitted, record_agent_attempt,
}
use locus_pi.Replay.Values.{failed_value, resolve_value}

-- The calls that a run makes of its controller.
pub data Event : Type 0 where
  begin : Call → Event
  record_attempt : ℕ → Option (Text × Option Structured) → Event
  resolve : ValueKind → ℕ → Event

module _ (hash : Text → Text) where
  unfoldable pub step : Event → Controller → Controller
  unfolding begin_agent_attempt record_agent_attempt resolve_value
  step (begin call) c = (begin_agent_attempt hash c call).0
  step (record_attempt receipt outcome) c = (record_agent_attempt hash c receipt outcome).0
  step (resolve kind produced) c = (resolve_value c kind produced).0

  unfoldable pub run : List Event → Controller → Controller
  unfolding step
  run [] c = c
  run (e ∷ es) c = run es (step e c)

  admitted_strict :
      (c : Controller) (receipt : ℕ) (outcome : Option (Text × Option Structured))
      (a : Option Admission) (r : Refusal)
      → c.strict_refusal ≡ some r
      → (record_admitted hash c receipt outcome a).0.strict_refusal ≡ some r
  unfolding record_admitted refuse_prefix
  admitted_strict c receipt outcome none r h = h
  admitted_strict c receipt outcome (some a) r h = ground arith

  step_strict :
      (e : Event) (c : Controller) (r : Refusal)
      → c.strict_refusal ≡ some r
      → (step e c).strict_refusal ≡ some r
  unfolding step
  step_strict (begin call) c r h = unfold begin_agent_attempt lookup_agent in (ground arith)
  step_strict (record_attempt receipt outcome) c r h =
      unfold record_agent_attempt in
      (admitted_strict c receipt outcome (find? (λ a. a.seq == receipt) c.admissions) r h)
  step_strict (resolve kind produced) c r h = unfold resolve_value in (ground arith)

  run_strict :
      (es : List Event) (c : Controller) (r : Refusal)
      → c.strict_refusal ≡ some r
      → (run es c).strict_refusal ≡ some r
  unfolding run
  run_strict [] c r h = h
  run_strict (e ∷ es) c r h = run_strict es (step e c) r (step_strict e c r h)

  begin_strict :
      (c : Controller) (call : Call) (r : Refusal)
      → c.strict_refusal ≡ some r
      → (begin_agent_attempt hash c call).1 ≡ thrown (strict r)
  unfolding begin_agent_attempt lookup_agent
  begin_strict c call r h = ground arith

  resolve_strict :
      (c : Controller) (kind : ValueKind) (n : ℕ) (r : Refusal)
      → c.strict_refusal ≡ some r
      → (resolve_value c kind n).1 ≡ failed_value (strict r)
  unfolding resolve_value
  resolve_strict c kind n r h = ground arith

  -- Once a strict refusal is set, it stays the same whatever the run does afterwards, and every
  -- later agent call and every later read of the clock or of random numbers throws it: nothing is
  -- replayed and nothing runs anew.
  pub run_refused :
      (es : List Event) (c : Controller) (r : Refusal) (call : Call) (kind : ValueKind) (n : ℕ)
      → c.strict_refusal ≡ some r
      → ((run es c).strict_refusal ≡ some r)
        × ((begin_agent_attempt hash (run es c) call).1 ≡ thrown (strict r))
        × ((resolve_value (run es c) kind n).1 ≡ failed_value (strict r))
  run_refused es c r call kind n h =
      let kept = run_strict es c r h in
      (kept, begin_strict (run es c) call r kept, resolve_strict (run es c) kind n r kept)
