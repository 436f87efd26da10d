-- ===== src/Replay/Prefix.antt =====
-- workflow-replay.ts: the replayed calls are a prefix of the run.
use locus_pi.Common.{
  ℕ, ◌+◌, ◌≡◌, ◌≢◌, Bool, true, false, Option, none, some, List, [], ◌∷◌, arith, Option-cases,
  is_some, find?, ◌==◌, inl, inr,
}
use locus_pi.Common.Text.{Text}
use locus_pi.Replay.Records.{
  Structured, Recorded, succeeded, failed, AgentEntry, Call, Lookup, replayed, fresh, thrown,
  MissReason, no_record, recorded_sequence_invalid, recorded_failure, side_effecting_call,
}
use locus_pi.Replay.Controller.{Controller, Admission, refuse_prefix, get_slot}
use locus_pi.Replay.Attempts.{
  miss, identity_problem, reuse, match_entry, lookup_slot, lookup_open, lookup_agent, admit,
  begin_agent_attempt, record_admitted, record_agent_attempt,
}
use locus_pi.Replay.Values.{resolve_value}
use locus_pi.Replay.Soundness.{begin_agent_attempt-IsProven}
use locus_pi.Replay.Strict.{Event, begin, record_attempt, resolve, step, run}

abbrev pub is_replayed : Lookup → Bool
is_replayed (replayed text s) = true
is_replayed (fresh r) = false
is_replayed (thrown e) = false

-- A strict refusal is set together with the divergence.
abbrev pub IsMarked : Controller → Type 0
IsMarked c = is_some c.strict_refusal ≡ true → c.has_diverged ≡ true

miss_diverged :
    (c : Controller) (n : ℕ) (call : Call) (r : MissReason)
    → (miss c n call r).0.has_diverged ≡ true
unfolding miss refuse_prefix
miss_diverged c n call r = ground arith

module _ (hash : Text → Text) where
  admitted_diverged :
      (c : Controller) (receipt : ℕ) (outcome : Option (Text × Option Structured))
      (a : Option Admission)
      → c.has_diverged ≡ true
      → (record_admitted hash c receipt outcome a).0.has_diverged ≡ true
  unfolding record_admitted refuse_prefix
  admitted_diverged c receipt outcome none h = h
  admitted_diverged c receipt outcome (some a) h = ground arith

  lookup_diverged :
      (c : Controller) (n : ℕ) (call : Call)
      → c.has_diverged ≡ true
      → (lookup_agent hash c n call).0.has_diverged ≡ true
  unfolding lookup_agent lookup_open refuse_prefix
  lookup_diverged c n call h = ground arith

  admit_diverged :
      (n : ℕ) (call : Call) (r : Controller × Lookup)
      → r.0.has_diverged ≡ true
      → (admit hash n call r).0.has_diverged ≡ true
  admit_diverged n call (c, replayed t s) h = h
  admit_diverged n call (c, fresh r) h = h
  admit_diverged n call (c, thrown r) h = h

  step_diverged :
      (e : Event) (c : Controller) → c.has_diverged ≡ true → (step hash e c).has_diverged ≡ true
  unfolding step
  step_diverged (begin call) c h =
      unfold begin_agent_attempt in
      (admit_diverged c.read_cursor call
        (lookup_agent hash (record c { read_cursor = c.read_cursor + 1 }) c.read_cursor call)
        (lookup_diverged (record c { read_cursor = c.read_cursor + 1 }) c.read_cursor call h))
  step_diverged (record_attempt receipt outcome) c h =
      unfold record_agent_attempt in
      (admitted_diverged c receipt outcome (find? (λ a. a.seq == receipt) c.admissions) h)
  step_diverged (resolve kind produced) c h = unfold resolve_value in (ground arith)

  run_diverged :
      (es : List Event) (c : Controller)
      → c.has_diverged ≡ true
      → (run hash es c).has_diverged ≡ true
  unfolding run
  run_diverged [] c h = h
  run_diverged (e ∷ es) c h = run_diverged es (step hash e c) (step_diverged e c h)

  reuse_missed :
      (c : Controller) (n : ℕ) (call : Call) (o : Recorded)
      → c.typed_retry_ordinals ≡ none
      → is_replayed (reuse hash c n call o).1 ≡ false
      → (reuse hash c n call o).0.has_diverged ≡ true
  unfolding reuse
  reuse_missed c n call (failed key) t h = ground (arith, miss_diverged c n call recorded_failure)
  reuse_missed c n call (succeeded key text s) t h =
      ground (arith, miss_diverged c n call side_effecting_call)

  match_missed :
      (c : Controller) (n : ℕ) (call : Call) (e : AgentEntry)
      → c.typed_retry_ordinals ≡ none
      → is_replayed (match_entry hash c n call e).1 ≡ false
      → (match_entry hash c n call e).0.has_diverged ≡ true
  unfolding match_entry
  match_missed c n call e t h = elim (Option-cases (identity_problem hash c call e)) [
    | inr (r, found) ↦ ground (arith, miss_diverged c n call r)
    | inl fine ↦ ground (arith, reuse_missed c n call e.outcome t)
  ]

  slot_missed :
      (c : Controller) (n : ℕ) (call : Call) (o : Option AgentEntry)
      → c.typed_retry_ordinals ≡ none
      → is_replayed (lookup_slot hash c n call o).1 ≡ false
      → (lookup_slot hash c n call o).0.has_diverged ≡ true
  unfolding lookup_slot
  slot_missed c n call (some e) t h = match_missed c n call e t h
  slot_missed c n call none t h =
      ground
        (arith, miss_diverged c n call no_record, miss_diverged c n call recorded_sequence_invalid)

  open_missed :
      (c : Controller) (n : ℕ) (call : Call) (o : Option AgentEntry)
      → c.typed_retry_ordinals ≡ none
      → c.replay_enabled ≡ true
      → is_replayed (lookup_open hash c n call o).1 ≡ false
      → (lookup_open hash c n call o).0.has_diverged ≡ true
  unfolding lookup_open refuse_prefix
  open_missed c n call o t on h = ground (arith, slot_missed c n call o t)

  lookup_missed :
      (c : Controller) (n : ℕ) (call : Call)
      → IsMarked c
      → c.typed_retry_ordinals ≡ none
      → c.replay_enabled ≡ true
      → is_replayed (lookup_agent hash c n call).1 ≡ false
      → (lookup_agent hash c n call).0.has_diverged ≡ true
  unfolding lookup_agent
  lookup_missed c n call m t on h = elim (Option-cases c.strict_refusal) [
    | inr (r, found) ↦ ground (arith, m)
    | inl free ↦ ground (arith, open_missed c n call (get_slot n c.recorded_agents) t on)
  ]

  admit_missed :
      (n : ℕ) (call : Call) (r : Controller × Lookup)
      → (is_replayed r.1 ≡ false → r.0.has_diverged ≡ true)
      → is_replayed (admit hash n call r).1 ≡ false
      → (admit hash n call r).0.has_diverged ≡ true
  admit_missed n call (c, replayed t s) k h = k h
  admit_missed n call (c, fresh r) k h = k h
  admit_missed n call (c, thrown r) k h = k h

  begin_missed :
      (c : Controller) (call : Call)
      → IsMarked c
      → c.typed_retry_ordinals ≡ none
      → c.replay_enabled ≡ true
      → is_replayed (begin_agent_attempt hash c call).1 ≡ false
      → (begin_agent_attempt hash c call).0.has_diverged ≡ true
  unfolding begin_agent_attempt
  begin_missed c call m t on h =
      let next : Controller = record c { read_cursor = c.read_cursor + 1 } in
      admit_missed c.read_cursor call (lookup_agent hash next c.read_cursor call)
        (lookup_missed next c.read_cursor call m t on) h

  never_replayed :
      (c : Controller) (call : Call) (text : Text) (s : Option Structured)
      → c.has_diverged ≡ true
      → (begin_agent_attempt hash c call).1 ≢ replayed text s
  never_replayed c call text s h e =
      let p = begin_agent_attempt-IsProven hash c call text s e in ground (arith, p.undiverged)

  pub missed_first :
      (c : Controller) (call : Call) (es : List Event) (later : Call) (text : Text)
      (s : Option Structured)
      → IsMarked c
      → c.typed_retry_ordinals ≡ none
      → c.replay_enabled ≡ true
      → is_replayed (begin_agent_attempt hash c call).1 ≡ false
      → (begin_agent_attempt hash (run hash es (begin_agent_attempt hash c call).0) later).1
        ≢ replayed text s
  missed_first c call es later text s m t on h =
      never_replayed (run hash es (begin_agent_attempt hash c call).0) later text s
        (run_diverged es (begin_agent_attempt hash c call).0 (begin_missed c call m t on h))
