-- ===== src/Replay/Modes.antt =====
-- workflow-replay.ts: a controller keeps its mode, and marks each strict refusal as a divergence.
use locus_pi.Common.{
  ℕ, ◌+◌, ◌≡◌, refl, ◌≢◌, subst, ap, get_or, true, false, Option, none, some, List, [], ◌∷◌, arith,
  Option-cases, is_some, find?, ◌==◌, inl, inr,
}
use locus_pi.Common.Text.{Text}
use locus_pi.Replay.Records.{
  Structured, Recorded, succeeded, failed, AgentEntry, ValueEntry, Call, Lookup, replayed, fresh,
  thrown, MissReason, ValueKind, clock, random, Entry, agent, value, no_record,
  recorded_sequence_invalid, recorded_failure, side_effecting_call,
}
use locus_pi.Replay.Controller.{
  Controller, Admission, refuse_prefix, get_slot, create, created, Options, blank, add_entries,
  add_entry, add_value,
}
use locus_pi.Replay.Attempts.{
  miss, identity_problem, reuse, match_entry, lookup_slot, lookup_open, lookup_agent, admit,
  begin_agent_attempt, record_admitted, record_agent_attempt,
}
use locus_pi.Replay.Values.{resolve_value, resolve_slot}
use locus_pi.Replay.Strict.{Event, begin, record_attempt, resolve, step, run}
use locus_pi.Replay.Prefix.{IsMarked, is_replayed, missed_first}

-- A run that replays a record, without typed retries.
abbrev pub IsPlain : Controller → Type 0
IsPlain c = (IsMarked c) × (c.typed_retry_ordinals ≡ none) × (c.replay_enabled ≡ true)

refuse-IsPlain :
    (c : Controller) (n : ℕ) (name : Option Text) (r : MissReason)
    → IsPlain c
    → IsPlain (refuse_prefix c n name r)
unfolding refuse_prefix
refuse-IsPlain c n name r h = (λ m. refl, h.1, h.2)

miss-IsPlain :
    (c : Controller) (n : ℕ) (call : Call) (r : MissReason)
    → IsPlain c
    → IsPlain (miss c n call r).0
unfolding miss
miss-IsPlain c n call r h = ground (arith, refuse-IsPlain c n call.node r h)

module _ (hash : Text → Text) where
  reuse-IsPlain :
      (c : Controller) (n : ℕ) (call : Call) (o : Recorded)
      → IsPlain c
      → IsPlain (reuse hash c n call o).0
  unfolding reuse
  reuse-IsPlain c n call (failed key) h = ground (arith, miss-IsPlain c n call recorded_failure h)
  reuse-IsPlain c n call (succeeded key t s) h =
      ground (arith, miss-IsPlain c n call side_effecting_call h)

  match-IsPlain :
      (c : Controller) (n : ℕ) (call : Call) (e : AgentEntry)
      → IsPlain c
      → IsPlain (match_entry hash c n call e).0
  unfolding match_entry
  match-IsPlain c n call e h = elim (Option-cases (identity_problem hash c call e)) [
    | inr (r, found) ↦ ground (arith, miss-IsPlain c n call r h)
    | inl fine ↦ ground (arith, reuse-IsPlain c n call e.outcome h)
  ]

  slot-IsPlain :
      (c : Controller) (n : ℕ) (call : Call) (o : Option AgentEntry)
      → IsPlain c
      → IsPlain (lookup_slot hash c n call o).0
  unfolding lookup_slot
  slot-IsPlain c n call (some e) h = match-IsPlain c n call e h
  slot-IsPlain c n call none h =
      ground (
        arith,
        miss-IsPlain c n call no_record h,
        miss-IsPlain c n call recorded_sequence_invalid h,
      )

  open-IsPlain :
      (c : Controller) (n : ℕ) (call : Call) (o : Option AgentEntry)
      → IsPlain c
      → IsPlain (lookup_open hash c n call o).0
  unfolding lookup_open refuse_prefix
  open-IsPlain c n call o h = ground (arith, slot-IsPlain c n call o h)

  lookup-IsPlain :
      (c : Controller) (n : ℕ) (call : Call) → IsPlain c → IsPlain (lookup_agent hash c n call).0
  unfolding lookup_agent
  lookup-IsPlain c n call h = elim (Option-cases c.strict_refusal) [
    | inr (r, found) ↦ ground arith
    | inl free ↦ ground (arith, open-IsPlain c n call (get_slot n c.recorded_agents) h)
  ]

  admit-IsPlain :
      (n : ℕ) (call : Call) (r : Controller × Lookup)
      → IsPlain r.0
      → IsPlain (admit hash n call r).0
  admit-IsPlain n call (c, replayed t s) h = h
  admit-IsPlain n call (c, fresh r) h = h
  admit-IsPlain n call (c, thrown r) h = h

  admitted-IsPlain :
      (c : Controller) (receipt : ℕ) (outcome : Option (Text × Option Structured))
      (a : Option Admission)
      → IsPlain c
      → IsPlain (record_admitted hash c receipt outcome a).0
  unfolding record_admitted refuse_prefix
  admitted-IsPlain c receipt outcome none h = h
  admitted-IsPlain c receipt outcome (some a) h = ground arith

  resolve-IsPlain :
      (c : Controller) (kind : ValueKind) (n : ℕ) → IsPlain c → IsPlain (resolve_value c kind n).0
  unfolding resolve_value resolve_slot refuse_prefix
  resolve-IsPlain c clock n h = ground arith
  resolve-IsPlain c random n h = ground arith

  step-IsPlain : (e : Event) (c : Controller) → IsPlain c → IsPlain (step hash e c)
  unfolding step
  step-IsPlain (begin call) c h =
      unfold begin_agent_attempt in
      (admit-IsPlain c.read_cursor call
        (lookup_agent hash (record c { read_cursor = c.read_cursor + 1 }) c.read_cursor call)
        (lookup-IsPlain (record c { read_cursor = c.read_cursor + 1 }) c.read_cursor call h))
  step-IsPlain (record_attempt receipt outcome) c h =
      unfold record_agent_attempt in
      (admitted-IsPlain c receipt outcome (find? (λ a. a.seq == receipt) c.admissions) h)
  step-IsPlain (resolve kind produced) c h = resolve-IsPlain c kind produced h

  run-IsPlain : (es : List Event) (c : Controller) → IsPlain c → IsPlain (run hash es c)
  unfolding run
  run-IsPlain [] c h = h
  run-IsPlain (e ∷ es) c h = run-IsPlain es (step hash e c) (step-IsPlain e c h)

kind_kept :
    (k : ValueKind) (e : ValueEntry) (c : Controller) → IsPlain c → IsPlain (add_value k e c)
kind_kept clock e c p = p
kind_kept random e c p = p

entry_kept : (e : Entry) (c : Controller) → IsPlain c → IsPlain (get_or (add_entry e c) c)
entry_kept (value e) c p = kind_kept e.kind e c p
entry_kept (agent e) c p = ground arith

entry-IsPlain : (e : Entry) (c c' : Controller) → add_entry e c ≡ some c' → IsPlain c → IsPlain c'
entry-IsPlain e c c' h p = subst IsPlain (ap (λ o. get_or o c) h) (entry_kept e c p)

entries-IsPlain :
    (es : List Entry) (c c' : Controller) → add_entries es c ≡ some c' → IsPlain c → IsPlain c'
unfolding add_entries
entries-IsPlain [] c c' h p = subst IsPlain (ap (λ o. get_or o c) h) p
entries-IsPlain (e ∷ es) c c' h p = elim (Option-cases (add_entry e c)) [
  | inl failed_now ↦ absurd (ground arith)
  | inr (d, found) ↦ entries-IsPlain es d c' (ground arith) (entry-IsPlain e c d found p)
]

create-IsPlain :
    (o : Options) (c : Controller)
    → is_some o.recorded ≡ true
    → o.typed_replay_retry_ordinals ≡ none
    → create o ≡ created c
    → IsPlain c
unfolding create
create-IsPlain o c on t h = elim (Option-cases (add_entries (get_or o.recorded []) (blank o))) [
  | inl failed_now ↦ absurd (ground arith)
  | inr (d, found) ↦
      let d_plain =
        entries-IsPlain (get_or o.recorded []) (blank o) d found ((λ m. absurd (cc)), t, on) in
      let same : d ≡ c = ground arith in subst IsPlain same d_plain
]

-- The replayed calls are a prefix: in a run that replays a record without typed retries, once one
-- agent call is not answered from the record, no later agent call is, whatever calls the run makes
-- before it and in between.
pub run-create-prefix :
    (hash : Text → Text) (o : Options) (c : Controller) (before : List Event) (call : Call)
    (between : List Event) (later : Call) (text : Text) (s : Option Structured)
    → is_some o.recorded ≡ true
    → o.typed_replay_retry_ordinals ≡ none
    → create o ≡ created c
    → is_replayed (begin_agent_attempt hash (run hash before c) call).1 ≡ false
    → (begin_agent_attempt hash
        (run hash between (begin_agent_attempt hash (run hash before c) call).0)
        later).1
      ≢ replayed text s
run-create-prefix hash o c before call between later text s on t made missed =
    let p = run-IsPlain hash before c (create-IsPlain o c on t made) in
    missed_first hash (run hash before c) call between later text s p.0 p.1 p.2 missed
