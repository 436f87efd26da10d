-- ===== src/Replay/Soundness.antt =====
-- workflow-replay.ts: what a replayed answer proves.
use locus_pi.Common.{
  ℕ, ◌+◌, ◌≡◌, ◌≢◌, refl, sym, ap, ◌∙◌, Bool, true, false, ◌||◌, inl, inr, Option, none, some,
  arith, Option-cases,
}
use locus_pi.Common.Text.{Text, text_eq_iff}
use locus_pi.Replay.Records.{
  Structured, Recorded, succeeded, failed, AgentEntry, is_current_version, MissReason, Call, Lookup,
  replayed, fresh, thrown, is_retired, no_record, recorded_failure, side_effecting_call,
  recorded_sequence_invalid,
}
use locus_pi.Replay.Controller.{Controller, get_slot, is_retired_slot}
use locus_pi.Replay.Attempts.{
  is_structured, option_eq, miss, identity_problem, reuse, match_entry, lookup_slot, lookup_open,
  lookup_agent, begin_agent_attempt, admit, key_of, same_key, node_problem, name_problem,
}

miss-ne-replayed :
    (c : Controller) (n : ℕ) (call : Call) (r : MissReason) (text : Text) (s : Option Structured)
    → (miss c n call r).1 ≢ replayed text s
unfolding miss
miss-ne-replayed c n call r text s e = ground arith

module _ (hash : Text → Text) (c : Controller) (n : ℕ) (call : Call) where
  -- Everything that the answer of a lookup rests on.
  pub record IsProven (text : Text) (structured : Option Structured) : Type 0 where
    pub entry : AgentEntry
    pub unique_slot : get_slot n c.recorded_agents ≡ some entry
    pub same_request : entry.outcome ≡ succeeded (hash call.canonical_request) text structured
    pub ordered : (is_current_version entry.v || c.require_recorded_prefix) ≡ true
    pub same_name : c.source_script_changed ≡ true → (entry.node ≡ call.node) × (call.node ≢ none)
    pub same_contract :
        is_structured call ≡ true → option_eq entry.rcv call.return_contract_version ≡ true
    pub replayable : call.replayable ≡ true
    pub not_retired : is_retired entry ≡ false
    pub undiverged : c.has_diverged ≡ false
    pub not_refused : c.strict_refusal ≡ none

  -- The identity tests that an entry passed.
  abbrev Passed : AgentEntry → Type 0
  Passed e =
      ((is_current_version e.v || c.require_recorded_prefix) ≡ true)
      × (c.source_script_changed ≡ true → (e.node ≡ call.node) × (call.node ≢ none))
      × (is_structured call ≡ true → option_eq e.rcv call.return_contract_version ≡ true)
      × (same_key (key_of e.outcome) (hash call.canonical_request) ≡ true)

  node_passed : (j m : Option Text) → node_problem j m ≡ none → (j ≡ m) × (m ≢ none)
  node_passed none m e = absurd (cc)
  node_passed (some j) none e = absurd (cc)
  node_passed (some j) (some m) e = (ground (arith, text_eq_iff j m), cc)

  name_passed :
      (changed : Bool) (j m : Option Text)
      → name_problem changed j m ≡ none
      → changed ≡ true
      → (j ≡ m) × (m ≢ none)
  name_passed true j m e h = node_passed j m e
  name_passed false j m e h = absurd (cc)

  identity : (e : AgentEntry) → identity_problem hash c call e ≡ none → Passed e
  unfolding identity_problem
  identity e h =
      let named : name_problem c.source_script_changed e.node call.node ≡ none = ground arith in
      (
        ground arith,
        name_passed c.source_script_changed e.node call.node named,
        (λ s. ground arith),
        ground arith,
      )

  reuse_replayed :
      (o : Recorded) (text : Text) (s : Option Structured)
      → (reuse hash c n call o).1 ≡ replayed text s
      → same_key (key_of o) (hash call.canonical_request) ≡ true
      → (o ≡ succeeded (hash call.canonical_request) text s) × (call.replayable ≡ true)
  unfolding reuse
  reuse_replayed (failed key) text s e k =
      ground (arith, miss-ne-replayed c n call recorded_failure text s)
  reuse_replayed (succeeded key t st) text s e k = ground (
    arith,
    miss-ne-replayed c n call side_effecting_call text s,
    text_eq_iff key (hash call.canonical_request),
  )

  match_replayed :
      (e : AgentEntry) (text : Text) (s : Option Structured)
      → (match_entry hash c n call e).1 ≡ replayed text s
      → (identity_problem hash c call e ≡ none)
        × ((reuse hash c n call e.outcome).1 ≡ replayed text s)
  unfolding match_entry
  match_replayed e text s h = elim (Option-cases (identity_problem hash c call e)) [
    | inl fine ↦ (fine, ground arith)
    | inr (r, found) ↦ absurd (ground (arith, miss-ne-replayed c n call r text s))
  ]

  slot_replayed :
      (o : Option AgentEntry) (text : Text) (s : Option Structured)
      → (lookup_slot hash c n call o).1 ≡ replayed text s
      → (e : AgentEntry) × (o ≡ some e) × ((match_entry hash c n call e).1 ≡ replayed text s)
  unfolding lookup_slot
  slot_replayed (some e) text s h = (e, refl, h)
  slot_replayed none text s h = absurd (
      ground (
        arith,
        miss-ne-replayed c n call no_record text s,
        miss-ne-replayed c n call recorded_sequence_invalid text s,
      ))

  open_replayed :
      (o : Option AgentEntry) (text : Text) (s : Option Structured)
      → (lookup_open hash c n call o).1 ≡ replayed text s
      → (is_retired_slot o ≡ false)
        × (c.has_diverged ≡ false)
        × ((lookup_slot hash c n call o).1 ≡ replayed text s)
  unfolding lookup_open
  open_replayed o text s h = ground arith

  lookup_replayed :
      (text : Text) (s : Option Structured)
      → (lookup_agent hash c n call).1 ≡ replayed text s
      → IsProven text s
  unfolding lookup_agent
  lookup_replayed text s h = elim (Option-cases c.strict_refusal) [
    | inr (r, found) ↦ absurd (ground arith)
    | inl free ↦
        let (retired, undiverged, looked) =
          open_replayed (get_slot n c.recorded_agents) text s (ground arith) in
        let (e, slot, matched) = slot_replayed (get_slot n c.recorded_agents) text s looked in
        let m = match_replayed e text s matched in
        let (ordered, same_name, same_contract, key) = identity e m.0 in
        let (same_request, replayable) = reuse_replayed e.outcome text s m.1 key in
        record {
          entry = e;
          unique_slot = slot;
          same_request = same_request;
          ordered = ordered;
          same_name = same_name;
          same_contract = same_contract;
          replayable = replayable;
          not_retired = ap is_retired_slot (sym slot) ∙ retired;
          undiverged = undiverged;
          not_refused = free;
        }
  ]

admit_replayed :
    (hash : Text → Text) (n : ℕ) (call : Call) (r : Controller × Lookup) (text : Text)
    (s : Option Structured)
    → (admit hash n call r).1 ≡ replayed text s
    → r.1 ≡ replayed text s
admit_replayed hash n call (c, replayed t u) text s h = h
admit_replayed hash n call (c, fresh r) text s h = absurd (cc)
admit_replayed hash n call (c, thrown r) text s h = absurd (cc)

-- A replayed answer is the one text that the record holds for this ordinal under the hash of the
-- very same request: the entry is not retired, its identity was recorded in a current log unless
-- the run demands the whole prefix, its node has the call's name when the source was repaired, its
-- return contract is the call's when that is structured; the call may be replayed, and no earlier
-- call has diverged or been refused.
pub begin_agent_attempt-IsProven :
    (hash : Text → Text) (c : Controller) (call : Call) (text : Text) (s : Option Structured)
    → (begin_agent_attempt hash c call).1 ≡ replayed text s
    → IsProven hash c c.read_cursor call text s
unfolding begin_agent_attempt
begin_agent_attempt-IsProven hash c call text s h =
    let next : Controller = record c { read_cursor = c.read_cursor + 1 } in
    let p = lookup_replayed hash next c.read_cursor call text s (
      admit_replayed hash c.read_cursor call (lookup_agent hash next c.read_cursor call) text s
        h) in
    record {
      entry = p.entry;
      unique_slot = p.unique_slot;
      same_request = p.same_request;
      ordered = p.ordered;
      same_name = p.same_name;
      same_contract = p.same_contract;
      replayable = p.replayable;
      not_retired = p.not_retired;
      undiverged = p.undiverged;
      not_refused = p.not_refused;
    }
