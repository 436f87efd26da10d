-- ===== src/Replay/RoundTrip.antt =====
-- workflow-replay.ts: a recorded run replays to its own answers.
use locus_pi.Common.{
  ℕ, ◌+◌, ◌≡◌, refl, sym, subst, ap, ◌∙◌, true, false, Option, none, some, List, [], ◌∷◌, ◌++◌,
  arith, ◌==◌, ==_iff, map, All,
}
use locus_pi.Common.Text.{Text, text_eq_refl}
use locus_pi.Replay.Records.{Entry, agent, Call, Lookup, replayed}
use locus_pi.Replay.Controller.{Controller, get_slot, add_entries, blank, Options, create, created}
use locus_pi.Replay.Attempts.{
  option_eq, identity_problem, reuse, match_entry, lookup_slot, lookup_open, lookup_agent,
  begin_agent_attempt, record_admitted, record_agent_attempt,
}
use locus_pi.Replay.Recording.{Attempt, entry_of, attempt, attempts, entries_from, attempts-log}
use locus_pi.Replay.Loading.{IsReplayable, Holds, IsReplaying, unretired, load, loads}

-- A run that records, and one that replays a record, of an unchanged source.
abbrev pub recording_options : Options
recording_options = record {
  recorded = none;
  typed_replay_retry_ordinals = none;
  require_recorded_prefix = false;
  source_script_changed = false;
}

abbrev pub replaying_options : List Entry → Options
replaying_options log = record recording_options { recorded = some log }

module _ (hash : Text → Text) where
  -- The answers of a run's calls, each call settled with its text before the next one.
  unfoldable pub answers : Controller → List Attempt → List Lookup
  unfolding begin_agent_attempt attempt
  answers c [] = []
  answers c ((call, text) ∷ rest) =
      (begin_agent_attempt hash c call).1 ∷ answers (attempt hash c (call, text)) rest

  option_eq_refl : (v : Option ℕ) → option_eq v v ≡ true
  option_eq_refl none = refl
  option_eq_refl (some n) = (==_iff n n).1 refl

  no_problem :
      (m : ℕ) (c : Controller) (call : Call) (text : Text)
      → c.source_script_changed ≡ false
      → identity_problem hash c call (entry_of hash m (call, text)) ≡ none
  unfolding identity_problem
  no_problem m c call text h = ground (
    arith,
    option_eq_refl call.return_contract_version,
    text_eq_refl (hash call.canonical_request),
  )

  abbrev opened : Controller → Call → Controller
  opened c call = record c {
    read_cursor = c.read_cursor + 1;
    replayed_calls = c.replayed_calls + 1;
    admissions = record { seq = c.read_cursor; call = call; was_replayed = true } ∷ [];
  }

  begin_replaying :
      (c : Controller) (call : Call) (text : Text)
      → IsReplaying hash c.read_cursor c
      → get_slot c.read_cursor c.recorded_agents ≡ some (entry_of hash c.read_cursor (call, text))
      → IsReplayable hash (call, text)
      → begin_agent_attempt hash c call ≡ (opened c call, replayed text none)
  unfolding begin_agent_attempt lookup_agent lookup_open lookup_slot match_entry reuse
  begin_replaying c call text (on, undiverged, free, same_source, _, idle) found r =
      let next : Controller = record c { read_cursor = c.read_cursor + 1 } in
      let fine = no_problem c.read_cursor next call text same_source in
      let live = unretired hash c.read_cursor call text r in
      let may : call.replayable ≡ true = r.0 in ground arith

  settle_replaying :
      (c : Controller) (call : Call) (text : Text)
      → (record_agent_attempt hash (opened c call) c.read_cursor (some (text, none))).0
        ≡ record (opened c call) {
          admissions = [];
          log = c.log ++ agent (entry_of hash c.read_cursor (call, text)) ∷ [];
        }
  unfolding record_agent_attempt record_admitted
  settle_replaying c call text =
      let here : (c.read_cursor == c.read_cursor) ≡ true =
        (==_iff c.read_cursor c.read_cursor).1 refl in
      ground arith

  -- Such a call leaves the record as it is, and the controller at the next call.
  abbrev IsAfter : ℕ → Controller → Controller → Type 0
  IsAfter n c d = IsReplaying hash (n + 1) d × (d.recorded_agents ≡ c.recorded_agents)

  attempt-IsAfter :
      (c : Controller) (call : Call) (text : Text)
      → IsReplaying hash c.read_cursor c
      → begin_agent_attempt hash c call ≡ (opened c call, replayed text none)
      → IsAfter c.read_cursor c (attempt hash c (call, text))
  unfolding attempt
  attempt-IsAfter c call text (on, undiverged, free, same_source, _, idle) begun =
      let whole : attempt hash c (call, text) ≡ record (opened c call) {
        admissions = [];
        log = c.log ++ agent (entry_of hash c.read_cursor (call, text)) ∷ [];
      } =
        ap (λ r. (record_agent_attempt hash r.0 c.read_cursor (some (text, none))).0) begun
        ∙ settle_replaying c call text in
      subst (IsAfter c.read_cursor c) (sym whole)
        ((on, undiverged, free, same_source, refl, refl), refl)

  replay-All :
      (rest : List Attempt) (n : ℕ) (c : Controller)
      → All (IsReplayable hash) rest
      → IsReplaying hash n c
      → Holds hash c.recorded_agents n rest
      → answers c rest ≡ map (λ a. replayed a.1 none) rest
  unfolding answers
  replay-All [] n c r h held = refl
  replay-All ((call, text) ∷ rest) n c (r, rs) h (mine, held) =
      let cursor : n ≡ c.read_cursor = sym h.4 in
      let here : IsReplaying hash c.read_cursor c = subst (λ k. IsReplaying hash k c) cursor h in
      let slot : get_slot c.read_cursor c.recorded_agents
          ≡ some (entry_of hash c.read_cursor (call, text)) =
        subst (λ k. get_slot k c.recorded_agents ≡ some (entry_of hash k (call, text))) cursor
          mine in
      let begun = begin_replaying c call text here slot r in
      let (next, same) = attempt-IsAfter c call text here begun in
      let moved : IsReplaying hash (n + 1) (attempt hash c (call, text)) =
        subst (λ k. IsReplaying hash (k + 1) (attempt hash c (call, text))) (sym cursor) next in
      let kept : Holds hash (attempt hash c (call, text)).recorded_agents (n + 1) rest =
        subst (λ s. Holds hash s (n + 1) rest) (sym same) held in
      let first : (begin_agent_attempt hash c call).1 ≡ replayed text none = ap (λ p. p.1) begun in
      ap (◌∷ answers (attempt hash c (call, text)) rest) first
      ∙ ap (replayed text none ∷◌)
          (replay-All rest (n + 1) (attempt hash c (call, text)) rs moved kept)

  create_loaded :
      (log : List Entry) (d : Controller)
      → add_entries log (blank (replaying_options log)) ≡ some d
      → create (replaying_options log) ≡ created d
  unfolding create
  create_loaded log d h = ground arith

  -- Round trip: when a run records its agent calls, each settled with its answer before the next one,
  -- then a second run can be created on that record, and when it makes the same calls each is
  -- answered from the record with the recorded text, and none runs anew. The calls may be replayed
  -- and are of no retired contract; the source is unchanged.
  pub answers-attempts :
      (calls : List Attempt)
      → All (IsReplayable hash) calls
      → (d : Controller) × (create
            (replaying_options (attempts hash (blank recording_options) calls).log)
          ≡ created d)
        × (answers d calls ≡ map (λ a. replayed a.1 none) calls)
  answers-attempts calls r =
      let log = (attempts hash (blank recording_options) calls).log in
      let written : log ≡ entries_from hash 0 calls =
        attempts-log hash calls (blank recording_options) (refl, refl, refl, refl) in
      let empty = blank (replaying_options log) in
      let (d, loaded) = loads hash calls 0 empty r in
      let (held, _, framed) = load hash calls 0 empty d r (λ m le. refl) loaded in
      (
        d,
        create_loaded log d (ap (λ es. add_entries es empty) written ∙ loaded),
        replay-All calls 0 d r (framed (refl, refl, refl, refl, refl, refl)) held,
      )
