-- ===== src/Replay/Recording.antt =====
-- workflow-replay.ts: what a run writes into its record, call by call.
use locus_pi.Common.{
  ℕ, ◌+◌, ◌≡◌, refl, sym, subst, ap, ◌∙◌, true, false, none, some, List, [], ◌∷◌, ◌++◌, arith, ◌==◌,
  ==_iff,
}
use mathlib.Core.List.{append-nil, append_assoc}
use locus_pi.Common.Text.{Text}
use locus_pi.Replay.Records.{AgentEntry, Entry, agent, Call, no_record, fresh}
use locus_pi.Replay.Controller.{Controller, Admission}
use locus_pi.Replay.Attempts.{
  lookup_open, lookup_agent, begin_agent_attempt, log_entry, record_admitted, record_agent_attempt,
}

-- An agent call, and the text that the agent answers.
abbrev pub Attempt : Type 0
Attempt = Call × Text

module _ (hash : Text → Text) where
  abbrev pub entry_of : ℕ → Attempt → AgentEntry
  entry_of n (call, text) = log_entry hash n call (some (text, none))

  -- One call after the other: begun, and settled with its answer.
  unfoldable pub attempt : Controller → Attempt → Controller
  unfolding begin_agent_attempt record_agent_attempt
  attempt c (call, text) =
      (record_agent_attempt hash (begin_agent_attempt hash c call).0 c.read_cursor
        (some (text, none))).0

  unfoldable pub attempts : Controller → List Attempt → Controller
  unfolding attempt
  attempts c [] = c
  attempts c (a ∷ as_) = attempts (attempt c a) as_

  abbrev pub entries_from : ℕ → List Attempt → List Entry
  entries_from n [] = []
  entries_from n (a ∷ rest) = agent (entry_of n a) ∷ entries_from (n + 1) rest

  -- A controller that records and replays nothing, with no call in flight.
  abbrev pub IsRecording : Controller → Type 0
  IsRecording c =
      (c.replay_enabled ≡ false)
      × (c.strict_refusal ≡ none)
      × (c.recorded_agents ≡ [])
      × (c.admissions ≡ [])

  abbrev IsNext : Controller → Attempt → Controller → Type 0
  IsNext c a d =
      IsRecording d
      × (d.read_cursor ≡ c.read_cursor + 1)
      × (d.log ≡ c.log ++ agent (entry_of c.read_cursor a) ∷ [])

  abbrev admission : Controller → Call → Admission
  admission c call = record { seq = c.read_cursor; call = call; was_replayed = false }

  abbrev begun : Controller → Call → Controller
  begun c call = record c {
    read_cursor = c.read_cursor + 1;
    fresh_calls = c.fresh_calls + 1;
    admissions = admission c call ∷ [];
  }

  begin_recording :
      (c : Controller) (call : Call)
      → IsRecording c
      → begin_agent_attempt hash c call ≡ (begun c call, fresh no_record)
  unfolding begin_agent_attempt lookup_agent lookup_open
  begin_recording c call (off, free, empty, idle) = ground arith

  settle_recording :
      (c : Controller) (call : Call) (text : Text)
      → (record_agent_attempt hash (begun c call) c.read_cursor (some (text, none))).0
        ≡ record (begun c call) {
          admissions = [];
          log = c.log ++ agent (entry_of c.read_cursor (call, text)) ∷ [];
        }
  unfolding record_agent_attempt record_admitted
  settle_recording c call text =
      let here : (c.read_cursor == c.read_cursor) ≡ true =
        (==_iff c.read_cursor c.read_cursor).1 refl in
      ground arith

  attempt-IsNext :
      (c : Controller) (call : Call) (text : Text)
      → IsRecording c
      → IsNext c (call, text) (attempt c (call, text))
  unfolding attempt
  attempt-IsNext c call text h =
      let whole : attempt c (call, text) ≡ record (begun c call) {
        admissions = [];
        log = c.log ++ agent (entry_of c.read_cursor (call, text)) ∷ [];
      } =
        ap (λ r. (record_agent_attempt hash r.0 c.read_cursor (some (text, none))).0)
          (begin_recording c call h)
        ∙ settle_recording c call text in
      subst (IsNext c (call, text)) (sym whole) ((h.0, h.1, h.2, refl), refl, refl)

  -- The record of a run is one entry for each call, in order.
  pub attempts-log :
      (rest : List Attempt) (c : Controller)
      → IsRecording c
      → (attempts c rest).log ≡ c.log ++ entries_from c.read_cursor rest
  unfolding attempts
  attempts-log [] c h = sym (append-nil c.log)
  attempts-log ((call, text) ∷ rest) c h =
      let (next, cursor, written) = attempt-IsNext c call text h in
      attempts-log rest (attempt c (call, text)) next
      ∙ ap (λ n. (attempt c (call, text)).log ++ entries_from n rest) cursor
      ∙ ap (◌++ entries_from (c.read_cursor + 1) rest) written
      ∙ append_assoc c.log (agent (entry_of c.read_cursor (call, text)) ∷ [])
          (entries_from (c.read_cursor + 1) rest)
