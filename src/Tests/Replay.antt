-- ===== src/Tests/Replay.antt =====
-- The replay controller at concrete inputs.
use locus_pi.Common.{map, ℕ, ◌≡◌, ◌≢◌, refl, true, false, none, some, List, [], ◌∷◌}
use locus_pi.Common.Text.{Text, codes}
use locus_pi.Replay.Records.{
  succeeded, v4, Entry, agent, Call, Refusal, strict, replayed, thrown, key_mismatch, clock,
}
use locus_pi.Replay.Controller.{Controller, Options, create, created, blank, refuse_prefix}
use locus_pi.Replay.Attempts.{miss, begin_agent_attempt, record_agent_attempt}
use locus_pi.Replay.Values.{resolve_value, failed_value, counts}
use locus_pi.Replay.Soundness.{IsProven, begin_agent_attempt-IsProven}
use locus_pi.Replay.Strict.{Event, begin, resolve, step, run, run_refused}
use locus_pi.Replay.Modes.{run-create-prefix}
use locus_pi.Replay.Recording.{Attempt, attempts}
use locus_pi.Replay.RoundTrip.{answers, recording_options, replaying_options, answers-attempts}

-- A stand-in for SHA-256.
abbrev hash : Text → Text
hash t = 9 ∷ t

abbrev call_for : ℕ → Call
call_for n = record {
  node = none;
  canonical_request = n ∷ [];
  return_contract_version = none;
  replayable = true;
}

abbrev entry_for : ℕ → Entry
entry_for n = agent (record {
  v = v4;
  seq = n;
  node = none;
  rcv = none;
  outcome = succeeded (9 ∷ n ∷ []) (codes "answer") none;
})

abbrev options : Options
options = record {
  recorded = some (entry_for 0 ∷ entry_for 1 ∷ []);
  typed_replay_retry_ordinals = none;
  require_recorded_prefix = false;
  source_script_changed = false;
}

abbrev replaying : Controller
replaying = record (blank options) {
  recorded_agents =
      (
        0,
        some (record {
          v = v4;
          seq = 0;
          node = none;
          rcv = none;
          outcome = succeeded (9 ∷ 0 ∷ []) (codes "answer") none;
        }),
      )
      ∷ (
        1,
        some (record {
          v = v4;
          seq = 1;
          node = none;
          rcv = none;
          outcome = succeeded (9 ∷ 1 ∷ []) (codes "answer") none;
        }),
      )
      ∷ [];
  recorded_agent_extent = 2;
}

replay : Unit {0}
unfolding create begin_agent_attempt record_agent_attempt resolve_value step run counts miss
    refuse_prefix
replay = tt

create_test : create options ≡ created replaying
unfolding replay
create_test = refl

-- The second call asks for something else, and the third is not looked up.
abbrev calls : List Event
calls = begin (call_for 0) ∷ begin (call_for 7) ∷ begin (call_for 2) ∷ []

counts_test : counts (run hash calls replaying) ≡ (1, 2, some 1, none)
unfolding replay
counts_test = refl

begin_agent_attempt-IsProven_example : IsProven hash replaying 0 (call_for 0) (codes "answer") none
unfolding replay
begin_agent_attempt-IsProven_example =
    begin_agent_attempt-IsProven hash replaying (call_for 0) (codes "answer") none refl

run-create-prefix_example :
    (begin_agent_attempt hash
      (run hash []
        (begin_agent_attempt hash (run hash (begin (call_for 0) ∷ []) replaying) (call_for 7)).0)
      (call_for 1)).1
    ≢ replayed (codes "answer") none
unfolding replay
run-create-prefix_example =
    run-create-prefix hash options replaying (begin (call_for 0) ∷ []) (call_for 7) [] (call_for 1)
      (codes "answer") none refl refl create_test refl

abbrev refusal : Refusal
refusal = record { typed = false; ordinal = 1; reason = key_mismatch }

abbrev recovering : Controller
recovering = record replaying { require_recorded_prefix = true }

abbrev stopped : Controller
stopped = run hash (begin (call_for 0) ∷ begin (call_for 7) ∷ []) recovering

run_refused_example :
    ((run hash (resolve clock 5 ∷ []) stopped).strict_refusal ≡ some refusal)
    × ((begin_agent_attempt hash (run hash (resolve clock 5 ∷ []) stopped) (call_for 1)).1
        ≡ thrown (strict refusal))
    × ((resolve_value (run hash (resolve clock 5 ∷ []) stopped) clock 3).1
        ≡ failed_value (strict refusal))
unfolding replay
run_refused_example =
    run_refused hash (resolve clock 5 ∷ []) stopped refusal (call_for 1) clock 3 refl

-- Two calls are recorded and replayed.
abbrev recorded_run : List Attempt
recorded_run = (call_for 4, codes "one") ∷ (call_for 5, codes "two") ∷ []

answers-attempts_example :
    (d : Controller) × (create
        (replaying_options (attempts hash (blank recording_options) recorded_run).log)
      ≡ created d)
    × (answers hash d recorded_run ≡ map (λ a. replayed a.1 none) recorded_run)
answers-attempts_example =
    answers-attempts hash recorded_run ((refl, λ e. absurd (cc)), ((refl, λ e. absurd (cc)), tt))
