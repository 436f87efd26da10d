-- ===== src/Replay/Controller.antt =====
-- workflow-replay.ts: `FileBackedWorkflowReplayController`.
use locus_pi.Common.{
  ℕ, ◌+◌, max, Bool, true, false, not, ◌&&◌, ◌||◌, Option, none, some, ◌==◌, ltb, List, [], ◌∷◌,
  if◌then◌else◌, is_some, get_or,
}
use locus_pi.Common.Text.{Text}
use locus_pi.Replay.Records.{
  AgentEntry, ValueKind, clock, random, ValueEntry, Entry, agent, value, is_current_version,
  MissReason, Call, Refusal, Error, unordered_native, typed_without_record, is_retired,
  retired_marker,
}

pub record Admission : Type 0 where
  pub seq : ℕ
  pub call : Call
  pub was_replayed : Bool

-- A map from ordinals; `some none` is an ordinal that was recorded twice.
abbrev pub Slots : Type 0 → Type 0
Slots A = List (ℕ × Option A)

pub record Controller : Type 0 where
  pub recorded_agents : Slots AgentEntry
  pub recorded_agent_extent : ℕ
  pub recorded_clocks : Slots ℕ
  pub recorded_randoms : Slots ℕ
  pub replay_enabled : Bool
  pub source_script_changed : Bool
  pub require_recorded_prefix : Bool
  pub typed_retry_ordinals : Option (List ℕ)
  pub read_cursor : ℕ
  pub clock_cursor : ℕ
  pub random_cursor : ℕ
  pub has_diverged : Bool
  pub strict_refusal : Option Refusal
  pub diverged_at_call : Option ℕ
  pub diverged_at_node : Option Text
  pub replayed_calls : ℕ
  pub fresh_calls : ℕ
  pub admissions : List Admission
  pub log : List Entry

-- `Map.has`, `Map.get` (a missing key and a stored `undefined` read alike) and `Map.set`.
module _ {A : Type 0} where
  abbrev pub has_slot : ℕ → Slots A → Bool
  has_slot n [] = false
  has_slot n ((m, a) ∷ slots) = m == n || has_slot n slots

  abbrev pub get_slot : ℕ → Slots A → Option A
  get_slot n [] = none
  get_slot n ((m, a) ∷ slots) = if m == n then a else get_slot n slots

  abbrev pub set_slot : ℕ → Option A → Slots A → Slots A
  set_slot n a [] = (n, a) ∷ []
  set_slot n a ((m, b) ∷ slots) = if m == n then (n, a) ∷ slots else (m, b) ∷ set_slot n a slots

abbrev pub is_retired_slot : Option AgentEntry → Bool
is_retired_slot none = false
is_retired_slot (some e) = is_retired e

-- The slot of an agent entry: a retired one wins, and a duplicate leaves no winner.
abbrev pub merge_agent : AgentEntry → Slots AgentEntry → Option AgentEntry
merge_agent e slots =
    if is_retired e
    then some e
    else if is_retired_slot (get_slot e.seq slots)
    then get_slot e.seq slots
    else if has_slot e.seq slots
    then none
    else some e

abbrev merge_value : ValueEntry → Slots ℕ → Option ℕ
merge_value e slots = if has_slot e.seq slots then none else some e.value

abbrev pub add_agent : AgentEntry → Controller → Controller
add_agent e c = record c {
  recorded_agents = set_slot e.seq (merge_agent e c.recorded_agents) c.recorded_agents;
  recorded_agent_extent = max c.recorded_agent_extent (e.seq + 1);
}

abbrev pub add_value : ValueKind → ValueEntry → Controller → Controller
add_value clock e c = record c {
  recorded_clocks = set_slot e.seq (merge_value e c.recorded_clocks) c.recorded_clocks;
}
add_value random e c = record c {
  recorded_randoms = set_slot e.seq (merge_value e c.recorded_randoms) c.recorded_randoms;
}

-- One round of the constructor's loops over the record; `none` is the refusal of a retired entry
-- whose admission order is unproven.
abbrev pub add_entry : Entry → Controller → Option Controller
add_entry (value e) c = some (add_value e.kind e c)
add_entry (agent e) c =
    if is_retired e
    then if is_current_version e.v then some (add_agent (retired_marker e) c) else none
    else some (add_agent e c)

unfoldable pub add_entries : List Entry → Controller → Option Controller
add_entries [] c = some c
add_entries (e ∷ es) c = elim (add_entry e c) [ none ↦ none | some c' ↦ add_entries es c' ]

-- `CreateWorkflowReplayControllerOptions`, but for the run directory.
pub record Options : Type 0 where
  pub recorded : Option (List Entry)
  pub typed_replay_retry_ordinals : Option (List ℕ)
  pub require_recorded_prefix : Bool
  pub source_script_changed : Bool

abbrev pub blank : Options → Controller
blank o = record {
  recorded_agents = [];
  recorded_agent_extent = 0;
  recorded_clocks = [];
  recorded_randoms = [];
  replay_enabled = is_some o.recorded;
  source_script_changed = o.source_script_changed;
  require_recorded_prefix = o.require_recorded_prefix;
  typed_retry_ordinals = o.typed_replay_retry_ordinals;
  read_cursor = 0;
  clock_cursor = 0;
  random_cursor = 0;
  has_diverged = false;
  strict_refusal = none;
  diverged_at_call = none;
  diverged_at_node = none;
  replayed_calls = 0;
  fresh_calls = 0;
  admissions = [];
  log = [];
}

pub data Created : Type 0 where
  created : Controller → Created
  refused : Error → Created

abbrev or_refused : Option Controller → Created
or_refused none = refused unordered_native
or_refused (some c) = created c

-- The constructor. The retired entries are checked before the typed options.
unfoldable pub create : Options → Created
unfolding add_entries
create o = elim (add_entries (get_or o.recorded []) (blank o)) [
  | none ↦ refused unordered_native
  | some c ↦
      if is_some o.typed_replay_retry_ordinals && not (is_some o.recorded)
      then refused typed_without_record
      else created c
]

-- `#refusePrefix`
abbrev earlier : ℕ → Option ℕ → Bool
earlier n none = true
earlier n (some m) = ltb n m

abbrev is_strict : Controller → ℕ → Bool
is_strict c ordinal =
    is_some c.typed_retry_ordinals
    || (c.require_recorded_prefix && ltb ordinal c.recorded_agent_extent)

abbrev keep_first : Option Refusal → Refusal → Option Refusal
keep_first none a = some a
keep_first (some b) a = some b

unfoldable pub refuse_prefix : Controller → ℕ → Option Text → MissReason → Controller
refuse_prefix c ordinal node reason = record c {
  has_diverged = true;
  diverged_at_call =
      if earlier ordinal c.diverged_at_call then some ordinal else c.diverged_at_call;
  diverged_at_node = if earlier ordinal c.diverged_at_call then node else c.diverged_at_node;
  strict_refusal =
      if is_strict c ordinal
      then keep_first c.strict_refusal
          (record { typed = is_some c.typed_retry_ordinals; ordinal = ordinal; reason = reason })
      else c.strict_refusal;
}
