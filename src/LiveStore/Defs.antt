-- ===== src/LiveStore/Defs.antt =====
-- The methods of the live store: extensions/_shared/agent-runtime/agent-live-store.ts.
--
-- The time and the names that the host makes up are arguments. A listener that changes the store while
-- it hears of a change is a function from stores, where the method goes on after it.
use locus_pi.Common.{
  ℕ, ◌+◌, Bool, List, [], ◌∷◌, Option, none, some, is_some, if◌then◌else◌, ◌==◌, get_elem?,
}
use locus_pi.Common.Text.{Text}
use locus_pi.Common.Map.{lookup, discard}
use locus_pi.Names
use locus_pi.Names.{Registry, new_registry}
use locus_pi.LiveStore.Records.{Store}

abbrev pub new_store : Store
new_store = record {
  rows = [];
  agent_names = [];
  petnames = new_registry;
  execution_authorities = [];
  execution_rows = [];
  cancel_registrations = [];
  cancellation_rows = [];
  input_registrations = [];
  next_input = 0;
  transcripts = [];
  next_id = 0;
  cancels = [];
  changes = 0;
}

abbrev pub emit : Store → Store
emit s = record s { changes = s.changes + 1 }

unfoldable pub reset : Store → Store
reset s = emit (record s {
  rows = [];
  agent_names = [];
  petnames = new_registry;
  execution_authorities = [];
  cancel_registrations = [];
  input_registrations = [];
  transcripts = [];
})

-- One round of `removeRows`: what belongs to a row that is there.
abbrev pub remove_row : Store → Text → Store
remove_row s id = record s {
  rows = discard s.rows id;
  agent_names = discard s.agent_names id;
  petnames = (Names.release s.petnames id).0;
  execution_authorities = discard s.execution_authorities id;
  cancel_registrations = discard s.cancel_registrations id;
  input_registrations = discard s.input_registrations id;
  transcripts = discard s.transcripts id;
}

unfoldable pub remove_from : Store → List Text → ℕ → Store × ℕ
remove_from s [] removed = (s, removed)
remove_from s (id ∷ ids) removed =
    let kept = remove_from s ids removed in
    let gone = remove_from (remove_row s id) ids (removed + 1) in
    if is_some (lookup s.rows id) then gone else kept

-- `removeRows`
unfoldable pub remove_rows : Store → List Text → Store × ℕ
unfolding remove_from
remove_rows s ids =
    let (s', removed) = remove_from s ids 0 in (if removed == 0 then s' else emit s', removed)

-- `#currentExecutionRowId`
unfoldable pub current_row : Store → ℕ → Option Text
current_row s h = elim (get_elem? s.execution_rows h) [
  | none ↦ none
  | some id ↦ elim (lookup s.execution_authorities id) [
    | none ↦ none
    | some k ↦ if k == h then some id else none
  ]
]

abbrev pub is_current : Store → ℕ → Bool
is_current s h = is_some (current_row s h)
