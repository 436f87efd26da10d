-- ===== src/Runs/Records.antt =====
-- background-run-registry.ts: the registry's state, its keys and its session map.
use locus_pi.Common.{
  ℕ, Bool, true, false, not, ◌&&◌, List, [], ◌∷◌, ◌++◌, Option, none, some, ◌==◌, if◌then◌else◌,
  keep, find?,
}
use locus_pi.Common.Text.{Text, text_eq}

-- `WorkflowSessionLease`
pub record Lease : Type 0 where
  pub project_root : Text
  pub session_id : Text
  pub generation : ℕ

pub data RunState : Type 0 where
  running stopping settled : RunState

pub data Settlement : Type 0 where
  fulfilled rejected : ℕ → Settlement

-- The reason that a run's controller was aborted with.
pub data AbortReason : Type 0 where
  operator_stop session_shutdown : AbortReason
  host_abort : ℕ → AbortReason

-- `WorkflowBackgroundRunRecord`, with its abort controller and the host signal that it follows while
-- it has not settled.
pub record Run : Type 0 where
  pub launch_id : Text
  pub lease : Lease
  pub state : RunState
  pub stop_requested : Bool
  pub exclusive : Bool
  pub started_order : ℕ
  pub run_id : Option Text
  pub settlement : Option Settlement
  pub aborted : Option AbortReason
  pub host_signal : Option ℕ

pub record Session : Type 0 where
  pub key : Text
  pub generation : ℕ
  pub revoked : Bool

pub record Registry : Type 0 where
  pub next_generation : ℕ
  pub next_run : ℕ
  pub sessions : List Session
  pub runs : List Run

unfoldable pub empty : Registry
empty = record { next_generation = 1; next_run = 1; sessions = []; runs = [] }

abbrev pub settled_run_limit : ℕ
settled_run_limit = 40

abbrev pub is_settled : RunState → Bool
is_settled settled = true
is_settled _ = false

-- `sessionKey`: the two parts joined by a NUL.
abbrev pub session_key : Text → Text → Text
session_key project_root session_id = project_root ++ 0 ∷ session_id

abbrev pub same_session : Lease → Lease → Bool
same_session left right =
    text_eq left.project_root right.project_root && text_eq left.session_id right.session_id

-- `Map.get`, `Map.set` (in place, or at the end) and `Map.delete` of the sessions.
abbrev pub get_session : Text → List Session → Option Session
get_session k = find? (λ s. text_eq s.key k)

abbrev pub set_session : Session → List Session → List Session
set_session new [] = new ∷ []
set_session new (s ∷ ss) = if text_eq s.key new.key then new ∷ ss else s ∷ set_session new ss

abbrev pub delete_session : Text → List Session → List Session
delete_session k = keep (λ s. not (text_eq s.key k))

abbrev pub lease_key : Lease → Text
lease_key lease = session_key lease.project_root lease.session_id

abbrev pub is_live : ℕ → Option Session → Bool
is_live generation none = false
is_live generation (some s) = s.generation == generation && not s.revoked

unfoldable pub is_current_lease : Registry → Lease → Bool
is_current_lease state lease =
    is_live lease.generation (get_session (lease_key lease) state.sessions)
