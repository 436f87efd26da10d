-- ===== src/Groups/Workers.antt =====
-- workflow-groups.ts: the worker loop of `runScheduled`.
use locus_pi.Common.{
  ℕ, zero, suc, ◌+◌, min, Option, none, some, ◌==◌, ltb, if◌then◌else◌, is_some, any, List, [], ◌∷◌,
}

-- What a thunk comes to.
pub data Outcome (T E : Type 0) : Type 0 where
  fulfilled : T → Outcome T E
  rejected : E → Outcome T E

pub record State (T E : Type 0) : Type 0 where
  pub out : ℕ → Option T
  pub next : ℕ
  pub failure : Option E
  pub running : List ℕ
  pub workers : ℕ

abbrev pub remove_one : ℕ → List ℕ → List ℕ
remove_one i [] = []
remove_one i (j ∷ js) = if j == i then js else j ∷ remove_one i js

-- `failure ??= { error }`
abbrev pub keep_first : {E : Type 0} → Option E → E → Option E
keep_first none e = some e
keep_first (some f) e = some f

-- A thunk settles, with the error of `assertDispatch` at the worker's next turn, if it throws there.
pub data Event (E : Type 0) : Type 0 where
  settles : ℕ → Option E → Event E

module _ {T E : Type 0} (total : ℕ) (outcome : ℕ → Outcome T E) where
  abbrev pub begin_thunk : State T E → State T E
  begin_thunk s = record s { next = s.next + 1; running = s.next ∷ s.running }

  abbrev pub dispatch : State T E → State T E
  dispatch s = if ltb s.next total then begin_thunk s else record s { next = s.next + 1 }

  -- One turn of a worker at the head of its loop.
  unfoldable pub turn : Option E → State T E → State T E
  turn refusal s =
      if is_some s.failure
      then s
      else elim refusal [ some e ↦ record s { failure = some e } | none ↦ dispatch s ]

  abbrev pub absorb : ℕ → Outcome T E → State T E → State T E
  absorb i (fulfilled v) s = record s { out = λ j. if j == i then some v else s.out j }
  absorb i (rejected e) s = record s { failure = keep_first s.failure e }

  unfoldable pub settle : ℕ → Option E → State T E → State T E
  unfolding turn
  settle i refusal s =
      if any (λ j. j == i) s.running
      then turn refusal (absorb i (outcome i) (record s { running = remove_one i s.running }))
      else s

  unfoldable pub run : List (Event E) → State T E → State T E
  unfolding settle
  run [] s = s
  run (settles i refusal ∷ es) s = run es (settle i refusal s)

  abbrev pub no_workers : State T E
  no_workers = record { out = λ i. none; next = 0; failure = none; running = []; workers = 0 }

  -- `refusal k`: the error of `assertDispatch` at the first turn of worker `k`.
  unfoldable pub start_workers : (ℕ → Option E) → ℕ → State T E
  unfolding turn
  start_workers refusal zero = no_workers
  start_workers refusal (suc k) =
      let s = start_workers refusal k in turn (refusal k) (record s { workers = s.workers + 1 })

  unfoldable pub start : ℕ → (ℕ → Option E) → State T E
  unfolding start_workers
  start width refusal = start_workers refusal (min width total)

  -- What `runScheduled` comes to: nothing while a thunk is in flight; `last` is the last
  -- `assertDispatch`.
  unfoldable pub finished : Option E → State T E → Option (Outcome (ℕ → Option T) E)
  finished last s = elim s.running [
    | j ∷ js ↦ none
    | [] ↦ elim s.failure [
      | some e ↦ some (rejected e)
      | none ↦ elim last [ some e ↦ some (rejected e) | none ↦ some (fulfilled s.out) ]
    ]
  ]
