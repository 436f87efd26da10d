-- ===== src/Execution/Budget.antt =====
-- extensions/_shared/runtime/execution-budget.ts, the ledger of physical agent launches.
--
-- The closure of `createExecutionBudget` is the record `Budget`: its `let` counters, and the
-- reservations that the weak map knows, in the order of their creation. A reservation object is its
-- position in that list; a position outside is an object of another root. `nowMs` is an argument of
-- the two operations that read the clock. `-` on ℕ stops at 0 where the source goes below: in
-- `assert_deadline` only an elapsed time above the limit is used, and the invariant of
-- Execution.Budget.Invariant keeps every other subtraction exact. Sums are exact: the rounding of
-- doubles, when an unbounded ledger holds several reservations near `MAX_SAFE_INTEGER`, is not modelled.
pub mod Invariant
pub mod Guarantees
use locus_pi.Common.{
  ℕ, suc, ◌+◌, ◌-◌, Bool, true, false, not, ◌||◌, List, [], ◌∷◌, ◌++◌, Option, none, some, ltb, leb,
  if◌then◌else◌, length, get_elem?, set,
}
use locus_pi.Common.Number.{Number, pos, is_positive_safe}

pub data Axis : Type 0 where
  total_agents_axis runtime_ms_axis : Axis

-- The errors that the ledger throws; `capError` and `deadlineError` of the options keep their
-- arguments.
pub data Error : Type 0 where
  bad_axis : Axis → Error
  bad_count : Error
  foreign_reservation : Error
  cap : ℕ → Option ℕ → Option ℕ → Error
  deadline : (runtime elapsed : ℕ) → Error

pub data Result {ℓ} (A : Type ℓ) : Type ℓ where
  ok : A → Result A
  err : Error → Result A

infixl 5 ◌>>=◌
abbrev pub ◌>>=◌ {ℓ κ} : {A : Type ℓ} {B : Type κ} → Result A → (A → Result B) → Result B
ok a >>= f = f a
err e >>= f = err e

pub record Reservation : Type 0 where
  pub remaining : ℕ
  pub active : Bool

pub record Budget : Type 0 where
  pub total_agents : Option ℕ
  pub runtime_ms : Option ℕ
  pub started : ℕ
  pub sequence : ℕ
  pub charged : ℕ
  pub replayed : ℕ
  pub reserved : ℕ
  pub reservations : List Reservation

pub data Kind : Type 0 where
  fresh replay : Kind

-- One round of the validation loop: an absent option passes.
unfoldable pub check_axis : Axis → Option Number → Result (Option ℕ)
check_axis axis none = ok none
check_axis axis (some (pos n)) =
    if is_positive_safe (pos n) then ok (some n) else err (bad_axis axis)
check_axis axis (some v) = err (bad_axis axis)

unfoldable pub create : Option Number → Option Number → ℕ → Result Budget
unfolding check_axis
create total_agents runtime_ms now = do
  total ← check_axis total_agents_axis total_agents
  runtime ← check_axis runtime_ms_axis runtime_ms
  ok (record {
    total_agents = total;
    runtime_ms = runtime;
    started = now;
    sequence = 0;
    charged = 0;
    replayed = 0;
    reserved = 0;
    reservations = [];
  })

-- `remaining()`; `none` is an unbounded ledger.
unfoldable pub remaining : Budget → Option ℕ
remaining b = elim b.total_agents [
  | none ↦ none
  | some total ↦ some (total - b.charged - b.reserved)
]

-- `owned`
unfoldable pub owned : Budget → ℕ → Result Reservation
owned b r = elim (get_elem? b.reservations r) [ none ↦ err foreign_reservation | some v ↦ ok v ]

abbrev pub total_or_zero : Option ℕ → ℕ
total_or_zero none = 0
total_or_zero (some total) = total

unfoldable pub consume : Budget → ℕ → Result Budget
unfolding owned
consume b r = do
  v ← owned b r
  if not v.active || ltb v.remaining 1
      then err (cap (total_or_zero b.total_agents) none none)
      else ok (record b {
        reservations = set b.reservations r (record v { remaining = v.remaining - 1 });
        reserved = b.reserved - 1;
      })

-- The new reservation's position is returned with the ledger.
place : Budget → ℕ → Budget × ℕ
place b count = (
  record b {
    reservations = b.reservations ++ record { remaining = count; active = true } ∷ [];
    reserved = b.reserved + count;
  },
  length b.reservations,
)

reserve_count : Budget → ℕ → Result (Budget × ℕ)
unfolding place remaining
reserve_count b count = elim (remaining b) [
  | none ↦ ok (place b count)
  | some left ↦
      if ltb left count
      then err (cap (total_or_zero b.total_agents) (some count) (some left))
      else ok (place b count)
]

unfoldable pub reserve : Budget → Number → Result (Budget × ℕ)
unfolding reserve_count
reserve b (pos n) = if is_positive_safe (pos n) then reserve_count b n else err bad_count
reserve b v = err bad_count

unfoldable pub release : Budget → ℕ → Result Budget
unfolding owned
release b r = do
  v ← owned b r
  if not v.active
      then ok b
      else ok (record b {
        reserved = b.reserved - v.remaining;
        reservations = set b.reservations r (record { remaining = 0; active = false });
      })

abbrev next_sequence : Budget → Budget × ℕ
next_sequence b = (record b { sequence = b.sequence + 1 }, b.sequence + 1)

-- A replayed call gives back the slot that it had reserved, and every call takes the next number.
unfoldable pub allocate : Budget → Kind → Option ℕ → Result (Budget × ℕ)
unfolding consume
allocate b fresh reservation = ok (next_sequence b)
allocate b replay none = ok (next_sequence (record b { replayed = b.replayed + 1 }))
allocate b replay (some r) = do
  b' ← consume b r
  ok (next_sequence (record b' { replayed = b'.replayed + 1 }))

abbrev is_full : Budget → Option ℕ → Bool
is_full b none = false
is_full b (some total) = leb total (b.charged + b.reserved)

unfoldable pub charge : Budget → Option ℕ → Result Budget
unfolding consume
charge b (some r) = do b' ← consume b r; ok (record b' { charged = b'.charged + 1 })
charge b none =
    if is_full b b.total_agents
    then err (cap (total_or_zero b.total_agents) none none)
    else ok (record b { charged = b.charged + 1 })

-- `counts()`: the fresh and the replayed calls.
unfoldable pub counts : Budget → ℕ × ℕ
counts b = (b.charged, b.replayed)

unfoldable pub assert_deadline : Budget → ℕ → Result (Unit {0})
assert_deadline b now = elim b.runtime_ms [
  | none ↦ ok tt
  | some runtime ↦
      let elapsed = now - b.started in
      if ltb runtime elapsed then err (deadline runtime elapsed) else ok tt
]

-- The operations that change the ledger, as data; one that throws leaves it as it was.
pub data Call : Type 0 where
  reserves : Number → Call
  releases : ℕ → Call
  allocates : Kind → Option ℕ → Call
  charges : Option ℕ → Call

abbrev after : Budget → Result Budget → Budget
after b (ok b') = b'
after b (err e) = b

abbrev drop_value : Result (Budget × ℕ) → Result Budget
drop_value (ok (b, n)) = ok b
drop_value (err e) = err e

unfoldable pub step : Budget → Call → Budget
step b (reserves n) = after b (drop_value (reserve b n))
step b (releases r) = after b (release b r)
step b (allocates kind r) = after b (drop_value (allocate b kind r))
step b (charges r) = after b (charge b r)

unfoldable pub run : Budget → List Call → Budget
run b [] = b
run b (c ∷ cs) = run (step b c) cs
