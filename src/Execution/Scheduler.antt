-- ===== src/Execution/Scheduler.antt =====
-- extensions/_shared/runtime/execution-scheduler.ts, the FIFO permits of a root run.
--
-- The closure of `createExecutionScheduler` is the record `Scheduler`. A request is a number in the
-- order of the calls of `acquire`; its promise settles by an entry of `settled`. A permit's two flags
-- stand under its request's number. A signal is a number; `aborted` lists the signals that have
-- fired. The abort listeners of a signal are those of the waiters that carry it, which are the ones
-- still queued: `admit` and `abort` both take the listener off.
pub mod Invariant
pub mod Admission
pub mod Order
use locus_pi.Common.{
  ℕ, suc, ◌+◌, ◌-◌, max, Bool, true, false, not, ◌&&◌, List, [], ◌∷◌, ◌++◌, Option, none, some, ltb,
  ◌==◌, if◌then◌else◌, any, keep, map,
}

pub record Waiter : Type 0 where
  pub request : ℕ
  pub signal : ℕ

pub record Permit : Type 0 where
  pub request : ℕ
  pub released : Bool
  pub executing : Bool

-- How the promise of a request settles.
pub data Settlement : Type 0 where
  admitted rejected : ℕ → Settlement

pub record Scheduler : Type 0 where
  pub concurrency : ℕ
  pub in_use : ℕ
  pub active : ℕ
  pub peak : ℕ
  pub next_request : ℕ
  pub waiters : List Waiter
  pub permits : List Permit
  pub settled : List Settlement
  pub aborted : List ℕ

unfoldable pub create : ℕ → Scheduler
create concurrency = record {
  concurrency = concurrency;
  in_use = 0;
  active = 0;
  peak = 0;
  next_request = 0;
  waiters = [];
  permits = [];
  settled = [];
  aborted = [];
}

-- `signal.aborted`
abbrev pub is_aborted : ℕ → List ℕ → Bool
is_aborted signal aborted = any (λ g. g == signal) aborted

abbrev pub turn_away : Scheduler → Waiter → Scheduler
turn_away s w = record s { settled = s.settled ++ rejected w.request ∷ [] }

abbrev pub grant : Scheduler → Waiter → Scheduler
grant s w = record s {
  in_use = s.in_use + 1;
  permits = s.permits ++ record { request = w.request; released = false; executing = false } ∷ [];
  settled = s.settled ++ admitted w.request ∷ [];
}

-- `waiter.admit()`, of a waiter that `dispatch` has shifted off the queue.
unfoldable pub admit : Scheduler → Waiter → Scheduler
admit s w = if is_aborted w.signal s.aborted then turn_away s w else grant s w

-- The loop of `dispatch` over the queue.
unfoldable pub dispatch_from : List Waiter → Scheduler → Scheduler
unfolding admit
dispatch_from [] s = record s { waiters = [] }
dispatch_from (w ∷ ws) s =
    let rest = dispatch_from ws (admit s w) in
    if ltb s.in_use s.concurrency then rest else record s { waiters = w ∷ ws }

unfoldable pub dispatch : Scheduler → Scheduler
unfolding dispatch_from
dispatch s = dispatch_from s.waiters s

-- `waiters.push(waiter)`; the call's request number is `next_request` before the call.
abbrev pub enqueue : Scheduler → ℕ → Scheduler
enqueue s signal = record s {
  next_request = s.next_request + 1;
  waiters = s.waiters ++ record { request = s.next_request; signal = signal } ∷ [];
}

abbrev pub refuse : Scheduler → Scheduler
refuse s = record s {
  next_request = s.next_request + 1;
  settled = s.settled ++ rejected s.next_request ∷ [];
}

unfoldable pub acquire : Scheduler → ℕ → Scheduler
unfolding dispatch
acquire s signal = if is_aborted signal s.aborted then refuse s else dispatch (enqueue s signal)

abbrev pub is_of : ℕ → Waiter → Bool
is_of request w = w.request == request

-- `waiters.splice(index, 1)` and the rejection
abbrev pub dequeue : Scheduler → ℕ → Scheduler
dequeue s request = record s {
  waiters = keep (λ v. not (is_of request v)) s.waiters;
  settled = s.settled ++ rejected request ∷ [];
}

-- One abort listener: a waiter that is no longer in the queue is left alone.
unfoldable pub abort_waiter : Scheduler → Waiter → Scheduler
unfolding dispatch
abort_waiter s w = if any (is_of w.request) s.waiters then dispatch (dequeue s w.request) else s

unfoldable pub abort_waiters : Scheduler → List Waiter → Scheduler
unfolding abort_waiter
abort_waiters s [] = s
abort_waiters s (w ∷ ws) = abort_waiters (abort_waiter s w) ws

abbrev pub mark : Scheduler → ℕ → Scheduler
mark s signal = record s { aborted = signal ∷ s.aborted }

abbrev pub listeners : ℕ → List Waiter → List Waiter
listeners signal = keep λ w. w.signal == signal

-- A signal fires once: it is marked, and then its listeners run in the order in which they were set.
unfoldable pub abort_signal : Scheduler → ℕ → Scheduler
unfolding abort_waiters
abort_signal s signal =
    if is_aborted signal s.aborted
    then s
    else abort_waiters (mark s signal) (listeners signal s.waiters)

-- A method of a permit, found by its request.
abbrev find_permit : ℕ → List Permit → Option Permit
find_permit request [] = none
find_permit request (p ∷ ps) = if p.request == request then some p else find_permit request ps

abbrev set_permit : Permit → List Permit → List Permit
set_permit q [] = []
set_permit q (p ∷ ps) = if p.request == q.request then q ∷ ps else p ∷ set_permit q ps

-- `activate()`; `none` is the error of a released permit.
unfoldable pub activate : Scheduler → Permit → Option Scheduler
activate s p =
    if p.released
    then none
    else if p.executing
    then some s
    else some (record s {
      active = s.active + 1;
      peak = max s.peak (s.active + 1);
      permits = set_permit (record p { executing = true }) s.permits;
    })

abbrev pub give_back : Scheduler → Permit → Scheduler
give_back s p = record s {
  in_use = s.in_use - 1;
  active = if p.executing then s.active - 1 else s.active;
  permits = set_permit (record p { released = true }) s.permits;
}

unfoldable pub release : Scheduler → Permit → Scheduler
unfolding dispatch
release s p = if p.released then s else dispatch (give_back s p)

-- The events of a run. A permit exists from the admission of its request on.
pub data Event : Type 0 where
  acquires aborts activates releases : ℕ → Event

abbrev or_same : Scheduler → Option Scheduler → Scheduler
or_same s none = s
or_same s (some s') = s'

unfoldable pub step : Scheduler → Event → Scheduler
step s (acquires signal) = acquire s signal
step s (aborts signal) = abort_signal s signal
step s (activates request) = elim (find_permit request s.permits) [
  | none ↦ s
  | some p ↦ or_same s (activate s p)
]
step s (releases request) = elim (find_permit request s.permits) [ none ↦ s | some p ↦ release s p ]

unfoldable pub run : Scheduler → List Event → Scheduler
run s [] = s
run s (e ∷ es) = run (step s e) es
