-- ===== src/Owner/Steps.antt =====
-- The operations of extensions/_shared/runtime/execution-state.ts, cut at their awaits. Each takes
-- the position `i` of the launch that it moves and what is stored there.
use locus_pi.Common.{
  ℕ, ◌+◌, Bool, true, false, not, List, [], ◌∷◌, ◌++◌, Option, none, some, ◌==◌, is_some,
  if◌then◌else◌, any, keep, length, get_elem?, set,
}
use locus_pi.Execution.Budget.{Kind, fresh, replay, ok, err, allocate, charge, assert_deadline}
use locus_pi.Execution.Scheduler
use locus_pi.Execution.Scheduler.{
  Settlement, admitted, rejected, Scheduler, is_aborted, acquire, activates, releases,
}
use locus_pi.Owner.Records.{
  Root, Scope, Launch, Error, aborted, scope_closed, ledger, idle, queued, working, failing,
  settled,
}
use locus_pi.Owner.Signals.{new_controller, any_of, fire}

abbrev pub mem : ℕ → List ℕ → Bool
mem i = any (λ j. j == i)

abbrev pub put : Root → ℕ → Launch → Root
put o i l = record o { launches = set o.launches i l }

-- `signal.aborted`
abbrev pub fired : Root → ℕ → Bool
fired o g = is_aborted g o.scheduler.aborted

-- `assertLive` and `assertOpen`, of a scope's signal: what they throw.
abbrev pub live : Root → ℕ → Option Error
live o g = if fired o g then some aborted else if o.closed then some scope_closed else none

abbrev pub assert_open : Root → Scope → Option Error
assert_open o s = elim (live o s.signal) [
  | some e ↦ some e
  | none ↦ if s.closed then some scope_closed else none
]

abbrev pub fail : Error → Scope → Scope
fail e s = if is_some s.failure then s else record s { failure = some e }

abbrev pub mark_failed : Error → ℕ → List Scope → List Scope
mark_failed e c scopes = elim (get_elem? scopes c) [
  | none ↦ scopes
  | some s ↦ set scopes c (fail e s)
]

abbrev pub stop_scope : Root → Option ℕ → Root
stop_scope o none = o
stop_scope o (some stop) = fire o stop

-- `failScope`: only the first failure counts, and it aborts the scope's own controller.
unfoldable pub fail_scope : Root → ℕ → Error → Root
fail_scope o c e = record o {
  scopes = mark_failed e c o.scopes;
  scheduler = elim (get_elem? o.scopes c) [
    | none ↦ o.scheduler
    | some s ↦ if is_some s.failure then o.scheduler else (stop_scope o s.stop).scheduler
  ];
}

abbrev pub new_launch : ℕ → ℕ → Kind → Option ℕ → Launch
new_launch c sequence kind reservation = record {
  scope = c;
  sequence = sequence;
  kind = kind;
  reservation = reservation;
  used = false;
  phase = idle;
  permit = none;
  stop = 0;
  active_signal = 0;
  resume_stop = 0;
  delegation = none;
  delegation_failure = none;
  called = false;
}

-- `createInvocation`; an error leaves the state as it was.
unfoldable pub create_invocation : Root → ℕ → Kind → Option ℕ → Root
create_invocation o c kind reservation = elim (get_elem? o.scopes c) [
  | none ↦ o
  | some s ↦ elim (assert_open o s) [
    | some e ↦ o
    | none ↦ elim (allocate o.budget kind reservation) [
      | err e ↦ o
      | ok (b, n) ↦ record o {
        budget = b;
        launches = o.launches ++ new_launch c n kind reservation ∷ [];
      }
    ]
  ]
]

abbrev pub add_job : ℕ → Scope → Scope
add_job i s = record s { jobs = s.jobs ++ i ∷ [] }

abbrev pub set_scope : ℕ → Scope → Root → Root
set_scope c s o = record o { scopes = set o.scopes c s }

-- `execute` up to its first `await`: the rejection, or the request to wait for.
abbrev pub enter : Root → ℕ → Launch → Scope → ℕ → Root
enter o i l s now = elim (assert_open o s) [
  | some e ↦ put o i (record l { used = true; phase = settled (some e) })
  | none ↦ elim (assert_deadline o.budget now) [
    | err e ↦ put o i (record l { used = true; phase = settled (some (ledger e)) })
    | ok _ ↦ record (put o i (record l { used = true; phase = queued o.scheduler.next_request })) {
      scheduler = acquire o.scheduler s.signal;
    }
  ]
]

-- `run` of an invocation
unfoldable pub run_invocation : Root → ℕ → Launch → ℕ → Root
run_invocation o i l now = elim l.kind [
  | replay ↦ o
  | fresh ↦ elim (get_elem? o.scopes l.scope) [
    | none ↦ o
    | some s ↦ if l.used then o else enter (set_scope l.scope (add_job i s) o) i l s now
  ]
]

-- `permit?.release()`
abbrev pub free : Root → Option ℕ → Root
free o permit = record o {
  scheduler = elim permit [ none ↦ o.scheduler | some r ↦ Scheduler.step o.scheduler (releases r) ];
}

-- The end of `execute`: the `finally`, and the promise settles.
unfoldable pub finish : Root → ℕ → Launch → Option Error → Root
finish o i l result = record (put o i (record l { phase = settled result; permit = none })) {
  scheduler = (free o l.permit).scheduler;
}

-- The `catch` of `execute`, up to its `await`.
unfoldable pub fail_launch : Root → ℕ → Launch → Error → Root
unfolding fail_scope finish
fail_launch o i l e =
    let o' = fire (fail_scope o l.scope e) l.stop in
    if is_some l.delegation
    then put o' i (record l { phase = failing e })
    else finish o' i l (some e)

-- How the promise of a request has settled: `true` is an admission.
abbrev pub settlement : ℕ → List Settlement → Option Bool
settlement r [] = none
settlement r (admitted q ∷ rest) = if q == r then some true else settlement r rest
settlement r (rejected q ∷ rest) = if q == r then some false else settlement r rest

-- The controllers of a launch that has its permit.
abbrev pub equip : Root → ℕ → Root
equip o g = new_controller (any_of (new_controller o) g (length o.sources))

abbrev pub equipped : Root → ℕ → Launch → Launch
equipped o r l = record l {
  permit = some r;
  stop = length o.sources;
  active_signal = length o.sources + 1;
  resume_stop = length o.sources + 2;
}

-- `budget.charge`, `permit.activate` and the call of `work`
abbrev pub call_work : Root → ℕ → Launch → ℕ → Root
call_work o i l r = elim (charge o.budget l.reservation) [
  | err e ↦ fail_launch o i l (ledger e)
  | ok b ↦ record (put o i (record l { phase = working; called = true })) {
    budget = b;
    scheduler = Scheduler.step o.scheduler (activates r);
  }
]

abbrev pub begin : Root → ℕ → Launch → ℕ → ℕ → Root
begin o i l g now = elim (live o g) [
  | some e ↦ fail_launch o i l e
  | none ↦ elim (assert_deadline o.budget now) [
    | err e ↦ fail_launch o i l (ledger e)
    | ok _ ↦ elim l.permit [ none ↦ o | some r ↦ call_work o i l r ]
  ]
]

-- `execute` after `await scheduler.acquire`
unfoldable pub admit : Root → ℕ → Launch → ℕ → Root
admit o i l now = elim l.phase [
  | queued r ↦ elim (settlement r o.scheduler.settled) [
    | none ↦ o
    | some false ↦ put o i (record l { phase = settled (some aborted) })
    | some true ↦ elim (get_elem? o.scopes l.scope) [
      | none ↦ o
      | some s ↦ begin (equip o s.signal) i (equipped o r l) s.signal now
    ]
  ]
  | _ ↦ o
]

-- The reaction to a settled job: it leaves the scope, and a rejection fails the scope.
abbrev pub drop_job : ℕ → Scope → Scope
drop_job i s = record s { jobs = keep (λ j. not (j == i)) s.jobs }

abbrev pub react : Root → ℕ → Option Error → Root
react o c none = o
react o c (some e) = fail_scope o c e

unfoldable pub observe : Root → ℕ → Launch → Root
observe o i l = elim l.phase [
  | settled result ↦ elim (get_elem? o.scopes l.scope) [
    | none ↦ o
    | some s ↦ if mem i s.jobs then react (set_scope l.scope (drop_job i s) o) l.scope result else o
  ]
  | _ ↦ o
]
