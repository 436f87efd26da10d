-- ===== src/Owner/Delegation.antt =====
-- `withChildren`, `delegate` and the end of a callback, of extensions/_shared/runtime/execution-state.ts,
-- cut at their awaits. A delegation is cleared by `clear` while the callback runs; once it has
-- ended nothing but `join` reads it.
use locus_pi.Common.{
  ℕ, ◌+◌, Bool, true, false, not, ◌||◌, ◌&&◌, [], ◌∷◌, ◌++◌, Option, none, some, is_some,
  if◌then◌else◌, every, length, get_elem?, set,
}
use locus_pi.Execution.Scheduler
use locus_pi.Execution.Scheduler.{Scheduler, acquire, activates, releases}
use locus_pi.Owner.Records.{
  Root, Scope, Launch, Delegation, Error, aborted, Phase, working, returned, failing, Stage,
  child_work, draining, leaving, reentering, over,
}
use locus_pi.Owner.Signals.{new_controller, any_of, fire}
use locus_pi.Owner.Steps.{
  mem, put, fired, live, free, settlement, fail_launch, finish, set_scope, stop_scope,
}

-- The signal of the child scope, and its controller.
abbrev pub child_signals : Root → Launch → Root
child_signals o l = any_of (new_controller o) l.active_signal (length o.sources)

abbrev pub child_scope : Root → ℕ → Scope
child_scope o i = record {
  signal = length o.sources + 1;
  parent = some i;
  jobs = [];
  closed = false;
  failure = none;
  stop = some (length o.sources);
}

abbrev pub delegated : Launch → ℕ → Stage → Launch
delegated l c stage = record l { delegation = some (record { child = c; stage = stage }) }

-- `withChildren` up to the call of `childWork`
unfoldable pub with_children : Root → ℕ → Launch → Root
with_children o i l = elim l.phase [
  | working ↦ elim l.delegation [
    | some d ↦ o
    | none ↦ elim (live o l.active_signal) [
      | some e ↦ o
      | none ↦ record (child_signals (free o l.permit) l) {
        scopes = o.scopes ++ child_scope o i ∷ [];
        launches =
            set o.launches i (record (delegated l (length o.scopes) child_work) { permit = none });
      }
    ]
  ]
  | _ ↦ o
]

-- `child.failure ??= { error }`, and `child.closed = true`
abbrev pub closing : Option Error → Scope → Scope
closing outcome s = record s {
  closed = true;
  failure = if is_some s.failure then s.failure else outcome;
}

abbrev pub stop_child : Root → Scope → Option Error → Root
stop_child o s none = o
stop_child o s (some e) = stop_scope o s.stop

-- `delegate` after `await work`, up to its next `await`
abbrev pub close_child : Root → ℕ → Launch → ℕ → Option Error → Scope → Root
close_child o i l c outcome s =
    record (set_scope c (closing outcome s) (put o i (delegated l c (draining s.jobs outcome)))) {
      scheduler = (stop_child o s outcome).scheduler;
    }

unfoldable pub end_child_work : Root → ℕ → Launch → Option Error → Root
end_child_work o i l outcome = elim l.delegation [
  | none ↦ o
  | some d ↦ elim d.stage [
    | child_work ↦ elim (get_elem? o.scopes d.child) [
      | none ↦ o
      | some s ↦ close_child o i l d.child outcome s
    ]
    | _ ↦ o
  ]
]

-- What `delegate` throws at its end.
abbrev pub delegate_result : Root → Scope → Option Error → Option Error
delegate_result o s outcome =
    if is_some s.failure
    then s.failure
    else if is_some outcome
    then outcome
    else if fired o s.signal
    then some aborted
    else none

-- `delegate` after `await Promise.allSettled(child.jobs)`: each job has left the scope, since that
-- reaction to it was registered first.
unfoldable pub drain : Root → ℕ → Launch → Root
drain o i l = elim l.delegation [
  | none ↦ o
  | some d ↦ elim d.stage [
    | draining waited outcome ↦ elim (get_elem? o.scopes d.child) [
      | none ↦ o
      | some s ↦
          if every (λ j. not (mem j s.jobs)) waited
          then put o i (delegated l d.child (leaving (delegate_result o s outcome)))
          else o
    ]
    | _ ↦ o
  ]
]

-- `accepting`, which is true from the call of `work` to the end of its callback
abbrev pub accepting : Phase → Bool
accepting working = true
accepting _ = false

abbrev pub request_again : Root → ℕ → Launch → ℕ → Option Error → Root
request_again o i l c result =
    record (put (any_of o l.active_signal l.resume_stop) i
      (delegated l c (reentering o.scheduler.next_request result))) {
        scheduler = acquire (any_of o l.active_signal l.resume_stop).scheduler (length o.sources);
      }

-- The `finally` of a delegation, up to its `await`
unfoldable pub leave : Root → ℕ → Launch → Root
leave o i l = elim l.delegation [
  | none ↦ o
  | some d ↦ elim d.stage [
    | leaving result ↦
        if accepting l.phase
        then elim (live o l.active_signal) [
          | some e ↦ put o i (delegated l d.child (over (some e)))
          | none ↦ request_again o i l d.child result
        ]
        else put o i (delegated l d.child (over result))
    | _ ↦ o
  ]
]

abbrev pub aborted_or : Bool → Option Error → Option Error
aborted_or stopped result = if stopped then some aborted else result

-- The rest of the `finally`: with a permit, and without one.
abbrev pub readmit : Root → ℕ → Launch → ℕ → ℕ → Option Error → Root
readmit o i l c r result =
    if accepting l.phase && (not (fired o l.active_signal) && not (fired o l.resume_stop))
    then record (put o i (record (delegated l c (over result)) { permit = some r })) {
      scheduler = Scheduler.step o.scheduler (activates r);
    }
    else record (put o i (delegated l c (over (aborted_or (fired o l.active_signal) result)))) {
      scheduler = Scheduler.step o.scheduler (releases r);
    }

abbrev pub turned_away : Root → ℕ → Launch → ℕ → Option Error → Root
turned_away o i l c result = put o i (
    delegated l c
      (over (aborted_or (not (fired o l.resume_stop) || fired o l.active_signal) result)))

unfoldable pub reenter : Root → ℕ → Launch → Root
reenter o i l = elim l.delegation [
  | none ↦ o
  | some d ↦ elim d.stage [
    | reentering r result ↦ elim (settlement r o.scheduler.settled) [
      | none ↦ o
      | some true ↦ readmit o i l d.child r result
      | some false ↦ turned_away o i l d.child result
    ]
    | _ ↦ o
  ]
]

-- The two reactions to `waiting`
unfoldable pub clear : Root → ℕ → Launch → Root
clear o i l = elim l.delegation [
  | none ↦ o
  | some d ↦ elim d.stage [
    | over result ↦
        if accepting l.phase
        then put o i (record l {
          delegation = none;
          delegation_failure =
              if is_some l.delegation_failure then l.delegation_failure else result;
        })
        else o
    | _ ↦ o
  ]
]

-- `execute` once its delegation is settled: `delegationFailure` or the result
abbrev pub conclude : Root → ℕ → Launch → Root
conclude o i l = elim l.delegation_failure [
  | some e ↦ fail_launch o i l e
  | none ↦ finish o i l none
]

-- `execute` after `await work`: the callback has returned, or thrown.
unfoldable pub end_work : Root → ℕ → Launch → Option Error → Root
end_work o i l outcome =
    if accepting l.phase
    then elim outcome [
      | some e ↦ fail_launch o i l e
      | none ↦ elim l.delegation [
        | some d ↦ put (fire o l.resume_stop) i (record l { phase = returned })
        | none ↦ conclude (fire o l.resume_stop) i l
      ]
    ]
    else o

-- The awaited delegation, when it has settled.
abbrev pub result_of : Option Delegation → Option (Option Error)
result_of none = some none
result_of (some d) = elim d.stage [ over result ↦ some result | _ ↦ none ]

-- `execute` after `await delegation`, and after the `await` of its `catch`
unfoldable pub join : Root → ℕ → Launch → Root
join o i l = elim (result_of l.delegation) [
  | none ↦ o
  | some result ↦ elim l.phase [
    | returned ↦ elim result [ some e ↦ fail_launch o i l e | none ↦ conclude o i l ]
    | failing e ↦ finish o i l (some e)
    | _ ↦ o
  ]
]
