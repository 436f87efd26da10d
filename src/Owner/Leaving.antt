-- ===== src/Owner/Leaving.antt =====
-- A delegation, its scope's draining and the end of a callback are moves of the owner:
-- extensions/_shared/runtime/execution-state.ts.
use locus_pi.Common.{
  ℕ, ◌≡◌, refl, sym, ap, subst, ◌∙◌, true, false, not, ◌&&◌, [], ◌∷◌, Option, none, some, every,
  length, get_elem?, set, arith, is_some, if◌then◌else◌, if_intro, on_option, get_elem?-map-some,
  map-set, map-append,
}
use locus_pi.Owner.Records.{
  Root, Launch, Delegation, Error, Phase, idle, queued, working, returned, failing, settled, Stage,
  child_work, draining, leaving, reentering, over,
}
use locus_pi.Owner.Signals.{fire}
use locus_pi.Owner.Steps.{mem, live, fired, settlement}
use locus_pi.Owner.Delegation.{
  with_children, end_child_work, drain, leave, reenter, clear, end_work, join, conclude, delegated,
  accepting, closing, child_scope, result_of,
}
use locus_pi.Owner.Moves.{
  outline, outlines, is_busy, serving_at, is_away, is_away_at, Started, IsTidy, TidyAt, serving_of,
  Move, Kept, turns, delegates, closes_child, drains,
}
use locus_pi.Owner.Matches.{
  on_bool, on_child_work, on_draining, on_leaving, on_reentering, on_over, on_working, on_ended,
}
use locus_pi.Owner.Frames.{Bridge, fail_launch-Move, finish-Move}
use locus_pi.Owner.Entering.{unchanged}

-- A launch whose delegation is not settled runs its callback.
pub away_started :
    (l : Launch) (p : Phase)
    → TidyAt l p
    → is_away l.delegation ≡ true
    → Started l × (is_busy (record l { phase = p }) ≡ true)
away_started l idle t away = ground arith
away_started l (queued r) t away = ground arith
away_started l working t away = (t, refl)
away_started l returned t away = (t, refl)
away_started l (failing e) t away = (t, refl)
away_started l (settled e) t away = ground arith

restage :
    (l l' : Launch) (p : Phase)
    → TidyAt l p
    → is_away l.delegation ≡ true
    → Started l'
    → TidyAt l' p
restage l l' idle t away s = ground arith
restage l l' (queued r) t away s = ground arith
restage l l' working t away s = s
restage l l' returned t away s = s
restage l l' (failing e) t away s = s
restage l l' (settled e) t away s = ground arith

on_accepting : (p : Phase) → accepting p ≡ true → p ≡ working
on_accepting idle a = ground arith
on_accepting (queued r) a = ground arith
on_accepting working a = refl
on_accepting returned a = ground arith
on_accepting (failing e) a = ground arith
on_accepting (settled e) a = ground arith

back_at :
    (s : Stage) (result : Option Error) (c : ℕ)
    → result_of (some (record { child = c; stage = s })) ≡ some result
    → is_away_at s ≡ false
back_at child_work result c e = ground arith
back_at (draining w x) result c e = ground arith
back_at (leaving x) result c e = ground arith
back_at (reentering r x) result c e = ground arith
back_at (over x) result c e = refl

back_of :
    (d : Option Delegation) (result : Option Error) → result_of d ≡ some result → is_away d ≡ false
back_of none result e = refl
back_of (some d) result e = back_at d.stage result d.child e

module _ (o : Root) (i : ℕ) (l : Launch) (at : get_elem? o.launches i ≡ some l)
    (tidy : IsTidy l) where
  -- What a launch is while its delegation `d` is not settled.
  module _ (d : Delegation) (has : l.delegation ≡ some d) (away : is_away_at d.stage ≡ true) where
    gone : is_away l.delegation ≡ true
    gone = ap is_away has ∙ away

    running : Started l × (is_busy l ≡ true)
    running = away_started l l.phase tidy gone

    permitless : l.permit ≡ none
    permitless = running.0.3 gone

    abbrev staged : Stage → Option ℕ → Launch
    staged st permit = record (delegated l d.child st) { permit = permit }

    staged-IsTidy :
        (st : Stage) (permit : Option ℕ)
        → (is_away_at st ≡ true → permit ≡ none)
        → IsTidy (staged st permit)
    staged-IsTidy st permit h =
        restage l (staged st permit) l.phase tidy gone (running.0.0, running.0.1, running.0.2, h)

    -- The stages after the drain.
    staged-Move :
        (st : Stage) (permit : Option ℕ) (o' : Root)
        → (is_away_at st ≡ true → permit ≡ none)
        → serving_at d.child st ≡ serving_at d.child d.stage
        → Kept o o'
        → o'.launches ≡ set o.launches i (staged st permit)
        → outlines o' ≡ outlines o
        → Move o o'
    staged-Move st permit o' h serves kept launches scopes =
        turns i l (staged st permit) at
          (record {
            same_scope = refl;
            stays_busy = λ b. b;
            same_serving = serves ∙ sym (ap serving_of has);
            tidy = staged-IsTidy st permit h;
          })
          kept refl launches scopes

  -- A callback that runs, in any phase that `accepting` names.
  working_started : l.phase ≡ working → Started l
  working_started here = subst (TidyAt l) here tidy

  delegated-IsTidy :
      l.phase ≡ working
      → IsTidy (record (delegated l (length o.scopes) child_work) { permit = none })
  delegated-IsTidy here =
      let s = working_started here in
      subst (TidyAt (record (delegated l (length o.scopes) child_work) { permit = none }))
        (sym here) (s.0, s.1, s.2, λ _. refl)

  pub with_children-Move : Move o (with_children o i l)
  unfolding with_children
  with_children-Move =
      on_working (Move o) l.phase
        (λ here.
          on_option (Move o) l.delegation
            (λ free_of.
              on_option (Move o) (live o l.active_signal)
                (λ _.
                  delegates i l
                    (record (delegated l (length o.scopes) child_work) { permit = none }) at
                    (ap serving_of free_of) refl (ap (λ p. is_busy (record l { phase = p })) here)
                    refl refl (delegated-IsTidy here) refl refl
                    (map-append outline o.scopes (child_scope o i ∷ [])))
                (λ e _. unchanged o))
            (λ d _. unchanged o))
        (unchanged o)

  pub end_child_work-Move : (outcome : Option Error) → Move o (end_child_work o i l outcome)
  unfolding end_child_work
  end_child_work-Move outcome =
      on_option (Move o) l.delegation (λ _. unchanged o)
        (λ d has.
          on_child_work (Move o) d.stage
            (λ stage.
              on_option (Move o) (get_elem? o.scopes d.child) (λ _. unchanged o)
                (λ s found.
                  closes_child i l (delegated l d.child (draining s.jobs outcome)) d.child
                    (outline s) at (ap serving_of has ∙ ap (serving_at d.child) stage)
                    (get_elem?-map-some outline o.scopes d.child s found) refl refl refl refl
                    (staged-IsTidy d has (ap is_away_at stage) (draining s.jobs outcome) l.permit
                      (λ _. permitless d has (ap is_away_at stage)))
                    refl refl (map-set outline o.scopes d.child (closing outcome s))))
            (unchanged o))

  pub drain-Move : Move o (drain o i l)
  unfolding drain
  drain-Move =
      on_option (Move o) l.delegation (λ _. unchanged o)
        (λ d has.
          on_draining (Move o) d.stage
            (λ waited outcome stage.
              on_option (Move o) (get_elem? o.scopes d.child) (λ _. unchanged o)
                (λ s found.
                  if_intro (Move o) (every (λ j. not (mem j s.jobs)) waited)
                    (λ all.
                      drains i l _ d.child waited (outline s) at
                        (ap serving_of has ∙ ap (serving_at d.child) stage)
                        (get_elem?-map-some outline o.scopes d.child s found) all refl refl refl
                        refl
                        (staged-IsTidy d has (ap is_away_at stage) (leaving _) l.permit
                          (λ _. permitless d has (ap is_away_at stage)))
                        refl refl refl)
                    (λ _. unchanged o)))
            (unchanged o))

  pub leave-Move : Move o (leave o i l)
  unfolding leave
  leave-Move =
      on_option (Move o) l.delegation (λ _. unchanged o)
        (λ d has.
          on_leaving (Move o) d.stage
            (λ result stage.
              let away = ap is_away_at stage in
              let unserved = sym (ap (serving_at d.child) stage) in
              if_intro (Move o) (accepting l.phase)
                (λ _.
                  on_option (Move o) (live o l.active_signal)
                    (λ _.
                      staged-Move d has away (reentering o.scheduler.next_request result) l.permit _
                        (λ _. permitless d has away) unserved refl refl refl)
                    (λ e _.
                      staged-Move d has away (over (some e)) l.permit _ (λ _. permitless d has away)
                        unserved refl refl refl))
                (λ _.
                  staged-Move d has away (over result) l.permit _ (λ _. permitless d has away)
                    unserved refl refl refl))
            (unchanged o))

  pub reenter-Move : Move o (reenter o i l)
  unfolding reenter
  reenter-Move =
      on_option (Move o) l.delegation (λ _. unchanged o)
        (λ d has.
          on_reentering (Move o) d.stage
            (λ r result stage.
              let away = ap is_away_at stage in
              let unserved = sym (ap (serving_at d.child) stage) in
              on_option (Move o) (settlement r o.scheduler.settled) (λ _. unchanged o)
                (λ b settles.
                  on_bool (Move o) b
                    (if_intro (Move o)
                      (accepting l.phase
                        && (not (fired o l.active_signal) && not (fired o l.resume_stop)))
                      (λ _.
                        staged-Move d has away (over result) (some r) _ (λ x. ground arith) unserved
                          refl refl refl)
                      (λ _.
                        staged-Move d has away (over _) l.permit _ (λ _. permitless d has away)
                          unserved refl refl refl))
                    (staged-Move d has away (over _) l.permit _ (λ _. permitless d has away)
                      unserved refl refl refl)))
            (unchanged o))

  cleared-IsTidy :
      (failure : Option Error)
      → l.phase ≡ working
      → IsTidy (record l { delegation = none; delegation_failure = failure })
  cleared-IsTidy failure here =
      let s = working_started here in
      subst (TidyAt (record l { delegation = none; delegation_failure = failure })) (sym here)
        (s.0, s.1, s.2, λ x. ground arith)

  pub clear-Move : Move o (clear o i l)
  unfolding clear
  clear-Move =
      on_option (Move o) l.delegation (λ _. unchanged o)
        (λ d has.
          on_over (Move o) d.stage
            (λ result stage.
              if_intro (Move o) (accepting l.phase)
                (λ a.
                  turns i l _ at
                    (record {
                      same_scope = refl;
                      stays_busy = λ b. b;
                      same_serving = sym (ap serving_of has ∙ ap (serving_at d.child) stage);
                      tidy =
                          cleared-IsTidy
                            (if is_some l.delegation_failure then l.delegation_failure else result)
                            (on_accepting l.phase a);
                    })
                    refl refl refl refl)
                (λ _. unchanged o))
            (unchanged o))

  ending :
      (o' : Root)
      → Kept o o'
      → o'.launches ≡ o.launches
      → outlines o' ≡ outlines o
      → Started l
      → is_busy l ≡ true
      → Bridge o o' i l l
  ending o' kept launches scopes s busy = record {
    kept = kept;
    launches = launches;
    scopes = scopes;
    found = at;
    scope = refl;
    busy = busy;
    serves = refl;
    called = refl;
    fresh_kind = s.0;
    used = s.1;
  }

  -- `conclude` of a launch that is not away.
  conclude-Move :
      (o' : Root)
      → Bridge o o' i l l
      → Started l
      → is_away l.delegation ≡ false
      → Move o (conclude o' i l)
  conclude-Move o' b s back =
      on_option (Move o) l.delegation_failure (λ _. finish-Move o o' i l l b none back)
        (λ e _. fail_launch-Move o o' i l l b e (λ _. s))

  pub end_work-Move : (outcome : Option Error) → Move o (end_work o i l outcome)
  unfolding end_work fire
  end_work-Move outcome =
      if_intro (Move o) (accepting l.phase)
        (λ a.
          let here = on_accepting l.phase a in
          let s = working_started here in
          let busy = ap (λ p. is_busy (record l { phase = p })) here in
          on_option (Move o) outcome
            (λ _.
              on_option (Move o) l.delegation
                (λ back.
                  conclude-Move (fire o l.resume_stop) (ending _ refl refl refl s busy) s
                    (ap is_away back))
                (λ d has.
                  turns i l (record l { phase = returned }) at
                    (record {
                      same_scope = refl;
                      stays_busy = λ _. busy;
                      same_serving = refl;
                      tidy = s;
                    })
                    refl refl refl refl))
            (λ e _. fail_launch-Move o o i l l (ending o refl refl refl s busy) e (λ _. s)))
        (λ _. unchanged o)

  result_back :
      (result : Option Error) → result_of l.delegation ≡ some result → is_away l.delegation ≡ false
  result_back result settled_by = back_of l.delegation result settled_by

  pub join-Move : Move o (join o i l)
  unfolding join
  join-Move =
      on_option (Move o) (result_of l.delegation) (λ _. unchanged o)
        (λ result settles.
          on_ended (Move o) l.phase
            (λ here.
              let s = subst (TidyAt l) here tidy in
              let b = ending o refl refl refl s (ap (λ p. is_busy (record l { phase = p })) here) in
              on_option (Move o) result (λ _. conclude-Move o b s (result_back result settles))
                (λ e _. fail_launch-Move o o i l l b e (λ _. s)))
            (λ e here.
              let s = subst (TidyAt l) here tidy in
              let b = ending o refl refl refl s (ap (λ p. is_busy (record l { phase = p })) here) in
              finish-Move o o i l l b (some e) (result_back result settles))
            (unchanged o))
