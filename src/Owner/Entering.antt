-- ===== src/Owner/Entering.antt =====
-- The creation of an invocation, its run up to the call of the callback, and the reaction to its
-- promise are moves of the owner: extensions/_shared/runtime/execution-state.ts.
use locus_pi.Common.{
  ℕ, ◌+◌, ◌≡◌, refl, ap, subst, ◌∙◌, inl, inr, true, false, Option, none, some, map, get_elem?, set,
  arith, if_intro, Option-cases, on_option, get_elem?-map-some, map-set,
}
use locus_pi.Execution.Budget
use locus_pi.Execution.Budget.{
  Budget, Kind, fresh, replay, Result, ok, err, charge, allocate, consume, owned, assert_deadline,
}
use locus_pi.Owner.Records.{
  Root, Scope, Launch, Error, ledger, aborted, Phase, idle, queued, working, returned, failing,
  settled,
}
use locus_pi.Owner.Steps.{
  mem, put, fail_scope, create_invocation, run_invocation, admit, observe, fail_launch, call_work,
  begin, live, drop_job, add_job, react, set_scope, equip, equipped, settlement, enter, assert_open,
}
use locus_pi.Owner.Moves.{
  outline, outlines, is_busy, serving, is_away, Idle, IsTidy, TidyAt, Move, Kept, stays, adds,
  enters, turns, starts, observes,
}
use locus_pi.Owner.Matches.{Result-cases, on_result, on_kind, on_queued, on_settled, on_bool}
use locus_pi.Owner.Frames.{Bridge, fail_launch-Move, fail_scope-outlines}

pub unchanged : (o : Root) → Move o o
unchanged o = stays refl refl refl

react-Kept :
    (o : Root) (c : ℕ) (result : Option Error)
    → Kept o (react o c result)
      × ((react o c result).launches ≡ o.launches)
      × (outlines (react o c result) ≡ outlines o)
unfolding fail_scope
react-Kept o c none = (refl, refl, refl)
react-Kept o c (some e) = (refl, refl, fail_scope-outlines o c e)

allocate-charged :
    (b : Budget) (kind : Kind) (r : Option ℕ) (b' : Budget) (n : ℕ)
    → allocate b kind r ≡ ok (b', n)
    → b'.charged ≡ b.charged + 0
unfolding allocate consume owned
allocate-charged b fresh r b' n e = ground arith
allocate-charged b replay none b' n e = ground arith
allocate-charged b replay (some r) b' n e = ground arith

charge-charged :
    (b : Budget) (r : Option ℕ) (b' : Budget) → charge b r ≡ ok b' → b'.charged ≡ b.charged + 1
unfolding charge consume owned
charge-charged b none b' e = ground arith
charge-charged b (some r) b' e = ground arith

unused-Idle : (l : Launch) (p : Phase) → TidyAt l p → l.used ≡ false → Idle l
unused-Idle l idle t unused = t.0
unused-Idle l (queued r) t unused = t.0
unused-Idle l working t unused = ground arith
unused-Idle l returned t unused = ground arith
unused-Idle l (failing e) t unused = ground arith
unused-Idle l (settled e) t unused = ground arith

allocates-step :
    (b : Budget) (kind : Kind) (r : Option ℕ) (b' : Budget) (n : ℕ)
    → allocate b kind r ≡ ok (b', n)
    → b' ≡ Budget.step b (Budget.allocates kind r)
unfolding Budget.step
allocates-step b kind r b' n e = ground arith

charges-step :
    (b : Budget) (r : Option ℕ) (b' : Budget)
    → charge b r ≡ ok b'
    → b' ≡ Budget.step b (Budget.charges r)
unfolding Budget.step
charges-step b r b' e = ground arith

module _ (o : Root) where
  pub create_invocation-Move :
      (c : ℕ) (kind : Kind) (r : Option ℕ) → Move o (create_invocation o c kind r)
  unfolding create_invocation
  create_invocation-Move c kind r = elim (Option-cases (get_elem? o.scopes c)) [
    | inl missing ↦ rw (missing, create_invocation) (unchanged o)
    | inr (s, found) ↦ elim (Option-cases (assert_open o s)) [
      | inr (e, shut) ↦ rw (found, shut, create_invocation) (unchanged o)
      | inl fine ↦ elim (Result-cases (allocate o.budget kind r)) [
        | inl (e, refused) ↦ rw (found, fine, refused, create_invocation) (unchanged o)
        | inr ((b, n), made) ↦
            rw (found, fine, made, create_invocation)
              (adds c n kind r
                (
                  Budget.allocates kind r,
                  allocates-step o.budget kind r b n made,
                  allocate-charged o.budget kind r b n made,
                )
                refl refl)
      ]
    ]
  ]

  module _ (i : ℕ) (l : Launch) (at : get_elem? o.launches i ≡ some l) (tidy : IsTidy l) where
    enters_by :
        (s : Scope) (l' : Launch) (o' : Root)
        → get_elem? o.scopes l.scope ≡ some s
        → (is_busy l' ≡ true → s.closed ≡ false)
        → l'.scope ≡ l.scope
        → l'.called ≡ l.called
        → serving l' ≡ serving l
        → IsTidy l'
        → Kept o o'
        → o'.launches ≡ set o.launches i l'
        → o'.scopes ≡ set o.scopes l.scope (add_job i s)
        → Move o o'
    enters_by s l' o' found opened scope called serves tidied kept launches scopes =
        enters i l l' (outline s) at (get_elem?-map-some outline o.scopes l.scope s found) opened
          scope called serves tidied kept launches
          (ap (map outline) scopes ∙ map-set outline o.scopes l.scope (add_job i s))

    live_open : (o' : Root) (g : ℕ) → live o' g ≡ none → o'.closed ≡ false
    live_open o' g lives = ground arith

    opened_by : (s : Scope) → assert_open o s ≡ none → s.closed ≡ false
    opened_by s fine = ground arith

    enter-Move :
        (s : Scope) (now : ℕ)
        → get_elem? o.scopes l.scope ≡ some s
        → l.kind ≡ fresh
        → Idle l
        → Move o (enter (set_scope l.scope (add_job i s) o) i l s now)
    enter-Move s now found kind quiet =
        on_option (Move o) (assert_open o s)
          (λ fine.
            on_result (Move o) (assert_deadline o.budget now)
              (λ e late.
                enters_by s (record l { used = true; phase = settled (some (ledger e)) }) _ found
                  (λ b. ground arith) refl refl refl (quiet.1, ap is_away quiet.2, refl, kind) refl
                  refl refl)
              (λ _ timely.
                enters_by s (record l { used = true; phase = queued o.scheduler.next_request }) _
                  found (λ _. opened_by s fine) refl refl refl (quiet, refl, kind) refl refl refl))
          (λ e shut.
            enters_by s (record l { used = true; phase = settled (some e) }) _ found
              (λ b. ground arith) refl refl refl (quiet.1, ap is_away quiet.2, refl, kind) refl refl
              refl)

    pub run_invocation-Move : (now : ℕ) → Move o (run_invocation o i l now)
    unfolding run_invocation
    run_invocation-Move now =
        on_kind (Move o) l.kind
          (λ kind.
            on_option (Move o) (get_elem? o.scopes l.scope) (λ _. unchanged o)
              (λ s found.
                if_intro (Move o) l.used (λ _. unchanged o)
                  (λ unused. enter-Move s now found kind (unused-Idle l l.phase tidy unused))))
          (unchanged o)

    module _ (r : ℕ) (here : l.phase ≡ queued r) where
      queued_tidy : Idle l × (l.used ≡ true) × (l.kind ≡ fresh)
      queued_tidy = subst (TidyAt l) here tidy

      begin_bridge : (g : ℕ) → Bridge o (equip o g) i l (equipped o r l)
      begin_bridge g = record {
        kept = refl;
        launches = refl;
        scopes = refl;
        found = at;
        scope = refl;
        busy = ap (λ p. is_busy (record l { phase = p })) here;
        serves = refl;
        called = refl;
        fresh_kind = queued_tidy.2;
        used = queued_tidy.1;
      }

      stop_begun : (g : ℕ) (e : Error) → Move o (fail_launch (equip o g) i (equipped o r l) e)
      stop_begun g e =
          fail_launch-Move o (equip o g) i l (equipped o r l) (begin_bridge g) e
            (λ away. ground (arith, queued_tidy))

      call_work-Move :
          (g : ℕ) → o.closed ≡ false → Move o (call_work (equip o g) i (equipped o r l) r)
      call_work-Move g opened =
          on_result (Move o) (charge o.budget l.reservation) (λ e refused. stop_begun g (ledger e))
            (λ b charged.
              starts i l (record (equipped o r l) { phase = working; called = true }) at
                (record {
                  same_scope = refl;
                  stays_busy = λ _. ap (λ p. is_busy (record l { phase = p })) here;
                  same_serving = refl;
                  tidy = (queued_tidy.2, queued_tidy.1, refl, λ away. ground (arith, queued_tidy));
                })
                opened
                (
                  Budget.charges l.reservation,
                  charges-step o.budget l.reservation b charged,
                  charge-charged o.budget l.reservation b charged,
                )
                queued_tidy.0.0 refl refl refl)

      begin-Move : (g now : ℕ) → Move o (begin (equip o g) i (equipped o r l) g now)
      begin-Move g now =
          on_option (Move o) (live (equip o g) g)
            (λ lives.
              on_result (Move o) (assert_deadline o.budget now) (λ e late. stop_begun g (ledger e))
                (λ _ timely. call_work-Move g (live_open (equip o g) g lives)))
            (λ e stopped. stop_begun g e)

      reject-Move : Move o (put o i (record l { phase = settled (some aborted) }))
      reject-Move =
          turns i l (record l { phase = settled (some aborted) }) at
            (record {
              same_scope = refl;
              stays_busy = λ _. ap (λ p. is_busy (record l { phase = p })) here;
              same_serving = refl;
              tidy = ground (arith, queued_tidy);
            })
            refl refl refl refl

    pub admit-Move : (now : ℕ) → Move o (admit o i l now)
    unfolding admit
    admit-Move now =
        on_queued (Move o) l.phase
          (λ r here.
            on_option (Move o) (settlement r o.scheduler.settled) (λ _. unchanged o)
              (λ b settles.
                on_bool (Move o) b
                  (on_option (Move o) (get_elem? o.scopes l.scope) (λ _. unchanged o)
                    (λ s found. begin-Move r here s.signal now))
                  (reject-Move r here)))
          (unchanged o)

    pub observe-Move : Move o (observe o i l)
    unfolding observe
    observe-Move =
        on_settled (Move o) l.phase
          (λ result here.
            on_option (Move o) (get_elem? o.scopes l.scope) (λ _. unchanged o)
              (λ s found.
                if_intro (Move o) (mem i s.jobs)
                  (λ _.
                    observes i l (outline s) at (ap (λ p. is_busy (record l { phase = p })) here)
                      (get_elem?-map-some outline o.scopes l.scope s found)
                      (react-Kept (set_scope l.scope (drop_job i s) o) l.scope result).0
                      (react-Kept (set_scope l.scope (drop_job i s) o) l.scope result).1
                      ((react-Kept (set_scope l.scope (drop_job i s) o) l.scope result).2
                        ∙ map-set outline o.scopes l.scope (drop_job i s)))
                  (λ _. unchanged o)))
          (unchanged o)
