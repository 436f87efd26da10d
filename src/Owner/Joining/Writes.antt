-- ===== src/Owner/Joining/Writes.antt =====
-- Each move of the owner keeps every begun launch in its place: extensions/_shared/runtime/execution-state.ts.
use locus_pi.Common.{
  ℕ, ◌≡◌, refl, sym, ap, subst, ◌∙◌, inl, inr, Bool, true, false, not, ◌&&◌, List, [], ◌∷◌, ◌++◌,
  none, some, ◌==◌, every, keep, length, get_elem?, set, arith, ==_iff, get_elem?-set_cases,
  get_elem?-append_cases, get_elem?-append_some, get_elem?-set_self, any-append,
}
use locus_pi.Owner.Records.{Launch}
use locus_pi.Owner.Steps.{mem}
use locus_pi.Owner.Moves.{Outline, is_busy, serving, IsTidy}
use locus_pi.Owner.Joining.{
  Serving, waits_for, runs_scope, serves, Placed, AllRun, IsJoined, serves-append, serves-set,
  place-set, mem-keep, mem-append_self, every-mem, runs-waits,
}

serves-set_self :
    (ls : List Launch) (i : ℕ) (l l' : Launch) (f : Serving → Bool)
    → get_elem? ls i ≡ some l
    → serves (set ls i l') i f ≡ f (serving l')
serves-set_self ls i l l' f at =
    ap (λ x. elim x [ none ↦ false | some y ↦ f (serving y) ]) (get_elem?-set_self ls i l l' at)

-- Two scopes at one position have the same jobs.
same_jobs :
    (os : List Outline) (c d k : ℕ) (s t : Outline)
    → get_elem? os c ≡ some s
    → get_elem? os d ≡ some t
    → (c == d) ≡ true
    → mem k t.jobs ≡ true
    → mem k s.jobs ≡ true
same_jobs os c d k s t at found same member =
    let e = ap (get_elem? os) ((==_iff c d).0 same) in ground arith

apart : (b : Bool) → b ≡ true → b ≡ false → ⊥
apart b h k = ground arith

same_launch :
    (ls : List Launch) (i k : ℕ) (l x : Launch)
    → get_elem? ls i ≡ some l
    → get_elem? ls k ≡ some x
    → k ≡ i
    → is_busy x ≡ true
    → is_busy l ≡ true
same_launch ls i k l x at e same b = let f = ap (get_elem? ls) same in ground arith

-- The scope that a launch runs is the one that it closes.
was_closed :
    (os : List Outline) (c d : ℕ) (s s' t : Outline) (v : Serving)
    → v ≡ some (c, none)
    → get_elem? os c ≡ some s
    → get_elem? (set os c s') d ≡ some t
    → s'.closed ≡ true
    → runs_scope d v ≡ true
    → t.closed ≡ true
was_closed os c d s s' t v before at found shut e =
    let same = (==_iff c d).0 (sym (ap (runs_scope d) before) ∙ e) in
    let here = ap (get_elem? (set os c s')) same in
    let there = get_elem?-set_self os c s s' at in ground arith

-- A launch waits for no job that is still in the scope.
all_left :
    (os : List Outline) (c d k : ℕ) (waited : List ℕ) (s t : Outline) (v : Serving)
    → v ≡ some (c, some waited)
    → get_elem? os c ≡ some s
    → get_elem? os d ≡ some t
    → every (λ m. not (mem m s.jobs)) waited ≡ true
    → mem k t.jobs ≡ true
    → waits_for d k v ≡ true
    → ⊥
all_left os c d k waited s t v before at found all member e =
    let both : (c == d && mem k waited) ≡ true = sym (ap (waits_for d k) before) ∙ e in
    let there = same_jobs os c d k s t at found (ground arith) member in
    let gone = every-mem (λ m. not (mem m s.jobs)) k waited all (ground arith) in
    apart (mem k s.jobs) there (ground arith)

closing_waits :
    (c d k : ℕ) (jobs : List ℕ) (v w : Serving)
    → v ≡ some (c, none)
    → w ≡ some (c, some jobs)
    → ((c == d) ≡ true → mem k jobs ≡ true)
    → waits_for d k v ≡ true
    → waits_for d k w ≡ true
closing_waits c d k jobs v w before now h e = ground arith

module _ (os : List Outline) (ls : List Launch) (j : IsJoined os ls) where
  module _ (i : ℕ) (l l' : Launch) (at : get_elem? ls i ≡ some l) (scope : l'.scope ≡ l.scope)
      (tidied : IsTidy l') where
    abbrev ls' : List Launch
    ls' = set ls i l'

    written-IsTidy : (k : ℕ) (x : Launch) → get_elem? ls' k ≡ some x → IsTidy x
    written-IsTidy k x e = elim (get_elem?-set_cases ls i k l' x e) [
      | inl (same, now) ↦ subst IsTidy (sym now) tidied
      | inr old ↦ j.tidy k x old
    ]

    -- A write is joined when the places of the busy launches and the open scopes carry over.
    written :
        (os' : List Outline)
        → ((k : ℕ) (x : Launch)
            → get_elem? ls k ≡ some x
            → is_busy x ≡ true
            → Placed os ls k x
            → Placed os' ls' k x)
        → (is_busy l' ≡ true → Placed os' ls' i l')
        → AllRun os' ls'
        → IsJoined os' ls'
    written os' carry own runs = record {
      tidy = written-IsTidy;
      placed = λ k x e busy. elim (get_elem?-set_cases ls i k l' x e) [
        | inl (same, now) ↦
            subst (λ q. Placed os' ls' q x) (sym same)
              (subst (Placed os' ls' i) (sym now) (own (subst (λ y. is_busy y ≡ true) now busy)))
        | inr old ↦ carry k x old busy (j.placed k x old busy)
      ];
      run_by = runs;
    }

    -- The place of the written launch, from the one of the launch before.
    own_place : (os' : List Outline) → Placed os' ls' i l → Placed os' ls' i l'
    own_place os' (s, found, member, parents) = (
      s,
      ap (get_elem? os') scope ∙ found,
      member,
      λ p q. ap (λ c. serves ls' p (waits_for c i)) scope ∙ parents p q,
    )

    -- The served scope is as before.
    module _ (same : serving l' ≡ serving l) where
      still : (p : ℕ) (f : Serving → Bool) → serves ls p f ≡ true → serves ls' p f ≡ true
      still p f h = serves-set ls i l l' p f at (λ _ e. ap f same ∙ e) h

      still-Placed : (k : ℕ) (x : Launch) → Placed os ls k x → Placed os ls' k x
      still-Placed k x (s, found, member, parents) =
          (s, found, member, λ p q. still p (waits_for x.scope k) (parents p q))

      pub turned : (is_busy l' ≡ true → is_busy l ≡ true) → IsJoined os ls'
      turned busy =
          written os (λ k x e b place. still-Placed k x place)
            (λ b. own_place os (still-Placed i l (j.placed i l at (busy b))))
            (λ c p s found shut parent. still p (runs_scope c) (j.run_by c p s found shut parent))

      -- The launch becomes a job of its scope.
      pub entered :
          (s : Outline)
          → get_elem? os l.scope ≡ some s
          → (is_busy l' ≡ true → s.closed ≡ false)
          → IsJoined (set os l.scope (record s { jobs = s.jobs ++ i ∷ [] })) ls'
      entered s at_scope opened =
          let s' : Outline = record s { jobs = s.jobs ++ i ∷ [] } in
          written (set os l.scope s')
            (λ k x e b (t, found, member, parents).
              let (t', found', member', parent) =
                place-set os l.scope s s' x.scope k t at_scope refl
                  (any-append (λ m. m == k) s.jobs (i ∷ [])) found member in
              (
                t',
                found',
                member',
                λ p q. still p (waits_for x.scope k) (parents p (sym parent ∙ q)),
              ))
            (λ b. own_place (set os l.scope s') (
              s',
              get_elem?-set_self os l.scope s s' at_scope,
              mem-append_self i s.jobs,
              λ p q.
                  still p (waits_for l.scope i)
                    (runs-waits ls p l.scope i (j.run_by l.scope p s at_scope (opened b) q)),
            ))
            (λ c p t found shut parent. elim (get_elem?-set_cases os l.scope c s' t found) [
              | inl (here, now) ↦ still p (runs_scope c) (
                  j.run_by c p s (ap (get_elem? os) here ∙ at_scope)
                    (ap (λ x. x.closed) (sym now) ∙ shut) (ap (λ x. x.parent) (sym now) ∙ parent))
              | inr old ↦ still p (runs_scope c) (j.run_by c p t old shut parent)
            ])

    -- The launch makes a scope, and serves it from then on.
    pub delegated :
        serving l ≡ none
        → is_busy l ≡ true
        → serving l' ≡ some (length os, none)
        → IsJoined (os ++ record { parent = some i; jobs = []; closed = false } ∷ []) ls'
    delegated free busy serves_new =
        let s : Outline = record { parent = some i; jobs = []; closed = false } in
        let still : (p : ℕ) (f : Serving → Bool)
            → f none ≡ false
            → serves ls p f ≡ true
            → serves ls' p f ≡ true =
          λ p f no h. serves-set ls i l l' p f at (λ _ e. ground arith) h in
        let carry : (k : ℕ) (x : Launch) → Placed os ls k x → Placed (os ++ s ∷ []) ls' k x =
          λ k x (t, found, member, parents). (
            t,
            get_elem?-append_some os (s ∷ []) x.scope t found,
            member,
            λ p q. still p (waits_for x.scope k) refl (parents p q),
          ) in
        written (os ++ s ∷ []) (λ k x e b place. carry k x place)
          (λ b. own_place (os ++ s ∷ []) (carry i l (j.placed i l at busy)))
          (λ c p t found shut parent. elim (get_elem?-append_cases os s c t found) [
            | inl (last, now) ↦
                let parent_i : p ≡ i = ground arith in
                ap (λ q. serves ls' q (runs_scope c)) parent_i
                ∙ serves-set_self ls i l l' (runs_scope c) at
                ∙ ap (runs_scope c) serves_new
                ∙ ground arith
            | inr old ↦ still p (runs_scope c) refl (j.run_by c p t old shut parent)
          ])

    -- The launch closes the scope that it runs, and waits for its jobs.
    pub closed :
        (c : ℕ) (s : Outline)
        → serving l ≡ some (c, none)
        → get_elem? os c ≡ some s
        → is_busy l' ≡ is_busy l
        → serving l' ≡ some (c, some s.jobs)
        → IsJoined (set os c (record s { closed = true })) ls'
    closed c s before at_child busy now =
        let s' : Outline = record s { closed = true } in
        let os' : List Outline = set os c s' in
        let carry : (k : ℕ) (x : Launch) → Placed os ls k x → Placed os' ls' k x =
          λ k x (t, found, member, parents).
            let (t', found', member', parent) =
              place-set os c s s' x.scope k t at_child refl (λ m. m) found member in
            (
              t',
              found',
              member',
              λ p q.
                  serves-set ls i l l' p (waits_for x.scope k) at
                    (λ _ e.
                      closing_waits c x.scope k s.jobs (serving l) (serving l') before now
                        (λ same. same_jobs os c x.scope k s t at_child found same member) e)
                    (parents p (sym parent ∙ q)),
            ) in
        written os' (λ k x e b place. carry k x place)
          (λ b. own_place os' (carry i l (j.placed i l at (sym busy ∙ b))))
          (λ d p t found shut parent. elim (get_elem?-set_cases os c d s' t found) [
            | inl (here, is) ↦ absurd (ground arith)
            | inr old ↦
                serves-set ls i l l' p (runs_scope d) at
                  (λ _ e. absurd (
                    apart t.closed
                      (was_closed os c d s s' t (serving l) before at_child found refl e) shut))
                  (j.run_by d p t old shut parent)
          ])

    -- The jobs that the launch waits for have all left the scope.
    pub drained :
        (c : ℕ) (waited : List ℕ) (s : Outline)
        → serving l ≡ some (c, some waited)
        → get_elem? os c ≡ some s
        → every (λ k. not (mem k s.jobs)) waited ≡ true
        → is_busy l' ≡ is_busy l
        → serving l' ≡ none
        → IsJoined os ls'
    drained c waited s before at_child all busy now =
        let carry : (k : ℕ) (x : Launch) → Placed os ls k x → Placed os ls' k x =
          λ k x (t, found, member, parents). (
            t,
            found,
            member,
            λ p q.
                serves-set ls i l l' p (waits_for x.scope k) at
                  (λ _ e. absurd (
                    all_left os c x.scope k waited s t (serving l) before at_child found all member
                      e))
                  (parents p q),
          ) in
        written os (λ k x e b place. carry k x place)
          (λ b. own_place os (carry i l (j.placed i l at (sym busy ∙ b))))
          (λ d p t found shut parent.
            serves-set ls i l l' p (runs_scope d) at (λ _ e. absurd (ground arith))
              (j.run_by d p t found shut parent))

  pub observed :
      (i : ℕ) (l : Launch) (s : Outline)
      → get_elem? ls i ≡ some l
      → is_busy l ≡ false
      → get_elem? os l.scope ≡ some s
      → IsJoined (set os l.scope (record s { jobs = keep (λ k. not (k == i)) s.jobs })) ls
  observed i l s at idle_now at_scope =
      let s' : Outline = record s { jobs = keep (λ k. not (k == i)) s.jobs } in
      record {
        tidy = j.tidy;
        placed = λ k x e b.
            let (t, found, member, parents) = j.placed k x e b in
            let (t', found', member', parent) =
              place-set os l.scope s s' x.scope k t at_scope refl
                (mem-keep i k s.jobs
                  (λ same. apart (is_busy l) (same_launch ls i k l x at e same b) idle_now))
                found member in
            (t', found', member', λ p q. parents p (sym parent ∙ q));
        run_by = λ c p t found shut parent. elim (get_elem?-set_cases os l.scope c s' t found) [
          | inl (here, now) ↦
              j.run_by c p s (ap (get_elem? os) here ∙ at_scope)
                (ap (λ x. x.closed) (sym now) ∙ shut) (ap (λ x. x.parent) (sym now) ∙ parent)
          | inr old ↦ j.run_by c p t old shut parent
        ];
      }

  pub added : (x : Launch) → is_busy x ≡ false → IsTidy x → IsJoined os (ls ++ x ∷ [])
  added x quiet tidied = record {
    tidy = λ k y e. elim (get_elem?-append_cases ls x k y e) [
      | inl (last, now) ↦ subst IsTidy (sym now) tidied
      | inr old ↦ j.tidy k y old
    ];
    placed = λ k y e b. elim (get_elem?-append_cases ls x k y e) [
      | inl (last, now) ↦ absurd (apart (is_busy y) b (ap is_busy now ∙ quiet))
      | inr old ↦
          let (t, found, member, parents) = j.placed k y old b in
          (t, found, member, λ p q. serves-append ls x p (waits_for y.scope k) (parents p q))
    ];
    run_by = λ c p t found shut parent.
        serves-append ls x p (runs_scope c) (j.run_by c p t found shut parent);
  }
