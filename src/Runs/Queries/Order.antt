-- ===== src/Runs/Queries/Order.antt =====
-- background-run-registry.ts: sorting the runs by their start, newest first.
use locus_pi.Common.{
  ℕ, ◌≤◌, ◌≡◌, refl, Bool, List, [], ◌∷◌, count, arith, All, if_intro, ltb, All-keep, All-find,
  keep, find?, Option, none, some, ◌||◌, not, inl, inr, subst, Bool-cases,
}
use locus_pi.Common.Text.{Text, codes, text_eq}
use locus_pi.Runs.Records.{Run, Registry, Lease, same_session, is_settled}
use locus_pi.Runs.Queries.{
  newest_first, insert_run, first_of_session, or_else, has_run_id, select_run,
}

-- Sorting neither loses nor repeats a run: every test passes as often.
module _ (p : Run → Bool) where
  count-insert_run : (r : Run) (rs : List Run) → count p (insert_run r rs) ≡ count p (r ∷ rs)
  unfolding insert_run
  count-insert_run r [] = refl
  count-insert_run r (q ∷ qs) = ground (arith, count-insert_run r qs)

  pub count-newest_first : (rs : List Run) → count p (newest_first rs) ≡ count p rs
  unfolding newest_first
  count-newest_first [] = refl
  count-newest_first (r ∷ rs) =
      ground (arith, count-insert_run r (newest_first rs), count-newest_first rs)

-- Each run was started no later than those before it.
abbrev pub Descends : List Run → Type 0
Descends [] = Unit
Descends (r ∷ rs) = All (λ q. q.started_order ≤ r.started_order) rs × Descends rs

All-insert_run :
    (n : ℕ) (r : Run) (rs : List Run)
    → r.started_order ≤ n
    → All (λ q. q.started_order ≤ n) rs
    → All (λ q. q.started_order ≤ n) (insert_run r rs)
unfolding insert_run
All-insert_run n r [] h a = (h, tt)
All-insert_run n r (q ∷ qs) h a = ground (arith, All-insert_run n r qs h a.1)

All-mono :
    (m n : ℕ) (rs : List Run)
    → m ≤ n
    → All (λ q. q.started_order ≤ m) rs
    → All (λ q. q.started_order ≤ n) rs
All-mono m n [] h a = tt
All-mono m n (q ∷ qs) h a = (omega arith, All-mono m n qs h a.1)

insert_run-Descends : (r : Run) (rs : List Run) → Descends rs → Descends (insert_run r rs)
unfolding insert_run
insert_run-Descends r [] d = (tt, tt)
insert_run-Descends r (q ∷ qs) d = ground (
  arith,
  insert_run-Descends r qs d.1,
  All-insert_run q.started_order r qs,
  All-mono q.started_order r.started_order qs,
  d,
)

pub newest_first-Descends : (rs : List Run) → Descends (newest_first rs)
unfolding newest_first
newest_first-Descends [] = tt
newest_first-Descends (r ∷ rs) = insert_run-Descends r (newest_first rs) (newest_first-Descends rs)

-- What holds of all runs holds of the sorted ones.
module _ {ℓ} (P : Run → Type ℓ) where
  insert_run-All : (r : Run) (rs : List Run) → P r → All P rs → All P (insert_run r rs)
  unfolding insert_run
  insert_run-All r [] h a = (h, tt)
  insert_run-All r (q ∷ qs) h a =
      if_intro (All P) (ltb r.started_order q.started_order) (λ _. (a.0, insert_run-All r qs h a.1))
        (λ _. (h, a))

  pub newest_first-All : (rs : List Run) → All P rs → All P (newest_first rs)
  unfolding newest_first
  newest_first-All [] a = tt
  newest_first-All (r ∷ rs) a = insert_run-All r (newest_first rs) a.0 (newest_first-All rs a.1)

  first_of_session-All : (rs : List Run) (r : Run) → All P rs → first_of_session rs ≡ some r → P r
  first_of_session-All [] r a e = absurd (cc)
  first_of_session-All (q ∷ rs) r a e = subst P (ground arith) a.0

  or_else-All :
      (m n : Option Run) (r : Run)
      → (m ≡ some r → P r)
      → (n ≡ some r → P r)
      → or_else m n ≡ some r
      → P r
  or_else-All none n r h k e = k e
  or_else-All (some q) n r h k e = h e

  -- What holds of all runs holds of the one that is selected.
  pub select_run-All :
      (state : Registry) (l : Lease) (t : Text) (r : Run)
      → All P state.runs
      → select_run state l t ≡ some r
      → P r
  unfolding select_run
  select_run-All state l t r a e =
      let seen = newest_first (keep (λ q. same_session q.lease l) state.runs) in
      let kept = newest_first-All _ (All-keep P (λ q. same_session q.lease l) state.runs a) in
      elim (Bool-cases (text_eq t (codes "last"))) [
        | inl last ↦
            or_else-All (find? (λ q. not (is_settled q.state)) seen) (first_of_session seen) r
              (All-find P (λ q. not (is_settled q.state)) seen r kept)
              (first_of_session-All seen r kept) (ground arith)
        | inr named ↦
            All-find P (λ q. has_run_id t q.run_id || text_eq q.launch_id t) seen r kept
              (ground arith)
      ]
