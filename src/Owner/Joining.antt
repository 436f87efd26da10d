-- ===== src/Owner/Joining.antt =====
-- A launch that has delegated waits for every launch below it: extensions/_shared/runtime/execution-state.ts.
pub mod Writes
use locus_pi.Common.{
  ℕ, zero, suc, ◌+◌, ◌≡◌, refl, sym, ap, subst, ◌∙◌, ◌⊎◌, inl, inr, Bool, true, false, not, ◌&&◌,
  List, [], ◌∷◌, ◌++◌, Option, none, some, ◌==◌, map, every, keep, any, length, get_elem?, set,
  arith, Bool-cases, ==_iff, ◌≢◌, get_elem?-set_cases, get_elem?-append_cases,
  get_elem?-append_some, get_elem?-set_self, get_elem?-set_ne, get_elem?-append_length, any-append,
}
use locus_pi.Owner.Records.{Root, Launch}
use locus_pi.Owner.Steps.{mem, new_launch}
use locus_pi.Owner.Moves.{
  Outline, outlines, is_busy, serving, IsTidy, Turn, Move, stays, adds, enters, turns, observes,
  delegates, closes_child, drains,
}

abbrev pub Serving : Type 0
Serving = Option (ℕ × Option (List ℕ))

-- The launch runs the child scope `c`, or waits there for the job `i`.
abbrev pub waits_for : ℕ → ℕ → Serving → Bool
waits_for c i none = false
waits_for c i (some (d, none)) = d == c
waits_for c i (some (d, some waited)) = d == c && mem i waited

abbrev pub runs_scope : ℕ → Serving → Bool
runs_scope c none = false
runs_scope c (some (d, none)) = d == c
runs_scope c (some (d, some waited)) = false

abbrev pub serves : List Launch → ℕ → (Serving → Bool) → Bool
serves ls p f = elim (get_elem? ls p) [ none ↦ false | some l ↦ f (serving l) ]

-- The scope of a launch that has begun: its jobs hold the launch, and its parent waits for it.
abbrev pub Placed : List Outline → List Launch → ℕ → Launch → Type 0
Placed os ls i l =
    (s : Outline) × (get_elem? os l.scope ≡ some s)
    × (mem i s.jobs ≡ true)
    × ((p : ℕ) → s.parent ≡ some p → serves ls p (waits_for l.scope i) ≡ true)

-- The parent of a scope that is not closed runs it.
abbrev pub AllRun : List Outline → List Launch → Type 0
AllRun os ls =
    (c p : ℕ) (s : Outline)
    → get_elem? os c ≡ some s
    → s.closed ≡ false
    → s.parent ≡ some p
    → serves ls p (runs_scope c) ≡ true

pub record IsJoined (os : List Outline) (ls : List Launch) : Type 0 where
  pub tidy : (i : ℕ) (l : Launch) → get_elem? ls i ≡ some l → IsTidy l
  pub placed : (i : ℕ) (l : Launch) → get_elem? ls i ≡ some l → is_busy l ≡ true → Placed os ls i l
  pub run_by : AllRun os ls

-- What is served stays served when a launch is added, and when one is written whose new value passes
-- the test if the old one did.
pub serves-append :
    (ls : List Launch) (x : Launch) (p : ℕ) (f : Serving → Bool)
    → serves ls p f ≡ true
    → serves (ls ++ x ∷ []) p f ≡ true
serves-append [] x p f h = ground arith
serves-append (y ∷ ls) x zero f h = h
serves-append (y ∷ ls) x (suc p) f h = serves-append ls x p f h

pub serves-set :
    (ls : List Launch) (i : ℕ) (l l' : Launch) (p : ℕ) (f : Serving → Bool)
    → get_elem? ls i ≡ some l
    → (p ≡ i → f (serving l) ≡ true → f (serving l') ≡ true)
    → serves ls p f ≡ true
    → serves (set ls i l') p f ≡ true
serves-set [] i l l' p f at k h = ground arith
serves-set (x ∷ ls) zero l l' zero f at k h = ground arith
serves-set (x ∷ ls) zero l l' (suc p) f at k h = h
serves-set (x ∷ ls) (suc i) l l' zero f at k h = h
serves-set (x ∷ ls) (suc i) l l' (suc p) f at k h =
    serves-set ls i l l' p f at (λ e. k (ap suc e)) h

-- A scope that is written keeps its parent, and the jobs that pass the test.
pub place-set :
    (os : List Outline) (c : ℕ) (s s' : Outline) (d k : ℕ) (t : Outline)
    → get_elem? os c ≡ some s
    → s'.parent ≡ s.parent
    → (mem k s.jobs ≡ true → mem k s'.jobs ≡ true)
    → get_elem? os d ≡ some t
    → mem k t.jobs ≡ true
    → (t' : Outline) × (get_elem? (set os c s') d ≡ some t')
      × (mem k t'.jobs ≡ true)
      × (t'.parent ≡ t.parent)
place-set [] c s s' d k t at parent jobs found member = ground arith
place-set (x ∷ os) zero s s' zero k t at parent jobs found member =
    (s', refl, ground arith, ground arith)
place-set (x ∷ os) zero s s' (suc d) k t at parent jobs found member = (t, found, member, refl)
place-set (x ∷ os) (suc c) s s' zero k t at parent jobs found member = (t, found, member, refl)
place-set (x ∷ os) (suc c) s s' (suc d) k t at parent jobs found member =
    place-set os c s s' d k t at parent jobs found member

pub mem-keep :
    (i k : ℕ) (xs : List ℕ) → k ≢ i → mem k xs ≡ true → mem k (keep (λ j. not (j == i)) xs) ≡ true
mem-keep i k [] h e = ground arith
mem-keep i k (x ∷ xs) h e = ground (arith, mem-keep i k xs h)

pub mem-append_self : (i : ℕ) (xs : List ℕ) → mem i (xs ++ i ∷ []) ≡ true
mem-append_self i [] = ground arith
mem-append_self i (x ∷ xs) = ground (arith, mem-append_self i xs)

pub every-mem :
    (p : ℕ → Bool) (k : ℕ) (xs : List ℕ) → every p xs ≡ true → mem k xs ≡ true → p k ≡ true
every-mem p k [] h e = ground arith
every-mem p k (x ∷ xs) h e = elim (Bool-cases (x == k)) [
  | inl same ↦ subst (λ y. p y ≡ true) ((==_iff x k).0 same) (ground arith)
  | inr other ↦ every-mem p k xs (ground arith) (ground arith)
]

serves_mono :
    (ls : List Launch) (p : ℕ) (f g : Serving → Bool)
    → ((v : Serving) → f v ≡ true → g v ≡ true)
    → serves ls p f ≡ true
    → serves ls p g ≡ true
serves_mono [] p f g k h = ground arith
serves_mono (x ∷ ls) zero f g k h = k (serving x) h
serves_mono (x ∷ ls) (suc p) f g k h = serves_mono ls p f g k h

runs_waits_for : (c i : ℕ) (v : Serving) → runs_scope c v ≡ true → waits_for c i v ≡ true
runs_waits_for c i none h = ground arith
runs_waits_for c i (some (d, none)) h = h
runs_waits_for c i (some (d, some waited)) h = ground arith

-- A launch that runs a scope waits there for every job.
pub runs-waits :
    (ls : List Launch) (p c i : ℕ)
    → serves ls p (runs_scope c) ≡ true
    → serves ls p (waits_for c i) ≡ true
runs-waits ls p c i h = serves_mono ls p (runs_scope c) (waits_for c i) (runs_waits_for c i) h
