-- ===== src/Owner/Moves.antt =====
-- What a step of the owner can do to its launches, its scopes and its count of launches, whatever the
-- signals, the permits and the clock decide: extensions/_shared/runtime/execution-state.ts.
use locus_pi.Common.{
  ℕ, ◌+◌, ◌≡◌, Bool, true, false, not, List, [], ◌∷◌, ◌++◌, Option, none, some, ◌==◌, map, every,
  keep, length, get_elem?, set,
}
use locus_pi.Execution.Budget
use locus_pi.Execution.Budget.{Kind, fresh, Call}
use locus_pi.Owner.Records.{
  Root, Scope, Launch, Delegation, Phase, idle, queued, settled, Stage, child_work, draining, over,
}
use locus_pi.Owner.Steps.{mem, new_launch}

-- A scope without its signal and its failure.
pub record Outline : Type 0 where
  pub parent : Option ℕ
  pub jobs : List ℕ
  pub closed : Bool

abbrev pub outline : Scope → Outline
outline s = record { parent = s.parent; jobs = s.jobs; closed = s.closed }

abbrev pub outlines : Root → List Outline
outlines o = map outline o.scopes

-- `execute` has begun and has not settled.
abbrev pub is_busy : Launch → Bool
is_busy l = elim l.phase [ idle ↦ false | settled _ ↦ false | _ ↦ true ]

-- The child scope that a launch runs or drains, with the jobs that it waits for.
abbrev pub serving_at : ℕ → Stage → Option (ℕ × Option (List ℕ))
serving_at c child_work = some (c, none)
serving_at c (draining waited outcome) = some (c, some waited)
serving_at c _ = none

abbrev pub serving_of : Option Delegation → Option (ℕ × Option (List ℕ))
serving_of none = none
serving_of (some d) = serving_at d.child d.stage

abbrev pub serving : Launch → Option (ℕ × Option (List ℕ))
serving l = serving_of l.delegation

-- The delegation is not settled.
abbrev pub is_away_at : Stage → Bool
is_away_at (over _) = false
is_away_at _ = true

abbrev pub is_away : Option Delegation → Bool
is_away none = false
is_away (some d) = is_away_at d.stage

abbrev pub Idle : Launch → Type 0
Idle l = (l.called ≡ false) × (l.permit ≡ none) × (l.delegation ≡ none)

-- The callback has been called, and no permit is held while descendants run.
abbrev pub Started : Launch → Type 0
Started l =
    (l.kind ≡ fresh)
    × (l.used ≡ true)
    × (l.called ≡ true)
    × (is_away l.delegation ≡ true → l.permit ≡ none)

abbrev pub TidyAt : Launch → Phase → Type 0
TidyAt l idle = Idle l × (l.used ≡ false)
TidyAt l (queued r) = Idle l × (l.used ≡ true) × (l.kind ≡ fresh)
TidyAt l (settled e) =
    (l.permit ≡ none) × (is_away l.delegation ≡ false) × (l.used ≡ true) × (l.kind ≡ fresh)
TidyAt l _ = Started l

abbrev pub IsTidy : Launch → Type 0
IsTidy l = TidyAt l l.phase

-- A step of one launch that leaves its scope and its child scope alone.
pub record Turn (l l' : Launch) : Type 0 where
  pub same_scope : l'.scope ≡ l.scope
  pub stays_busy : is_busy l' ≡ true → is_busy l ≡ true
  pub same_serving : serving l' ≡ serving l
  pub tidy : IsTidy l'

-- One call of the ledger, and how many launches it charges.
abbrev pub Reckoned : Root → Root → ℕ → Type 0
Reckoned o o' n =
    (c : Call) × (o'.budget ≡ Budget.step o.budget c) × (o'.budget.charged ≡ o.budget.charged + n)

abbrev pub Kept : Root → Root → Type 0
Kept o o' = o'.budget ≡ o.budget

pub data Move (o o' : Root) : Type 0 where
  stays : Kept o o' → o'.launches ≡ o.launches → outlines o' ≡ outlines o → Move o o'
  reckons : Reckoned o o' 0 → o'.launches ≡ o.launches → outlines o' ≡ outlines o → Move o o'
  adds :
      (c n : ℕ) (kind : Kind) (reservation : Option ℕ)
      → Reckoned o o' 0
      → o'.launches ≡ o.launches ++ new_launch c n kind reservation ∷ []
      → outlines o' ≡ outlines o
      → Move o o'
  enters :
      (i : ℕ) (l l' : Launch) (s : Outline)
      → get_elem? o.launches i ≡ some l
      → get_elem? (outlines o) l.scope ≡ some s
      → (is_busy l' ≡ true → s.closed ≡ false)
      → l'.scope ≡ l.scope
      → l'.called ≡ l.called
      → serving l' ≡ serving l
      → IsTidy l'
      → Kept o o'
      → o'.launches ≡ set o.launches i l'
      → outlines o' ≡ set (outlines o) l.scope (record s { jobs = s.jobs ++ i ∷ [] })
      → Move o o'
  turns :
      (i : ℕ) (l l' : Launch)
      → get_elem? o.launches i ≡ some l
      → Turn l l'
      → Kept o o'
      → l'.called ≡ l.called
      → o'.launches ≡ set o.launches i l'
      → outlines o' ≡ outlines o
      → Move o o'
  starts :
      (i : ℕ) (l l' : Launch)
      → get_elem? o.launches i ≡ some l
      → Turn l l'
      → o.closed ≡ false
      → Reckoned o o' 1
      → l.called ≡ false
      → l'.called ≡ true
      → o'.launches ≡ set o.launches i l'
      → outlines o' ≡ outlines o
      → Move o o'
  observes :
      (i : ℕ) (l : Launch) (s : Outline)
      → get_elem? o.launches i ≡ some l
      → is_busy l ≡ false
      → get_elem? (outlines o) l.scope ≡ some s
      → Kept o o'
      → o'.launches ≡ o.launches
      → outlines o' ≡ set (outlines o) l.scope (record s { jobs = keep (λ j. not (j == i)) s.jobs })
      → Move o o'
  delegates :
      (i : ℕ) (l l' : Launch)
      → get_elem? o.launches i ≡ some l
      → serving l ≡ none
      → l'.scope ≡ l.scope
      → is_busy l ≡ true
      → l'.called ≡ l.called
      → serving l' ≡ some (length o.scopes, none)
      → IsTidy l'
      → Kept o o'
      → o'.launches ≡ set o.launches i l'
      → outlines o' ≡ outlines o ++ record { parent = some i; jobs = []; closed = false } ∷ []
      → Move o o'
  closes_child :
      (i : ℕ) (l l' : Launch) (c : ℕ) (s : Outline)
      → get_elem? o.launches i ≡ some l
      → serving l ≡ some (c, none)
      → get_elem? (outlines o) c ≡ some s
      → l'.scope ≡ l.scope
      → is_busy l' ≡ is_busy l
      → l'.called ≡ l.called
      → serving l' ≡ some (c, some s.jobs)
      → IsTidy l'
      → Kept o o'
      → o'.launches ≡ set o.launches i l'
      → outlines o' ≡ set (outlines o) c (record s { closed = true })
      → Move o o'
  drains :
      (i : ℕ) (l l' : Launch) (c : ℕ) (waited : List ℕ) (s : Outline)
      → get_elem? o.launches i ≡ some l
      → serving l ≡ some (c, some waited)
      → get_elem? (outlines o) c ≡ some s
      → every (λ j. not (mem j s.jobs)) waited ≡ true
      → l'.scope ≡ l.scope
      → is_busy l' ≡ is_busy l
      → l'.called ≡ l.called
      → serving l' ≡ none
      → IsTidy l'
      → Kept o o'
      → o'.launches ≡ set o.launches i l'
      → outlines o' ≡ outlines o
      → Move o o'
