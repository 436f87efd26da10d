-- ===== src/Owner/Matches.antt =====
-- A predicate of a match of the owner's operations, from the branches of the match:
-- extensions/_shared/runtime/execution-state.ts.
use locus_pi.Common.{ℕ, ◌≡◌, refl, ◌⊎◌, inl, inr, Bool, true, false, List, Option}
use locus_pi.Execution.Budget
use locus_pi.Execution.Budget.{Kind, fresh, replay, Result, ok, err}
use locus_pi.Owner.Records.{
  Error, Phase, idle, queued, working, returned, failing, settled, Stage, child_work, draining,
  leaving, reentering, over,
}

-- A result by its two forms.
pub Result-cases {ℓ} :
    {A : Type ℓ} (r : Result A) → ((e : Budget.Error) × (r ≡ err e)) ⊎ ((a : A) × (r ≡ ok a))
Result-cases (err e) = inl (e, refl)
Result-cases (ok a) = inr (a, refl)

pub on_result {ℓ κ ι} :
    {A : Type ℓ} {B : Type κ} (P : B → Type ι) (x : Result A) {g : Budget.Error → B} {f : A → B}
    → ((e : Budget.Error) → x ≡ err e → P (g e))
    → ((a : A) → x ≡ ok a → P (f a))
    → P (elim x [ err e ↦ g e | ok a ↦ f a ])
on_result P (err e) h k = h e refl
on_result P (ok a) h k = k a refl

pub on_kind {ℓ ι} :
    {B : Type ℓ} (P : B → Type ι) (k : Kind) {x y : B}
    → (k ≡ fresh → P x)
    → P y
    → P (elim k [ replay ↦ y | fresh ↦ x ])
on_kind P fresh h r = h refl
on_kind P replay h r = r

pub on_queued {ℓ ι} :
    {B : Type ℓ} (P : B → Type ι) (p : Phase) {f : ℕ → B} {y : B}
    → ((r : ℕ) → p ≡ queued r → P (f r))
    → P y
    → P (elim p [ queued r ↦ f r | _ ↦ y ])
on_queued P idle h k = k
on_queued P (queued r) h k = h r refl
on_queued P working h k = k
on_queued P returned h k = k
on_queued P (failing e) h k = k
on_queued P (settled e) h k = k

pub on_settled {ℓ ι} :
    {B : Type ℓ} (P : B → Type ι) (p : Phase) {f : Option Error → B} {y : B}
    → ((e : Option Error) → p ≡ settled e → P (f e))
    → P y
    → P (elim p [ settled e ↦ f e | _ ↦ y ])
on_settled P idle h k = k
on_settled P (queued r) h k = k
on_settled P working h k = k
on_settled P returned h k = k
on_settled P (failing e) h k = k
on_settled P (settled e) h k = h e refl

pub on_bool {ℓ ι} :
    {B : Type ℓ} (P : B → Type ι) (b : Bool) {x y : B}
    → P x
    → P y
    → P (elim b [ false ↦ y | true ↦ x ])
on_bool P true h k = h
on_bool P false h k = k

pub on_child_work {ℓ ι} :
    {B : Type ℓ} (P : B → Type ι) (s : Stage) {f : B} {y : B}
    → (s ≡ child_work → P f)
    → P y
    → P (elim s [ child_work ↦ f | _ ↦ y ])
on_child_work P child_work h k = h refl
on_child_work P (draining w e) h k = k
on_child_work P (leaving e) h k = k
on_child_work P (reentering r e) h k = k
on_child_work P (over e) h k = k

pub on_draining {ℓ ι} :
    {B : Type ℓ} (P : B → Type ι) (s : Stage) {f : List ℕ → Option Error → B} {y : B}
    → ((w : List ℕ) (e : Option Error) → s ≡ draining w e → P (f w e))
    → P y
    → P (elim s [ draining w e ↦ f w e | _ ↦ y ])
on_draining P child_work h k = k
on_draining P (draining w e) h k = h w e refl
on_draining P (leaving e) h k = k
on_draining P (reentering r e) h k = k
on_draining P (over e) h k = k

pub on_leaving {ℓ ι} :
    {B : Type ℓ} (P : B → Type ι) (s : Stage) {f : Option Error → B} {y : B}
    → ((e : Option Error) → s ≡ leaving e → P (f e))
    → P y
    → P (elim s [ leaving e ↦ f e | _ ↦ y ])
on_leaving P child_work h k = k
on_leaving P (draining w e) h k = k
on_leaving P (leaving e) h k = h e refl
on_leaving P (reentering r e) h k = k
on_leaving P (over e) h k = k

pub on_reentering {ℓ ι} :
    {B : Type ℓ} (P : B → Type ι) (s : Stage) {f : ℕ → Option Error → B} {y : B}
    → ((r : ℕ) (e : Option Error) → s ≡ reentering r e → P (f r e))
    → P y
    → P (elim s [ reentering r e ↦ f r e | _ ↦ y ])
on_reentering P child_work h k = k
on_reentering P (draining w e) h k = k
on_reentering P (leaving e) h k = k
on_reentering P (reentering r e) h k = h r e refl
on_reentering P (over e) h k = k

pub on_over {ℓ ι} :
    {B : Type ℓ} (P : B → Type ι) (s : Stage) {f : Option Error → B} {y : B}
    → ((e : Option Error) → s ≡ over e → P (f e))
    → P y
    → P (elim s [ over e ↦ f e | _ ↦ y ])
on_over P child_work h k = k
on_over P (draining w e) h k = k
on_over P (leaving e) h k = k
on_over P (reentering r e) h k = k
on_over P (over e) h k = h e refl

pub on_working {ℓ ι} :
    {B : Type ℓ} (P : B → Type ι) (p : Phase) {x y : B}
    → (p ≡ working → P x)
    → P y
    → P (elim p [ working ↦ x | _ ↦ y ])
on_working P idle h k = k
on_working P (queued r) h k = k
on_working P working h k = h refl
on_working P returned h k = k
on_working P (failing e) h k = k
on_working P (settled e) h k = k

pub on_ended {ℓ ι} :
    {B : Type ℓ} (P : B → Type ι) (p : Phase) {x y : B} {f : Error → B}
    → (p ≡ returned → P x)
    → ((e : Error) → p ≡ failing e → P (f e))
    → P y
    → P (elim p [ returned ↦ x | failing e ↦ f e | _ ↦ y ])
on_ended P idle h g k = k
on_ended P (queued r) h g k = k
on_ended P working h g k = k
on_ended P returned h g k = h refl
on_ended P (failing e) h g k = g e refl
on_ended P (settled e) h g k = k
