-- ===== src/Execution/Budget/Invariant.antt =====
-- The ledger's books balance: execution-budget.ts.
use locus_pi.Common.{
  ℕ, suc, zero, ◌+◌, ◌-◌, ◌≤◌, ◌≡◌, inl, inr, true, false, List, [], ◌∷◌, ◌++◌, Option, none, some,
  arith, get_elem?, set, Option-cases,
}
use locus_pi.Common.Number.{Number, pos, negsuc, inexact}
use locus_pi.Execution.Budget.{
  Budget, Reservation, Call, reserves, releases, allocates, charges, fresh, replay, ok, reserve,
  release, allocate, charge, create, after, drop_value, step, run,
}

-- What the reservations still hold.
abbrev pub held : List Reservation → ℕ
held [] = 0
held (r ∷ rs) = r.remaining + held rs

-- A released reservation holds nothing.
abbrev pub Settled : List Reservation → Type 0
Settled [] = Unit
Settled (r ∷ rs) = ((r.active ≡ false) → r.remaining ≡ 0) × Settled rs

abbrev pub Within : Option ℕ → ℕ → Type 0
Within none n = Unit {0}
Within (some total) n = n ≤ total

pub record IsBalanced (b : Budget) : Type 0 where
  pub balanced : b.reserved ≡ held b.reservations
  pub settled : Settled b.reservations
  pub capped : Within b.total_agents (b.charged + b.reserved)

held-append : (xs ys : List Reservation) → held (xs ++ ys) ≡ held xs + held ys
held-append [] ys = omega arith
held-append (x ∷ xs) ys = omega (arith, held-append xs ys)

Settled-append : (xs ys : List Reservation) → Settled xs → Settled ys → Settled (xs ++ ys)
Settled-append [] ys h k = k
Settled-append (x ∷ xs) ys h k = (h.0, Settled-append xs ys h.1 k)

-- A write replaces what the reservation held.
held-set :
    (xs : List Reservation) (i : ℕ) (v w : Reservation)
    → get_elem? xs i ≡ some v
    → held (set xs i w) + v.remaining ≡ held xs + w.remaining
held-set [] i v w e = ground arith
held-set (x ∷ xs) zero v w e = ground arith
held-set (x ∷ xs) (suc i) v w e = omega (arith, held-set xs i v w e)

Settled-set :
    (xs : List Reservation) (i : ℕ) (w : Reservation)
    → Settled xs
    → ((w.active ≡ false) → w.remaining ≡ 0)
    → Settled (set xs i w)
Settled-set [] i w h k = tt
Settled-set (x ∷ xs) zero w h k = (k, h.1)
Settled-set (x ∷ xs) (suc i) w h k = (h.0, Settled-set xs i w h.1 k)

pub Settled-get :
    (xs : List Reservation) (i : ℕ) (v : Reservation)
    → Settled xs
    → get_elem? xs i ≡ some v
    → v.active ≡ false
    → v.remaining ≡ 0
Settled-get [] i v s e h = ground arith
Settled-get (x ∷ xs) zero v s e h = ground (arith, s.0)
Settled-get (x ∷ xs) (suc i) v s e h = Settled-get xs i v s.1 e h

-- A reservation's share is part of the reserved total.
pub remaining-le-held :
    (xs : List Reservation) (i : ℕ) (v : Reservation)
    → get_elem? xs i ≡ some v
    → v.remaining ≤ held xs
remaining-le-held [] i v e = ground arith
remaining-le-held (x ∷ xs) zero v e = ground arith
remaining-le-held (x ∷ xs) (suc i) v e = omega (arith, remaining-le-held xs i v e)

Within-le : (o : Option ℕ) (m n : ℕ) → m ≤ n → Within o n → Within o m
Within-le none m n h w = tt
Within-le (some total) m n h w = omega arith

create-IsBalanced :
    (t r : Option Number) (now : ℕ) (b : Budget) → create t r now ≡ ok b → IsBalanced b
unfolding create
create-IsBalanced t r now b e = ground arith

reserve-IsBalanced :
    (b : Budget) (n : Number) → IsBalanced b → IsBalanced (after b (drop_value (reserve b n)))
unfolding reserve
reserve-IsBalanced b (pos n) v =
    let new : Reservation = record { remaining = n; active = true } in
    ground (
      arith,
      held-append b.reservations (new ∷ []),
      Settled-append b.reservations (new ∷ []) v.settled,
    )
reserve-IsBalanced b (negsuc n) v = v
reserve-IsBalanced b inexact v = v

module _ (b : Budget) (r : ℕ) (w : IsBalanced b) where
  -- The facts about a write to a reservation that is there.
  abbrev Facts : Reservation → Reservation → Type 0
  Facts v new =
      (held (set b.reservations r new) + v.remaining ≡ held b.reservations + new.remaining)
      × (((new.active ≡ false) → new.remaining ≡ 0) → Settled (set b.reservations r new))
      × (v.remaining ≤ held b.reservations)

  facts : (v new : Reservation) → get_elem? b.reservations r ≡ some v → Facts v new
  facts v new found = (
    held-set b.reservations r v new found,
    Settled-set b.reservations r new w.settled,
    remaining-le-held b.reservations r v found,
  )

  release-IsBalanced : IsBalanced (after b (release b r))
  unfolding release
  release-IsBalanced = elim (Option-cases (get_elem? b.reservations r)) [
    | inl missing ↦ ground arith
    | inr (v, found) ↦ ground (arith, facts v (record { remaining = 0; active = false }) found)
  ]

  -- A replayed call's slot leaves the reserved total.
  allocate-IsBalanced : IsBalanced (after b (drop_value (allocate b replay (some r))))
  unfolding allocate
  allocate-IsBalanced = elim (Option-cases (get_elem? b.reservations r)) [
    | inl missing ↦ ground arith
    | inr (v, found) ↦ ground (
      arith,
      facts v (record v { remaining = v.remaining - 1 }) found,
      Within-le b.total_agents (b.charged + (b.reserved - 1)) (b.charged + b.reserved),
    )
  ]

  -- A charged slot moves from the reserved total to the charged one.
  charge-IsBalanced : IsBalanced (after b (charge b (some r)))
  unfolding charge
  charge-IsBalanced = elim (Option-cases (get_elem? b.reservations r)) [
    | inl missing ↦ ground arith
    | inr (v, found) ↦ ground (arith, facts v (record v { remaining = v.remaining - 1 }) found)
  ]

pub step-IsBalanced : (b : Budget) (c : Call) → IsBalanced b → IsBalanced (step b c)
unfolding step
step-IsBalanced b (reserves n) v = reserve-IsBalanced b n v
step-IsBalanced b (releases r) v = release-IsBalanced b r v
step-IsBalanced b (allocates fresh r) v = unfold allocate in (ground arith)
step-IsBalanced b (allocates replay none) v = unfold allocate in (ground arith)
step-IsBalanced b (allocates replay (some r)) v = allocate-IsBalanced b r v
step-IsBalanced b (charges none) v = unfold charge in (ground arith)
step-IsBalanced b (charges (some r)) v = charge-IsBalanced b r v

run-IsBalanced : (b : Budget) (cs : List Call) → IsBalanced b → IsBalanced (run b cs)
unfolding run
run-IsBalanced b [] v = v
run-IsBalanced b (c ∷ cs) v = run-IsBalanced (step b c) cs (step-IsBalanced b c v)

-- After any sequence of operations on a new ledger the reserved total is what the reservations
-- still hold, a released reservation holds nothing, and the charged and the reserved launches
-- together stay within the declared total.
pub run-create-IsBalanced :
    (t r : Option Number) (now : ℕ) (b : Budget) (cs : List Call)
    → create t r now ≡ ok b
    → IsBalanced (run b cs)
run-create-IsBalanced t r now b cs e = run-IsBalanced b cs (create-IsBalanced t r now b e)
