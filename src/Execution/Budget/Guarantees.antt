-- ===== src/Execution/Budget/Guarantees.antt =====
-- What a caller of the ledger may rely on: execution-budget.ts.
use locus_pi.Common.{
  ℕ, suc, zero, ◌+◌, ◌-◌, ◌≡◌, ◌≢◌, refl, inl, inr, true, false, List, [], ◌∷◌, none, some, arith,
  get_elem?, set, get_elem?-append_some, get_elem?-append_length, get_elem?-set_ne,
  get_elem?-set_self, ap, Option-cases, All,
}
use locus_pi.Common.Number.{pos, negsuc, inexact}
use locus_pi.Execution.Budget.{
  Budget, Reservation, Call, reserves, releases, allocates, charges, fresh, replay, Result, ok, err,
  cap, reserve, release, allocate, charge, total_or_zero, step, run, ◌>>=◌,
}

-- What a call does not touch: `r` is not the reservation that it names.
abbrev pub Spares : ℕ → Call → Type 0
Spares r (reserves n) = Unit {0}
Spares r (releases q) = q ≢ r
Spares r (allocates k q) = q ≢ some r
Spares r (charges q) = q ≢ some r

-- `charge(reservation)` repeated.
abbrev pub charge_times : ℕ → ℕ → Budget → Result Budget
charge_times zero r b = ok b
charge_times (suc n) r b = charge b (some r) >>= charge_times n r

abbrev Holds : ℕ → ℕ → Budget → Type 0
Holds r n b = get_elem? b.reservations r ≡ some (record { remaining = n; active = true })

kept :
    (b : Budget) (q r : ℕ) (v : Reservation)
    → q ≢ r
    → get_elem? (set b.reservations q (record v { remaining = v.remaining - 1 })) r
      ≡ get_elem? b.reservations r
kept b q r v h = get_elem?-set_ne b.reservations q r _ h

step-Holds : (b : Budget) (c : Call) (r n : ℕ) → Spares r c → Holds r n b → Holds r n (step b c)
unfolding step
step-Holds b (reserves (pos k)) r n s h =
    let new : Reservation = record { remaining = k; active = true } in
    unfold reserve in ground (arith, get_elem?-append_some b.reservations (new ∷ []) r _ h)
step-Holds b (reserves (negsuc k)) r n s h = unfold reserve in h
step-Holds b (reserves inexact) r n s h = unfold reserve in h
step-Holds b (releases q) r n s h =
    let gone : Reservation = record { remaining = 0; active = false } in
    unfold release in ground (arith, get_elem?-set_ne b.reservations q r gone s)
step-Holds b (allocates fresh q) r n s h = unfold allocate in h
step-Holds b (allocates replay none) r n s h = unfold allocate in h
step-Holds b (allocates replay (some q)) r n s h =
    unfold allocate in
    (elim (Option-cases (get_elem? b.reservations q)) [
      | inl missing ↦ ground arith
      | inr (v, found) ↦ ground (arith, kept b q r v (λ e. s (ap some e)))
    ])
step-Holds b (charges none) r n s h = unfold charge in ground arith
step-Holds b (charges (some q)) r n s h =
    unfold charge in
    (elim (Option-cases (get_elem? b.reservations q)) [
      | inl missing ↦ ground arith
      | inr (v, found) ↦ ground (arith, kept b q r v (λ e. s (ap some e)))
    ])

run-Holds :
    (b : Budget) (cs : List Call) (r n : ℕ) → All (Spares r) cs → Holds r n b → Holds r n (run b cs)
unfolding run
run-Holds b [] r n s h = h
run-Holds b (c ∷ cs) r n s h = run-Holds (step b c) cs r n s.1 (step-Holds b c r n s.0 h)

abbrev charged_once : Budget → ℕ → ℕ → Budget
charged_once b r n = record b {
  reservations = set b.reservations r (record { remaining = n; active = true });
  reserved = b.reserved - 1;
  charged = b.charged + 1;
}

charged_once-Holds : (b : Budget) (r n : ℕ) → Holds r (suc n) b → Holds r n (charged_once b r n)
charged_once-Holds b r n h = get_elem?-set_self b.reservations r _ _ h

charge-Holds :
    (b : Budget) (r n : ℕ) → Holds r (suc n) b → charge b (some r) ≡ ok (charged_once b r n)
unfolding charge
charge-Holds b r n h = ground arith

charge_times-Holds :
    (b : Budget) (r m : ℕ)
    → Holds r m b
    → (b' : Budget) × (charge_times m r b ≡ ok b') × (b'.charged ≡ b.charged + m) × Holds r 0 b'
charge_times-Holds b r zero h = (b, refl, omega arith, h)
charge_times-Holds b r (suc m) h =
    let (b', done, total, rest) =
      charge_times-Holds (charged_once b r m) r m (charged_once-Holds b r m h) in
    (b', rw (charge-Holds b r m h) done, omega arith, rest)

charge_refused :
    (b : Budget) (r : ℕ)
    → Holds r 0 b
    → charge b (some r) ≡ err (cap (total_or_zero b.total_agents) none none)
unfolding charge
charge_refused b r h = ground arith

reserve-Holds :
    (b b' : Budget) (count r : ℕ) → reserve b (pos count) ≡ ok (b', r) → Holds r count b'
unfolding reserve
reserve-Holds b b' count r e =
    ground
      (arith, get_elem?-append_length b.reservations (record { remaining = count; active = true }))

-- Every slot of a granted reservation can be charged later, whatever calls come in between, as
-- long as those name other reservations or none: the charges all succeed, each counts one fresh
-- launch, and one charge more is refused.
pub reserve-charge_times :
    (b b' : Budget) (count r : ℕ) (cs : List Call)
    → reserve b (pos count) ≡ ok (b', r)
    → All (Spares r) cs
    → (b'' : Budget) × (charge_times count r (run b' cs) ≡ ok b'')
      × (b''.charged ≡ (run b' cs).charged + count)
      × (charge b'' (some r) ≡ err (cap (total_or_zero b''.total_agents) none none))
reserve-charge_times b b' count r cs e s =
    let h = run-Holds b' cs r count s (reserve-Holds b b' count r e) in
    let (b'', done, total, rest) = charge_times-Holds (run b' cs) r count h in
    (b'', done, total, charge_refused b'' r rest)
