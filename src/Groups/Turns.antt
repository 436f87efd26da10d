-- ===== src/Groups/Turns.antt =====
-- workflow-groups.ts: what each turn of a worker keeps.
use locus_pi.Common.{
  ℕ, zero, suc, ◌+◌, ◌≤◌, ◌<◌, ◌≡◌, refl, ap, ◌∙◌, true, false, Option, none, some, ◌==◌, ==_iff,
  ltb, if◌then◌else◌, if_intro, is_some, any, length, List, [], ◌∷◌, arith, Bool-cases, ◌⊎◌, inl,
  inr,
}
use locus_pi.Groups.Workers.{
  Outcome, fulfilled, rejected, State, Event, settles, remove_one, begin_thunk, dispatch, turn,
  absorb, settle, run, start_workers,
}

length-remove_one :
    (i : ℕ) (js : List ℕ) → any (λ j. j == i) js ≡ true → length (remove_one i js) + 1 ≡ length js
length-remove_one i [] h = absurd (cc)
length-remove_one i (j ∷ js) h = ground (arith, length-remove_one i js)

any-remove_one :
    (i k : ℕ) (js : List ℕ)
    → (k == i) ≡ false
    → any (λ j. j == k) js ≡ true
    → any (λ j. j == k) (remove_one i js) ≡ true
any-remove_one i k [] n h = h
any-remove_one i k (j ∷ js) n h = ground (arith, any-remove_one i k js n)

module _ {T E : Type 0} (total : ℕ) (outcome : ℕ → Outcome T E) where
  -- A thunk that was begun is in flight, has its value in its slot, or has failed.
  abbrev pub Placed : State T E → ℕ → Type 0
  Placed s i =
      (any (λ j. j == i) s.running ≡ true)
      ⊎ ((v : T) × (outcome i ≡ fulfilled v) × (s.out i ≡ some v))
      ⊎ (is_some s.failure ≡ true)

  abbrev pub AllPlaced : State T E → Type 0
  AllPlaced s = (i : ℕ) → i < s.next → i < total → Placed s i

  -- While nothing failed and thunks are left, every worker but `free` has one in flight.
  abbrev pub Busy : ℕ → State T E → Type 0
  Busy free s =
      (length s.running + free ≤ s.workers)
      × (is_some s.failure ≡ false → s.next < total → length s.running + free ≡ s.workers)

  pub turn-Busy :
      (refusal : Option E) (s : State T E) → Busy 1 s → Busy 0 (turn total outcome refusal s)
  unfolding turn
  turn-Busy refusal s (le, eq) = ground arith

  begin_placed : (s : State T E) → AllPlaced s → AllPlaced (begin_thunk total outcome s)
  begin_placed s p i lt in_range = elim (Bool-cases (s.next == i)) [
    | inl same ↦ inl (ground arith)
    | inr differs ↦ elim (p i (ground arith) in_range) [
      | inl running ↦ inl (ground arith)
      | inr rest ↦ inr rest
    ]
  ]

  over_placed :
      (s : State T E)
      → ltb s.next total ≡ false
      → AllPlaced s
      → AllPlaced (record s { next = s.next + 1 })
  over_placed s over p i lt in_range = p i (ground arith) in_range

  turn_placed :
      (refusal : Option E) (s : State T E) → AllPlaced s → AllPlaced (turn total outcome refusal s)
  unfolding turn
  turn_placed (some e) s p =
      if_intro AllPlaced (is_some s.failure) {x = s} {y = record s { failure = some e }} (λ _. p)
        (λ _. λ i lt in_range. inr (inr refl))
  turn_placed none s p =
      if_intro AllPlaced (is_some s.failure) {x = s} {y = dispatch total outcome s} (λ _. p)
        (λ _.
          if_intro AllPlaced (ltb s.next total) {x = begin_thunk total outcome s}
            {y = record s { next = s.next + 1 }} (λ _. begin_placed s p)
            (λ over. over_placed s over p))

  absorb-Busy :
      (i : ℕ) (o : Outcome T E) (s : State T E)
      → any (λ j. j == i) s.running ≡ true
      → Busy 0 s
      → Busy 1 (absorb total outcome i o (record s { running = remove_one i s.running }))
  absorb-Busy i (fulfilled v) s here b = ground (arith, length-remove_one i s.running)
  absorb-Busy i (rejected e) s here b = ground (arith, length-remove_one i s.running)

  absorb_placed :
      (i : ℕ) (o : Outcome T E) (s : State T E)
      → outcome i ≡ o
      → AllPlaced s
      → AllPlaced (absorb total outcome i o (record s { running = remove_one i s.running }))
  absorb_placed i (fulfilled v) s e p k lt in_range = elim (Bool-cases (k == i)) [
    | inl same ↦
        let k_i : k ≡ i = (==_iff k i).0 same in
        inr (inl (v, ap outcome k_i ∙ e, ap (λ b. if b then some v else s.out k) same))
    | inr differs ↦ elim (p k lt in_range) [
      | inl running ↦ inl (any-remove_one i k s.running differs running)
      | inr (inl (w, o, f)) ↦ inr (inl (w, o, ap (λ b. if b then some v else s.out k) differs ∙ f))
      | inr (inr failed) ↦ inr (inr failed)
    ]
  ]
  absorb_placed i (rejected x) s e p k lt in_range = inr (inr (ground arith))

  pub settle_kept :
      (i : ℕ) (refusal : Option E) (s : State T E)
      → Busy 0 s
      → AllPlaced s
      → Busy 0 (settle total outcome i refusal s) × AllPlaced (settle total outcome i refusal s)
  unfolding settle
  settle_kept i refusal s b p =
      let t = absorb total outcome i (outcome i) (record s { running = remove_one i s.running }) in
      if_intro (λ u. Busy 0 u × AllPlaced u) (any (λ j. j == i) s.running)
        {x = turn total outcome refusal t} {y = s}
        (λ here. (
          turn-Busy refusal t (absorb-Busy i (outcome i) s here b),
          turn_placed refusal t (absorb_placed i (outcome i) s refl p),
        ))
        (λ _. (b, p))

  pub run_kept :
      (es : List (Event E)) (s : State T E)
      → Busy 0 s
      → AllPlaced s
      → Busy 0 (run total outcome es s) × AllPlaced (run total outcome es s)
  unfolding run
  run_kept [] s b p = (b, p)
  run_kept (settles i refusal ∷ es) s b p =
      let (b', p') = settle_kept i refusal s b p in
      run_kept es (settle total outcome i refusal s) b' p'

  pub start_kept :
      (refusal : ℕ → Option E) (k : ℕ)
      → Busy 0 (start_workers total outcome refusal k)
        × AllPlaced (start_workers total outcome refusal k)
  unfolding start_workers
  start_kept refusal zero =
      ((ground arith, λ f lt. ground arith), λ i lt in_range. absurd (ground arith))
  start_kept refusal (suc k) =
      let s = start_workers total outcome refusal k in
      let (b, p) = start_kept refusal k in
      let more : State T E = record s { workers = s.workers + 1 } in
      (turn-Busy (refusal k) more (ground arith), turn_placed (refusal k) more p)
