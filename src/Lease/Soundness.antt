-- ===== src/Lease/Soundness.antt =====
-- workflow-location-lease.ts: what each live process stands on, and that an operation keeps it.
use locus_pi.Common.{
  ℕ, ◌≡◌, ◌≢◌, refl, sym, ap, subst, ◌∙◌, Bool, true, false, Option, none, some, ◌==◌, ==_iff,
  if◌then◌else◌, arith, if_intro, inl, inr, ◌⊎◌, ◌&&◌, ◌||◌, is_some,
}
use locus_pi.Lease.Records.{Pc, Move}
use locus_pi.Lease.Protocol.{
  World, Event, succeeds, faults, releases, crashes, put, begin_release, inspected,
}
use locus_pi.Lease.Claims.{guards, renames, judged, Relies, Kept, Spares}

-- The lease file was written by a process that is dead.
abbrev pub is_orphan : Option ℕ → (ℕ → Bool) → Bool
is_orphan none crashed = false
is_orphan (some d) crashed = crashed d

-- A lease that is renamed away next is a dead process's; and so is, still, the lease whose record was
-- read under the guard, when its process is dead.
abbrev Sees : Option ℕ → (ℕ → Bool) → Pc → Type 0
Sees lock crashed pc =
    (renames pc ≡ true → is_orphan lock crashed ≡ true)
    × ((d : ℕ) → judged pc ≡ some d → crashed d ≡ true → lock ≡ some d)

abbrev Sound : World → ℕ → Type 0
Sound w i = Relies i w.lock w.guard (w.pcs i) × Sees w.lock w.crashed (w.pcs i)

-- Every live process stands on what it relies on.
abbrev pub AllSound : World → Type 0
AllSound w = (i : ℕ) → w.crashed i ≡ false → Sound w i

orphan_owner :
    (l : Option ℕ) (crashed : ℕ → Bool)
    → is_orphan l crashed ≡ true
    → (d : ℕ) × (l ≡ some d) × (crashed d ≡ true)
orphan_owner none crashed h = absurd (cc)
orphan_owner (some d) crashed h = (d, refl, h)

renames-guards : (pc : Pc) → renames pc ≡ true → guards pc ≡ true
renames-guards pc h = ground arith

judged-guards : (pc : Pc) (d : ℕ) → judged pc ≡ some d → guards pc ≡ true
judged-guards pc d h = ground arith

found_free :
    (before free : Bool) (o : Option ℕ)
    → (before || (free && is_some o)) ≡ true
    → (before ≡ true) ⊎ ((free ≡ true) × (d : ℕ) × (o ≡ some d))
found_free true free o h = inl refl
found_free false true (some d) h = inr (refl, d, refl)
found_free false true none h = ground arith
found_free false false o h = ground arith

module _ (w : World) (i : ℕ) (live : w.crashed i ≡ false) (all : AllSound w) (m : Move) where
  mover :
      (free : Bool)
      → Kept i free w.lock (w.pcs i) m
      → (free ≡ true → (d : ℕ) → judged (w.pcs i) ≡ some d → w.crashed d ≡ true)
      → Relies i m.lock m.guard m.pc × Sees m.lock w.crashed m.pc
  mover free (o, g, r, k) f = (
    (o, g),
    (
      λ h.
          let (same, why) = r h in
          ap (λ l. is_orphan l w.crashed) same
          ∙ elim (found_free (renames (w.pcs i)) free (judged (w.pcs i)) why) [
            | inl before ↦ (all i live).1.0 before
            | inr (e, d, j) ↦
                let gone = f e d j in
                ap (λ l. is_orphan l w.crashed) ((all i live).1.1 d j gone) ∙ gone
          ],
      λ d j gone. elim (k d j) [
        | inl now ↦ now
        | inr (same, before) ↦ same ∙ (all i live).1.1 d before gone
      ],
    ),
  )

  -- A live process other than `j` that owns the lease file keeps `i` from renaming it.
  no_rename : (j : ℕ) → w.crashed j ≡ false → w.lock ≡ some j → renames (w.pcs i) ≡ true → ⊥
  no_rename j alive_j l h =
      let orphan : is_orphan (some j) w.crashed ≡ true =
        ap (λ k. is_orphan k w.crashed) (sym l) ∙ (all i live).1.0 h in
      cc

  two_guards : (j : ℕ) → j ≢ i → w.guard ≡ some j → renames (w.pcs i) ≡ true → ⊥
  two_guards j ne g h = let mine = (all i live).0.1 (renames-guards (w.pcs i) h) in ground arith

  differ : (d e : ℕ) → d ≡ e → w.crashed d ≡ true → w.crashed e ≡ false → ⊥
  differ d e same gone here = cc

  other :
      (j : ℕ)
      → w.crashed j ≡ false
      → j ≢ i
      → Spares i w.lock w.guard (w.pcs i) m
      → Relies j m.lock m.guard (w.pcs j) × Sees m.lock w.crashed (w.pcs j)
  other j alive_j ne (sl, sg) =
      let ((oj, gj), (rj, jj)) = all j alive_j in
      let spared : (d : ℕ)
          → w.lock ≡ some d
          → w.crashed d ≡ true
          → guards (w.pcs j) ≡ true
          → m.lock ≡ some d =
        λ d found gone g.
          sl d found (λ e. differ d i e gone live) (λ r. two_guards j ne (gj g) r) in
      (
        (λ o. sl j (oj o) ne (no_rename j alive_j (oj o)), λ g. sg j (gj g) ne),
        (
          λ h.
              let (d, found, gone) = orphan_owner w.lock w.crashed (rj h) in
              ap (λ k. is_orphan k w.crashed) (spared d found gone (renames-guards (w.pcs j) h))
              ∙ gone,
          λ d h gone. spared d (jj d h gone) gone (judged-guards (w.pcs j) d h),
        ),
      )

  -- The process that moves, and every other one.
  pub put_sound :
      (free : Bool)
      → Kept i free w.lock (w.pcs i) m
      → (free ≡ true → (d : ℕ) → judged (w.pcs i) ≡ some d → w.crashed d ≡ true)
      → Spares i w.lock w.guard (w.pcs i) m
      → AllSound (put i m w)
  put_sound free k f s j alive_j =
      if_intro (λ pc. Relies j m.lock m.guard pc × Sees m.lock w.crashed pc) (j == i) {x = m.pc}
        {y = w.pcs j}
        (λ same.
          subst (λ x. Relies x m.lock m.guard m.pc × Sees m.lock w.crashed m.pc)
            (sym ((==_iff j i).0 same)) (mover free k f))
        (λ differs. other j alive_j (λ e. ground arith) s)

pub release-Kept :
    (i : ℕ) (l g : Option ℕ) (pc : Pc)
    → Relies i l g pc
    → Kept i false l pc (record { lock = l; guard = g; pc = begin_release pc })
release-Kept i l g pc r = ground arith

pub release-Spares :
    (i : ℕ) (l g : Option ℕ) (pc : Pc)
    → Spares i l g pc (record { lock = l; guard = g; pc = begin_release pc })
release-Spares i l g pc = ((λ d e n r. e), (λ d e n. e))

crash_orphan :
    (i : ℕ) (l : Option ℕ) (crashed : ℕ → Bool)
    → is_orphan l crashed ≡ true
    → is_orphan l (λ j. if j == i then true else crashed j) ≡ true
crash_orphan i none crashed h = h
crash_orphan i (some d) crashed h = ground arith

crashed_now :
    (i d : ℕ) (crashed : ℕ → Bool)
    → (if d == i then true else crashed d) ≡ true
    → (d ≡ i) ⊎ (crashed d ≡ true)
crashed_now i d crashed h = ground arith

pub judged-inspected : (pc : Pc) (d : ℕ) → judged pc ≡ some d → inspected pc ≡ some d
judged-inspected pc d h = ground arith

-- No process dies while a live one has read its record under the guard and not yet tested its liveness.
abbrev pub IsTimely : Event → World → Type 0
IsTimely (crashes i) w = (j : ℕ) → w.crashed j ≡ false → judged (w.pcs j) ≢ some i
IsTimely (succeeds i) w = Unit {0}
IsTimely (faults i late) w = Unit {0}
IsTimely (releases i) w = Unit {0}

pub crash_sound :
    (i : ℕ) (w : World)
    → IsTimely (crashes i) w
    → AllSound w
    → AllSound (record w { crashed = λ j. if j == i then true else w.crashed j })
crash_sound i w timely all j alive_j =
    let alive_before : w.crashed j ≡ false = ground arith in
    let (relies, (orphan, kept)) = all j alive_before in
    (
      relies,
      (
        λ h. crash_orphan i w.lock w.crashed (orphan h),
        λ d h gone. elim (crashed_now i d w.crashed gone) [
          | inl same ↦ absurd (timely j alive_before (h ∙ ap some same))
          | inr before ↦ kept d h before
        ],
      ),
    )
