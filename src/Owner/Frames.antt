-- ===== src/Owner/Frames.antt =====
-- Each operation on a launch is one of the owner's moves: extensions/_shared/runtime/execution-state.ts.
use locus_pi.Common.{
  ℕ, ◌≡◌, refl, ap, ◌∙◌, inl, inr, true, false, List, Option, none, some, map, get_elem?, set,
  arith, is_some, if_intro, Option-cases, map-set_same,
}
use locus_pi.Execution.Budget.{fresh}
use locus_pi.Owner.Records.{Root, Scope, Launch, Error, failing, settled}
use locus_pi.Owner.Signals.{fire}
use locus_pi.Owner.Steps.{fail_scope, mark_failed, fail, fail_launch, finish}
use locus_pi.Owner.Moves.{outline, outlines, is_busy, serving, is_away, Started, Move, Kept, turns}

mark_failed-outline :
    (e : Error) (c : ℕ) (ss : List Scope) → map outline (mark_failed e c ss) ≡ map outline ss
mark_failed-outline e c ss = elim (Option-cases (get_elem? ss c)) [
  | inl missing ↦ ground arith
  | inr (s, found) ↦ ground (arith, map-set_same outline ss c s (fail e s) found)
]

pub fail_scope-outlines : (o : Root) (c : ℕ) (e : Error) → outlines (fail_scope o c e) ≡ outlines o
unfolding fail_scope
fail_scope-outlines o c e = mark_failed-outline e c o.scopes

-- The launch stands at `i`, and `o` differs from `base` in its signals, its permits and its ledger's
-- other fields only.
pub record Bridge (base o : Root) (i : ℕ) (l₀ l : Launch) : Type 0 where
  pub kept : Kept base o
  pub launches : o.launches ≡ base.launches
  pub scopes : outlines o ≡ outlines base
  pub found : get_elem? base.launches i ≡ some l₀
  pub scope : l.scope ≡ l₀.scope
  pub busy : is_busy l₀ ≡ true
  pub serves : serving l ≡ serving l₀
  pub called : l.called ≡ l₀.called
  pub fresh_kind : l.kind ≡ fresh
  pub used : l.used ≡ true

module _ (base o : Root) (i : ℕ) (l₀ l : Launch) (b : Bridge base o i l₀ l) where
  pub written : (v : Launch) → set o.launches i v ≡ set base.launches i v
  written v = ap (λ ls. set ls i v) b.launches

  pub finish-Move : (e : Option Error) → is_away l.delegation ≡ false → Move base (finish o i l e)
  unfolding finish
  finish-Move e here =
      turns i l₀ (record l { phase = settled e; permit = none }) b.found
        (record {
          same_scope = b.scope;
          stays_busy = λ _. b.busy;
          same_serving = b.serves;
          tidy = (refl, here, b.used, b.fresh_kind);
        })
        b.kept b.called (written _) b.scopes

  pub fail_launch-Move :
      (e : Error) → (is_some l.delegation ≡ true → Started l) → Move base (fail_launch o i l e)
  unfolding fail_launch finish fire fail_scope
  fail_launch-Move e s =
      if_intro (Move base) (is_some l.delegation)
        (λ away.
          turns i l₀ (record l { phase = failing e }) b.found
            (record {
              same_scope = b.scope;
              stays_busy = λ _. b.busy;
              same_serving = b.serves;
              tidy = s away;
            })
            b.kept b.called (written (record l { phase = failing e }))
            (mark_failed-outline e l.scope o.scopes ∙ b.scopes))
        (λ here.
          turns i l₀ (record l { phase = settled (some e); permit = none }) b.found
            (record {
              same_scope = b.scope;
              stays_busy = λ _. b.busy;
              same_serving = b.serves;
              tidy = (refl, ground arith, b.used, b.fresh_kind);
            })
            b.kept b.called (written (record l { phase = settled (some e); permit = none }))
            (mark_failed-outline e l.scope o.scopes ∙ b.scopes))
