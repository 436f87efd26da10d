-- ===== src/Host/Render/Coverage.antt =====
-- extensions/_shared/host/render-scheduler.ts: no request is lost.
use locus_pi.Common.{
  ℕ, ◌≤◌, ◌<◌, ◌≡◌, Bool, true, false, arith, List, [], ◌∷◌, All, length, Option-cases, ◌⊎◌, inl,
  inr,
}
use locus_pi.Host.Render.{
  Moment, Scheduler, pending, render_now, request_open, request, flush, expire, Event, requests,
  flushes, expires, cancels, step, run,
}

-- The state change that a request stands for is on the screen, or a frame for it is armed.
abbrev pub Covered : ℕ → Scheduler → Type 0
Covered seen s = (seen < length s.frames) ⊎ (pending s ≡ true)

request-Covered : (now : Moment) (s : Scheduler) → Covered (length s.frames) (request now s)
unfolding request request_open render_now
request-Covered now s = elim (Option-cases s.last_render_at) [
  | inl idle ↦ ground arith
  | inr (last, found) ↦ ground arith
]

abbrev is_cancel : Event → Bool
is_cancel cancels = true
is_cancel (requests m) = false
is_cancel (flushes m) = false
is_cancel (expires m) = false

step_grows :
    (e : Event) (s : Scheduler) (seen : ℕ)
    → seen ≤ length s.frames
    → is_cancel e ≡ false
    → Covered seen s
    → (seen ≤ length (step e s).frames) × Covered seen (step e s)
step_grows (requests m) s seen l n h =
    unfold step request in
    (elim (Option-cases s.last_render_at) [
      | inl idle ↦ unfold request_open render_now in (ground arith)
      | inr (last, found) ↦ unfold request_open render_now in (ground arith)
    ])
step_grows (flushes m) s seen l n h = unfold step flush render_now in (ground arith)
step_grows (expires m) s seen l n h = unfold step expire render_now in (ground arith)
step_grows cancels s seen l n h = absurd (cc)

run_grows :
    (es : List Event) (s : Scheduler) (seen : ℕ)
    → All (λ e. is_cancel e ≡ false) es
    → seen ≤ length s.frames
    → Covered seen s
    → Covered seen (run es s)
unfolding run
run_grows [] s seen f l h = h
run_grows (e ∷ es) s seen (f, fs) l h =
    let (l', h') = step_grows e s seen l f h in run_grows es (step e s) seen fs l' h'

request_keeps : (now : Moment) (s : Scheduler) → length s.frames ≤ length (request now s).frames
unfolding request request_open render_now
request_keeps now s = elim (Option-cases s.last_render_at) [
  | inl idle ↦ ground arith
  | inr (last, found) ↦ ground arith
]

-- No request is lost: after a request and whatever follows but a cancel, a frame was rendered
-- since, or one is armed.
pub run-request-Covered :
    (now : Moment) (s : Scheduler) (es : List Event)
    → All (λ e. is_cancel e ≡ false) es
    → Covered (length s.frames) (run es (request now s))
run-request-Covered now s es f =
    run_grows es (request now s) (length s.frames) f (request_keeps now s) (request-Covered now s)
