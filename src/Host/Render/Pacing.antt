-- ===== src/Host/Render/Pacing.antt =====
-- extensions/_shared/host/render-scheduler.ts: frames are apart.
use locus_pi.Common.{
  ℕ, ◌+◌, ◌-◌, ◌≤◌, ◌≡◌, refl, sym, subst, ◌∙◌, Bool, true, false, Option, none, some, leb, arith,
  is_some, List, [], ◌∷◌, All, Option-cases, ◌⊎◌, inl, inr, get_or, if_intro, ltb,
}
use locus_pi.Host.LongTimer.{node_timer_max_delay_ms}
use locus_pi.Host.Render.{
  Moment, host_delay, Armed, Scheduler, create, render_now, request_open, request, flush, cancel,
  expire, Event, requests, flushes, expires, cancels, step, run, arm, clear_timer, is_due,
}

-- Each frame is the interval after the one before it; the latest stands first.
abbrev pub Spaced : ℕ → List ℕ → Type 0
Spaced ms [] = Unit {0}
Spaced ms (a ∷ []) = Unit {0}
Spaced ms (a ∷ b ∷ times) = (b + ms ≤ a) × Spaced ms (b ∷ times)

abbrev latest : List ℕ → Option ℕ
latest [] = none
latest (a ∷ times) = some a

-- The armed frame comes the interval after the latest one; `offset` is how far the clock of `now` is
-- ahead of the event loop's.
abbrev DueAfter : ℕ → ℕ → Option ℕ → Option Armed → Type 0
DueAfter offset ms last none = Unit {0}
DueAfter offset ms none (some a) = ⊥
DueAfter offset ms (some last) (some a) = last + ms ≤ offset + a.at + a.delay_ms

-- The latest frame is not after the event loop's time `since`.
abbrev NotAfter : ℕ → Option ℕ → Type 0
NotAfter wall none = Unit {0}
NotAfter wall (some last) = last ≤ wall

abbrev IsPaced : ℕ → ℕ → Scheduler → Type 0
IsPaced offset since s =
    (s.last_render_at ≡ latest s.frames)
    × Spaced s.min_interval_ms s.frames
    × DueAfter offset s.min_interval_ms s.last_render_at s.timer
    × NotAfter (offset + since) s.last_render_at

-- The clock of `now` runs with the event loop's, and that one does not go back.
abbrev IsSteadyAt : ℕ → ℕ → Moment → Type 0
IsSteadyAt offset since m = (since ≤ m.loop) × (m.wall ≡ offset + m.loop)

abbrev pub IsSteady : ℕ → ℕ → List Event → Type 0
IsSteady offset since [] = Unit {0}
IsSteady offset since (requests m ∷ es) = IsSteadyAt offset since m × IsSteady offset m.loop es
IsSteady offset since (flushes m ∷ es) = IsSteadyAt offset since m × IsSteady offset m.loop es
IsSteady offset since (expires m ∷ es) = IsSteadyAt offset since m × IsSteady offset m.loop es
IsSteady offset since (cancels ∷ es) = IsSteady offset since es

abbrev is_flush : Event → Bool
is_flush (flushes m) = true
is_flush (requests m) = false
is_flush (expires m) = false
is_flush cancels = false

Spaced-next :
    (ms now : ℕ) (last : Option ℕ) (times : List ℕ)
    → last ≡ latest times
    → (get_or last 0 + ms ≤ now) ⊎ (last ≡ none)
    → Spaced ms times
    → Spaced ms (now ∷ times)
Spaced-next ms now last [] e h s = tt
Spaced-next ms now last (a ∷ times) e h s = (ground arith, s)

due_armed :
    (offset ms last : ℕ) (m : Moment) (l : Option ℕ)
    → l ≡ some last
    → ms ≤ node_timer_max_delay_ms
    → last ≤ m.wall
    → m.wall ≡ offset + m.loop
    → DueAfter offset ms l
        (some (record { at = m.loop; delay_ms = host_delay ((last + ms) - m.wall) }))
due_armed offset ms last m none e p n w = absurd (cc)
due_armed offset ms last m (some k) e p n w = ground arith

idle_due : (offset ms last : ℕ) (t : Option Armed) → t ≡ none → DueAfter offset ms (some last) t
idle_due offset ms last none e = tt
idle_due offset ms last (some a) e = absurd (cc)

due_cases :
    (offset ms since : ℕ) (m : Moment) (last : Option ℕ) (t : Option Armed)
    → IsSteadyAt offset since m
    → is_due m t ≡ true
    → DueAfter offset ms last t
    → (get_or last 0 + ms ≤ m.wall) ⊎ (last ≡ none)
due_cases offset ms since m none t w e d = inr refl
due_cases offset ms since m (some last) none w e d = absurd (cc)
due_cases offset ms since m (some last) (some a) w e d = inl (ground arith)

not_later :
    (offset since : ℕ) (m : Moment) (last : Option ℕ)
    → IsSteadyAt offset since m
    → NotAfter (offset + since) last
    → NotAfter (offset + m.loop) last
not_later offset since m none w h = tt
not_later offset since m (some last) w h = omega (arith, w, h)

module _ (offset since : ℕ) (m : Moment) (w : IsSteadyAt offset since m) where
  -- Time passes.
  later-IsPaced : (s : Scheduler) → IsPaced offset since s → IsPaced offset m.loop s
  later-IsPaced s (e, sp, d, n) = (e, sp, d, not_later offset since m s.last_render_at w n)

  ended : (last : ℕ) → last ≤ offset + m.loop → last ≤ m.wall
  ended last h = omega (arith, h, w)

  render-IsPaced :
      (s : Scheduler)
      → IsPaced offset since s
      → s.timer ≡ none
      → (get_or s.last_render_at 0 + s.min_interval_ms ≤ m.wall) ⊎ (s.last_render_at ≡ none)
      → IsPaced offset m.loop (render_now m.wall s)
  unfolding render_now
  render-IsPaced s (e, sp, d, n) t h = (
    refl,
    Spaced-next s.min_interval_ms m.wall s.last_render_at s.frames e h sp,
    idle_due offset s.min_interval_ms m.wall s.timer t,
    omega (arith, w),
  )

  open-IsPaced :
      (s : Scheduler) (last : Option ℕ)
      → s.min_interval_ms ≤ node_timer_max_delay_ms
      → s.timer ≡ none
      → s.last_render_at ≡ last
      → IsPaced offset since s
      → IsPaced offset m.loop (request_open m last s)
  unfolding request_open
  open-IsPaced s none p t l h = render-IsPaced s h t (inr l)
  open-IsPaced s (some last) p t l h =
      if_intro (IsPaced offset m.loop) (leb (last + s.min_interval_ms) m.wall)
        {x = render_now m.wall s} {y = arm m ((last + s.min_interval_ms) - m.wall) s}
        (λ late. render-IsPaced s h t (inl (ground arith)))
        (λ early.
          let (e, sp, d, n) = later-IsPaced s h in
          (
            e,
            sp,
            due_armed offset s.min_interval_ms last m s.last_render_at l p
                (ended last (subst (NotAfter (offset + m.loop)) l n)) w.1,
            n,
          ))

  request-IsPaced :
      (s : Scheduler)
      → ltb 0 s.min_interval_ms ≡ true
      → s.min_interval_ms ≤ node_timer_max_delay_ms
      → IsPaced offset since s
      → IsPaced offset m.loop (request m s)
  unfolding request
  request-IsPaced s z p h = elim (Option-cases s.timer) [
    | inr (a, found) ↦ ground (arith, later-IsPaced s h)
    | inl idle ↦ ground (arith, open-IsPaced s s.last_render_at p idle refl h)
  ]

  expire-IsPaced :
      (s : Scheduler) → IsPaced offset since s → IsPaced offset m.loop (step (expires m) s)
  unfolding step expire
  expire-IsPaced s h =
      let (e, sp, d, n) = h in
      if_intro (IsPaced offset m.loop) (is_due m s.timer) {x = expire m s} {y = s}
        (λ due.
          if_intro (IsPaced offset m.loop) (is_some s.timer) {x = render_now m.wall (clear_timer s)}
            {y = s}
            (λ armed.
              render-IsPaced (clear_timer s) (e, sp, tt, n) refl
                (due_cases offset s.min_interval_ms since m s.last_render_at s.timer w due d))
            (λ idle. later-IsPaced s h))
        (λ early. later-IsPaced s h)

step_interval : (e : Event) (s : Scheduler) → (step e s).min_interval_ms ≡ s.min_interval_ms
step_interval (requests m) s =
    unfold step request in
    (elim (Option-cases s.last_render_at) [
      | inl idle ↦ unfold request_open render_now in (ground arith)
      | inr (last, found) ↦ unfold request_open render_now in (ground arith)
    ])
step_interval (flushes m) s = unfold step flush render_now in refl
step_interval (expires m) s = unfold step expire render_now in (ground arith)
step_interval cancels s = unfold step cancel in refl

-- The interval is positive, and the host can wait for it.
abbrev IsWaitable : ℕ → Type 0
IsWaitable ms = (ltb 0 ms ≡ true) × (ms ≤ node_timer_max_delay_ms)

run-IsPaced :
    (offset since : ℕ) (es : List Event) (s : Scheduler)
    → IsSteady offset since es
    → All (λ e. is_flush e ≡ false) es
    → IsWaitable s.min_interval_ms
    → IsPaced offset since s
    → (end : ℕ) × IsPaced offset end (run es s)
unfolding run
run-IsPaced offset since [] s w f p h = (since, h)
run-IsPaced offset since (requests m ∷ es) s (w, ws) (f, fs) p h =
    run-IsPaced offset m.loop es (step (requests m) s) ws fs
      (subst IsWaitable (sym (step_interval (requests m) s)) p)
      (unfold step in (request-IsPaced offset since m w s p.0 p.1 h))
run-IsPaced offset since (flushes m ∷ es) s w (f, fs) p h = absurd (cc)
run-IsPaced offset since (expires m ∷ es) s (w, ws) (f, fs) p h =
    run-IsPaced offset m.loop es (step (expires m) s) ws fs
      (subst IsWaitable (sym (step_interval (expires m) s)) p) (expire-IsPaced offset since m w s h)
run-IsPaced offset since (cancels ∷ es) s ws (f, fs) p (e, sp, d, n) =
    run-IsPaced offset since es (step cancels s) ws fs
      (subst IsWaitable (sym (step_interval cancels s)) p) (unfold step cancel in (e, sp, tt, n))

run_interval : (es : List Event) (s : Scheduler) → (run es s).min_interval_ms ≡ s.min_interval_ms
unfolding run
run_interval [] s = refl
run_interval (e ∷ es) s = run_interval es (step e s) ∙ step_interval e s

create-IsPaced : (offset ms : ℕ) → IsPaced offset 0 (create (some ms))
unfolding create
create-IsPaced offset ms = (refl, tt, tt, tt)

create_interval : (ms : ℕ) → (create (some ms)).min_interval_ms ≡ ms
unfolding create
create_interval ms = refl

-- With an interval of at least a millisecond that the host can wait for, and a clock that runs with the
-- event loop's, every two successive frames are at least that interval apart, whatever requests,
-- expiries and cancels come, as long as nothing flushes.
pub run-create-Spaced :
    (offset ms : ℕ) (es : List Event)
    → ltb 0 ms ≡ true
    → ms ≤ node_timer_max_delay_ms
    → IsSteady offset 0 es
    → All (λ e. is_flush e ≡ false) es
    → Spaced ms (run es (create (some ms))).frames
run-create-Spaced offset ms es z p w f =
    let (end, paced) =
      run-IsPaced offset 0 es (create (some ms)) w f
        (subst IsWaitable (sym (create_interval ms)) (z, p)) (create-IsPaced offset ms) in
    subst (λ n. Spaced n (run es (create (some ms))).frames)
      (run_interval es (create (some ms)) ∙ create_interval ms) paced.1
