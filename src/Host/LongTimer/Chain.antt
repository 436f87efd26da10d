-- ===== src/Host/LongTimer/Chain.antt =====
-- extensions/_shared/runtime/long-timer.ts: a wait takes its whole span, and fires once.
use locus_pi.Common.{
  ℕ, zero, suc, ◌+◌, ◌-◌, ◌≤◌, ◌<◌, ◌≡◌, refl, subst, min, true, false, none, some, ltb,
  if◌then◌else◌, arith, is_some, List, [], ◌∷◌, Option-cases, Bool-cases, inl, inr, get_or, ◌∙◌,
}
use locus_pi.Common.Number.{Number, pos, max_safe_integer}
use locus_pi.Host.LongTimer.{
  node_timer_max_delay_ms, checked_delay, Timeout, arm, fresh_timeout, schedule_long_timeout, fire,
  cancel, Event, expires, cancels, late, step, run, elapse,
}

-- Enough fuel is one more than the milliseconds that are not armed yet.
elapse_all :
    (fuel : ℕ) (t : Timeout) (ms : ℕ)
    → t.armed ≡ some ms
    → t.cancelled ≡ false
    → t.remaining_ms < fuel
    → ((elapse (suc fuel) t).0 ≡ ms + t.remaining_ms)
      × ((elapse (suc fuel) t).1.fired ≡ t.fired + 1)
      × ((elapse (suc fuel) t).1.armed ≡ none)
unfolding elapse fire arm
elapse_all zero t ms a c h = absurd (ground arith)
elapse_all (suc fuel) t ms a c h = elim (Bool-cases (ltb 0 t.remaining_ms)) [
  | inr done ↦ ground arith
  | inl more ↦
      let next = arm (record t { armed = none }) in
      let ih =
        elapse_all fuel next (min t.remaining_ms node_timer_max_delay_ms) refl c (ground arith) in
      ground arith
]

arm_fresh :
    (delay : ℕ)
    → ((arm (fresh_timeout delay)).armed ≡ some (min delay node_timer_max_delay_ms))
      × ((arm (fresh_timeout delay)).cancelled ≡ false)
      × ((arm (fresh_timeout delay)).remaining_ms ≡ delay - min delay node_timer_max_delay_ms)
      × ((arm (fresh_timeout delay)).fired ≡ 0)
unfolding arm
arm_fresh delay = (refl, refl, refl, refl)

scheduled :
    (delay : ℕ)
    → delay ≤ max_safe_integer
    → schedule_long_timeout (pos delay) ≡ some (arm (fresh_timeout delay))
unfolding schedule_long_timeout checked_delay
scheduled delay h = ground arith

-- A wait of any representable span, left to itself, rests after exactly that span, with its callback
-- run once and no timer armed; `delay + 2` rounds of the chain are enough.
pub elapse-schedule_long_timeout :
    (delay : ℕ)
    → delay ≤ max_safe_integer
    → (t : Timeout) × (schedule_long_timeout (pos delay) ≡ some t)
      × ((elapse (delay + 2) t).0 ≡ delay)
      × ((elapse (delay + 2) t).1.fired ≡ 1)
      × ((elapse (delay + 2) t).1.armed ≡ none)
elapse-schedule_long_timeout delay h =
    let t = arm (fresh_timeout delay) in
    let (armed, live, left, unfired) = arm_fresh delay in
    let (total, once, rest) =
      elapse_all (delay + 1) t (min delay node_timer_max_delay_ms) armed live (ground arith) in
    (t, scheduled delay h, ground arith, ground arith, ground arith)

-- What holds of every timer: a slice the host can represent, one firing in all, and nothing armed
-- after a cancel.
abbrev IsSafe : Timeout → Type 0
IsSafe t =
    (get_or t.armed 0 ≤ node_timer_max_delay_ms)
    × (t.fired + (if is_some t.armed then 1 else 0) ≤ 1)
    × (t.cancelled ≡ true → t.armed ≡ none)

fire-IsSafe : (t : Timeout) → IsSafe t → is_some t.armed ≡ true → IsSafe (fire t)
unfolding fire arm
fire-IsSafe t s h = ground arith

step-IsSafe : (e : Event) (t : Timeout) → IsSafe t → IsSafe (step e t)
unfolding step
step-IsSafe expires t s = elim (Option-cases t.armed) [
  | inl idle ↦ ground arith
  | inr (ms, found) ↦ ground (arith, fire-IsSafe t s (ground arith))
]
step-IsSafe cancels t s = unfold cancel in (ground arith)
step-IsSafe late t s = unfold fire in (ground arith)

run-IsSafe : (es : List Event) (t : Timeout) → IsSafe t → IsSafe (run es t)
unfolding run
run-IsSafe [] t s = s
run-IsSafe (e ∷ es) t s = run-IsSafe es (step e t) (step-IsSafe e t s)

step_cancelled :
    (e : Event) (t : Timeout)
    → t.cancelled ≡ true
    → t.armed ≡ none
    → ((step e t).cancelled ≡ true) × ((step e t).armed ≡ none) × ((step e t).fired ≡ t.fired)
unfolding step
step_cancelled expires t c a = ground arith
step_cancelled cancels t c a = unfold cancel in (ground arith)
step_cancelled late t c a = unfold fire in (ground arith)

run_cancelled :
    (es : List Event) (t : Timeout)
    → t.cancelled ≡ true
    → t.armed ≡ none
    → ((run es t).fired ≡ t.fired) × ((run es t).armed ≡ none)
unfolding run
run_cancelled [] t c a = (refl, a)
run_cancelled (e ∷ es) t c a =
    let (c', a', f) = step_cancelled e t c a in
    let (f', a'') = run_cancelled es (step e t) c' a' in (f' ∙ f, a'')

arm-IsSafe : (ms : ℕ) → IsSafe (arm (fresh_timeout ms))
unfolding arm
arm-IsSafe ms = ground arith

schedule-IsSafe : (delay : Number) (t : Timeout) → schedule_long_timeout delay ≡ some t → IsSafe t
unfolding schedule_long_timeout
schedule-IsSafe delay t h = elim (Option-cases (checked_delay delay)) [
  | inl wrong ↦ absurd (ground arith)
  | inr (ms, found) ↦
      let same : arm (fresh_timeout ms) ≡ t = ground arith in subst IsSafe same (arm-IsSafe ms)
]

cancel_sets :
    (t : Timeout)
    → ((cancel t).cancelled ≡ true) × ((cancel t).armed ≡ none) × ((cancel t).fired ≡ t.fired)
unfolding cancel
cancel_sets t = (refl, refl, refl)

-- Whatever the event loop and the owner do with a scheduled wait, its callback runs at most once, no
-- physical timer is armed beyond what the host can represent, and after a cancel nothing is armed
-- and the callback does not run any more.
pub run-schedule_long_timeout :
    (delay : Number) (t : Timeout) (before after : List Event)
    → schedule_long_timeout delay ≡ some t
    → ((run before t).fired ≤ 1)
      × (get_or (run before t).armed 0 ≤ node_timer_max_delay_ms)
      × ((run after (cancel (run before t))).fired ≡ (run before t).fired)
      × ((run after (cancel (run before t))).armed ≡ none)
run-schedule_long_timeout delay t before after h =
    let s = run-IsSafe before t (schedule-IsSafe delay t h) in
    let (f, a) =
      run_cancelled after (cancel (run before t)) (cancel_sets (run before t)).0
        (cancel_sets (run before t)).1 in
    (ground arith, s.0, f ∙ (cancel_sets (run before t)).2, a)
