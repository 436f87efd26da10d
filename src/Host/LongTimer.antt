-- ===== src/Host/LongTimer.antt =====
-- extensions/_shared/runtime/long-timer.ts
--
-- `scheduleLongTimeout` is a record of its closure's variables; `armed` is the physical timer's
-- delay while `timer` is defined. The host's timers are the event loop's: `fire` is the callback of
-- the armed timer, and a queued callback may also run after it was cleared (`late`).
pub mod Chain
use locus_pi.Common.{
  ℕ, zero, suc, ◌+◌, ◌-◌, ◌*◌, ◌≤◌, ◌<◌, ◌≡◌, refl, min, Bool, true, false, not, ◌&&◌, Option, none,
  some, ltb, if◌then◌else◌, arith, is_some, List, [], ◌∷◌,
}
use locus_pi.Common.Number.{Number, pos, negsuc, inexact, is_safe_integer}

abbrev pub node_timer_max_delay_ms : ℕ
node_timer_max_delay_ms = 2147483647

-- `assertRepresentableDelayMs`: `none` is the error.
unfoldable pub checked_delay : Number → Option ℕ
checked_delay (pos n) = if is_safe_integer (pos n) then some n else none
checked_delay (negsuc n) = none
checked_delay inexact = none

pub record Timeout : Type 0 where
  pub remaining_ms : ℕ
  pub cancelled : Bool
  pub armed : Option ℕ
  pub fired : ℕ

-- `arm`
unfoldable pub arm : Timeout → Timeout
arm t = record t {
  armed = some (min t.remaining_ms node_timer_max_delay_ms);
  remaining_ms = t.remaining_ms - min t.remaining_ms node_timer_max_delay_ms;
}

abbrev pub fresh_timeout : ℕ → Timeout
fresh_timeout delay_ms = record {
  remaining_ms = delay_ms;
  cancelled = false;
  armed = none;
  fired = 0;
}

-- `scheduleLongTimeout`
unfoldable pub schedule_long_timeout : Number → Option Timeout
unfolding arm checked_delay
schedule_long_timeout delay = elim (checked_delay delay) [
  | none ↦ none
  | some delay_ms ↦ some (arm (fresh_timeout delay_ms))
]

-- The callback of a physical timer. `onFire` is counted.
unfoldable pub fire : Timeout → Timeout
unfolding arm
fire t =
    let cleared = record t { armed = none } in
    if t.cancelled
    then cleared
    else if ltb 0 t.remaining_ms
    then arm cleared
    else record cleared { fired = t.fired + 1 }

-- The returned `CancelLongTimeout`.
unfoldable pub cancel : Timeout → Timeout
cancel t = record t { cancelled = true; remaining_ms = 0; armed = none }

-- The event loop runs the armed callback, or the owner cancels.
pub data Event : Type 0 where
  expires cancels late : Event

unfoldable pub step : Event → Timeout → Timeout
unfolding fire cancel
step expires t = if is_some t.armed then fire t else t
step cancels t = cancel t
step late t = if t.cancelled then fire t else t

unfoldable pub run : List Event → Timeout → Timeout
unfolding step
run [] t = t
run (e ∷ es) t = run es (step e t)

-- The chain left to itself: the milliseconds that pass until it rests, on fuel.
unfoldable pub elapse : ℕ → Timeout → ℕ × Timeout
unfolding fire
elapse zero t = (0, t)
elapse (suc fuel) t =
    let rest = elapse fuel (fire t) in
    elim t.armed [ none ↦ (0, t) | some ms ↦ (ms + rest.0, rest.1) ]
