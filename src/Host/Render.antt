-- ===== src/Host/Render.antt =====
-- extensions/_shared/host/render-scheduler.ts
--
-- `RenderScheduler` with its two clocks in milliseconds: `now`, the host's `Date.now` unless a test
-- gives another, and the event loop's, which timers follow. Each call and each expiry passes in what
-- both show. The frames that were rendered are listed by their times on the first, the latest first.
pub mod Pacing
pub mod Coverage
use locus_pi.Common.{
  ℕ, ◌+◌, ◌-◌, ◌≤◌, ◌≡◌, Bool, true, false, ◌&&◌, Option, none, some, ltb, leb, ◌==◌, if◌then◌else◌,
  arith, is_some, List, [], ◌∷◌, get_or,
}
use locus_pi.Host.LongTimer.{node_timer_max_delay_ms}
use locus_pi.Common.Text.{Text, text_eq}
use locus_pi.Common.Number.{Number, pos, negsuc, inexact}

abbrev pub default_render_min_interval_ms : ℕ
default_render_min_interval_ms = 250

-- What the clocks show: the event loop's, and the one that `now` reads.
pub record Moment : Type 0 where
  pub loop : ℕ
  pub wall : ℕ

-- The armed trailing render: its delay, and the event loop's time at which it was armed.
pub record Armed : Type 0 where
  pub at : ℕ
  pub delay_ms : ℕ

pub record Scheduler : Type 0 where
  pub min_interval_ms : ℕ
  pub timer : Option Armed
  pub last_render_at : Option ℕ
  pub frames : List ℕ

-- The constructor. Intervals are whole; a negative one, which the source raises to 0, is 0 here.
unfoldable pub create : Option ℕ → Scheduler
create min_interval = record {
  min_interval_ms = get_or min_interval default_render_min_interval_ms;
  timer = none;
  last_render_at = none;
  frames = [];
}

-- `pending`
abbrev pub pending : Scheduler → Bool
pending s = is_some s.timer

-- `#renderNow`
unfoldable pub render_now : ℕ → Scheduler → Scheduler
render_now now s = record s { last_render_at = some now; frames = now ∷ s.frames }

-- The delay that `setTimeout` waits: the host takes one that it cannot represent as a millisecond.
abbrev pub host_delay : ℕ → ℕ
host_delay delay_ms = if ltb node_timer_max_delay_ms delay_ms then 1 else delay_ms

-- `#arm`
abbrev pub arm : Moment → ℕ → Scheduler → Scheduler
arm m delay_ms s = record s {
  timer = some (record { at = m.loop; delay_ms = host_delay delay_ms });
}

-- The end of `request`; the window is idle when nothing was rendered. `waited >= interval` is
-- written by sums, so that it reads right also when the clock went back.
unfoldable pub request_open : Moment → Option ℕ → Scheduler → Scheduler
unfolding render_now
request_open m none s = render_now m.wall s
request_open m (some last) s =
    if leb (last + s.min_interval_ms) m.wall
    then render_now m.wall s
    else arm m ((last + s.min_interval_ms) - m.wall) s

-- `request`
unfoldable pub request : Moment → Scheduler → Scheduler
unfolding request_open render_now
request m s =
    if s.min_interval_ms == 0
    then render_now m.wall s
    else if is_some s.timer
    then s
    else request_open m s.last_render_at s

-- `#clearTimer`
abbrev pub clear_timer : Scheduler → Scheduler
clear_timer s = record s { timer = none }

-- `flush`
unfoldable pub flush : Moment → Scheduler → Scheduler
unfolding render_now
flush m s = render_now m.wall (clear_timer s)

-- `cancel`
unfoldable pub cancel : Scheduler → Scheduler
cancel s = clear_timer s

-- The callback of the armed timer.
unfoldable pub expire : Moment → Scheduler → Scheduler
unfolding render_now
expire m s = if is_some s.timer then render_now m.wall (clear_timer s) else s

-- The calls of a surface, and the event loop, which runs no timer before its time.
pub data Event : Type 0 where
  requests flushes expires : Moment → Event
  cancels : Event

abbrev pub is_due : Moment → Option Armed → Bool
is_due m none = false
is_due m (some a) = leb (a.at + a.delay_ms) m.loop

unfoldable pub step : Event → Scheduler → Scheduler
unfolding request flush expire cancel
step (requests m) s = request m s
step (flushes m) s = flush m s
step (expires m) s = if is_due m s.timer then expire m s else s
step cancels s = cancel s

unfoldable pub run : List Event → Scheduler → Scheduler
unfolding step
run [] s = s
run (e ∷ es) s = run es (step e s)

-- `framesEqual`
unfoldable pub frames_equal : List Text → List Text → Bool
frames_equal [] [] = true
frames_equal (a ∷ old) (b ∷ new) = text_eq a b && frames_equal old new
frames_equal [] (b ∷ new) = false
frames_equal (a ∷ old) [] = false
