-- ===== src/Tests/Host.antt =====
-- The timers at concrete inputs.
use locus_pi.Common.{
  ℕ, List, ◌+◌, get_or, false, Option, ◌≤◌, ◌≡◌, refl, none, some, [], ◌∷◌, arith,
}
use locus_pi.Common.Number.{pos}
use locus_pi.Host.LongTimer
use locus_pi.Host.Render
use locus_pi.Host.LongTimer.{
  Timeout, schedule_long_timeout, checked_delay, arm, fire, elapse, cancel, expires,
  node_timer_max_delay_ms,
}
use locus_pi.Host.LongTimer.Chain.{elapse-schedule_long_timeout, run-schedule_long_timeout}
use locus_pi.Host.Render.{Moment, Scheduler, create, request, request_open, render_now, requests}
use locus_pi.Host.Render.Pacing.{Spaced, IsSteady, run-create-Spaced}
use locus_pi.Host.Render.Coverage.{Covered, run-request-Covered}

timers : Unit {0}
unfolding schedule_long_timeout checked_delay arm fire elapse cancel LongTimer.step LongTimer.run
timers = tt

abbrev delays : Option Timeout → ℕ × ℕ
delays none = (0, 0)
delays (some t) = (get_or t.armed 0, t.remaining_ms)

-- Three slices are needed; the first is the largest that the host can wait.
slices_test : delays (schedule_long_timeout (pos 5000000000)) ≡ (2147483647, 2852516353)
unfolding timers
slices_test = refl

elapse-schedule_long_timeout_example :
    (t : Timeout) × (schedule_long_timeout (pos 5000000000) ≡ some t)
    × ((elapse (5000000000 + 2) t).0 ≡ 5000000000)
    × ((elapse (5000000000 + 2) t).1.fired ≡ 1)
    × ((elapse (5000000000 + 2) t).1.armed ≡ none)
elapse-schedule_long_timeout_example = elapse-schedule_long_timeout 5000000000 (ground arith)

abbrev waiting : Timeout
waiting = record { remaining_ms = 852516353; cancelled = false; armed = some 2147483647; fired = 0 }

run-schedule_long_timeout_example :
    ((LongTimer.run (expires ∷ expires ∷ []) waiting).fired ≤ 1)
    × (get_or (LongTimer.run (expires ∷ expires ∷ []) waiting).armed 0 ≤ node_timer_max_delay_ms)
    × ((LongTimer.run
          (expires ∷ [])
          (cancel (LongTimer.run (expires ∷ expires ∷ []) waiting))).fired
        ≡ (LongTimer.run (expires ∷ expires ∷ []) waiting).fired)
    × ((LongTimer.run
          (expires ∷ [])
          (cancel (LongTimer.run (expires ∷ expires ∷ []) waiting))).armed
        ≡ none)
unfolding timers
run-schedule_long_timeout_example =
    run-schedule_long_timeout (pos 3000000000) waiting (expires ∷ expires ∷ []) (expires ∷ []) refl

-- The clock of `now` is 1000 ms ahead of the event loop's.
abbrev at : ℕ → Moment
at loop = record { loop = loop; wall = 1000 + loop }

abbrev paced : List Render.Event
paced = requests (at 10) ∷ requests (at 20) ∷ Render.expires (at 260) ∷ requests (at 261) ∷ []

paced-IsSteady : IsSteady 1000 0 paced
paced-IsSteady = (
  (ground arith, refl),
  ((ground arith, refl), ((ground arith, refl), ((ground arith, refl), tt))),
)

run-create-Spaced_example : Spaced 250 (Render.run paced (create (some 250))).frames
run-create-Spaced_example =
    run-create-Spaced 1000 250 paced refl (ground arith) paced-IsSteady
      (refl, (refl, (refl, (refl, tt))))

renders : Unit {0}
unfolding create request request_open render_now Render.expire Render.step Render.run
renders = tt

paced_test : (Render.run paced (create (some 250))).frames ≡ 1260 ∷ 1010 ∷ []
unfolding renders
paced_test = refl

-- The host cannot wait for an interval of 3000000000 ms, so it takes a millisecond for it.
long_interval_test :
    (Render.run
      (requests (at 10) ∷ requests (at 10) ∷ Render.expires (at 11) ∷ [])
      (create (some 3000000000))).frames
    ≡ 1011 ∷ 1010 ∷ []
unfolding renders
long_interval_test = refl

abbrev delay : Option Render.Armed → ℕ
delay none = 0
delay (some a) = a.delay_ms

-- After a frame at 1010 the clock of `now` goes back to 510, and the next frame is 750 ms away.
clock_back_test :
    delay
      (Render.run
        (requests (at 10) ∷ requests (record { loop = 10; wall = 510 }) ∷ [])
        (create (some 250))).timer
    ≡ 750
unfolding renders
clock_back_test = refl

run-request-Covered_example :
    Covered 0 (Render.run (Render.expires (at 300) ∷ []) (request (at 10) (create none)))
unfolding create
run-request-Covered_example =
    run-request-Covered (at 10) (create none) (Render.expires (at 300) ∷ []) (refl, tt)
