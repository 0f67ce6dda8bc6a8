-- ===== src/TimerQueue/Clock.antt =====
-- `periodFromNow` and `Timer::reset` of src/Timers: what the timer descriptor is told to wait.
use learning_network.Prelude.{ℕ, ◌+◌, ◌^◌, ◌≤◌, ◌<◌, ◌≡◌, arith, true}
use learning_network.TimerQueue.{Timer, micros, period_from_now, timer_reset}

-- The period is the time left, at least 100 microseconds, split into a number of seconds and
-- fewer than 10^9 nanoseconds.
period_from_now_lem :
    (t trigger_time : ℕ)
    → t < 2 ^ 64
    → trigger_time < 2 ^ 64
    → (100 ≤ micros (period_from_now t trigger_time))
      × (t + 100 ≤ trigger_time → t + micros (period_from_now t trigger_time) ≡ trigger_time)
      × (trigger_time < t + 100 → micros (period_from_now t trigger_time) ≡ 100)
      × ((period_from_now t trigger_time).tv_nsec < 1000000000)
unfolding period_from_now
period_from_now_lem t trigger_time h k = ground arith

-- A repeating timer is set one period ahead of the time at which it was handled.
pub timer_reset_lem :
    (now : ℕ) (x : Timer)
    → x.repeat ≡ true
    → now + x.repeat_circle < 2 ^ 64
    → (timer_reset now x).trigger_time ≡ now + x.repeat_circle
unfolding timer_reset
timer_reset_lem now x r h = ground arith
