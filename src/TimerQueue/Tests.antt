-- ===== src/TimerQueue/Tests.antt =====
-- The theorems on src/Timers/TimerQueue.cpp at a concrete queue, and a run of it.
use learning_network.Prelude.{ℕ, ◌-◌, ◌^◌, ◌≡◌, refl, arith, true, false, [], ◌∷◌, none, some, ok}
use learning_network.TimerQueue.{
  Timer, TimerQueue, period_from_now, timer_reset, update, handle_timers,
}
use learning_network.TimerQueue.Clock.{timer_reset_lem}
use learning_network.TimerQueue.Handle.{due, pending, repeating, handle_timers_lem}

-- Timer 0 at 50; timers 1 and 2 at 100.
abbrev heap : ℕ → Timer
heap =
    update
      (update (λ _. record { trigger_time = 100; repeat_circle = 0; repeat = false }) 0
        (record { trigger_time = 50; repeat_circle = 0; repeat = false }))
      3 (record { trigger_time = 20; repeat_circle = 30; repeat = true })

abbrev two : TimerQueue
two = record {
  timers = heap;
  next = 4;
  active_timers = (50, (0, false) ∷ []) ∷ (100, (1, false) ∷ []) ∷ [];
  triggered_timers = [];
  armed = none;
  fired = [];
  deleted = [];
}

abbrev quiet : ℕ → TimerQueue → TimerQueue
quiet p q = q

timer_reset_lem_example : (timer_reset 1000 (heap 3)).trigger_time ≡ 1030
timer_reset_lem_example = timer_reset_lem 1000 (heap 3) refl (omega arith)

handle_timers_lem_example :
    (q' : TimerQueue) × (handle_timers quiet 2 60 60 two ≡ some (ok q'))
    × (q'.fired ≡ 0 ∷ [])
    × (q'.active_timers ≡ (100, (1, false) ∷ []) ∷ [])
    × (q'.armed ≡ some (period_from_now 60 (2 ^ 64 - 1)))
unfolding due pending repeating
handle_timers_lem_example =
    handle_timers_lem quiet (λ p q. refl) 2 60 60 two (λ e. cc) (omega arith) refl
