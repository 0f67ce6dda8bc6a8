-- ===== src/TimerQueue.antt =====
-- src/Timers: Timer.h, Timer.cpp, Timestamp.h (`addTime`) and TimerQueue.cpp. A `Timer*` is a
-- number, and the heap a function from it. A period is the `uint64_t` that its `double` of seconds
-- is cast to. The clock is an argument: `now` is what the handler reads, and `t` what the last
-- `updateFd` of the call reads. The timer descriptor is the period that it was last armed with.
pub mod Insert
pub mod Handle
pub mod Clock
pub mod Tests
use learning_network.Prelude.{
  ℕ, zero, suc, ◌+◌, ◌-◌, ◌*◌, ◌/◌, ◌%◌, ◌^◌, Bool, true, false, List, [], ◌∷◌, ◌++◌, Option, none,
  some, if◌then◌else◌, ltb, leb, ◌==◌, Outcome, ok, fault, ◌>>=◌, bad_access, missing_return, add64,
  lookup, insert as map_insert, erase, min, sub64,
}

pub record Timer : Type 0 where
  pub trigger_time : ℕ
  pub repeat_circle : ℕ
  pub repeat : Bool

-- `sameTime_timers_t`: for each timer, whether the queue has to delete it.
abbrev pub SameTimeTimers : Type 0
SameTimeTimers = List (ℕ × Bool)

-- `struct itimerspec`'s `it_value`
pub record ItimerSpec : Type 0 where
  pub tv_sec : ℕ
  pub tv_nsec : ℕ

-- `fired` and `deleted` are the calls of `run` and `delete`, oldest first; `next` is the next
-- free address.
pub record TimerQueue : Type 0 where
  pub timers : ℕ → Timer
  pub next : ℕ
  pub active_timers : List (ℕ × SameTimeTimers)
  pub triggered_timers : List ℕ
  pub armed : Option ItimerSpec
  pub fired : List ℕ
  pub deleted : List ℕ

abbrev pub update : (ℕ → Timer) → ℕ → Timer → ℕ → Timer
update heap p x q = if p == q then x else heap q

-- `Timer::reset`
pub timer_reset : ℕ → Timer → Timer
timer_reset now x =
    if x.repeat
    then record x { trigger_time = add64 x.repeat_circle now }
    else record x { trigger_time = 0 }

-- `periodFromNow`, with `t` for the clock
pub period_from_now : ℕ → ℕ → ItimerSpec
period_from_now t trigger_time =
    let period = if ltb t trigger_time then sub64 trigger_time t else 0 in
    let period' = if ltb period 100 then 100 else period in
    record { tv_sec = period' / 1000000; tv_nsec = period' % 1000000 * 1000 }

pub update_fd : ℕ → ℕ → TimerQueue → TimerQueue
update_fd t trigger_time q = record q { armed = some (period_from_now t trigger_time) }

-- `activeTimers.begin()->first`
pub begin_first : TimerQueue → Outcome ℕ
begin_first q = elim q.active_timers [ [] ↦ fault bad_access | (k, ts) ∷ m ↦ ok k ]

-- The branch for a time that is in the map already works on a copy of its set of timers; with the
-- timer in it, control reaches the end of the function.
insert_old : TimerQueue → ℕ → ℕ → Bool → SameTimeTimers → Outcome (TimerQueue × Bool)
insert_old q p k no_owner copy = elim (lookup p copy) [
  | some _ ↦ fault missing_return
  | none ↦
      let inserted = map_insert p no_owner copy in do first ← begin_first q; ok (q, ltb k first)
]

insert_new : TimerQueue → ℕ → ℕ → Bool → Outcome (TimerQueue × Bool)
insert_new q p k no_owner =
    let q' = record q { active_timers = map_insert k ((p, no_owner) ∷ []) q.active_timers } in
    do first ← begin_first q'; ok (q', leb k first)

-- `TimerQueue::insert`
pub insert : ℕ → Bool → TimerQueue → Outcome (TimerQueue × Bool)
unfolding insert_old insert_new
insert p no_owner q =
    let k = (q.timers p).trigger_time in
    elim (lookup k q.active_timers) [
      | some ts ↦ insert_old q p k no_owner ts
      | none ↦ insert_new q p k no_owner
    ]

pub add_timer_in_loop : ℕ → ℕ → Bool → TimerQueue → Outcome TimerQueue
add_timer_in_loop t p no_owner q = do
  (q', earliest) ← insert p no_owner q
  ok (if earliest then update_fd t (q'.timers p).trigger_time q' else q')

-- `addTimer(Timer*)`, in the loop's thread
add_timer : ℕ → ℕ → TimerQueue → Outcome TimerQueue
add_timer t p q = add_timer_in_loop t p false q

-- `addTimer(triggerTime, cb, repeatCircle)`: a new timer
add_new_timer : ℕ → Timer → TimerQueue → Outcome TimerQueue
add_new_timer t x q =
    add_timer_in_loop t q.next false
      (record q { timers = update q.timers q.next x; next = q.next + 1 })

-- The set of timers of a time without the cancelled one goes back into the map, unless it is empty.
put_rest : TimerQueue → ℕ → SameTimeTimers → TimerQueue
put_rest q k [] = record q { active_timers = erase k q.active_timers }
put_rest q k (x ∷ rest) = record q { active_timers = map_insert k (x ∷ rest) q.active_timers }

-- `cancelTimerInLoop`
pub cancel_timer_in_loop : ℕ → Bool → TimerQueue → TimerQueue
cancel_timer_in_loop p no_owner q =
    let k = (q.timers p).trigger_time in
    elim (lookup k q.active_timers) [
      | none ↦ q
      | some ts ↦
          let q' = put_rest q k (erase p ts) in
          if no_owner then record q' { deleted = q'.deleted ++ (p ∷ []) } else q'
    ]

-- `reset`'s loop over the timers that fired and repeat.
reset_all : ℕ → ℕ → List ℕ → ℕ → TimerQueue → Outcome (TimerQueue × ℕ)
reset_all t now [] earliest q = ok (q, earliest)
reset_all t now (p ∷ ps) earliest q = do
  let x = timer_reset now (q.timers p)
  q' ← add_timer t p (record q { timers = update q.timers p x })
  reset_all t now ps (min earliest (q'.timers p).trigger_time) q'

pub reset : ℕ → ℕ → TimerQueue → Outcome TimerQueue
unfolding reset_all
reset t now q = do
  (q', earliest) ← reset_all t now q.triggered_timers (2 ^ 64 - 1) q
  ok (if earliest == 0 then q' else update_fd t earliest q')

-- `activeTimers.erase(activeTimers.begin())`
erase_begin : TimerQueue → Outcome TimerQueue
erase_begin q = elim q.active_timers [
  | [] ↦ fault bad_access
  | x ∷ m ↦ ok (record q { active_timers = m })
]

-- The callbacks are the user's: `effect p` is what the one of timer `p` does to the queue.
module _ (effect : ℕ → TimerQueue → TimerQueue) where
  -- One pass of the inner loop of `handle_timers`.
  pub fire : ℕ × Bool → TimerQueue → TimerQueue
  fire (p, no_owner) q =
      let ran = effect p (record q { fired = q.fired ++ (p ∷ []) }) in
      if (ran.timers p).repeat
      then record ran { triggered_timers = ran.triggered_timers ++ (p ∷ []) }
      else if no_owner
      then record ran { deleted = ran.deleted ++ (p ∷ []) }
      else ran

  pub fire_all : SameTimeTimers → TimerQueue → TimerQueue
  fire_all [] q = q
  fire_all (x ∷ ts) q = fire_all ts (fire x q)

  -- The loop of `handle_timers`; `none` means that the fuel ran out.
  pub handle_loop : ℕ → ℕ → TimerQueue → Option (Outcome TimerQueue)
  handle_loop zero now q = none
  handle_loop (suc fuel) now q = elim q.active_timers [
    | [] ↦ some (fault bad_access)
    | (k, ts) ∷ m ↦ elim (leb k now) [
      | false ↦ some (ok q)
      | true ↦ elim (erase_begin (fire_all ts q)) [
        | fault e ↦ some (fault e)
        | ok q' ↦ elim q'.active_timers [ [] ↦ some (ok q') | x ∷ m' ↦ handle_loop fuel now q' ]
      ]
    ]
  ]

  -- `handle_timers`
  pub handle_timers : ℕ → ℕ → ℕ → TimerQueue → Option (Outcome TimerQueue)
  handle_timers fuel t now q = elim (handle_loop fuel now (record q { triggered_timers = [] })) [
    | none ↦ none
    | some (fault e) ↦ some (fault e)
    | some (ok q') ↦ some (reset t now q')
  ]

-- `timerfd_settime` is told to wait this many microseconds.
abbrev pub micros : ItimerSpec → ℕ
micros s = s.tv_sec * 1000000 + s.tv_nsec / 1000
