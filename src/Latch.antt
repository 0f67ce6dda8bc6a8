-- ===== src/Latch.antt =====
-- src/Threads/CountDownLatch.cpp over src/Threads/Mutex.h and src/Threads/Condition.h: threads that wait
-- for a count, and threads that count down. A blocked thread is one whose step changes nothing;
-- `pthread_cond_wait` gives the mutex up and sleeps at once, and may return without a signal.
pub mod Fair
pub mod Woken
pub mod Tests
use learning_network.Prelude.{
  ℕ, zero, suc, Bool, true, false, List, [], ◌∷◌, Option, none, some, if◌then◌else◌, assign,
}
use learning_network.LogStream.{ℤ, pos, negsuc}

-- Where a thread is. In `wait`: before the lock, at the test of the `while`, asleep, awake and before
-- the lock again, before the unlock, returned. In `countDown`: before the lock, at `--count`,
-- at `notifyAll`, before the unlock, returned.
pub data LatchPc : Type 0 where
  wait_locking : LatchPc
  wait_testing : LatchPc
  asleep : LatchPc
  awake : LatchPc
  wait_unlocking : LatchPc
  waited : LatchPc
  down_locking : LatchPc
  down_counting : LatchPc
  down_notifying : LatchPc
  down_unlocking : LatchPc
  counted_down : LatchPc

-- `count`, the holder of the mutex, and the threads.
pub record Latch : Type 0 where
  pub count : ℤ
  pub holder : Option ℕ
  pub threads : ℕ → LatchPc

abbrev pub is_positive : ℤ → Bool
is_positive (pos zero) = false
is_positive (pos (suc n)) = true
is_positive (negsuc n) = false

abbrev pub is_nil : ℤ → Bool
is_nil (pos zero) = true
is_nil (pos (suc n)) = false
is_nil (negsuc n) = false

-- `--count`
abbrev pub decrement : ℤ → ℤ
decrement (pos zero) = negsuc zero
decrement (pos (suc n)) = pos n
decrement (negsuc n) = negsuc (suc n)

-- `lock`, for a thread that then is at the place given.
unfoldable pub take_lock : ℕ → LatchPc → Latch → Latch
take_lock i pc s = elim s.holder [
  | none ↦ record s { holder = some i; threads = assign i pc s.threads }
  | some j ↦ s
]

-- A thread that holds the mutex gives it up.
unfoldable pub release : ℕ → LatchPc → Latch → Latch
release i pc s = record s { holder = none; threads = assign i pc s.threads }

-- `notifyAll`
unfoldable pub wake : LatchPc → LatchPc
wake asleep = awake
wake wait_locking = wait_locking
wake wait_testing = wait_testing
wake awake = awake
wake wait_unlocking = wait_unlocking
wake waited = waited
wake down_locking = down_locking
wake down_counting = down_counting
wake down_notifying = down_notifying
wake down_unlocking = down_unlocking
wake counted_down = counted_down

-- The next step of thread `i`.
unfoldable pub latch_step : ℕ → LatchPc → Latch → Latch
unfolding take_lock release wake
latch_step i wait_locking s = take_lock i wait_testing s
latch_step i wait_testing s =
    if is_positive s.count
    then release i asleep s
    else record s { threads = assign i wait_unlocking s.threads }
latch_step i asleep s = s
latch_step i awake s = take_lock i wait_testing s
latch_step i wait_unlocking s = release i waited s
latch_step i waited s = s
latch_step i down_locking s = take_lock i down_counting s
latch_step i down_counting s = record s {
  count = decrement s.count;
  threads =
      assign i (if is_nil (decrement s.count) then down_notifying else down_unlocking) s.threads;
}
latch_step i down_notifying s = record s {
  threads = assign i down_unlocking (λ j. wake (s.threads j));
}
latch_step i down_unlocking s = release i counted_down s
latch_step i counted_down s = s

-- A thread runs, or one that sleeps returns without a signal.
pub data LatchEvent : Type 0 where
  runs : ℕ → LatchEvent
  stirs : ℕ → LatchEvent

abbrev pub sleeps : LatchPc → Bool
sleeps asleep = true
sleeps pc = false

unfoldable pub latch_exec : LatchEvent → Latch → Latch
unfolding latch_step
latch_exec (runs i) s = latch_step i (s.threads i) s
latch_exec (stirs i) s =
    if sleeps (s.threads i) then record s { threads = assign i awake s.threads } else s

unfoldable pub latch_history : List LatchEvent → Latch → Latch
latch_history [] s = s
latch_history (e ∷ es) s = latch_history es (latch_exec e s)

-- `CountDownLatch(count_)`, with the threads before their calls.
unfoldable pub new_latch : ℕ → (ℕ → LatchPc) → Latch
new_latch count threads = record { count = pos count; holder = none; threads = threads }
