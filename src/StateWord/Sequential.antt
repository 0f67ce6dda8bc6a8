-- ===== src/StateWord/Sequential.antt =====
-- `send` and the end of `sendInLoop` on `state_` of src/TcpConnection.cpp, one thread at a time, and
-- two threads that lose a message.
use learning_network.Prelude.{
  ℕ, zero, suc, ◌+◌, ◌^◌, ◌≤◌, ◌<◌, ◌≡◌, refl, arith, true, false, [], ◌∷◌,
}
use learning_network.StateWord.{
  Pc, idle, marked, inside, last, done, run, exec, history, put_thread, thread_step, try_step,
  mark_step, leave_step, last_step, senders, has_used, has_writing,
}

-- A thread that takes `n` accesses in a row.
pub alone : ℕ → ℕ × Pc → ℕ × Pc
alone zero s = s
alone (suc n) (w, pc) = alone n (thread_step w pc)

enter_marked :
    (w : ℕ)
    → w + 64 < 2 ^ 64
    → has_used w ≡ true
    → has_writing w ≡ true
    → try_step w w ≡ (w + 64, inside)
unfolding try_step
enter_marked w r u m = ground arith

enter_mark :
    (w : ℕ) → has_used w ≡ true → has_writing w ≡ false → try_step w w ≡ (w + 32, marked (w + 32))
unfolding try_step
enter_mark w u m = ground arith

mark_enter : (w : ℕ) → w + 64 < 2 ^ 64 → mark_step w w ≡ (w + 64, inside)
unfolding mark_step
mark_enter w r = ground arith

leave_others :
    (w : ℕ)
    → w + 64 < 2 ^ 64
    → has_used w ≡ true
    → has_writing w ≡ true
    → 1 ≤ senders w
    → leave_step (w + 64) (w + 64) ≡ (w, done)
unfolding leave_step
leave_others w r u m s = ground arith

leave_alone :
    (w : ℕ)
    → w + 96 < 2 ^ 64
    → has_used w ≡ true
    → has_writing w ≡ false
    → senders w ≡ 0
    → leave_step (w + 32 + 64) (w + 32 + 64) ≡ (w + 32, last (w + 32))
unfolding leave_step
leave_alone w r u m s = ground arith

unmark : (w : ℕ) → has_writing w ≡ false → last_step (w + 32) (w + 32) ≡ (w, done)
unfolding last_step
unmark w m = ground arith

-- A send with nobody else at the word: it is counted on the way, with the mark set, and leaves the
-- word as it was, the mark included.
send_alone :
    (w : ℕ)
    → w + 96 < 2 ^ 64
    → has_used w ≡ true
    → ((has_writing w ≡ true) × (1 ≤ senders w)
        → (alone 2 (w, idle) ≡ (w + 64, inside)) × (alone 4 (w, idle) ≡ (w, done)))
      × ((has_writing w ≡ false) × (senders w ≡ 0)
          → (alone 3 (w, idle) ≡ (w + 32 + 64, inside)) × (alone 6 (w, idle) ≡ (w, done)))
unfolding alone thread_step
send_alone w r u = (others, first)
  where
    others :
        (has_writing w ≡ true) × (1 ≤ senders w)
        → (alone 2 (w, idle) ≡ (w + 64, inside)) × (alone 4 (w, idle) ≡ (w, done))
    others (m, s) =
        let e = enter_marked w (omega arith) u m in
        (rw e, rw (e, leave_others w (omega arith) u m s))

    first :
        (has_writing w ≡ false) × (senders w ≡ 0)
        → (alone 3 (w, idle) ≡ (w + 32 + 64, inside)) × (alone 6 (w, idle) ≡ (w, done))
    first (m, s) =
        let e = enter_mark w u m in
        let e' = mark_enter (w + 32) (omega arith) in
        (rw (e, e'), rw (e, e', leave_alone w r u m s, unmark w m))

mark_gives_up : (w : ℕ) → mark_step (w + 32 + 64) (w + 32) ≡ (w + 32 + 64, done)
unfolding mark_step
mark_gives_up w = ground arith

leave_gives_up : (w : ℕ) → leave_step (w + 64) w ≡ (w + 64, done)
unfolding leave_step
leave_gives_up w = ground arith

-- Two threads begin to send on an unmarked word in use. The second gets between the mark and the
-- count of the first: it becomes a sender, and the first gives up its message, though the
-- connection stays open.
send_lost :
    (w : ℕ)
    → w + 96 < 2 ^ 64
    → has_used w ≡ true
    → has_writing w ≡ false
    → history
        (run 0 ∷ run 0 ∷ run 1 ∷ run 1 ∷ run 0 ∷ [])
        (record { word = w; threads = idle ∷ idle ∷ [] })
      ≡ record { word = w + 32 + 64; threads = done ∷ inside ∷ [] }
unfolding history exec put_thread thread_step
send_lost w r u m = rw (enter_mark w u m) (
    rw (enter_marked (w + 32) (omega arith) (ground arith) (ground arith))
      (rw (mark_gives_up w) refl))

-- A sender that was counted stays counted for ever, when another becomes one between its load in
-- `sendInLoop` and its swap: in the end no thread is inside, and the count is what it was.
sender_leaks :
    (w : ℕ)
    → w + 128 < 2 ^ 64
    → has_used w ≡ true
    → has_writing w ≡ true
    → 1 ≤ senders w
    → history
        (run 0 ∷ run 1 ∷ run 1 ∷ run 0 ∷ run 1 ∷ run 1 ∷ [])
        (record { word = w; threads = inside ∷ idle ∷ [] })
      ≡ record { word = w; threads = done ∷ done ∷ [] }
unfolding history exec put_thread thread_step
sender_leaks w r u m s =
    rw (enter_marked w (omega arith) u m, leave_gives_up w, leave_others w (omega arith) u m s)
