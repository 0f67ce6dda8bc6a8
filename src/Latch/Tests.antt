-- ===== src/Latch/Tests.antt =====
-- Concrete runs of src/Threads/CountDownLatch.cpp.
use learning_network.Prelude.{ℕ, zero, suc, ◌≡◌, refl, true, false, List, [], ◌∷◌, ◌⊎◌}
use learning_network.Latch.{
  LatchPc, wait_locking, waited, down_locking, LatchEvent, runs, stirs, sleeps, is_positive,
  latch_history, latch_exec, latch_step, new_latch, take_lock, release, wake,
}
use learning_network.Latch.Fair.{holds, passed, notifies}
use learning_network.Latch.Woken.{begins, latch_history-heard}

-- Thread 0 waits, the others count down.
abbrev callers : ℕ → LatchPc
callers zero = wait_locking
callers (suc i) = down_locking

callers_begin : (i : ℕ) → begins (callers i) ≡ true
callers_begin zero = refl
callers_begin (suc i) = refl

abbrev one_round : List LatchEvent
one_round =
    runs 0
    ∷ runs 0
    ∷ stirs 0
    ∷ runs 0
    ∷ runs 0
    ∷ runs 1
    ∷ runs 1
    ∷ runs 0
    ∷ runs 1
    ∷ runs 1
    ∷ runs 0
    ∷ runs 0
    ∷ runs 0
    ∷ []

latch_history-heard_example :
    ((i : ℕ)
      → passed ((latch_history one_round (new_latch 1 callers)).threads i) ≡ true
      → is_positive (latch_history one_round (new_latch 1 callers)).count ≡ false)
    × ((i j : ℕ)
        → holds ((latch_history one_round (new_latch 1 callers)).threads i) ≡ true
        → holds ((latch_history one_round (new_latch 1 callers)).threads j) ≡ true
        → i ≡ j)
    × ((i : ℕ)
        → sleeps ((latch_history one_round (new_latch 1 callers)).threads i) ≡ true
        → (is_positive (latch_history one_round (new_latch 1 callers)).count ≡ true)
          ⊎ ((j : ℕ) × (notifies ((latch_history one_round (new_latch 1 callers)).threads j)
                ≡ true)))
latch_history-heard_example = latch_history-heard 1 callers one_round callers_begin

-- The waiting thread passes in the end.
passes : (latch_history one_round (new_latch 1 callers)).threads 0 ≡ waited
unfolding latch_history latch_exec latch_step new_latch take_lock release wake
passes = refl
