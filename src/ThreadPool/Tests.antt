-- ===== src/ThreadPool/Tests.antt =====
-- Concrete runs of the pool of src/Threads/ThreadPool.cpp.
use learning_network.Prelude.{
  ℕ, ◌+◌, ◌*◌, ◌≤◌, ◌≡◌, refl, arith, Bool, true, false, List, [], ◌∷◌, ok, length, ltb, replicate,
  fault, failed_assert,
}
use learning_network.ThreadPool.{
  Pool, PoolEvent, submits, stops, works, testing, new_pool, start_pool, pool_exec, pool_history,
  joined, working, finished,
}
use learning_network.ThreadPool.Counts.{count, held, submissions}
use learning_network.ThreadPool.Kept.{pool_history-Conserves}
use learning_network.ThreadPool.Drained.{stop-Drained}
use learning_network.ThreadPool.Stopping.{AllBusy, stop-bounded}

abbrev one_thread : Pool ℕ
one_thread = record {
  running = true;
  capacity = 2;
  queue = [];
  workers = testing ∷ [];
  executed = [];
  dropped = [];
}

one_thread_starts : start_pool 1 (new_pool 2) ≡ ok one_thread
unfolding start_pool new_pool
one_thread_starts = refl

abbrev before_stop : List (PoolEvent ℕ)
before_stop =
    submits 3 false
    ∷ works 0 false
    ∷ submits 4 false
    ∷ works 0 false
    ∷ submits 5 false
    ∷ submits 6 false
    ∷ []

abbrev after_stop : List (PoolEvent ℕ)
after_stop = replicate 9 (works 0 false)

abbrev is_small : ℕ → Bool
is_small n = ltb n 5

pool_history-Conserves_example :
    count is_small (submissions before_stop)
    ≡ count is_small (pool_history before_stop one_thread).executed
      + count is_small (pool_history before_stop one_thread).dropped
      + count is_small (pool_history before_stop one_thread).queue
      + held is_small (pool_history before_stop one_thread).workers
pool_history-Conserves_example =
    pool_history-Conserves 2 1 one_thread before_stop is_small one_thread_starts

all_joined :
    joined 1
      (pool_history after_stop (pool_exec stops (pool_history before_stop one_thread))).workers
    ≡ ok true
unfolding pool_history pool_exec joined
all_joined = refl

stop-Drained_example :
    count is_small (submissions before_stop)
    ≡ count is_small
        (pool_history after_stop (pool_exec stops (pool_history before_stop one_thread))).executed
      + count is_small
          (pool_history after_stop (pool_exec stops (pool_history before_stop one_thread))).dropped
stop-Drained_example =
    stop-Drained 2 1 one_thread before_stop after_stop is_small one_thread_starts (omega arith)
      (refl, (refl, (refl, (refl, (refl, (refl, tt))))))
      (refl, (refl, (refl, (refl, (refl, (refl, (refl, (refl, (refl, tt)))))))))
      (refl, (refl, (refl, (refl, (refl, (refl, (refl, (refl, (refl, tt))))))))) all_joined

abbrev stopping : Pool ℕ
stopping = record one_thread {
  running = false;
  queue = 7 ∷ [];
  workers = working 8 ∷ finished ∷ [];
}

abbrev four_steps : List (ℕ × Bool)
four_steps = replicate 4 (0, false)

stopping-AllBusy : AllBusy four_steps stopping
unfolding AllBusy pool_exec
stopping-AllBusy = ((_, refl, refl), ((_, refl, refl), ((_, refl, refl), ((_, refl, refl), tt))))

stop-bounded_example : length four_steps ≤ 2 * length stopping.queue + 3 * length stopping.workers
stop-bounded_example = stop-bounded four_steps stopping refl stopping-AllBusy

-- A pool that was stopped cannot be started again.
starts_once : start_pool 1 stopping ≡ fault failed_assert
unfolding start_pool
starts_once = refl

-- The thread meets a task whose push has not returned, takes the queue for empty, and returns: the
-- task is neither executed nor dropped.
abbrev left_behind : List (PoolEvent ℕ)
left_behind = submits 3 false ∷ stops ∷ works 0 false ∷ works 0 true ∷ []

left_in_queue :
    (joined 1 (pool_history left_behind one_thread).workers ≡ ok true)
    × ((pool_history left_behind one_thread).queue ≡ 3 ∷ [])
unfolding pool_history pool_exec joined
left_in_queue = (refl, refl)
