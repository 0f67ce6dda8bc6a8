-- ===== src/ThreadPool.antt =====
-- src/Threads/ThreadPool.cpp: a pool of threads that take tasks from one queue. A push and a `try_pop` of
-- src/helpers/queue.h are single steps on a list of bounded length; each is refused also when the
-- event says so: `try_pop` while the push of the oldest element has not returned, and `push`, which
-- gives up after some hundred attempts without a sign, while pops have not returned. The plain
-- `bool running` is read and written in one order for all threads.
pub mod Counts
pub mod Kept
pub mod Open
pub mod Drained
pub mod Stopping
pub mod Tests
use learning_network.Prelude.{
  ℕ, zero, suc, ◌+◌, Bool, true, false, List, [], ◌∷◌, ◌++◌, Option, none, some, if◌then◌else◌, ltb,
  ◌&&◌, not, leb, length, get_elem?, set, replicate, Outcome, ok, assert, bad_access, fault, ◌>>=◌,
  ◌>>◌,
}

-- Where a thread of the pool is: at the test of `running`, at `try_pop` in the loop, in a task; at
-- `try_pop` of the second loop, in a task of it; returned.
pub data WorkerPc {ℓ} (A : Type ℓ) : Type ℓ where
  testing : WorkerPc A
  popping : WorkerPc A
  working : A → WorkerPc A
  draining : WorkerPc A
  finishing : A → WorkerPc A
  finished : WorkerPc A

-- The pool, with the tasks that were executed and those that `submit` could not push, in their order.
pub record Pool {ℓ} (A : Type ℓ) : Type ℓ where
  pub running : Bool
  pub capacity : ℕ
  pub queue : List A
  pub workers : List (WorkerPc A)
  pub executed : List A
  pub dropped : List A

-- The flags say that `push` gives up although the list has room, and that `try_pop` is refused although
-- the list is not empty.
pub data PoolEvent {ℓ} (A : Type ℓ) : Type ℓ where
  submits : A → Bool → PoolEvent A
  stops : PoolEvent A
  works : ℕ → Bool → PoolEvent A

module _ {ℓ} {A : Type ℓ} where
  -- The constructor.
  unfoldable pub new_pool : ℕ → Pool A
  new_pool capacity = record {
    running = false;
    capacity = capacity;
    queue = [];
    workers = [];
    executed = [];
    dropped = [];
  }

  -- `start`, with `threadNum` threads.
  unfoldable pub start_pool : ℕ → Pool A → Outcome (Pool A)
  start_pool thread_num s =
      assert (leb (length s.workers) 0)
      >> ok (record s { running = true; workers = replicate thread_num testing })

  -- `submit`
  pub submit : A → Bool → Pool A → Pool A
  submit a gives_up s =
      if ltb (length s.queue) s.capacity && not gives_up
      then record s { queue = s.queue ++ (a ∷ []) }
      else record s { dropped = s.dropped ++ (a ∷ []) }

  -- `try_pop` in either loop, with where the thread goes when it is refused and with a task.
  pub pop_task : Bool → WorkerPc A → (A → WorkerPc A) → List A → Pool A → Pool A × WorkerPc A
  pop_task true on_empty on_task q s = (s, on_empty)
  pop_task false on_empty on_task [] s = (s, on_empty)
  pop_task false on_empty on_task (a ∷ q) s = (record s { queue = q }, on_task a)

  -- The next step of `worker_loop`.
  pub worker_step : Bool → WorkerPc A → Pool A → Pool A × WorkerPc A
  unfolding pop_task
  worker_step refused testing s = (s, (if s.running then popping else draining))
  worker_step refused popping s = pop_task refused testing working s.queue s
  worker_step refused (working a) s = (record s { executed = s.executed ++ (a ∷ []) }, testing)
  worker_step refused draining s = pop_task refused finished finishing s.queue s
  worker_step refused (finishing a) s = (record s { executed = s.executed ++ (a ∷ []) }, draining)
  worker_step refused finished s = (s, finished)

  -- The destructor, which calls `stop` on a pool that runs.
  pub destroy_pool : Pool A → Pool A
  destroy_pool s = if s.running then record s { running = false } else s

  pub put_worker : ℕ → Pool A × WorkerPc A → Pool A
  put_worker i (s, pc) = record s { workers = set s.workers i pc }

  unfoldable pub pool_exec : PoolEvent A → Pool A → Pool A
  unfolding submit worker_step put_worker
  pool_exec (submits a gives_up) s = submit a gives_up s
  pool_exec stops s = record s { running = false }
  pool_exec (works i refused) s = elim (get_elem? s.workers i) [
    | none ↦ s
    | some pc ↦ put_worker i (worker_step refused pc s)
  ]

  unfoldable pub pool_history : List (PoolEvent A) → Pool A → Pool A
  pool_history [] s = s
  pool_history (e ∷ es) s = pool_history es (pool_exec e s)

  abbrev pub is_finished : WorkerPc A → Bool
  is_finished testing = false
  is_finished popping = false
  is_finished (working a) = false
  is_finished draining = false
  is_finished (finishing a) = false
  is_finished finished = true

  -- `join` returns for each of the first `thread_num` threads.
  unfoldable pub joined : ℕ → List (WorkerPc A) → Outcome Bool
  joined zero ws = ok true
  joined (suc n) [] = fault bad_access
  joined (suc n) (pc ∷ ws) = if is_finished pc then joined n ws else ok false
