-- ===== src/ThreadPool/Stopping.antt =====
-- How long the threads of src/Threads/ThreadPool.cpp go on after `stop`.
use learning_network.Prelude.{
  ℕ, zero, suc, ◌+◌, ◌*◌, ◌≤◌, ◌≡◌, refl, ◌∙◌, ap, arith, Bool, true, false, List, [], ◌∷◌, some,
  get_elem?, set, length,
}
use learning_network.ThreadPool.{
  WorkerPc, testing, popping, working, draining, finishing, finished, Pool, works, pop_task,
  worker_step, put_worker, pool_exec, is_finished,
}

module _ {ℓ} {A : Type ℓ} where
  -- The steps that a thread has left when the queue is empty.
  abbrev rank : WorkerPc A → ℕ
  rank finished = 0
  rank draining = 1
  rank testing = 2
  rank (finishing a) = 2
  rank popping = 3
  rank (working a) = 3

  ranks : List (WorkerPc A) → ℕ
  ranks [] = 0
  ranks (pc ∷ ws) = rank pc + ranks ws

  ranks-set :
      (ws : List (WorkerPc A)) (i : ℕ) (pc pc' : WorkerPc A)
      → get_elem? ws i ≡ some pc
      → ranks (set ws i pc') + rank pc ≡ ranks ws + rank pc'
  unfolding ranks
  ranks-set [] i pc pc' e = absurd (cc)
  ranks-set (x ∷ ws) zero pc pc' e = let same : x ≡ pc = cc in omega (arith, ap rank same)
  ranks-set (x ∷ ws) (suc i) pc pc' e = omega (arith, ranks-set ws i pc pc' e)

  ranks-le : (ws : List (WorkerPc A)) → ranks ws ≤ 3 * length ws
  unfolding ranks
  ranks-le [] = omega arith
  ranks-le (finished ∷ ws) = omega (arith, ranks-le ws)
  ranks-le (draining ∷ ws) = omega (arith, ranks-le ws)
  ranks-le (testing ∷ ws) = omega (arith, ranks-le ws)
  ranks-le (finishing a ∷ ws) = omega (arith, ranks-le ws)
  ranks-le (popping ∷ ws) = omega (arith, ranks-le ws)
  ranks-le (working a ∷ ws) = omega (arith, ranks-le ws)

  abbrev left : Pool A → ℕ
  left s = 2 * length s.queue + ranks s.workers

  StepLowers : WorkerPc A → Pool A → Pool A × WorkerPc A → Type ℓ
  StepLowers pc s (s', pc') =
      (s'.running ≡ s.running)
      × (suc (2 * length s'.queue + rank pc') ≤ 2 * length s.queue + rank pc)
      × (s'.workers ≡ s.workers)

  pop-StepLowers :
      (x : Bool) (pc on_empty : WorkerPc A) (on_task : A → WorkerPc A) (q : List A) (s : Pool A)
      → q ≡ s.queue
      → suc (rank on_empty) ≤ rank pc
      → ((a : A) → rank (on_task a) ≤ suc (rank pc))
      → StepLowers pc s (pop_task x on_empty on_task q s)
  unfolding StepLowers pop_task
  pop-StepLowers true pc on_empty on_task q s e h f = (refl, omega arith, refl)
  pop-StepLowers false pc on_empty on_task [] s e h f = (refl, omega arith, refl)
  pop-StepLowers false pc on_empty on_task (a ∷ q) s e h f =
      (refl, omega (arith, ap length e, f a), refl)

  step-StepLowers :
      (x : Bool) (pc : WorkerPc A) (s : Pool A)
      → s.running ≡ false
      → is_finished pc ≡ false
      → StepLowers pc s (worker_step x pc s)
  unfolding worker_step StepLowers
  step-StepLowers x testing s r f = rw r (refl, omega arith, refl)
  step-StepLowers x popping s r f =
      pop-StepLowers x popping testing working s.queue s refl (omega arith) (λ a. omega arith)
  step-StepLowers x (working a) s r f = (refl, omega arith, refl)
  step-StepLowers x draining s r f =
      pop-StepLowers x draining finished finishing s.queue s refl (omega arith) (λ a. omega arith)
  step-StepLowers x (finishing a) s r f = (refl, omega arith, refl)
  step-StepLowers x finished s r f = absurd (cc)

  -- Every step is one of a thread that has not returned.
  unfoldable pub AllBusy : List (ℕ × Bool) → Pool A → Type ℓ
  AllBusy [] s = Unit
  AllBusy ((i, x) ∷ is) s =
      ((pc : WorkerPc A) × (get_elem? s.workers i ≡ some pc) × (is_finished pc ≡ false))
      × AllBusy is (pool_exec (works i x) s)

  put-lowers :
      (i : ℕ) (pc : WorkerPc A) (s : Pool A) (r : Pool A × WorkerPc A)
      → get_elem? s.workers i ≡ some pc
      → StepLowers pc s r
      → ((put_worker i r).running ≡ s.running) × (suc (left (put_worker i r)) ≤ left s)
  unfolding put_worker StepLowers
  put-lowers i pc s (s', pc') e (r, m, w) =
      (r, omega (arith, m, ranks-set s.workers i pc pc' e, ap (λ ws. ranks (set ws i pc')) w))

  exec-lowers :
      (i : ℕ) (x : Bool) (pc : WorkerPc A) (s : Pool A)
      → get_elem? s.workers i ≡ some pc
      → is_finished pc ≡ false
      → s.running ≡ false
      → ((pool_exec (works i x) s).running ≡ false)
        × (suc (left (pool_exec (works i x) s)) ≤ left s)
  unfolding pool_exec
  exec-lowers i x pc s e f r =
      let (r', m) = put-lowers i pc s (worker_step x pc s) e (step-StepLowers x pc s r f) in
      rw (e, pool_exec) (r' ∙ r, m)

  steps-left :
      (is : List (ℕ × Bool)) (s : Pool A) → s.running ≡ false → AllBusy is s → length is ≤ left s
  unfolding AllBusy
  steps-left [] s r b = omega arith
  steps-left ((i, x) ∷ is) s r ((pc, e, f), b) =
      let (r', m) = exec-lowers i x pc s e f r in
      omega (arith, m, steps-left is (pool_exec (works i x) s) r' b)

  -- Once `running` is cleared and nothing is submitted, the threads that have not returned take, in
  -- whatever order, at most two steps for each task in the queue and three for each thread, so
  -- that the joins of `stop` return.
  pub stop-bounded :
      (is : List (ℕ × Bool)) (s : Pool A)
      → s.running ≡ false
      → AllBusy is s
      → length is ≤ 2 * length s.queue + 3 * length s.workers
  stop-bounded is s r b = omega (arith, steps-left is s r b, ranks-le s.workers)
