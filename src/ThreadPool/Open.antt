-- ===== src/ThreadPool/Open.antt =====
-- The pool of src/Threads/ThreadPool.cpp before `stop`.
use learning_network.Prelude.{
  ℕ, zero, suc, ◌≡◌, refl, ◌∙◌, Bool, true, false, List, [], ◌∷◌, ◌++◌, get_elem?, length,
  length-set, replicate, length-replicate, All, ltb, ◌&&◌, not, if_intro, All-get_elem?, All-set,
  inl, inr, Option-cases,
}
use learning_network.ThreadPool.{
  WorkerPc, testing, popping, working, draining, finishing, finished, Pool, PoolEvent, submits,
  stops, works, submit, pop_task, worker_step, put_worker, pool_exec, pool_history,
}
use learning_network.ThreadPool.Kept.{fresh_pool}

module _ {ℓ} {A : Type ℓ} where
  abbrev pub is_stop : PoolEvent A → Bool
  is_stop (submits a g) = false
  is_stop stops = true
  is_stop (works i x) = false

  -- A thread that has not seen `running` cleared.
  abbrev pub is_early : WorkerPc A → Bool
  is_early testing = true
  is_early popping = true
  is_early (working a) = true
  is_early draining = false
  is_early (finishing a) = false
  is_early finished = false

early-replicate {ℓ} :
    (A : Type ℓ) (k : ℕ) → All (λ pc. is_early pc ≡ true) (replicate {A = WorkerPc A} k testing)
early-replicate A zero = tt
early-replicate A (suc k) = (refl, early-replicate A k)

module _ {ℓ} {A : Type ℓ} (n : ℕ) where
  -- Before `stop`.
  pub record IsOpen (s : Pool A) : Type 0 where
    pub is_running : s.running ≡ true
    pub early : All (λ pc. is_early pc ≡ true) s.workers
    pub sized : length s.workers ≡ n

  -- What a thread's step does before `stop`.
  StepOpen : Pool A → Pool A × WorkerPc A → Type ℓ
  StepOpen s (s', pc') = (s'.running ≡ s.running) × (is_early pc' ≡ true) × (s'.workers ≡ s.workers)

  pop-StepOpen : (x : Bool) (q : List A) (s : Pool A) → StepOpen s (pop_task x testing working q s)
  unfolding StepOpen pop_task
  pop-StepOpen true q s = (refl, refl, refl)
  pop-StepOpen false [] s = (refl, refl, refl)
  pop-StepOpen false (a ∷ q) s = (refl, refl, refl)

  step-StepOpen :
      (x : Bool) (pc : WorkerPc A) (s : Pool A)
      → s.running ≡ true
      → is_early pc ≡ true
      → StepOpen s (worker_step x pc s)
  unfolding worker_step StepOpen
  step-StepOpen x testing s r e = rw r (refl, refl, refl)
  step-StepOpen x popping s r e = pop-StepOpen x s.queue s
  step-StepOpen x (working a) s r e = (refl, refl, refl)
  step-StepOpen x draining s r e = absurd (cc)
  step-StepOpen x (finishing a) s r e = absurd (cc)
  step-StepOpen x finished s r e = absurd (cc)

  put-IsOpen :
      (i : ℕ) (s : Pool A) (r : Pool A × WorkerPc A)
      → IsOpen s
      → StepOpen s r
      → IsOpen (put_worker i r)
  unfolding put_worker StepOpen
  put-IsOpen i s (s', pc') v (r, e, w) = record {
    is_running = r ∙ v.is_running;
    early = rw w (All-set (λ pc. is_early pc ≡ true) s.workers i pc' v.early e);
    sized = rw w (length-set s.workers i pc' ∙ v.sized);
  }

  exec-IsOpen :
      (e : PoolEvent A) (s : Pool A) → is_stop e ≡ false → IsOpen s → IsOpen (pool_exec e s)
  unfolding pool_exec submit
  exec-IsOpen (submits a g) s h v =
      if_intro IsOpen (ltb (length s.queue) s.capacity && not g)
        {x = record s { queue = s.queue ++ (a ∷ []) }}
        {y = record s { dropped = s.dropped ++ (a ∷ []) }}
        (λ _. record { is_running = v.is_running; early = v.early; sized = v.sized })
        (λ _. record { is_running = v.is_running; early = v.early; sized = v.sized })
  exec-IsOpen stops s h v = absurd (cc)
  exec-IsOpen (works i x) s h v = elim (Option-cases (get_elem? s.workers i)) [
    | inl e ↦ rw (e, pool_exec) v
    | inr (pc, e) ↦
        rw (e, pool_exec)
          (put-IsOpen i s (worker_step x pc s) v (
            step-StepOpen x pc s v.is_running
              (All-get_elem? (λ c. is_early c ≡ true) s.workers i pc v.early e)))
  ]

  pub history-IsOpen :
      (es : List (PoolEvent A)) (s : Pool A)
      → All (λ e. is_stop e ≡ false) es
      → IsOpen s
      → IsOpen (pool_history es s)
  unfolding pool_history
  history-IsOpen [] s h v = v
  history-IsOpen (e ∷ es) s h v = history-IsOpen es (pool_exec e s) h.1 (exec-IsOpen e s h.0 v)

  pub fresh-IsOpen : (capacity : ℕ) → IsOpen (fresh_pool capacity n)
  fresh-IsOpen capacity = record {
    is_running = refl;
    early = early-replicate A n;
    sized = length-replicate n testing;
  }
