-- ===== src/ThreadPool/Kept.antt =====
-- Where the tasks submitted to the pool of src/Threads/ThreadPool.cpp are.
use learning_network.Prelude.{
  ℕ, zero, suc, ◌+◌, ◌≡◌, refl, sym, ap, arith, Bool, true, false, List, [], ◌∷◌, some, get_elem?,
  set, replicate, ok, subst, if_intro, inl, inr, Option-cases,
}
use learning_network.ThreadPool.{
  WorkerPc, testing, popping, working, draining, finishing, finished, Pool, PoolEvent, submits,
  stops, works, submit, pop_task, worker_step, put_worker, pool_exec, pool_history, new_pool,
  start_pool,
}
use learning_network.ThreadPool.Counts.{
  one, count, count-append, held_by, held, held-set, submissions,
}

module _ {ℓ} {A : Type ℓ} where
  -- What `start` makes of a new pool.
  abbrev pub fresh_pool : ℕ → ℕ → Pool A
  fresh_pool capacity thread_num = record {
    running = true;
    capacity = capacity;
    queue = [];
    workers = replicate thread_num testing;
    executed = [];
    dropped = [];
  }

  pub start-fresh :
      (capacity thread_num : ℕ) (s : Pool A)
      → start_pool thread_num (new_pool capacity) ≡ ok s
      → fresh_pool capacity thread_num ≡ s
  unfolding start_pool new_pool
  start-fresh capacity thread_num s e =
      let e' : ok (fresh_pool capacity thread_num) ≡ ok s = e in cc

module _ {ℓ} {A : Type ℓ} (p : A → Bool) where
  -- The tasks that satisfy the test, wherever they are now.
  abbrev pub everywhere : Pool A → ℕ
  everywhere s = count p s.executed + count p s.dropped + count p s.queue + held p s.workers

  submit-counts :
      (a : A) (g : Bool) (s : Pool A) → everywhere (submit a g s) ≡ one (p a) + everywhere s
  unfolding submit count
  submit-counts a g s =
      ground (arith, count-append p s.queue (a ∷ []), count-append p s.dropped (a ∷ []))

  -- A step of a thread, with what it holds, keeps the count of the rest.
  rest_of : Pool A → ℕ
  rest_of s = count p s.executed + count p s.dropped + count p s.queue

  StepKeeps : WorkerPc A → Pool A → Pool A × WorkerPc A → Type ℓ
  StepKeeps pc s (s', pc') =
      (rest_of s' + held_by p pc' ≡ rest_of s + held_by p pc) × (s'.workers ≡ s.workers)

  pop-keeps :
      (x : Bool) (pc on_empty : WorkerPc A) (on_task : A → WorkerPc A) (q : List A) (s : Pool A)
      → q ≡ s.queue
      → held_by p pc ≡ 0
      → held_by p on_empty ≡ 0
      → ((a : A) → held_by p (on_task a) ≡ one (p a))
      → StepKeeps pc s (pop_task x on_empty on_task q s)
  unfolding pop_task StepKeeps rest_of count
  pop-keeps true pc on_empty on_task q s e h k f = (omega arith, refl)
  pop-keeps false pc on_empty on_task [] s e h k f = (omega arith, refl)
  pop-keeps false pc on_empty on_task (a ∷ q) s e h k f =
      (omega (arith, ap (count p) (sym e), f a), refl)

  worker_step-keeps :
      (x : Bool) (pc : WorkerPc A) (s : Pool A) → StepKeeps pc s (worker_step x pc s)
  unfolding worker_step StepKeeps rest_of count
  worker_step-keeps x testing s =
      if_intro (λ pc. StepKeeps testing s (s, pc)) s.running {x = popping} {y = draining}
        (λ _. (refl, refl)) (λ _. (refl, refl))
  worker_step-keeps x popping s =
      pop-keeps x popping testing working s.queue s refl refl refl (λ a. refl)
  worker_step-keeps x (working a) s = (omega (arith, count-append p s.executed (a ∷ [])), refl)
  worker_step-keeps x draining s =
      pop-keeps x draining finished finishing s.queue s refl refl refl (λ a. refl)
  worker_step-keeps x (finishing a) s = (omega (arith, count-append p s.executed (a ∷ [])), refl)
  worker_step-keeps x finished s = (refl, refl)

  put_worker-keeps :
      (i : ℕ) (pc : WorkerPc A) (s : Pool A) (r : Pool A × WorkerPc A)
      → get_elem? s.workers i ≡ some pc
      → StepKeeps pc s r
      → everywhere (put_worker i r) ≡ everywhere s
  unfolding put_worker StepKeeps rest_of
  put_worker-keeps i pc s (s', pc') e (k, w) =
      let placed : held p (set s'.workers i pc') ≡ held p (set s.workers i pc') =
        ap (λ ws. held p (set ws i pc')) w in
      omega (arith, held-set p s.workers i pc pc' e, placed, k)

  exec-counts :
      (e : PoolEvent A) (s : Pool A)
      → everywhere (pool_exec e s) ≡ count p (submissions (e ∷ [])) + everywhere s
  unfolding pool_exec submissions count
  exec-counts (submits a g) s = omega (arith, submit-counts a g s)
  exec-counts stops s = omega arith
  exec-counts (works i x) s = elim (Option-cases (get_elem? s.workers i)) [
    | inl e ↦ rw (e, pool_exec) (omega arith)
    | inr (pc, e) ↦
        rw (e, pool_exec)
          (omega (arith, put_worker-keeps i pc s (worker_step x pc s) e (worker_step-keeps x pc s)))
  ]

  held-replicate : (n : ℕ) → held p (replicate {A = WorkerPc A} n testing) ≡ 0
  unfolding held
  held-replicate zero = refl
  held-replicate (suc n) = omega (arith, held-replicate n)

  pub start-everywhere :
      (capacity thread_num : ℕ) (s : Pool A)
      → start_pool thread_num (new_pool capacity) ≡ ok s
      → everywhere s ≡ 0
  unfolding start_pool new_pool count
  start-everywhere capacity thread_num s e =
      let same : fresh_pool capacity thread_num ≡ s = start-fresh capacity thread_num s e in
      subst (λ t. everywhere t ≡ 0) same (omega (arith, held-replicate thread_num))

  submissions-cons :
      (e : PoolEvent A) (es : List (PoolEvent A))
      → count p (submissions (e ∷ es)) ≡ count p (submissions (e ∷ [])) + count p (submissions es)
  unfolding submissions count
  submissions-cons (submits a g) es = omega arith
  submissions-cons stops es = omega arith
  submissions-cons (works i x) es = omega arith

  count-none : count p (submissions []) ≡ 0
  unfolding submissions count
  count-none = refl

  pub history-everywhere :
      (es : List (PoolEvent A)) (s : Pool A)
      → everywhere (pool_history es s) ≡ count p (submissions es) + everywhere s
  unfolding pool_history
  history-everywhere [] s = omega (arith, count-none)
  history-everywhere (e ∷ es) s =
      omega (arith, history-everywhere es (pool_exec e s), exec-counts e s, submissions-cons e es)

-- Whatever the pool's threads and the callers of `submit` and `stop` do, in any order, from a pool that
-- was just started: of the tasks of every kind, those submitted are exactly those executed,
-- those that `submit` dropped, those in the queue, and those that a thread has taken.
pub pool_history-Conserves :
    {A : Type 0} (capacity thread_num : ℕ) (s : Pool A) (es : List (PoolEvent A)) (p : A → Bool)
    → start_pool thread_num (new_pool capacity) ≡ ok s
    → let s' = pool_history es s in
      count p (submissions es)
      ≡ count p s'.executed + count p s'.dropped + count p s'.queue + held p s'.workers
pool_history-Conserves capacity thread_num s es p e =
    let n : everywhere p s ≡ 0 = start-everywhere p capacity thread_num s e in
    omega (arith, history-everywhere p es s, n)
