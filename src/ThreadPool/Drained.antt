-- ===== src/ThreadPool/Drained.antt =====
-- `stop` of src/Threads/ThreadPool.cpp: the tasks once it has returned.
use learning_network.Prelude.{
  ℕ, zero, suc, ◌+◌, ◌≤◌, ◌≡◌, refl, sym, ◌∙◌, arith, Bool, true, false, List, [], ◌∷◌, get_elem?,
  length, length-set, All, All-get_elem?, All-set, inl, inr, Option-cases, subst, ok,
}
use learning_network.ThreadPool.{
  WorkerPc, testing, popping, working, draining, finishing, finished, Pool, PoolEvent, submits,
  stops, works, pop_task, worker_step, put_worker, pool_exec, pool_history, new_pool, start_pool,
  is_finished, joined,
}
use learning_network.ThreadPool.Counts.{count, held, submissions}
use learning_network.ThreadPool.Kept.{everywhere, start-fresh, history-everywhere, start-everywhere}
use learning_network.ThreadPool.Open.{is_stop, IsOpen, history-IsOpen, fresh-IsOpen, is_early}

module _ {ℓ} {A : Type ℓ} where
  abbrev pub is_submit : PoolEvent A → Bool
  is_submit (submits a g) = true
  is_submit stops = false
  is_submit (works i x) = false

  -- A `try_pop` that is refused while the push of the oldest element has not returned.
  abbrev pub is_refused : PoolEvent A → Bool
  is_refused (submits a g) = false
  is_refused stops = false
  is_refused (works i x) = x

  -- A thread that has returned found the queue empty.
  abbrev Found : List A → WorkerPc A → Type ℓ
  Found q pc = is_finished pc ≡ true → q ≡ []

module _ {ℓ} {A : Type ℓ} (n : ℕ) where
  -- After `stop`, while nothing is submitted.
  pub record IsClosed (s : Pool A) : Type ℓ where
    pub not_running : s.running ≡ false
    pub found : All (Found s.queue) s.workers
    pub sized : length s.workers ≡ n

  shorter :
      (q q' : List A) (ws : List (WorkerPc A))
      → (q ≡ [] → q' ≡ [])
      → All (Found q) ws
      → All (Found q') ws
  shorter q q' [] f h = tt
  shorter q q' (pc ∷ ws) f h = (λ e. f (h.0 e), shorter q q' ws f h.1)

  StepClosed : Pool A → Pool A × WorkerPc A → Type ℓ
  StepClosed s (s', pc') =
      (s'.running ≡ s.running)
      × (s.queue ≡ [] → s'.queue ≡ [])
      × Found s'.queue pc'
      × (s'.workers ≡ s.workers)

  pop-StepClosed :
      (on_empty : WorkerPc A) (on_task : A → WorkerPc A) (q : List A) (s : Pool A)
      → q ≡ s.queue
      → ((a : A) → is_finished (on_task a) ≡ false)
      → StepClosed s (pop_task false on_empty on_task q s)
  unfolding StepClosed pop_task
  pop-StepClosed on_empty on_task [] s e f = (refl, λ h. h, λ h. sym e, refl)
  pop-StepClosed on_empty on_task (a ∷ q) s e f =
      (refl, λ h. absurd (cc), λ h. let g = f a in absurd (cc), refl)

  step-StepClosed :
      (pc : WorkerPc A) (s : Pool A)
      → Found s.queue pc
      → s.running ≡ false
      → StepClosed s (worker_step false pc s)
  unfolding worker_step StepClosed
  step-StepClosed testing s h r = rw r (refl, λ k. k, λ k. absurd (cc), refl)
  step-StepClosed popping s h r = pop-StepClosed testing working s.queue s refl (λ a. refl)
  step-StepClosed (working a) s h r = (refl, λ k. k, λ k. absurd (cc), refl)
  step-StepClosed draining s h r = pop-StepClosed finished finishing s.queue s refl (λ a. refl)
  step-StepClosed (finishing a) s h r = (refl, λ k. k, λ k. absurd (cc), refl)
  step-StepClosed finished s h r = (refl, λ k. k, h, refl)

  put-IsClosed :
      (i : ℕ) (s : Pool A) (r : Pool A × WorkerPc A)
      → IsClosed s
      → StepClosed s r
      → IsClosed (put_worker i r)
  unfolding put_worker StepClosed
  put-IsClosed i s (s', pc') v (r, q, f, w) = record {
    not_running = r ∙ v.not_running;
    found =
        rw w (
          All-set (Found s'.queue) s.workers i pc' (shorter s.queue s'.queue s.workers q v.found)
            f);
    sized = rw w (length-set s.workers i pc' ∙ v.sized);
  }

  works-IsClosed : (i : ℕ) (s : Pool A) → IsClosed s → IsClosed (pool_exec (works i false) s)
  unfolding pool_exec
  works-IsClosed i s v = elim (Option-cases (get_elem? s.workers i)) [
    | inl e ↦ rw (e, pool_exec) v
    | inr (pc, e) ↦
        rw (e, pool_exec)
          (put-IsClosed i s (worker_step false pc s) v (
            step-StepClosed pc s (All-get_elem? (Found s.queue) s.workers i pc v.found e)
              v.not_running))
  ]

  exec-IsClosed :
      (e : PoolEvent A) (s : Pool A)
      → is_submit e ≡ false
      → is_refused e ≡ false
      → IsClosed s
      → IsClosed (pool_exec e s)
  unfolding pool_exec
  exec-IsClosed (submits a g) s h k v = absurd (cc)
  exec-IsClosed stops s h k v = record { not_running = refl; found = v.found; sized = v.sized }
  exec-IsClosed (works i true) s h k v = absurd (cc)
  exec-IsClosed (works i false) s h k v = works-IsClosed i s v

  history-IsClosed :
      (es : List (PoolEvent A)) (s : Pool A)
      → All (λ e. is_submit e ≡ false) es
      → All (λ e. is_refused e ≡ false) es
      → IsClosed s
      → IsClosed (pool_history es s)
  unfolding pool_history
  history-IsClosed [] s h k v = v
  history-IsClosed (e ∷ es) s h k v =
      history-IsClosed es (pool_exec e s) h.1 k.1 (exec-IsClosed e s h.0 k.0 v)

  early-Found :
      (q : List A) (ws : List (WorkerPc A)) → All (λ pc. is_early pc ≡ true) ws → All (Found q) ws
  early-Found q [] h = tt
  early-Found q (pc ∷ ws) h = (early_one pc h.0, early-Found q ws h.1)
    where
      early_one : (pc : WorkerPc A) → is_early pc ≡ true → Found q pc
      early_one finished e f = absurd (cc)
      early_one testing e f = absurd (cc)
      early_one popping e f = absurd (cc)
      early_one (working a) e f = absurd (cc)
      early_one draining e f = absurd (cc)
      early_one (finishing a) e f = absurd (cc)

  stop-IsClosed : (s : Pool A) → IsOpen n s → IsClosed (pool_exec stops s)
  unfolding pool_exec
  stop-IsClosed s v = record {
    not_running = refl;
    found = early-Found s.queue s.workers v.early;
    sized = v.sized;
  }

module _ {ℓ} {A : Type ℓ} where
  -- All threads have returned.
  none_left :
      (p : A → Bool) (q : List A) (n : ℕ) (ws : List (WorkerPc A))
      → joined n ws ≡ ok true
      → length ws ≡ n
      → All (Found q) ws
      → (held p ws ≡ 0) × (1 ≤ n → q ≡ [])
  unfolding joined held
  none_left p q zero [] j e f = (refl, λ h. absurd (omega arith))
  none_left p q (suc n) [] j e f = absurd (omega arith)
  none_left p q zero (pc ∷ ws) j e f = absurd (omega arith)
  none_left p q (suc n) (finished ∷ ws) j e f =
      let (h, _) = none_left p q n ws j (omega arith) f.1 in (omega arith, λ _. f.0 refl)
  none_left p q (suc n) (testing ∷ ws) j e f = absurd (cc)
  none_left p q (suc n) (popping ∷ ws) j e f = absurd (cc)
  none_left p q (suc n) (working a ∷ ws) j e f = absurd (cc)
  none_left p q (suc n) (draining ∷ ws) j e f = absurd (cc)
  none_left p q (suc n) (finishing a ∷ ws) j e f = absurd (cc)

  no_submissions :
      (p : A → Bool) (es : List (PoolEvent A))
      → All (λ e. is_submit e ≡ false) es
      → count p (submissions es) ≡ 0
  unfolding submissions count
  no_submissions p [] h = refl
  no_submissions p (submits a g ∷ es) h = absurd (cc)
  no_submissions p (stops ∷ es) h = no_submissions p es h.1
  no_submissions p (works i x ∷ es) h = no_submissions p es h.1

  stop-everywhere : (p : A → Bool) (s : Pool A) → everywhere p (pool_exec stops s) ≡ everywhere p s
  unfolding pool_exec
  stop-everywhere p s = refl

  count-empty : (p : A → Bool) (q : List A) → q ≡ [] → count p q ≡ 0
  unfolding count
  count-empty p [] h = refl
  count-empty p (x ∷ q) h = absurd (cc)

-- A pool of at least one thread is started; whatever its threads and the callers of `submit` do, in any
-- order, then `stop` is called, nothing is submitted afterwards, and no `try_pop` afterwards is refused
-- while the push of the oldest element has not returned. If the joins of `stop` have returned,
-- then of the tasks of every kind those submitted are exactly those executed and those that
-- `submit` dropped.
pub stop-Drained :
    {A : Type 0} (capacity thread_num : ℕ) (s : Pool A) (es es' : List (PoolEvent A)) (p : A → Bool)
    → start_pool thread_num (new_pool capacity) ≡ ok s
    → 1 ≤ thread_num
    → All (λ e. is_stop e ≡ false) es
    → All (λ e. is_submit e ≡ false) es'
    → All (λ e. is_refused e ≡ false) es'
    → joined thread_num (pool_history es' (pool_exec stops (pool_history es s))).workers ≡ ok true
    → let s' = pool_history es' (pool_exec stops (pool_history es s)) in
      count p (submissions es) ≡ count p s'.executed + count p s'.dropped
stop-Drained {A} capacity thread_num s es es' p e one h h' k' j =
    let start : IsOpen thread_num s =
      subst (IsOpen thread_num) (start-fresh capacity thread_num s e)
        (fresh-IsOpen thread_num capacity) in
    let s1 = pool_history es s in
    let s2 = pool_history es' (pool_exec stops s1) in
    let v =
      history-IsClosed thread_num es' (pool_exec stops s1) h' k'
        (stop-IsClosed thread_num s1 (history-IsOpen thread_num es s h start)) in
    let (k, f) = none_left p s2.queue thread_num s2.workers j v.sized v.found in
    omega (
      arith,
      history-everywhere p es s,
      start-everywhere p capacity thread_num s e,
      stop-everywhere p s1,
      history-everywhere p es' (pool_exec stops s1),
      no_submissions p es' h',
      count-empty p s2.queue (f one),
      k,
    )
