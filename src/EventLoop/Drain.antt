-- ===== src/EventLoop/Drain.antt =====
-- src/EventLoop.cpp: a loop that goes on by itself runs what is queued.
use learning_network.Prelude.{
  ℕ, zero, suc, ◌+◌, ◌*◌, ◌≡◌, ◌≢◌, inl, inr, refl, sym, subst, ◌∙◌, ap, arith, Bool, Bool-cases,
  true, false, le→leb, List, [], ◌∷◌, ◌++◌, append_assoc, append-nil, All, replicate, none, length,
}
use learning_network.EventLoop.{
  Eventfd, Act, queues, Request, CallerPc, waking, LoopPc, polling, handling, draining, popping,
  running, Loop, Event, loop, push_pending, pop_task, act, act_each, call_functor, active_channels,
  poll, loop_step, exec, history, fresh,
}
use learning_network.EventLoop.Wakeup.{Rests, history-IsHeard}

-- The accesses of a turn from the test of the queue on: a test, a `try_pop` and a call for each
-- functor, and the last test.
abbrev drain_steps {ℓ} : {T : Type ℓ} → List T → ℕ
drain_steps [] = 1
drain_steps (t ∷ ts) = suc (suc (suc (drain_steps ts)))

drain_steps_lem {ℓ} : {T : Type ℓ} (ts : List T) → drain_steps ts ≡ 1 + 3 * length ts
drain_steps_lem [] = refl
drain_steps_lem (t ∷ ts) = omega (arith, drain_steps_lem ts)

-- `n` turns of three accesses.
abbrev thrice : ℕ → ℕ
thrice zero = 0
thrice (suc n) = suc (suc (suc (thrice n)))

thrice_lem : (n : ℕ) → thrice n ≡ 3 * n
thrice_lem zero = refl
thrice_lem (suc n) = omega (arith, thrice_lem n)

module _ {ℓ} {T : Type ℓ} {C : Type 0} (fd : Eventfd C) (acts : T → List (Act T)) where
  -- The loop's thread goes on, and no channel but the wakeup channel is ready.
  abbrev pub on_its_own : Event T
  on_its_own = loop [] [] false

  -- All of `ts` has been run.
  abbrev HasRun : List T → Loop T C → Loop T C → Type ℓ
  HasRun ts s s' = (s'.ran ≡ s.ran ++ ts) × (s'.pending ≡ [])

  go_on : ℕ → Loop T C → Loop T C
  go_on k s = history fd acts (replicate k on_its_own) s

  go_on-suc :
      (k : ℕ) (s s' : Loop T C) → exec fd acts on_its_own s ≡ s' → go_on (suc k) s ≡ go_on k s'
  unfolding go_on history
  go_on-suc k s s' e = ap (go_on k) e

  -- The loop's thread at `pc`, with `pending` to run.
  abbrev at_place : LoopPc T → List T → C → Bool → List T → List T → (ℕ → CallerPc T) → Loop T C
  at_place pc pending c quit queued ran callers = record {
    pending = pending;
    wakeup_fd = c;
    quit = quit;
    pc = pc;
    queued = queued;
    ran = ran;
    callers = callers;
  }

  test_step :
      (t : T) (ts : List T) (c : C) (quit : Bool) (queued ran : List T) (callers : ℕ → CallerPc T)
      → exec fd acts on_its_own (at_place draining (t ∷ ts) c quit queued ran callers)
        ≡ at_place popping (t ∷ ts) c quit queued ran callers
  unfolding exec loop_step
  test_step t ts c quit queued ran callers = rw (le→leb 1 (suc (length ts)) (omega arith)) refl

  pop_step :
      (t : T) (ts : List T) (c : C) (quit : Bool) (queued ran : List T) (callers : ℕ → CallerPc T)
      → exec fd acts on_its_own (at_place popping (t ∷ ts) c quit queued ran callers)
        ≡ at_place (running t) ts c quit queued ran callers
  unfolding exec loop_step pop_task
  pop_step t ts c quit queued ran callers = refl

  run_step :
      (t : T) (ts : List T) (c : C) (quit : Bool) (queued ran : List T) (callers : ℕ → CallerPc T)
      → acts t ≡ []
      → exec fd acts on_its_own (at_place (running t) ts c quit queued ran callers)
        ≡ at_place draining ts c quit queued (ran ++ (t ∷ [])) callers
  unfolding exec loop_step call_functor act_each
  run_step t ts c quit queued ran callers q = rw q refl

  drain-nil :
      (c : C) (quit : Bool) (queued ran : List T) (callers : ℕ → CallerPc T)
      → let s = at_place draining [] c quit queued ran callers in HasRun [] s (go_on 1 s)
  unfolding go_on history exec loop_step
  drain-nil c quit queued ran callers = (sym (append-nil ran), refl)

  drain :
      (ts : List T) (c : C) (quit : Bool) (queued ran : List T) (callers : ℕ → CallerPc T)
      → All (λ t. acts t ≡ []) ts
      → let s = at_place draining ts c quit queued ran callers in
        HasRun ts s (go_on (drain_steps ts) s)
  drain [] c quit queued ran callers h = drain-nil c quit queued ran callers
  drain (t ∷ ts) c quit queued ran callers (q, h) =
      let k = drain_steps ts in
      let (a, b) = drain ts c quit queued (ran ++ (t ∷ [])) callers h in
      subst (HasRun (t ∷ ts) (at_place draining (t ∷ ts) c quit queued ran callers))
        (sym (
          go_on-suc (suc (suc k)) _ _ (test_step t ts c quit queued ran callers)
          ∙ go_on-suc (suc k) _ _ (pop_step t ts c quit queued ran callers)
          ∙ go_on-suc k _ _ (run_step t ts c quit queued ran callers q)))
        (a ∙ append_assoc ran (t ∷ []) ts, b)

  poll_step :
      (ts : List T) (c : C) (quit : Bool) (queued ran : List T) (callers : ℕ → CallerPc T)
      → fd.ready c ≡ true
      → exec fd acts on_its_own (at_place polling ts c quit queued ran callers)
        ≡ at_place (handling (none ∷ [])) ts c quit queued ran callers
  unfolding exec loop_step poll active_channels
  poll_step ts c quit queued ran callers e = rw e refl

  blocked_step :
      (ts : List T) (c : C) (quit : Bool) (queued ran : List T) (callers : ℕ → CallerPc T)
      → fd.ready c ≡ false
      → exec fd acts on_its_own (at_place polling ts c quit queued ran callers)
        ≡ at_place polling ts c quit queued ran callers
  unfolding exec loop_step poll active_channels
  blocked_step ts c quit queued ran callers e = rw e refl

  read_step :
      (ts : List T) (c : C) (quit : Bool) (queued ran : List T) (callers : ℕ → CallerPc T)
      → exec fd acts on_its_own (at_place (handling (none ∷ [])) ts c quit queued ran callers)
        ≡ at_place (handling []) ts (fd.read c) quit queued ran callers
  unfolding exec loop_step
  read_step ts c quit queued ran callers = refl

  handled_step :
      (ts : List T) (c : C) (quit : Bool) (queued ran : List T) (callers : ℕ → CallerPc T)
      → exec fd acts on_its_own (at_place (handling []) ts c quit queued ran callers)
        ≡ at_place draining ts c quit queued ran callers
  unfolding exec loop_step
  handled_step ts c quit queued ran callers = refl

  -- From `Poll` on, with the wakeup descriptor readable.
  woken :
      (ts : List T) (c : C) (quit : Bool) (queued ran : List T) (callers : ℕ → CallerPc T)
      → All (λ t. acts t ≡ []) ts
      → fd.ready c ≡ true
      → let s = at_place polling ts c quit queued ran callers in
        HasRun ts s (go_on (suc (suc (suc (drain_steps ts)))) s)
  woken ts c quit queued ran callers h e =
      let k = drain_steps ts in
      subst (HasRun ts (at_place polling ts c quit queued ran callers))
        (sym (
          go_on-suc (suc (suc k)) _ _ (poll_step ts c quit queued ran callers e)
          ∙ go_on-suc (suc k) _ _ (read_step ts c quit queued ran callers)
          ∙ go_on-suc k _ _ (handled_step ts (fd.read c) quit queued ran callers)))
        (drain ts (fd.read c) quit queued ran callers h)

  blocked :
      (k : ℕ) (ts : List T) (c : C) (quit : Bool) (queued ran : List T) (callers : ℕ → CallerPc T)
      → fd.ready c ≡ false
      → let s = at_place polling ts c quit queued ran callers in go_on k s ≡ s
  unfolding go_on history
  blocked zero ts c quit queued ran callers e = refl
  blocked (suc k) ts c quit queued ran callers e =
      ap (go_on k) (blocked_step ts c quit queued ran callers e)
      ∙ blocked k ts c quit queued ran callers e

  runs_polling :
      (s : Loop T C)
      → s.pc ≡ polling
      → All (λ t. acts t ≡ []) s.pending
      → (fd.ready s.wakeup_fd ≡ false → s.pending ≡ [])
      → HasRun s.pending s (go_on (4 + 3 * length s.pending) s)
  runs_polling s p h idle =
      let k : ℕ = 4 + 3 * length s.pending in
      let steps : suc (suc (suc (drain_steps s.pending))) ≡ k =
        omega (arith, drain_steps_lem s.pending) in
      let here : s ≡ at_place polling s.pending s.wakeup_fd s.quit s.queued s.ran s.callers =
        ap (λ pc. at_place pc s.pending s.wakeup_fd s.quit s.queued s.ran s.callers) p in
      subst (λ x. HasRun s.pending s (go_on k x)) (sym here)
        (elim (Bool-cases (fd.ready s.wakeup_fd)) [
          | inl r ↦
              subst
                (λ x. HasRun s.pending s (
                  go_on x (at_place polling s.pending s.wakeup_fd s.quit s.queued s.ran s.callers)))
                steps (woken s.pending s.wakeup_fd s.quit s.queued s.ran s.callers h r)
          | inr f ↦
              subst (HasRun s.pending s)
                (sym (blocked k s.pending s.wakeup_fd s.quit s.queued s.ran s.callers f))
                (sym (append-nil s.ran) ∙ ap (λ xs. s.ran ++ xs) (sym (idle f)), idle f)
        ])

  -- In every state that an interleaving leads to, from the constructor on, in which the loop polls and
  -- no call is between its push and its write to the wakeup descriptor: if the functors that wait do
  -- nothing to the loop, then the loop by itself, with no event and no timeout, has run them all, in
  -- order, after four accesses and three for each of them.
  pub polling_runs :
      (c : C) (requests : ℕ → Request T) (es : List (Event T))
      → let s = history fd acts es (fresh c requests) in
        s.pc ≡ polling
        → ((i : ℕ) → s.callers i ≢ waking)
        → All (λ t. acts t ≡ []) s.pending
        → let s' = history fd acts (replicate (4 + 3 * length s.pending) on_its_own) s in
          (s'.ran ≡ s.ran ++ s.pending) × (s'.pending ≡ [])
  unfolding go_on
  polling_runs c requests es p w h = runs_polling (history fd acts es (fresh c requests)) p h (λ e.
      elim (history-IsHeard fd acts c requests es (subst (Rests fd acts) (sym p) tt)) [
        | inl none_left ↦ none_left
        | inr (inl r) ↦ absurd (ground (arith, e, r))
        | inr (inr (i, x)) ↦ absurd (w i x)
      ])

  requeue_step :
      (t : T) (c : C) (quit : Bool) (queued ran : List T) (callers : ℕ → CallerPc T)
      → acts t ≡ queues t ∷ []
      → exec fd acts on_its_own (at_place (running t) [] c quit queued ran callers)
        ≡ at_place draining (t ∷ []) c quit (queued ++ (t ∷ [])) (ran ++ (t ∷ [])) callers
  unfolding exec loop_step call_functor act_each act push_pending
  requeue_step t c quit queued ran callers q = rw q refl

  IsStuck : T → Loop T C → Type ℓ
  IsStuck t s = (s.pc ≡ draining) × (s.pending ≡ t ∷ [])

  requeues :
      (t : T)
      → acts t ≡ queues t ∷ []
      → (n : ℕ) (c : C) (quit : Bool) (queued ran : List T) (callers : ℕ → CallerPc T)
      → IsStuck t (go_on (thrice n) (at_place draining (t ∷ []) c quit queued ran callers))
  unfolding IsStuck go_on history
  requeues t q zero c quit queued ran callers = (refl, refl)
  requeues t q (suc n) c quit queued ran callers =
      let k = thrice n in
      subst (IsStuck t)
        (sym (
          go_on-suc (suc (suc k)) _ _ (test_step t [] c quit queued ran callers)
          ∙ go_on-suc (suc k) _ _ (pop_step t [] c quit queued ran callers)
          ∙ go_on-suc k _ _ (requeue_step t c quit queued ran callers q)))
        (requeues t q n c quit (queued ++ (t ∷ [])) (ran ++ (t ∷ [])) callers)

  -- A functor that queues itself again keeps the loop from its next poll for ever, and from the test of
  -- `quit`: after every number of turns the loop is at the test of the queue with that functor in it,
  -- as long as other threads queue nothing.
  pub requeue_spins :
      (s : Loop T C) (t : T) (n : ℕ)
      → s.pc ≡ draining
      → s.pending ≡ t ∷ []
      → acts t ≡ queues t ∷ []
      → let s' = history fd acts (replicate (3 * n) on_its_own) s in
        (s'.pc ≡ draining) × (s'.pending ≡ t ∷ [])
  unfolding IsStuck go_on
  requeue_spins s t n p w q =
      let here : s ≡ at_place draining (t ∷ []) s.wakeup_fd s.quit s.queued s.ran s.callers =
        ap (λ pc. at_place pc s.pending s.wakeup_fd s.quit s.queued s.ran s.callers) p
        ∙ ap (λ ts. at_place draining ts s.wakeup_fd s.quit s.queued s.ran s.callers) w in
      subst (λ x. IsStuck t (go_on x s)) (thrice_lem n)
        (subst (λ x. IsStuck t (go_on (thrice n) x)) (sym here)
          (requeues t q n s.wakeup_fd s.quit s.queued s.ran s.callers))
