-- ===== src/EventLoop/Acted.antt =====
-- src/EventLoop.cpp: what the functors that were called did to `quit`.
use learning_network.Prelude.{
  ℕ, ◌≡◌, refl, sym, ◌∙◌, subst, Bool, true, false, ◌||◌, if_intro, leb, List, [], ◌∷◌, ◌++◌, All,
  Any, inl, inr, none, some, length,
}
use learning_network.EventLoop.{
  Eventfd, Act, queues, quits, run_in_loop, queue_in_loop, quit_loop, CallerPc, calling, waking,
  returned, LoopPc, testing, polling, handling, draining, popping, running, left, Loop, Event, loop,
  caller, push_pending, pop_task, act, call_functor, act_each, push_from, caller_step,
  active_channels, poll, loop_step, exec, history, queue_size,
}

module _ {ℓ} {T : Type ℓ} {C : Type 0} (fd : Eventfd C) (acts : T → List (Act T)) where
  -- The functor ends the loop.
  abbrev is_quit : Act T → Bool
  is_quit (queues t) = false
  is_quit quits = true

  abbrev pub Quits : T → Type 0
  Quits t = Any (λ a. is_quit a ≡ true) (acts t)

  -- What the functors that were called have done to `quit`.
  abbrev pub HasActed : Loop T C → Type 0
  HasActed s = All (λ t. Quits t → s.quit ≡ true) s.ran

  abbrev Later : Loop T C → Loop T C → Type ℓ
  Later s s' = (s.quit ≡ true → s'.quit ≡ true) × (s'.ran ≡ s.ran)

  Later-HasActed : (s s' : Loop T C) → Later s s' → HasActed s → HasActed s'
  Later-HasActed s s' (q, r) h = subst (All (λ t. Quits t → s'.quit ≡ true)) (sym r) (each s.ran h)
    where
      each :
          (ts : List T)
          → All (λ t. Quits t → s.quit ≡ true) ts
          → All (λ t. Quits t → s'.quit ≡ true) ts
      each [] h = tt
      each (t ∷ ts) (f, h) = (λ a. q (f a), each ts h)

  act-Later : (a : Act T) (s : Loop T C) → Later s (act a s)
  unfolding act push_pending
  act-Later (queues t) s =
      if_intro (Later s) (leb queue_size (length s.pending)) (λ _. (λ q. q, refl))
        (λ _. (λ q. q, refl))
  act-Later quits s = (λ _. refl, refl)

  act_each-Later : (more : List (Act T)) (s : Loop T C) → Later s (act_each more s)
  unfolding act_each
  act_each-Later [] s = (λ q. q, refl)
  act_each-Later (a ∷ more) s =
      let (q, r) = act-Later a s in
      let (q', r') = act_each-Later more (act a s) in (λ x. q' (q x), r' ∙ r)

  act_each-quits :
      (more : List (Act T)) (s : Loop T C)
      → Any (λ a. is_quit a ≡ true) more
      → (act_each more s).quit ≡ true
  unfolding act_each act
  act_each-quits [] s x = absurd x
  act_each-quits (queues t ∷ more) s (inl e) = absurd (cc)
  act_each-quits (quits ∷ more) s (inl e) = (act_each-Later more (act quits s)).0 refl
  act_each-quits (a ∷ more) s (inr x) = act_each-quits more (act a s) x

  call_functor-HasActed : (t : T) (s : Loop T C) → HasActed s → HasActed (call_functor fd acts t s)
  unfolding call_functor
  call_functor-HasActed t s h =
      let s1 = record s { ran = s.ran ++ (t ∷ []) } in
      let (q, r) = act_each-Later (acts t) s1 in
      subst (All (λ u. Quits u → (act_each (acts t) s1).quit ≡ true)) (sym r) (each q s.ran h)
    where
      each :
          ((s.quit ≡ true) → (act_each (acts t) (record s { ran = s.ran ++ (t ∷ []) })).quit ≡ true)
          → (ts : List T) → All (λ u. Quits u → s.quit ≡ true) ts
          → All
              (λ u.
                Quits u → (act_each (acts t) (record s { ran = s.ran ++ (t ∷ []) })).quit ≡ true)
              (ts ++ (t ∷ []))
      each q [] h = (λ x. act_each-quits (acts t) (record s { ran = s.ran ++ (t ∷ []) }) x, tt)
      each q (u ∷ ts) (f, h) = (λ a. q (f a), each q ts h)

  push_from-Later :
      (i : ℕ) (gives_up : Bool) (t : T) (s : Loop T C) → Later s (push_from i gives_up t s)
  unfolding push_from
  push_from-Later i gives_up t s =
      if_intro (Later s) (leb queue_size (length s.pending))
        (λ _. if_intro (Later s) gives_up (λ _. (λ q. q, refl)) (λ _. (λ q. q, refl)))
        (λ _. (λ q. q, refl))

  caller-Later :
      (i : ℕ) (gives_up : Bool) (pc : CallerPc T) (s : Loop T C)
      → Later s (caller_step fd acts i gives_up pc s)
  unfolding caller_step
  caller-Later i gives_up (calling (run_in_loop t)) s = push_from-Later i gives_up t s
  caller-Later i gives_up (calling (queue_in_loop t)) s = push_from-Later i gives_up t s
  caller-Later i gives_up (calling quit_loop) s = (λ _. refl, refl)
  caller-Later i gives_up waking s = (λ q. q, refl)
  caller-Later i gives_up returned s = (λ q. q, refl)

  pop_task-Later : (ts : List T) (s : Loop T C) → Later s (pop_task ts s)
  unfolding pop_task
  pop_task-Later [] s = (λ q. q, refl)
  pop_task-Later (t ∷ ts) s = (λ q. q, refl)

  loop-HasActed :
      (before after : List T) (timed_out : Bool) (pc : LoopPc T) (s : Loop T C)
      → HasActed s
      → HasActed (loop_step fd acts before after timed_out pc s)
  unfolding loop_step poll
  loop-HasActed before after timed_out testing s h = if_intro HasActed s.quit (λ _. h) (λ _. h)
  loop-HasActed before after timed_out polling s h =
      if_intro HasActed
        (leb 1 (length (active_channels fd acts before after s.wakeup_fd)) || timed_out) (λ _. h)
        (λ _. h)
  loop-HasActed before after timed_out (handling []) s h = h
  loop-HasActed before after timed_out (handling (none ∷ active)) s h = h
  loop-HasActed before after timed_out (handling (some t ∷ active)) s h =
      Later-HasActed s (act_each (acts t) s) (act_each-Later (acts t) s) h
  loop-HasActed before after timed_out draining s h =
      if_intro HasActed (leb 1 (length s.pending)) (λ _. h) (λ _. h)
  loop-HasActed before after timed_out popping s h =
      Later-HasActed s (pop_task s.pending s) (pop_task-Later s.pending s) h
  loop-HasActed before after timed_out (running t) s h = call_functor-HasActed t s h
  loop-HasActed before after timed_out left s h = h

  exec-HasActed : (e : Event T) (s : Loop T C) → HasActed s → HasActed (exec fd acts e s)
  unfolding exec
  exec-HasActed (loop before after timed_out) s h = loop-HasActed before after timed_out s.pc s h
  exec-HasActed (caller i gives_up) s h =
      Later-HasActed s (caller_step fd acts i gives_up (s.callers i) s)
        (caller-Later i gives_up (s.callers i) s) h

  pub exec_each-HasActed :
      (es : List (Event T)) (s : Loop T C) → HasActed s → HasActed (history fd acts es s)
  unfolding history
  exec_each-HasActed [] s h = h
  exec_each-HasActed (e ∷ es) s h = exec_each-HasActed es (exec fd acts e s) (exec-HasActed e s h)
