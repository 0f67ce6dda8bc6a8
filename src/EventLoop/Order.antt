-- ===== src/EventLoop/Order.antt =====
-- src/EventLoop.cpp: the order of the functors.
use learning_network.Prelude.{
  ℕ, ◌≤◌, ◌≡◌, refl, sym, ◌∙◌, subst, ap, arith, Bool, false, ◌||◌, if_intro, leb, List, [], ◌∷◌,
  ◌++◌, append_assoc, none, some, length, length-append,
}
use learning_network.EventLoop.{
  Eventfd, Act, queues, quits, Request, run_in_loop, queue_in_loop, quit_loop, CallerPc, calling,
  waking, returned, LoopPc, testing, polling, handling, draining, popping, running, left, Loop,
  Event, loop, caller, push_pending, pop_task, act, call_functor, act_each, push_from, caller_step,
  active_channels, poll, loop_step, exec, history, queue_size, fresh,
}
use learning_network.EventLoop.Acted.{HasActed, exec_each-HasActed}

-- The functor that was taken and not called.
abbrev pub current {ℓ} : {T : Type ℓ} → LoopPc T → List T
current (running t) = t ∷ []
current pc = []

taken_behind {ℓ} :
    {T : Type ℓ} (queued ran now pending : List T) (t : T)
    → queued ≡ ran ++ (now ++ pending)
    → leb queue_size (length pending) ≡ false
    → (queued ++ (t ∷ []) ≡ ran ++ (now ++ (pending ++ (t ∷ []))))
      × (length (pending ++ (t ∷ [])) ≤ queue_size)
taken_behind queued ran now pending t e f = (
  ap (λ xs. xs ++ (t ∷ [])) e
      ∙ append_assoc ran (now ++ pending) (t ∷ [])
      ∙ ap (◌++◌ ran) (append_assoc now pending (t ∷ [])),
  rw (length-append pending (t ∷ [])) (ground arith),
)

module _ {ℓ} {T : Type ℓ} {C : Type 0} where
  -- What was called, what is about to be and what the queue has left is what it took, in order; and it
  -- is within its size.
  abbrev OrderedBy : List T → Loop T C → Type ℓ
  OrderedBy now s = (s.queued ≡ s.ran ++ (now ++ s.pending)) × (length s.pending ≤ queue_size)

  abbrev pub InOrder : Loop T C → Type ℓ
  InOrder s = OrderedBy (current s.pc) s

  push_pending-OrderedBy :
      (t : T) (now : List T) (s : Loop T C) → OrderedBy now s → OrderedBy now (push_pending t s)
  unfolding push_pending
  push_pending-OrderedBy t now s h =
      if_intro (OrderedBy now) (leb queue_size (length s.pending)) (λ _. h)
        (taken_behind s.queued s.ran now s.pending t h.0)

  act-OrderedBy :
      (a : Act T) (now : List T) (s : Loop T C) → OrderedBy now s → OrderedBy now (act a s)
  unfolding act
  act-OrderedBy (queues t) now s h = push_pending-OrderedBy t now s h
  act-OrderedBy quits now s h = h

  act_each-OrderedBy :
      (more : List (Act T)) (now : List T) (s : Loop T C)
      → OrderedBy now s
      → OrderedBy now (act_each more s)
  unfolding act_each
  act_each-OrderedBy [] now s h = h
  act_each-OrderedBy (a ∷ more) now s h =
      act_each-OrderedBy more now (act a s) (act-OrderedBy a now s h)

  push_from-InOrder :
      (i : ℕ) (gives_up : Bool) (t : T) (s : Loop T C)
      → InOrder s
      → InOrder (push_from i gives_up t s)
  unfolding push_from
  push_from-InOrder i gives_up t s h =
      if_intro InOrder (leb queue_size (length s.pending))
        (λ _. if_intro InOrder gives_up (λ _. h) (λ _. h))
        (taken_behind s.queued s.ran (current s.pc) s.pending t h.0)

  pop_task-InOrder :
      (ts : List T) (s : Loop T C) → s.pending ≡ ts → OrderedBy [] s → InOrder (pop_task ts s)
  unfolding pop_task
  pop_task-InOrder [] s e h = h
  pop_task-InOrder (t ∷ ts) s e h =
      (h.0 ∙ ap (λ xs. s.ran ++ xs) e, omega (arith, h.1, ap length e))

module _ {ℓ} {T : Type ℓ} {C : Type 0} (fd : Eventfd C) (acts : T → List (Act T)) where
  caller-InOrder :
      (i : ℕ) (gives_up : Bool) (pc : CallerPc T) (s : Loop T C)
      → InOrder s
      → InOrder (caller_step fd acts i gives_up pc s)
  unfolding caller_step
  caller-InOrder i gives_up (calling (run_in_loop t)) s h = push_from-InOrder i gives_up t s h
  caller-InOrder i gives_up (calling (queue_in_loop t)) s h = push_from-InOrder i gives_up t s h
  caller-InOrder i gives_up (calling quit_loop) s h = h
  caller-InOrder i gives_up waking s h = h
  caller-InOrder i gives_up returned s h = h

  loop-InOrder :
      (before after : List T) (timed_out : Bool) (pc : LoopPc T) (s : Loop T C)
      → s.pc ≡ pc
      → OrderedBy (current pc) s
      → InOrder (loop_step fd acts before after timed_out pc s)
  unfolding loop_step poll call_functor
  loop-InOrder before after timed_out testing s e h = if_intro InOrder s.quit (λ _. h) (λ _. h)
  loop-InOrder before after timed_out polling s e h =
      if_intro InOrder
        (leb 1 (length (active_channels fd acts before after s.wakeup_fd)) || timed_out) (λ _. h)
        (λ _. subst (λ c. OrderedBy (current c) s) (sym e) h)
  loop-InOrder before after timed_out (handling []) s e h = h
  loop-InOrder before after timed_out (handling (none ∷ active)) s e h = h
  loop-InOrder before after timed_out (handling (some t ∷ active)) s e h =
      act_each-OrderedBy (acts t) [] s h
  loop-InOrder before after timed_out draining s e h =
      if_intro InOrder (leb 1 (length s.pending)) (λ _. h) (λ _. h)
  loop-InOrder before after timed_out popping s e h = pop_task-InOrder s.pending s refl h
  loop-InOrder before after timed_out (running t) s e h =
      act_each-OrderedBy (acts t) [] (record s { ran = s.ran ++ (t ∷ []) })
        (h.0 ∙ sym (append_assoc s.ran (t ∷ []) s.pending), h.1)
  loop-InOrder before after timed_out left s e h = subst (λ c. OrderedBy (current c) s) (sym e) h

  exec-InOrder : (e : Event T) (s : Loop T C) → InOrder s → InOrder (exec fd acts e s)
  unfolding exec
  exec-InOrder (loop before after timed_out) s h = loop-InOrder before after timed_out s.pc s refl h
  exec-InOrder (caller i gives_up) s h = caller-InOrder i gives_up (s.callers i) s h

  exec_each-InOrder :
      (es : List (Event T)) (s : Loop T C) → InOrder s → InOrder (history fd acts es s)
  unfolding history
  exec_each-InOrder [] s h = h
  exec_each-InOrder (e ∷ es) s h = exec_each-InOrder es (exec fd acts e s) (exec-InOrder e s h)

  -- In every interleaving, from the constructor on: the functors that were called, then the one that was
  -- taken and is about to be called, if any, then those that wait, are the functors that the queue
  -- took, in the order in which it took them; none is called twice, skipped or overtaken. At most
  -- 1024 wait. And when a functor that ends the loop was called, `quit` is set.
  pub history-InOrder :
      (c : C) (requests : ℕ → Request T) (es : List (Event T))
      → let s = history fd acts es (fresh c requests) in InOrder s × HasActed fd acts s
  unfolding fresh
  history-InOrder c requests es = (
    exec_each-InOrder es (fresh c requests) (refl, omega arith),
    exec_each-HasActed fd acts es (fresh c requests) tt,
  )
