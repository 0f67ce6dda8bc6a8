-- ===== src/EventLoop/Wakeup.antt =====
-- src/EventLoop.cpp: no functor waits for a loop that nobody wakes.
use learning_network.Prelude.{
  ℕ, ◌≡◌, ◌⊎◌, inl, inr, refl, sym, subst, arith, Bool, true, false, ◌||◌, if_intro, leb, List, [],
  ◌∷◌, none, some, length, assign_self,
}
use learning_network.EventLoop.{
  Eventfd, Act, Request, run_in_loop, queue_in_loop, quit_loop, CallerPc, calling, waking, returned,
  LoopPc, testing, polling, handling, draining, popping, running, left, Loop, Event, loop, caller,
  pop_task, push_from, caller_step, active_channels, poll, loop_step, exec, history, queue_size,
  fresh,
}

module _ {ℓ} {T : Type ℓ} {C : Type 0} (fd : Eventfd C) (acts : T → List (Act T)) where
  -- The loop is between two polls, with `Poll` ahead.
  abbrev pub Rests : LoopPc T → Type 0
  Rests testing = Unit
  Rests polling = Unit
  Rests pc = ⊥

  -- A queue that is not empty has the wakeup descriptor readable, or a call that will write to it.
  abbrev pub IsHeard : Loop T C → Type ℓ
  IsHeard s = (s.pending ≡ []) ⊎ (fd.ready s.wakeup_fd ≡ true) ⊎ ((i : ℕ) × (s.callers i ≡ waking))

  abbrev pub IsAwake : Loop T C → Type ℓ
  IsAwake s = Rests s.pc → IsHeard s

  push_from-IsAwake :
      (i : ℕ) (gives_up : Bool) (t : T) (s : Loop T C)
      → IsAwake s
      → IsAwake (push_from i gives_up t s)
  unfolding push_from
  push_from-IsAwake i gives_up t s h =
      if_intro IsAwake (leb queue_size (length s.pending))
        (λ _.
          if_intro IsAwake gives_up (λ _ r. inr (inr (i, assign_self i waking s.callers))) (λ _. h))
        (λ _ r. inr (inr (i, assign_self i waking s.callers)))

  caller-IsAwake :
      (i : ℕ) (gives_up : Bool) (pc : CallerPc T) (s : Loop T C)
      → IsAwake s
      → IsAwake (caller_step fd acts i gives_up pc s)
  unfolding caller_step
  caller-IsAwake i gives_up (calling (run_in_loop t)) s h = push_from-IsAwake i gives_up t s h
  caller-IsAwake i gives_up (calling (queue_in_loop t)) s h = push_from-IsAwake i gives_up t s h
  caller-IsAwake i gives_up (calling quit_loop) s h =
      λ r. inr (inr (i, assign_self i waking s.callers))
  caller-IsAwake i gives_up waking s h = λ r. inr (inl (fd.write_ready s.wakeup_fd))
  caller-IsAwake i gives_up returned s h = h

  no_element : (xs : List T) → leb 1 (length xs) ≡ false → xs ≡ []
  no_element [] e = refl
  no_element (x ∷ xs) e = absurd (ground arith)

  pop_task-IsAwake : (ts : List T) (s : Loop T C) → IsAwake (pop_task ts s)
  unfolding pop_task
  pop_task-IsAwake [] s = λ r. absurd r
  pop_task-IsAwake (t ∷ ts) s = λ r. absurd r

  loop-IsAwake :
      (before after : List T) (timed_out : Bool) (pc : LoopPc T) (s : Loop T C)
      → s.pc ≡ pc
      → IsAwake s
      → IsAwake (loop_step fd acts before after timed_out pc s)
  unfolding loop_step poll
  loop-IsAwake before after timed_out testing s e h =
      if_intro IsAwake s.quit (λ _ r. absurd r) (λ _ r. h (subst Rests (sym e) tt))
  loop-IsAwake before after timed_out polling s e h =
      if_intro IsAwake
        (leb 1 (length (active_channels fd acts before after s.wakeup_fd)) || timed_out)
        (λ _ r. absurd r) (λ _. h)
  loop-IsAwake before after timed_out (handling []) s e h = λ r. absurd r
  loop-IsAwake before after timed_out (handling (none ∷ active)) s e h = λ r. absurd r
  loop-IsAwake before after timed_out (handling (some t ∷ active)) s e h = λ r. absurd r
  loop-IsAwake before after timed_out draining s e h =
      if_intro IsAwake (leb 1 (length s.pending)) (λ _ r. absurd r)
        (λ f r. inl (no_element s.pending f))
  loop-IsAwake before after timed_out popping s e h = pop_task-IsAwake s.pending s
  loop-IsAwake before after timed_out (running t) s e h = λ r. absurd r
  loop-IsAwake before after timed_out left s e h = h

  exec-IsAwake : (e : Event T) (s : Loop T C) → IsAwake s → IsAwake (exec fd acts e s)
  unfolding exec
  exec-IsAwake (loop before after timed_out) s h = loop-IsAwake before after timed_out s.pc s refl h
  exec-IsAwake (caller i gives_up) s h = caller-IsAwake i gives_up (s.callers i) s h

  history-IsAwake :
      (es : List (Event T)) (s : Loop T C) → IsAwake s → IsAwake (history fd acts es s)
  unfolding history
  history-IsAwake [] s h = h
  history-IsAwake (e ∷ es) s h = history-IsAwake es (exec fd acts e s) (exec-IsAwake e s h)

  -- In every interleaving of the loop's thread with calls from other threads, from the constructor on:
  -- whenever the loop is about to poll or polls, no functor is queued, or the wakeup descriptor is
  -- readable, or a call that is under way has yet to write to it.
  pub history-IsHeard :
      (c : C) (requests : ℕ → Request T) (es : List (Event T))
      → Rests (history fd acts es (fresh c requests)).pc
      → IsHeard (history fd acts es (fresh c requests))
  unfolding fresh
  history-IsHeard c requests es r = history-IsAwake es (fresh c requests) (λ _. inl refl) r
