-- ===== src/EventLoop/Tests.antt =====
-- Concrete runs of the loop of src/EventLoop.cpp, and its properties at concrete inputs.
use learning_network.Prelude.{
  ℕ, suc, ◌+◌, ◌*◌, ◌≡◌, ◌≢◌, length, All, refl, arith, ◌==◌, true, false, not, List, [], ◌∷◌, ◌++◌,
  replicate, if◌then◌else◌,
}
use learning_network.EventLoop.{
  Eventfd, Act, queues, quits, Request, queue_in_loop, Event, caller, Loop, LoopPc, CallerPc, exec,
  history, fresh, loop_step, caller_step, push_from, push_pending, pop_task, act, act_each,
  call_functor, poll, active_channels,
}
use learning_network.EventLoop.Wakeup.{Rests, IsHeard, history-IsHeard}
use learning_network.EventLoop.Acted.{HasActed}
use learning_network.EventLoop.Order.{InOrder, history-InOrder}
use learning_network.EventLoop.Drain.{on_its_own, polling_runs}

suc_ready : (c : ℕ) → not (suc c == 0) ≡ true
suc_ready c = ground arith

-- A counter.
abbrev counter : Eventfd ℕ
counter = record {
  ready = λ c. not (c == 0);
  write = λ c. suc c;
  read = λ c. 0;
  write_ready = suc_ready;
}

-- Functor 0 queues itself, functor 1 ends the loop.
abbrev acts : ℕ → List (Act ℕ)
acts t = if t == 0 then queues 0 ∷ [] else if t == 1 then quits ∷ [] else []

abbrev requests : ℕ → Request ℕ
requests i = queue_in_loop (i + 2)

-- The loop polls, and call 0 queues functor 2 and wakes it.
abbrev woken_up : List (Event ℕ)
woken_up = on_its_own counter acts ∷ caller 0 false ∷ caller 0 false ∷ []

runs_two :
    (history counter acts
      (woken_up ++ replicate 6 (on_its_own counter acts))
      (fresh 0 requests)).ran
    ≡ 2 ∷ []
unfolding history exec fresh loop_step caller_step push_from push_pending pop_task act act_each
    call_functor poll active_channels
runs_two = refl

-- Call 0 has queued its functor, and has not yet written to the descriptor.
abbrev pushed_only : List (Event ℕ)
pushed_only = on_its_own counter acts ∷ caller 0 false ∷ []

pushed_only-Rests : Rests counter acts (history counter acts pushed_only (fresh 0 requests)).pc
unfolding history exec fresh loop_step caller_step push_from
pushed_only-Rests = tt

history-IsHeard_example : IsHeard counter acts (history counter acts pushed_only (fresh 0 requests))
history-IsHeard_example = history-IsHeard counter acts 0 requests pushed_only pushed_only-Rests

history-InOrder_example :
    InOrder (history counter acts woken_up (fresh 0 requests))
    × HasActed counter acts (history counter acts woken_up (fresh 0 requests))
history-InOrder_example = history-InOrder counter acts 0 requests woken_up

abbrev after_wakeup : Loop ℕ ℕ
after_wakeup = history counter acts woken_up (fresh 0 requests)

polls : after_wakeup.pc ≡ LoopPc.polling
unfolding history exec fresh loop_step caller_step push_from
polls = refl

all_back : (i : ℕ) → after_wakeup.callers i ≢ CallerPc.waking
unfolding history exec fresh loop_step caller_step push_from
all_back i e = ground arith

waiting : after_wakeup.pending ≡ 2 ∷ []
unfolding history exec fresh loop_step caller_step push_from
waiting = refl

quiet : All (λ t. acts t ≡ []) after_wakeup.pending
unfolding history exec fresh loop_step caller_step push_from
quiet = (refl, tt)

polling_runs_example :
    ((history counter acts
        (replicate (4 + 3 * length after_wakeup.pending) (on_its_own counter acts))
        after_wakeup).ran
      ≡ after_wakeup.ran ++ after_wakeup.pending)
    × ((history counter acts
          (replicate (4 + 3 * length after_wakeup.pending) (on_its_own counter acts))
          after_wakeup).pending
        ≡ [])
polling_runs_example = polling_runs counter acts 0 requests woken_up polls all_back quiet
