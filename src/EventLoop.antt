-- ===== src/EventLoop.antt =====
-- src/EventLoop.cpp: the turns of a loop and the functors that its own and other threads queue, in any
-- interleaving. An event is one access of the loop's thread or of a call from another thread.
pub mod Wakeup
pub mod Acted
pub mod Order
pub mod Drain
pub mod Tests
use learning_network.Prelude.{
  ℕ, ◌≡◌, ◌==◌, Bool, true, false, ◌||◌, not, if◌then◌else◌, leb, List, [], ◌∷◌, ◌++◌, map, Option,
  none, some, length, assign,
}

-- The descriptor that `eventfd` gave: the kernel's. A write leaves it readable, also when it fails
-- because the counter is full.
pub record Eventfd (C : Type 0) : Type 0 where
  pub ready : C → Bool
  pub write : C → C
  pub read : C → C
  pub write_ready : (c : C) → ready (write c) ≡ true

-- `pendingFunctors(1024)`
abbrev pub queue_size : ℕ
queue_size = 1024

-- What a functor or a callback of a channel does to the loop.
pub data Act {ℓ} (T : Type ℓ) : Type ℓ where
  queues : T → Act T
  quits : Act T

-- A call from another thread, and where it is: before its first access, before `wakeup`, or back.
pub data Request {ℓ} (T : Type ℓ) : Type ℓ where
  run_in_loop : T → Request T
  queue_in_loop : T → Request T
  quit_loop : Request T

pub data CallerPc {ℓ} (T : Type ℓ) : Type ℓ where
  calling : Request T → CallerPc T
  waking : CallerPc T
  returned : CallerPc T

-- Where the loop's thread is in `Loop`: at the test of `quit`, in `Poll`, with the active channels that
-- are left (the wakeup channel is `none`), at the test of `pendingFunctors.empty()`, before `try_pop`,
-- before the call of the functor, or behind the loop.
pub data LoopPc {ℓ} (T : Type ℓ) : Type ℓ where
  testing : LoopPc T
  polling : LoopPc T
  handling : List (Option T) → LoopPc T
  draining : LoopPc T
  popping : LoopPc T
  running : T → LoopPc T
  left : LoopPc T

-- `queued` and `ran` are the functors that the queue took and those that were called, from the start.
pub record Loop {ℓ} (T : Type ℓ) (C : Type 0) : Type ℓ where
  pub pending : List T
  pub wakeup_fd : C
  pub quit : Bool
  pub pc : LoopPc T
  pub queued : List T
  pub ran : List T
  pub callers : ℕ → CallerPc T

-- The loop's thread goes on, with what `Poll` returns: the channels ready before and after the wakeup
-- channel, or a timeout. Or call `i` goes on; its flag says whether `push` gives up on a full queue.
pub data Event {ℓ} (T : Type ℓ) : Type ℓ where
  loop : List T → List T → Bool → Event T
  caller : ℕ → Bool → Event T

module _ {ℓ} {T : Type ℓ} {C : Type 0} where
  -- `pendingFunctors.push`, in the loop's thread: nobody else takes elements.
  unfoldable pub push_pending : T → Loop T C → Loop T C
  push_pending t s =
      if leb queue_size (length s.pending)
      then s
      else record s { pending = s.pending ++ (t ∷ []); queued = s.queued ++ (t ∷ []) }

  -- `queueInLoop` and `quit_` in the loop's thread: without `wakeup`.
  unfoldable pub act : Act T → Loop T C → Loop T C
  act (queues t) s = push_pending t s
  act quits s = record s { quit = true }

  unfoldable pub act_each : List (Act T) → Loop T C → Loop T C
  act_each [] s = s
  act_each (a ∷ more) s = act_each more (act a s)

  -- `queueInLoop` up to `wakeup`, from another thread.
  unfoldable pub push_from : ℕ → Bool → T → Loop T C → Loop T C
  push_from i gives_up t s =
      if leb queue_size (length s.pending)
      then (if gives_up then record s { callers = assign i waking s.callers } else s)
      else record s {
        pending = s.pending ++ (t ∷ []);
        queued = s.queued ++ (t ∷ []);
        callers = assign i waking s.callers;
      }

  -- `try_pop`, on the elements that wait.
  unfoldable pub pop_task : List T → Loop T C → Loop T C
  pop_task [] s = record s { pc = draining }
  pop_task (t ∷ ts) s = record s { pending = ts; pc = running t }

  -- A loop that has been constructed, and the calls that other threads will make.
  unfoldable pub fresh : C → (ℕ → Request T) → Loop T C
  fresh c requests = record {
    pending = [];
    wakeup_fd = c;
    quit = false;
    pc = testing;
    queued = [];
    ran = [];
    callers = λ i. calling (requests i);
  }

module _ {ℓ} {T : Type ℓ} {C : Type 0} (fd : Eventfd C) (acts : T → List (Act T)) where
  unfoldable pub caller_step : ℕ → Bool → CallerPc T → Loop T C → Loop T C
  caller_step i gives_up (calling (run_in_loop t)) s = push_from i gives_up t s
  caller_step i gives_up (calling (queue_in_loop t)) s = push_from i gives_up t s
  caller_step i gives_up (calling quit_loop) s = record s {
    quit = true;
    callers = assign i waking s.callers;
  }
  caller_step i gives_up waking s = record s {
    wakeup_fd = fd.write s.wakeup_fd;
    callers = assign i returned s.callers;
  }
  caller_step i gives_up returned s = s

  -- The call of a functor.
  unfoldable pub call_functor : T → Loop T C → Loop T C
  call_functor t s = act_each (acts t) (record s { ran = s.ran ++ (t ∷ []) })

  -- What `epoll_wait` reports.
  unfoldable pub active_channels : List T → List T → C → List (Option T)
  active_channels before after c =
      map some before ++ (if fd.ready c then none ∷ [] else []) ++ map some after

  unfoldable pub poll : List T → List T → Bool → Loop T C → Loop T C
  poll before after timed_out s =
      let active = active_channels before after s.wakeup_fd in
      if leb 1 (length active) || timed_out then record s { pc = handling active } else s

  unfoldable pub loop_step : List T → List T → Bool → LoopPc T → Loop T C → Loop T C
  loop_step before after timed_out testing s =
      if s.quit then record s { pc = left } else record s { pc = polling }
  loop_step before after timed_out polling s = poll before after timed_out s
  loop_step before after timed_out (handling []) s = record s { pc = draining }
  loop_step before after timed_out (handling (none ∷ active)) s = record s {
    wakeup_fd = fd.read s.wakeup_fd;
    pc = handling active;
  }
  loop_step before after timed_out (handling (some t ∷ active)) s = record (act_each (acts t) s) {
    pc = handling active;
  }
  loop_step before after timed_out draining s =
      if leb 1 (length s.pending) then record s { pc = popping } else record s { pc = testing }
  loop_step before after timed_out popping s = pop_task s.pending s
  loop_step before after timed_out (running t) s = record (call_functor t s) { pc = draining }
  loop_step before after timed_out left s = s

  unfoldable pub exec : Event T → Loop T C → Loop T C
  exec (loop before after timed_out) s = loop_step before after timed_out s.pc s
  exec (caller i gives_up) s = caller_step i gives_up (s.callers i) s

  unfoldable pub history : List (Event T) → Loop T C → Loop T C
  history [] s = s
  history (e ∷ es) s = history es (exec e s)
