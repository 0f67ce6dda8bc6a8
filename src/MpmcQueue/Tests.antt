-- ===== src/MpmcQueue/Tests.antt =====
-- Concrete runs of the ring of src/helpers/queue.h, and its properties at concrete inputs.
use learning_network.Prelude.{
  ℕ, ◌≤◌, ◌≡◌, refl, arith, ◌==◌, Bool, false, if◌then◌else◌, List, ◌++◌, map, length, replicate,
}
use learning_network.MpmcQueue.{init, access, exec, history, Pc, push_full, popped}
use learning_network.MpmcQueue.Fifo.{FifoRun, abstract}
use learning_network.MpmcQueue.Runs.{
  Call, try_push, try_pop, start, Returned, empty_queue, history_refines,
}
use learning_network.MpmcQueue.Alone.{alone_returns}
use learning_network.MpmcQueue.Retry.{retry, push, succeeded, gave_up}

-- Call 1 pops, and the others push their own number.
abbrev calls : ℕ → Call ℕ
calls i = if i == 1 then try_pop else try_push i

-- Call 0 claims its position and is overtaken by call 2; call 1 finds the head still unwritten.
abbrev overtaken : List (ℕ × Bool)
overtaken = replicate 3 (0, false) ++ replicate 5 (2, false)

pop_waits :
    (history 2 (overtaken ++ replicate 5 (1, false)) (start 9 calls)).threads 1 ≡ Pc.pop_empty
unfolding history exec access init
pop_waits = refl

ring_is_full :
    (history 2 (overtaken ++ replicate 5 (3, false)) (start 9 calls)).threads 3 ≡ push_full 3
unfolding history exec access init
ring_is_full = refl

pop_first :
    (history 2
        (overtaken ++ replicate 2 (0, false) ++ replicate 5 (1, false))
        (start 9 calls)).threads
      1
    ≡ popped 0
unfolding history exec access init
pop_first = refl

history_refines_example :
    (log : ℕ → ℕ) × FifoRun 2 (map (λ e. e.0) overtaken) (empty_queue calls) (
      abstract log
        (history 2 overtaken (start 9 calls)).ring
        (history 2 overtaken (start 9 calls)).threads)
    × (length
          (abstract log
            (history 2 overtaken (start 9 calls)).ring
            (history 2 overtaken (start 9 calls)).threads).queue
        ≤ 2)
history_refines_example = history_refines 2 9 calls overtaken (omega arith) (omega arith)

not_begun : (history 2 overtaken (start 9 calls)).threads 1 ≡ Pc.pop_start
unfolding history exec access init
not_begun = refl

alone_returns_example :
    Returned (calls 1) ((history 2 (overtaken ++ replicate 5 (1, false)) (start 9 calls)).threads 1)
alone_returns_example = alone_returns 2 9 calls overtaken 1 (omega arith) (omega arith) not_begun

gives_up : push (λ k. false) ≡ gave_up 322
unfolding push retry
gives_up = refl

third : push (λ k. k == 2) ≡ succeeded 2
unfolding push retry
third = refl
