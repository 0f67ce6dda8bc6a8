-- ===== src/MpmcQueue/Runs.antt =====
-- The calls of src/helpers/queue.h, from an empty ring on: whatever the interleaving, they take their
-- effects one after another on the queue of Fifo.
use mathlib.Core.Path.{fun_ext}
use native.Mathlib.Nat.{mod-eq_of_lt}
use learning_network.Prelude.{
  ◌⊎◌, ℕ, ◌+◌, ◌-◌, ◌%◌, ◌^◌, ◌≤◌, ◌<◌, ◌≡◌, inl, refl, subst, arith, Bool, true, false, List, [],
  ◌∷◌, length, map,
}
use learning_network.MpmcQueue.{
  pushed, push_full, pop_empty, Ring, init, World, exec, history, Pc, push_start, pop_start, popped,
}
use learning_network.MpmcQueue.Invariant.{Owns, PcOk, IsSound}
use learning_network.MpmcQueue.Fifo.{
  Op, wants_push, wants_pop, Fifo, FifoRun, done, next, view, abstract, length-segment,
}
use learning_network.MpmcQueue.Owned.{IsOwned}
use learning_network.MpmcQueue.Refine.{access_lem}

module _ {ℓ} {A : Type ℓ} (n : ℕ) where
  -- The state that a history leads to is sound again, and the queue of Fifo has done its part.
  pub history_lem :
      (es : List (ℕ × Bool)) (log : ℕ → A) (w : World A)
      → IsSound n log w.ring w.threads
      → IsOwned n w.ring w.threads
      → w.ring.tail_pos + length es + n < 2 ^ 63
      → (log' : ℕ → A) × IsSound n log' (history n es w).ring (history n es w).threads
        × FifoRun n
            (map (λ e. e.0) es)
            (abstract log w.ring w.threads)
            (abstract log' (history n es w).ring (history n es w).threads)
  unfolding history exec
  history_lem [] log w s o small = (log, s, done _)
  history_lem (e ∷ es) log w s o small =
      let (log', step, sound, owned, moves) =
        access_lem n log w.ring w.threads e.0 e.1 (w.threads e.0) s o refl (omega (arith, small)) in
      let (log'', sound', run) =
        history_lem es log' (exec n e w) sound owned (omega (arith, small, step)) in
      (log'', sound', next _ _ _ _ _ moves run)

-- The calls that are made: what to push, or to pop.
pub data Call {ℓ} (A : Type ℓ) : Type ℓ where
  try_push : A → Call A
  try_pop : Call A

module _ {ℓ} {A : Type ℓ} where
  abbrev pub begin : Call A → Pc A
  begin (try_push v) = push_start v
  begin try_pop = pop_start

  abbrev pub wanted : Call A → Op A
  wanted (try_push v) = wants_push v
  wanted try_pop = wants_pop

  abbrev pub start : A → (ℕ → Call A) → World A
  start blank calls = record { ring = init blank; threads = λ i. begin (calls i) }

  -- The call is over.
  abbrev pub Returned : Call A → Pc A → Type ℓ
  Returned (try_push v) pc = (pc ≡ pushed) ⊎ (pc ≡ push_full v)
  Returned try_pop pc = ((x : A) × (pc ≡ popped x)) ⊎ (pc ≡ pop_empty)

  begin-PcOk : (n : ℕ) (log : ℕ → A) (q : Ring A) (c : Call A) → PcOk n log q (begin c)
  begin-PcOk n log q (try_push v) = tt
  begin-PcOk n log q try_pop = tt

  begin-Owns : (c : Call A) (k : Bool) (r : ℕ) → Owns k (begin c) r → ⊥
  begin-Owns (try_push v) true r o = o
  begin-Owns (try_push v) false r o = o
  begin-Owns try_pop true r o = o
  begin-Owns try_pop false r o = o

  view-begin : (log : ℕ → A) (c : Call A) → view log (begin c) ≡ wanted c
  view-begin log (try_push v) = refl
  view-begin log try_pop = refl

  pub start-IsSound :
      (n : ℕ) (blank : A) (calls : ℕ → Call A)
      → 2 ≤ n
      → n < 2 ^ 63
      → IsSound n (λ _. blank) (init blank) (λ i. begin (calls i))
  unfolding init
  start-IsSound n blank calls two few = record {
    two = two;
    few = omega (arith, few);
    ordered = omega arith;
    room = omega arith;
    filled = λ p a b. absurd (omega (arith, b));
    free = λ p a b. inl (mod-eq_of_lt (omega (arith, b)));
    places = λ i. begin-PcOk n (λ _. blank) (init blank) (calls i);
    unique = λ k i j r o _. absurd (begin-Owns (calls i) k r o);
  }

  start-IsOwned :
      (n : ℕ) (blank : A) (calls : ℕ → Call A)
      → 2 ≤ n
      → IsOwned n (init blank) (λ i. begin (calls i))
  unfolding init
  start-IsOwned n blank calls two = record {
    writers = λ p a b e. absurd (omega (arith, b));
    readers = λ p a b e.
        let same : p % n ≡ p = mod-eq_of_lt (omega (arith, b)) in
        absurd (omega (arith, e, same, two));
  }

  -- Every state that is reached is sound.
  pub reached-IsSound :
      (n : ℕ) (blank : A) (calls : ℕ → Call A) (es : List (ℕ × Bool))
      → 2 ≤ n
      → length es + n < 2 ^ 63
      → (log : ℕ → A) × IsSound n log
          (history n es (start blank calls)).ring
          (history n es (start blank calls)).threads
  unfolding init
  reached-IsSound n blank calls es two few =
      let (log, sound, run) =
        history_lem n es (λ _. blank) (start blank calls)
          (start-IsSound n blank calls two (omega (arith, few))) (start-IsOwned n blank calls two)
          (omega (arith, few)) in
      (log, sound)

  abbrev pub empty_queue : (ℕ → Call A) → Fifo A
  empty_queue calls = record { queue = []; ops = λ j. wanted (calls j) }

  -- Every history of the calls that `calls` lists, one access of one call at a time and with any
  -- number of spurious failures, is a run of the queue that holds at most `n` elements and starts
  -- empty: each call takes its effect at one moment within it, a push at the end of a queue that is not
  -- full and a pop at the front, and returns later; a push is refused only when the queue is full or
  -- a pop has taken its effect and not returned, a pop only when the queue is empty or a push has
  -- taken its effect and not returned. The state that the history ends in shows the queue, and each
  -- call's result, that the run ends in. The ring has at least two nodes, and the history is not so
  -- long that a position passes 2^63.
  pub history_refines :
      (n : ℕ) (blank : A) (calls : ℕ → Call A) (es : List (ℕ × Bool))
      → 2 ≤ n
      → length es + n < 2 ^ 63
      → let w = history n es (start blank calls) in
        (log : ℕ → A) × FifoRun n
          (map (λ e. e.0) es)
          (empty_queue calls)
          (abstract log w.ring w.threads)
        × (length (abstract log w.ring w.threads).queue ≤ n)
  unfolding init
  history_refines n blank calls es two few =
      let w = history n es (start blank calls) in
      let (log, sound, run) =
        history_lem n es (λ _. blank) (start blank calls)
          (start-IsSound n blank calls two (omega (arith, few))) (start-IsOwned n blank calls two)
          (omega (arith, few)) in
      (
        log,
        subst
            (λ ops.
              FifoRun n (map (λ e. e.0) es) (record { queue = []; ops = ops })
                (abstract log w.ring w.threads))
            (fun_ext (λ j. view-begin (λ _. blank) (calls j))) run,
        rw (length-segment log w.ring.head_pos (w.ring.tail_pos - w.ring.head_pos))
            (omega (arith, sound.room)),
      )
