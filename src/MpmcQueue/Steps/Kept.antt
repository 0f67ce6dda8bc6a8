-- ===== src/MpmcQueue/Steps/Kept.antt =====
-- The accesses of src/helpers/queue.h that leave the ring as it was: loads, and compare-and-swaps
-- that fail.
use learning_network.Prelude.{ℕ, ◌≡◌, refl, arith, Bool, assign}
use learning_network.MpmcQueue.{Ring, Pc}
use learning_network.MpmcQueue.Invariant.{Owns, PcOk, IsSound}
use learning_network.MpmcQueue.Frame.{Keeps}
use learning_network.MpmcQueue.Steps.Stores.{go-PcOk, less-IsUnique}

module _ {ℓ} {A : Type ℓ} (n : ℕ) where
  Keeps-refl : (log : ℕ → A) (q : Ring A) (pc : Pc A) → Keeps n log log q q pc
  Keeps-refl log q pc = record {
    heads = omega arith;
    tails = omega arith;
    claims = λ r own a b c. (a, c, refl, λ d _. d);
    reads = λ r own a b c. (b, c, refl, λ d. d);
    tail_node = λ _ c. c;
    head_node = λ _ c. c;
  }

  pub quiet-IsSound :
      (log : ℕ → A) (q : Ring A) (i : ℕ) (c c' : Pc A) (th : ℕ → Pc A)
      → IsSound n log q th
      → th i ≡ c
      → PcOk n log q c'
      → ((k : Bool) (r : ℕ) → Owns k c' r → Owns k c r)
      → IsSound n log q (assign i c' th)
  quiet-IsSound log q i c c' th s at_i own f = record {
    two = s.two;
    few = s.few;
    ordered = s.ordered;
    room = s.room;
    filled = s.filled;
    free = s.free;
    places = go-PcOk n log log q q i c' th s.places own (λ j _. Keeps-refl log q (th j));
    unique = less-IsUnique n i c c' th s.unique at_i f;
  }
