-- ===== src/MpmcQueue/Fifo.antt =====
-- What the ring of src/helpers/queue.h promises: a queue of at most `size` elements. A call takes its
-- effect at once and returns later. It is refused when the queue is full or empty, and also while a
-- call of the other kind is between its effect and its return.
use learning_network.Prelude.{
  ℕ, zero, suc, ◌+◌, ◌-◌, ◌≤◌, ◌<◌, ◌≡◌, ◌≢◌, ◌⊎◌, refl, ap, arith, List, [], ◌∷◌, ◌++◌, length,
  assign, assign_other,
}
use learning_network.MpmcQueue.{
  Ring, Pc, push_start, push_at, push_swap, push_store, push_publish, pushed, push_full, pop_start,
  pop_at, pop_swap, pop_read, pop_release, popped, pop_empty,
}

-- A call: before its effect, between its effect and its return, and back.
pub data Op {ℓ} (A : Type ℓ) : Type ℓ where
  wants_push : A → Op A
  pushing : Op A
  has_pushed : Op A
  was_full : A → Op A
  wants_pop : Op A
  popping : A → Op A
  has_popped : A → Op A
  was_empty : Op A

pub record Fifo {ℓ} (A : Type ℓ) : Type ℓ where
  pub queue : List A
  pub ops : ℕ → Op A

module _ {ℓ} {A : Type ℓ} where
  -- Only call `i` goes on, to `op`.
  abbrev pub Goes : ℕ → Op A → Fifo A → Fifo A → Type ℓ
  Goes i op a b = (b.ops i ≡ op) × ((j : ℕ) → i ≢ j → b.ops j ≡ a.ops j)

  pub data FifoStep (n i : ℕ) (a b : Fifo A) : Type ℓ where
    appends :
        (v : A)
        → a.ops i ≡ wants_push v
        → length a.queue < n
        → b.queue ≡ a.queue ++ (v ∷ [])
        → Goes i pushing a b
        → FifoStep n i a b
    takes :
        (x : A)
        → a.ops i ≡ wants_pop
        → a.queue ≡ x ∷ b.queue
        → Goes i (popping x) a b
        → FifoStep n i a b
    gives_up_push :
        (v : A)
        → a.ops i ≡ wants_push v
        → (length a.queue ≡ n) ⊎ ((j : ℕ) × (x : A) × (a.ops j ≡ popping x))
        → b.queue ≡ a.queue
        → Goes i (was_full v) a b
        → FifoStep n i a b
    gives_up_pop :
        a.ops i ≡ wants_pop
        → (a.queue ≡ []) ⊎ ((j : ℕ) × (a.ops j ≡ pushing))
        → b.queue ≡ a.queue
        → Goes i was_empty a b
        → FifoStep n i a b
    returns_push : a.ops i ≡ pushing → b.queue ≡ a.queue → Goes i has_pushed a b → FifoStep n i a b
    returns_pop :
        (x : A)
        → a.ops i ≡ popping x
        → b.queue ≡ a.queue
        → Goes i (has_popped x) a b
        → FifoStep n i a b
    stays : b.queue ≡ a.queue → Goes i (a.ops i) a b → FifoStep n i a b

  pub data FifoRun (n : ℕ) : List ℕ → Fifo A → Fifo A → Type ℓ where
    done : (a : Fifo A) → FifoRun n [] a a
    next :
        (i : ℕ) (is : List ℕ) (a b c : Fifo A)
        → FifoStep n i a b
        → FifoRun n is b c
        → FifoRun n (i ∷ is) a c

  -- The call that a thread carries out. `log p` is the element that was pushed at position `p`.
  abbrev pub view : (ℕ → A) → Pc A → Op A
  view log (push_start v) = wants_push v
  view log (push_at v p) = wants_push v
  view log (push_swap v p) = wants_push v
  view log (push_store v p) = pushing
  view log (push_publish p) = pushing
  view log pushed = has_pushed
  view log (push_full v) = was_full v
  view log pop_start = wants_pop
  view log (pop_at p) = wants_pop
  view log (pop_swap p) = wants_pop
  view log (pop_read p) = popping (log p)
  view log (pop_release p x) = popping x
  view log (popped x) = has_popped x
  view log pop_empty = was_empty

  -- The elements at `k` positions from `a`.
  abbrev pub segment : (ℕ → A) → ℕ → ℕ → List A
  segment log a zero = []
  segment log a (suc k) = log a ∷ segment log (suc a) k

  abbrev pub abstract : (ℕ → A) → Ring A → (ℕ → Pc A) → Fifo A
  abstract log q th = record {
    queue = segment log q.head_pos (q.tail_pos - q.head_pos);
    ops = λ j. view log (th j);
  }

  pub length-segment : (log : ℕ → A) (a k : ℕ) → length (segment log a k) ≡ k
  length-segment log a zero = refl
  length-segment log a (suc k) = ap suc (length-segment log (suc a) k)

  pub segment-suc :
      (log : ℕ → A) (a k t : ℕ)
      → a + k ≡ t
      → segment log a (suc k) ≡ segment log a k ++ (log t ∷ [])
  segment-suc log a zero t e = ap (λ x. log x ∷ []) (omega (arith, e))
  segment-suc log a (suc k) t e = ap (◌∷◌ (log a)) (segment-suc log (suc a) k t (omega (arith, e)))

  pub segment-assign :
      (log : ℕ → A) (a k t : ℕ) (v : A) → a + k ≤ t → segment (assign t v log) a k ≡ segment log a k
  segment-assign log a zero t v h = refl
  segment-assign log a (suc k) t v h =
      rw (assign_other t a v log (omega arith), segment-assign log (suc a) k t v (omega arith)) refl
