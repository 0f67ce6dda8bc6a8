-- ===== src/MpmcQueue.antt =====
-- src/helpers/queue.h: `mpmc_bounded_Queue`, a ring whose nodes carry sequence numbers. A thread takes
-- one access to the shared memory at a time, so that an interleaving is a list of thread numbers. The
-- size is a power of two, and `pos & buffer_mask` is the remainder by it.
pub mod Slots
pub mod Invariant
pub mod Frame
pub mod Steps
pub mod Owned
pub mod Behind
pub mod Fifo
pub mod Refine
pub mod Runs
pub mod Alone
pub mod Retry
pub mod Tests
use learning_network.Prelude.{
  ℕ, suc, ◌+◌, ◌-◌, ◌%◌, ◌^◌, ◌==◌, Bool, true, false, ◌&&◌, not, if◌then◌else◌, leb, List, [], ◌∷◌,
  add64, sub64, assign,
}

-- The `node`s by their number: sequence numbers and elements.
pub record Ring {ℓ} (A : Type ℓ) : Type ℓ where
  pub sequence : ℕ → ℕ
  pub item : ℕ → A
  pub head_pos : ℕ
  pub tail_pos : ℕ

-- The constructor; the elements are default-constructed.
pub init {ℓ} : {A : Type ℓ} → A → Ring A
init blank = record { sequence = λ i. i; item = λ i. blank; head_pos = 0; tail_pos = 0 }

-- Where a thread is in `try_push` and in `try_pop`: before it loads the position; with the position,
-- before it loads the sequence number; before the compare-and-swap; before the access to the
-- element; before the store of the sequence number; and at the return.
pub data Pc {ℓ} (A : Type ℓ) : Type ℓ where
  push_start : A → Pc A
  push_at : A → ℕ → Pc A
  push_swap : A → ℕ → Pc A
  push_store : A → ℕ → Pc A
  push_publish : ℕ → Pc A
  pushed : Pc A
  push_full : A → Pc A
  pop_start : Pc A
  pop_at : ℕ → Pc A
  pop_swap : ℕ → Pc A
  pop_read : ℕ → Pc A
  pop_release : ℕ → A → Pc A
  popped : A → Pc A
  pop_empty : Pc A

-- `(intptr_t)seq - (intptr_t)pos < 0`
abbrev pub is_behind : ℕ → ℕ → Bool
is_behind seq pos = leb (2 ^ 63) (sub64 seq pos)

module _ {ℓ} {A : Type ℓ} (size : ℕ) where
  -- One access. A weak compare-and-swap may fail for no reason, which the first argument says.
  pub access : Bool → Ring A → Pc A → Ring A × Pc A
  access spurious q (push_start v) = (q, push_at v q.tail_pos)
  access spurious q (push_at v pos) =
      let seq = q.sequence (pos % size) in
      (
        q,
        (if seq == pos
            then push_swap v pos
            else if is_behind seq pos
            then push_full v
            else push_start v),
      )
  access spurious q (push_swap v pos) =
      if (q.tail_pos == pos) && not spurious
      then (record q { tail_pos = add64 pos 1 }, push_store v pos)
      else (q, push_at v q.tail_pos)
  access spurious q (push_store v pos) =
      (record q { item = assign (pos % size) v q.item }, push_publish pos)
  access spurious q (push_publish pos) =
      (record q { sequence = assign (pos % size) (add64 pos 1) q.sequence }, pushed)
  access spurious q pop_start = (q, pop_at q.head_pos)
  access spurious q (pop_at pos) =
      let seq = q.sequence (pos % size) in
      (
        q,
        (if seq == add64 pos 1
            then pop_swap pos
            else if is_behind seq (add64 pos 1)
            then pop_empty
            else pop_start),
      )
  access spurious q (pop_swap pos) =
      if (q.head_pos == pos) && not spurious
      then (record q { head_pos = add64 pos 1 }, pop_read pos)
      else (q, pop_at q.head_pos)
  access spurious q (pop_read pos) = (q, pop_release pos (q.item (pos % size)))
  access spurious q (pop_release pos x) = (
    record q { sequence = assign (pos % size) (add64 (add64 pos (size - 1)) 1) q.sequence },
    popped x,
  )
  access spurious q pushed = (q, pushed)
  access spurious q (push_full v) = (q, push_full v)
  access spurious q (popped x) = (q, popped x)
  access spurious q pop_empty = (q, pop_empty)

-- The ring, and where each thread is.
pub record World {ℓ} (A : Type ℓ) : Type ℓ where
  pub ring : Ring A
  pub threads : ℕ → Pc A

module _ {ℓ} {A : Type ℓ} (size : ℕ) where
  -- A thread's next access.
  pub exec : ℕ × Bool → World A → World A
  exec (i, spurious) w =
      let r = access size spurious w.ring (w.threads i) in
      record { ring = r.0; threads = assign i r.1 w.threads }

  pub history : List (ℕ × Bool) → World A → World A
  history [] w = w
  history (e ∷ es) w = history es (exec e w)
