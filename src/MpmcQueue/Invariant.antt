-- ===== src/MpmcQueue/Invariant.antt =====
-- What holds between the accesses to the ring of src/helpers/queue.h. `log p` is the element that was
-- pushed at position `p`.
use learning_network.Prelude.{
  ℕ, suc, ◌+◌, ◌%◌, ◌^◌, ◌≤◌, ◌<◌, ◌≡◌, ◌⊎◌, inl, inr, sym, ◌∙◌, Bool, true, false, assign,
  assign_elim,
}
use learning_network.MpmcQueue.{
  Ring, Pc, push_at, push_swap, push_store, push_publish, pop_at, pop_swap, pop_read, pop_release,
}

module _ {ℓ} {A : Type ℓ} where
  -- The position that a thread has claimed and not yet published (`true`) or released (`false`).
  abbrev pub Owns : Bool → Pc A → ℕ → Type 0
  Owns true (push_store v p) r = p ≡ r
  Owns true (push_publish p) r = p ≡ r
  Owns false (pop_read p) r = p ≡ r
  Owns false (pop_release p x) r = p ≡ r
  Owns k pc r = ⊥

  -- What a thread knows of the ring.
  abbrev pub PcOk : ℕ → (ℕ → A) → Ring A → Pc A → Type ℓ
  PcOk n log q (push_at v p) = Unit {ℓ} × (p ≤ q.tail_pos)
  PcOk n log q (push_swap v p) =
      Unit {ℓ} × (p ≤ q.tail_pos) × (p ≡ q.tail_pos → q.sequence (p % n) ≡ p)
  PcOk n log q (push_store v p) =
      (q.head_pos ≤ p) × (p < q.tail_pos) × (q.sequence (p % n) ≡ p) × (log p ≡ v)
  PcOk n log q (push_publish p) =
      (q.head_pos ≤ p) × (p < q.tail_pos) × (q.sequence (p % n) ≡ p) × (q.item (p % n) ≡ log p)
  PcOk n log q (pop_at p) = Unit {ℓ} × (p ≤ q.head_pos)
  PcOk n log q (pop_swap p) =
      Unit {ℓ} × (p ≤ q.head_pos) × (p ≡ q.head_pos → q.sequence (p % n) ≡ suc p)
  PcOk n log q (pop_read p) =
      (p < q.head_pos)
      × (q.tail_pos ≤ p + n)
      × (q.sequence (p % n) ≡ suc p)
      × (q.item (p % n) ≡ log p)
  PcOk n log q (pop_release p x) =
      (p < q.head_pos) × (q.tail_pos ≤ p + n) × (q.sequence (p % n) ≡ suc p) × (x ≡ log p)
  PcOk n log q pc = Unit {ℓ}

  -- A position between head and tail is still being written, or holds its element.
  abbrev pub IsFilled : ℕ → (ℕ → A) → Ring A → ℕ → Type ℓ
  IsFilled n log q p =
      (q.sequence (p % n) ≡ p) ⊎ ((q.sequence (p % n) ≡ suc p) × (q.item (p % n) ≡ log p))

  -- A position behind the tail is free, or its node is still being read for the round before.
  abbrev pub IsFree : ℕ → Ring A → ℕ → Type 0
  IsFree n q p = (q.sequence (p % n) ≡ p) ⊎ (q.sequence (p % n) + n ≡ suc p)

  abbrev pub IsUnique : (ℕ → Pc A) → Type 0
  IsUnique th = (k : Bool) (i j r : ℕ) → Owns k (th i) r → Owns k (th j) r → i ≡ j

  pub record IsSound (n : ℕ) (log : ℕ → A) (q : Ring A) (th : ℕ → Pc A) : Type ℓ where
    pub two : 2 ≤ n
    pub few : q.tail_pos + n < 2 ^ 63
    pub ordered : q.head_pos ≤ q.tail_pos
    pub room : q.tail_pos ≤ q.head_pos + n
    pub filled : (p : ℕ) → q.head_pos ≤ p → p < q.tail_pos → IsFilled n log q p
    pub free : (p : ℕ) → q.tail_pos ≤ p → p < q.head_pos + n → IsFree n q p
    pub places : (i : ℕ) → PcOk n log q (th i)
    pub unique : IsUnique th

  -- A thread goes on: what it owns afterwards it owned before, or nobody did.
  pub assign-IsUnique :
      (i : ℕ) (pc : Pc A) (th : ℕ → Pc A)
      → IsUnique th
      → ((k : Bool) (r : ℕ) → Owns k pc r → Owns k (th i) r ⊎ ((j : ℕ) → Owns k (th j) r → ⊥))
      → IsUnique (assign i pc th)
  assign-IsUnique i pc th u f k a b r x y = elim (assign_elim (λ c. Owns k c r) i a pc th x) [
    | inl (e, x') ↦ elim (assign_elim (λ c. Owns k c r) i b pc th y) [
      | inl (e', y') ↦ sym e ∙ e'
      | inr (e', y') ↦ elim (f k r x') [
        | inl own ↦ sym e ∙ u k i b r own y'
        | inr none ↦ absurd (none b y')
      ]
    ]
    | inr (e, x') ↦ elim (assign_elim (λ c. Owns k c r) i b pc th y) [
      | inl (e', y') ↦ elim (f k r y') [
        | inl own ↦ u k a i r x' own ∙ e'
        | inr none ↦ absurd (none a x')
      ]
      | inr (e', y') ↦ u k a b r x' y'
    ]
  ]
