-- ===== src/MpmcQueue/Frame.antt =====
-- What a step of one thread leaves true for the others at the ring of src/helpers/queue.h.
use learning_network.Prelude.{
  ℕ, suc, ◌+◌, ◌%◌, ◌≤◌, ◌<◌, ◌≡◌, refl, sym, subst, ◌∙◌, ap, arith, true, false, assign,
  assign_intro,
}
use learning_network.MpmcQueue.{
  Ring, Pc, push_start, push_at, push_swap, push_store, push_publish, pushed, push_full, pop_start,
  pop_at, pop_swap, pop_read, pop_release, popped, pop_empty,
}
use learning_network.MpmcQueue.Invariant.{Owns, PcOk}

-- Positions with one node see one value of it.
pub same_node {ℓ} :
    {B : Type ℓ} (n : ℕ) (f : ℕ → B) (p r : ℕ) {a b : B}
    → f (p % n) ≡ a
    → f (r % n) ≡ b
    → p % n ≡ r % n
    → a ≡ b
same_node n f p r x y e = sym x ∙ ap f e ∙ y

-- A node that is stored to keeps what another position knows, when the store agrees.
pub assign_keeps {ℓ} :
    {B : Type ℓ} {k j : ℕ} {a b : B} (f : ℕ → B) → f j ≡ b → (k ≡ j → a ≡ b) → assign k a f j ≡ b
assign_keeps {k} {j} {a} {b} f h g = assign_intro (λ s. s ≡ b) k j a f g (λ _. h)

-- A position that is still the tail, and one that is still the head.
still :
    (n : ℕ) (f f' : ℕ → ℕ) (g : ℕ → ℕ) (p t t' : ℕ)
    → p ≤ t
    → t ≤ t'
    → (p ≡ t → f (p % n) ≡ g p)
    → (t' ≡ t → f (t % n) ≡ g t → f' (t % n) ≡ g t)
    → p ≡ t'
    → f' (p % n) ≡ g p
still n f f' g p t t' a b h k e =
    let p-t : p ≡ t = omega (arith, a, b, e) in
    subst (λ x. f' (x % n) ≡ g x) (sym p-t)
      (k (omega (arith, a, b, e)) (subst (λ x. f (x % n) ≡ g x) p-t (h p-t)))

module _ {ℓ} {A : Type ℓ} (n : ℕ) where
  -- What a thread that is at `pc` has to find again.
  pub record Keeps (log log' : ℕ → A) (q q' : Ring A) (pc : Pc A) : Type ℓ where
    pub heads : q.head_pos ≤ q'.head_pos
    pub tails : q.tail_pos ≤ q'.tail_pos
    pub claims :
        (r : ℕ)
        → Owns true pc r
        → q.head_pos ≤ r
        → r < q.tail_pos
        → q.sequence (r % n) ≡ r
        → (q'.head_pos ≤ r)
          × (q'.sequence (r % n) ≡ r)
          × (log' r ≡ log r)
          × (q.item (r % n) ≡ log r → pc ≡ push_publish r → q'.item (r % n) ≡ log r)
    pub reads :
        (r : ℕ)
        → Owns false pc r
        → r < q.head_pos
        → q.tail_pos ≤ r + n
        → q.sequence (r % n) ≡ suc r
        → (q'.tail_pos ≤ r + n)
          × (q'.sequence (r % n) ≡ suc r)
          × (log' r ≡ log r)
          × (q.item (r % n) ≡ log r → q'.item (r % n) ≡ log r)
    pub tail_node :
        q'.tail_pos ≡ q.tail_pos
        → q.sequence (q.tail_pos % n) ≡ q.tail_pos
        → q'.sequence (q.tail_pos % n) ≡ q.tail_pos
    pub head_node :
        q'.head_pos ≡ q.head_pos
        → q.sequence (q.head_pos % n) ≡ suc q.head_pos
        → q'.sequence (q.head_pos % n) ≡ suc q.head_pos

  pub Keeps-PcOk :
      (log log' : ℕ → A) (q q' : Ring A) (pc : Pc A)
      → Keeps log log' q q' pc
      → PcOk n log q pc
      → PcOk n log' q' pc
  Keeps-PcOk log log' q q' (push_start v) k h = tt
  Keeps-PcOk log log' q q' (push_at v p) k h = (tt, omega (arith, k.tails, h.1))
  Keeps-PcOk log log' q q' (push_swap v p) k h = (
    tt,
    omega (arith, k.tails, h.1),
    still n q.sequence q'.sequence (λ x. x) p q.tail_pos q'.tail_pos h.1 k.tails h.2 k.tail_node,
  )
  Keeps-PcOk log log' q q' (push_store v p) k (a, b, c, d) =
      let (a', c', e, _) = k.claims p refl a b c in (a', omega (arith, k.tails, b), c', e ∙ d)
  Keeps-PcOk log log' q q' (push_publish p) k (a, b, c, d) =
      let (a', c', e, f) = k.claims p refl a b c in
      (a', omega (arith, k.tails, b), c', f d refl ∙ sym e)
  Keeps-PcOk log log' q q' pushed k h = tt
  Keeps-PcOk log log' q q' (push_full v) k h = tt
  Keeps-PcOk log log' q q' pop_start k h = tt
  Keeps-PcOk log log' q q' (pop_at p) k h = (tt, omega (arith, k.heads, h.1))
  Keeps-PcOk log log' q q' (pop_swap p) k h = (
    tt,
    omega (arith, k.heads, h.1),
    still n q.sequence q'.sequence suc p q.head_pos q'.head_pos h.1 k.heads h.2 k.head_node,
  )
  Keeps-PcOk log log' q q' (pop_read p) k (a, b, c, d) =
      let (b', c', e, f) = k.reads p refl a b c in (omega (arith, k.heads, a), b', c', f d ∙ sym e)
  Keeps-PcOk log log' q q' (pop_release p x) k (a, b, c, d) =
      let (b', c', e, _) = k.reads p refl a b c in (omega (arith, k.heads, a), b', c', d ∙ sym e)
  Keeps-PcOk log log' q q' (popped x) k h = tt
  Keeps-PcOk log log' q q' pop_empty k h = tt
