-- ===== src/MpmcQueue/Behind.antt =====
-- src/helpers/queue.h: what a call that finds the sequence number behind its position can conclude.
use learning_network.Prelude.{
  ℕ, zero, suc, ◌+◌, ◌%◌, ◌^◌, ◌≤◌, ◌<◌, ◌≡◌, ◌⊎◌, inl, inr, ◌∙◌, ap, arith, true, false,
}
use learning_network.MpmcQueue.{Ring, Pc, is_behind}
use learning_network.MpmcQueue.Slots.{round_slot}
use learning_network.MpmcQueue.Invariant.{Owns, IsSound}
use learning_network.MpmcQueue.Owned.{IsOwned}

split : (a b : ℕ) → (a ≤ b) ⊎ (b < a)
split a b = ground arith

-- The position of the round at hand that has the node of an older one.
climb :
    (n h fuel p : ℕ)
    → 1 ≤ n
    → p < h
    → h ≤ p + fuel
    → (t : ℕ) × (h ≤ t) × (t < h + n) × (p + n ≤ t) × (t % n ≡ p % n)
climb n h zero p one a b = absurd (omega (arith, a, b))
climb n h (suc fuel) p one a b = elim (split h (p + n)) [
  | inl e ↦ (p + n, e, omega (arith, a), omega arith, round_slot n p)
  | inr e ↦
      let (t, x, y, z, m) = climb n h fuel (p + n) one e (omega (arith, b, one)) in
      (t, x, y, omega (arith, z), m ∙ round_slot n p)
]

not_behind :
    (seq pos : ℕ) → pos ≤ seq → seq < 2 ^ 64 → seq < pos + 2 ^ 63 → is_behind seq pos ≡ true → ⊥
not_behind seq pos a b c e = absurd (ground (arith, e, a, b, c))

module _ {ℓ} {A : Type ℓ} (n : ℕ) (log : ℕ → A) (q : Ring A) (th : ℕ → Pc A)
    (s : IsSound n log q th) (o : IsOwned n q th) where
  -- The sequence number of a node of the round at hand.
  node_range :
      (t : ℕ)
      → q.head_pos ≤ t
      → t < q.head_pos + n
      → (suc t ≤ q.sequence (t % n) + n) × (q.sequence (t % n) ≤ suc t)
  node_range t a b = elim (split q.tail_pos t) [
    | inl h ↦ elim (s.free t h b) [
      | inl e ↦ (omega (arith, e, s.two), omega (arith, e))
      | inr e ↦ (omega (arith, e), omega (arith, e))
    ]
    | inr h ↦ elim (s.filled t a h) [
      | inl e ↦ (omega (arith, e, s.two), omega (arith, e))
      | inr (e, _) ↦ (omega (arith, e, s.two), omega (arith, e))
    ]
  ]

  -- A position that was popped has a later sequence number.
  older_node :
      (p : ℕ)
      → p < q.head_pos
      → (suc p ≤ q.sequence (p % n)) × (q.sequence (p % n) ≤ q.head_pos + n)
  older_node p h =
      let (t, a, b, c, m) =
        climb n q.head_pos q.head_pos p (omega (arith, s.two)) h (omega arith) in
      let (low, high) = node_range t a b in
      let same : q.sequence (t % n) ≡ q.sequence (p % n) = ap q.sequence m in
      (omega (arith, low, c, same), omega (arith, high, b, same))

  -- `try_push` says that the queue is full: it is, or a pop has yet to release a node.
  pub behind_push :
      (p : ℕ)
      → p ≤ q.tail_pos
      → is_behind (q.sequence (p % n)) p ≡ true
      → (q.tail_pos ≡ q.head_pos + n) ⊎ ((r i : ℕ) × Owns false (th i) r)
  behind_push p h e = elim (split q.head_pos p) [
    | inr old ↦
        let (low, high) = older_node p old in
        absurd (
          not_behind (q.sequence (p % n)) p (omega (arith, low))
            (omega (arith, high, s.few, s.ordered)) (omega (arith, high, s.few, s.ordered)) e)
    | inl a ↦ elim (split q.tail_pos p) [
      | inr b ↦ elim (s.filled p a b) [
        | inl f ↦ absurd (
            not_behind (q.sequence (p % n)) p (omega (arith, f)) (omega (arith, f, b, s.few))
              (omega (arith, f)) e)
        | inr (f, _) ↦ absurd (
            not_behind (q.sequence (p % n)) p (omega (arith, f)) (omega (arith, f, b, s.few))
              (omega (arith, f)) e)
      ]
      | inl b ↦ elim (split (q.head_pos + n) p) [
        | inl full ↦ inl (omega (arith, full, h, s.room))
        | inr c ↦ elim (s.free p b c) [
          | inl f ↦ absurd (
              not_behind (q.sequence (p % n)) p (omega (arith, f)) (omega (arith, f, h, s.few))
                (omega (arith, f)) e)
          | inr f ↦ let (r, i, m, x) = o.readers p b c f in inr (r, i, x)
        ]
      ]
    ]
  ]

  -- `try_pop` says that the queue is empty: it is, or a push has yet to publish its element.
  pub behind_pop :
      (p : ℕ)
      → p ≤ q.head_pos
      → is_behind (q.sequence (p % n)) (suc p) ≡ true
      → (q.tail_pos ≡ q.head_pos) ⊎ ((r i : ℕ) × Owns true (th i) r)
  behind_pop p h e = elim (split q.head_pos p) [
    | inr old ↦
        let (low, high) = older_node p old in
        absurd (
          not_behind (q.sequence (p % n)) (suc p) low (omega (arith, high, s.few, s.ordered))
            (omega (arith, high, s.few, s.ordered)) e)
    | inl a ↦ elim (split q.tail_pos p) [
      | inl b ↦ inl (omega (arith, b, h, s.ordered))
      | inr b ↦ elim (s.filled p a b) [
        | inl f ↦ let (i, x) = o.writers p a b f in inr (p, i, x)
        | inr (f, _) ↦ absurd (
            not_behind (q.sequence (p % n)) (suc p) (omega (arith, f)) (omega (arith, f, b, s.few))
              (omega (arith, f)) e)
      ]
    ]
  ]
