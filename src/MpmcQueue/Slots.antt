-- ===== src/MpmcQueue/Slots.antt =====
-- src/helpers/queue.h: the nodes that positions stand for.
use native.Mathlib.Nat.{mul-le-mul_left, div-add-mod, mul-suc, add-mod_right}
use learning_network.Prelude.{
  ℕ, suc, ◌+◌, ◌*◌, ◌/◌, ◌%◌, ◌≤◌, ◌<◌, ◌≡◌, ◌≢◌, ◌⊎◌, inl, inr, arith, ap, sym,
}

trichotomy : (a b : ℕ) → (a < b) ⊎ (a ≡ b) ⊎ (b < a)
trichotomy a b = ground arith

rounds : (n p q : ℕ) → p % n ≡ q % n → p / n < q / n → p < q + n → q < p + n → ⊥
rounds n p q e l h k = omega (
  arith,
  mul-le-mul_left {m = suc (p / n)} {n = q / n} n l,
  mul-suc n (p / n),
  div-add-mod p n,
  div-add-mod q n,
)

-- Two positions within one round that share a node are the same.
slot_unique : (n p q : ℕ) → p % n ≡ q % n → p < q + n → q < p + n → p ≡ q
slot_unique n p q e h k = elim (trichotomy (p / n) (q / n)) [
  | inl below ↦ absurd (rounds n p q e below h k)
  | inr (inl same) ↦ omega (arith, div-add-mod p n, div-add-mod q n, ap (λ (t : ℕ). n * t) same)
  | inr (inr above) ↦ absurd (rounds n q p (sym e) above k h)
]

-- Neighbours have different nodes.
pub next_slot : (n p : ℕ) → 2 ≤ n → p % n ≢ suc p % n
next_slot n p h e =
    let same : p ≡ suc p = slot_unique n p (suc p) e (omega arith) (omega arith) in
    absurd (omega (arith, same))

pub round_slot : (n p : ℕ) → (p + n) % n ≡ p % n
round_slot n p = add-mod_right p n
