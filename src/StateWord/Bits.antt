-- ===== src/StateWord/Bits.antt =====
-- The two counts that the accesses to `state_` of src/TcpConnection.cpp keep in step with the word.
use learning_network.Prelude.{
  ℕ, zero, suc, ◌+◌, ◌≤◌, ◌≡◌, arith, List, [], ◌∷◌, some, get_elem?, set, length,
}
use learning_network.StateWord.{Pc, idle, trying, marked, inside, leaving, last, unusing, done}

-- Whether a thread counts as a sender, and whether it has passed the point where it can become one.
abbrev pub is_inside : Pc → ℕ
is_inside inside = 1
is_inside (leaving old) = 1
is_inside idle = 0
is_inside (trying old) = 0
is_inside (marked old) = 0
is_inside (last old) = 0
is_inside (unusing old) = 0
is_inside done = 0

abbrev pub is_past : Pc → ℕ
is_past idle = 0
is_past (trying old) = 0
is_past (marked old) = 0
is_past inside = 1
is_past (leaving old) = 1
is_past (last old) = 1
is_past (unusing old) = 0
is_past done = 1

unfoldable pub total : (Pc → ℕ) → List Pc → ℕ
total f [] = 0
total f (pc ∷ ts) = f pc + total f ts

pub total-set :
    (f : Pc → ℕ) (ts : List Pc) (i : ℕ) (pc pc' : Pc)
    → get_elem? ts i ≡ some pc
    → total f (set ts i pc') + f pc ≡ total f ts + f pc'
unfolding total
total-set f [] i pc pc' e = absurd (cc)
total-set f (x ∷ ts) zero pc pc' e = ground arith
total-set f (x ∷ ts) (suc i) pc pc' e = omega (arith, total-set f ts i pc pc' e)

pub total-le-length : (f : Pc → ℕ) (ts : List Pc) → ((pc : Pc) → f pc ≤ 1) → total f ts ≤ length ts
unfolding total
total-le-length f [] h = omega arith
total-le-length f (x ∷ ts) h = omega (arith, total-le-length f ts h, h x)

pub is_past-le : (pc : Pc) → is_past pc ≤ 1
is_past-le idle = omega arith
is_past-le pc = omega arith

pub total-ge :
    (f : Pc → ℕ) (ts : List Pc) (i : ℕ) (pc : Pc) → get_elem? ts i ≡ some pc → f pc ≤ total f ts
unfolding total
total-ge f [] i pc e = absurd (cc)
total-ge f (x ∷ ts) zero pc e = ground arith
total-ge f (x ∷ ts) (suc i) pc e = omega (arith, total-ge f ts i pc e)
