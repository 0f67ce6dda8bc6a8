-- ===== src/ThreadPool/Counts.antt =====
-- How many of the tasks of src/Threads/ThreadPool.cpp satisfy a test, wherever they are.
use learning_network.Prelude.{
  ℕ, zero, suc, ◌+◌, ◌≡◌, ap, arith, Bool, true, false, List, [], ◌∷◌, ◌++◌, some, get_elem?, set,
}
use learning_network.ThreadPool.{
  WorkerPc, testing, popping, working, draining, finishing, finished, PoolEvent, submits, stops,
  works,
}

abbrev pub one : Bool → ℕ
one true = 1
one false = 0

module _ {ℓ} {A : Type ℓ} where
  unfoldable pub count : (A → Bool) → List A → ℕ
  count p [] = 0
  count p (x ∷ xs) = one (p x) + count p xs

  pub count-append : (p : A → Bool) (xs ys : List A) → count p (xs ++ ys) ≡ count p xs + count p ys
  unfolding count
  count-append p [] ys = omega arith
  count-append p (x ∷ xs) ys = omega (arith, count-append p xs ys)

  -- The task that a thread has taken and not executed.
  abbrev pub held_by : (A → Bool) → WorkerPc A → ℕ
  held_by p testing = 0
  held_by p popping = 0
  held_by p (working a) = one (p a)
  held_by p draining = 0
  held_by p (finishing a) = one (p a)
  held_by p finished = 0

  unfoldable pub held : (A → Bool) → List (WorkerPc A) → ℕ
  held p [] = 0
  held p (pc ∷ ws) = held_by p pc + held p ws

  pub held-set :
      (p : A → Bool) (ws : List (WorkerPc A)) (i : ℕ) (pc pc' : WorkerPc A)
      → get_elem? ws i ≡ some pc
      → held p (set ws i pc') + held_by p pc ≡ held p ws + held_by p pc'
  unfolding held
  held-set p [] i pc pc' e = absurd (cc)
  held-set p (x ∷ ws) zero pc pc' e = let same : x ≡ pc = cc in omega (arith, ap (held_by p) same)
  held-set p (x ∷ ws) (suc i) pc pc' e = omega (arith, held-set p ws i pc pc' e)

  -- The tasks of the calls of `submit`, in their order.
  unfoldable pub submissions : List (PoolEvent A) → List A
  submissions [] = []
  submissions (submits a g ∷ es) = a ∷ submissions es
  submissions (stops ∷ es) = submissions es
  submissions (works i x ∷ es) = submissions es
