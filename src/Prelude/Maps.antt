-- ===== src/Prelude/Maps.antt =====
-- `std::map` with numbers for keys: an association list, ascending by key.
use Prim.Native.Nat.{ℕ, suc, ◌≤◌, ◌<◌}
use mathlib.Core.Path.{◌≡◌, refl}
use mathlib.Core.Logic.{◌≢◌, ◌⊎◌, inl, inr}
use mathlib.Core.List.{List, [], ◌∷◌}
use mathlib.Core.Option.{Option, none, some}
use native.Mathlib.Omega.{arith}
use learning_network.Prelude.Tests.{Bool-cases, ◌==◌, ltb, if◌then◌else◌}

module _ {ℓ} {V : Type ℓ} where
  -- `erase(k)`
  unfoldable pub erase : ℕ → List (ℕ × V) → List (ℕ × V)
  erase k [] = []
  erase k (e ∷ m) = if e.0 == k then m else e ∷ erase k m

  -- `m[k] = v`: the entry goes before the first larger key.
  unfoldable pub insert : ℕ → V → List (ℕ × V) → List (ℕ × V)
  insert k v [] = (k, v) ∷ []
  insert k v (e ∷ m) =
      if ltb k e.0 then (k, v) ∷ e ∷ m else if ltb e.0 k then e ∷ insert k v m else (k, v) ∷ m

  -- What `find(k)` leads to.
  unfoldable pub lookup : ℕ → List (ℕ × V) → Option V
  lookup k [] = none
  lookup k (e ∷ m) = if e.0 == k then some e.1 else lookup k m

  -- The keys ascend strictly from at least the bound.
  abbrev pub Ascending : ℕ → List (ℕ × V) → Type 0
  Ascending lo [] = Unit {0}
  Ascending lo ((j, v) ∷ m) = (lo ≤ j) × Ascending (suc j) m

  pub Ascending-mono : {lo hi : ℕ} (m : List (ℕ × V)) → lo ≤ hi → Ascending hi m → Ascending lo m
  Ascending-mono [] h a = tt
  Ascending-mono ((j, v) ∷ m) h a = (omega arith, a.1)

  pub lookup_below : (k lo : ℕ) (m : List (ℕ × V)) → Ascending lo m → k < lo → lookup k m ≡ none
  unfolding lookup
  lookup_below k lo [] a h = refl
  lookup_below k lo ((j, v) ∷ m) a h = ground (arith, lookup_below k (suc j) m a.1)

  pub insert-Ascending :
      (k lo : ℕ) (v : V) (m : List (ℕ × V)) → lo ≤ k → Ascending lo m → Ascending lo (insert k v m)
  unfolding insert
  insert-Ascending k lo v [] h a = (h, tt)
  insert-Ascending k lo v ((j, w) ∷ m) h a = ground (arith, insert-Ascending k (suc j) v m)

  pub erase-Ascending : (k lo : ℕ) (m : List (ℕ × V)) → Ascending lo m → Ascending lo (erase k m)
  unfolding erase
  erase-Ascending k lo [] a = tt
  erase-Ascending k lo ((j, w) ∷ m) a =
      ground (arith, erase-Ascending k (suc j) m a.1, Ascending-mono {lo = lo} {hi = suc j} m)

  pub lookup-insert :
      (k j : ℕ) (v : V) (m : List (ℕ × V))
      → lookup j (insert k v m) ≡ (if k == j then some v else lookup j m)
  unfolding lookup insert
  lookup-insert k j v [] = ground arith
  lookup-insert k j v ((i, w) ∷ m) = ground (arith, lookup-insert k j v m)

  pub lookup-erase :
      (k j lo : ℕ) (m : List (ℕ × V))
      → Ascending lo m
      → lookup j (erase k m) ≡ (if k == j then none else lookup j m)
  unfolding lookup erase
  lookup-erase k j lo [] a = ground arith
  lookup-erase k j lo ((i, w) ∷ m) a =
      ground (arith, lookup-erase k j (suc i) m a.1, lookup_below k (suc i) m a.1)

-- One value of a function of numbers is changed.
module _ {ℓ} {A : Type ℓ} where
  abbrev pub assign : ℕ → A → (ℕ → A) → ℕ → A
  assign k a f j = if k == j then a else f j

  pub assign_self : (k : ℕ) (a : A) (f : ℕ → A) → assign k a f k ≡ a
  assign_self k a f = ground arith

  pub assign_other : (k j : ℕ) (a : A) (f : ℕ → A) → k ≢ j → assign k a f j ≡ f j
  assign_other k j a f h = ground arith

  -- What holds of the changed function, at the change and elsewhere.
  pub assign_intro {κ} :
      (P : A → Type κ) (k j : ℕ) (a : A) (f : ℕ → A)
      → (k ≡ j → P a)
      → (k ≢ j → P (f j))
      → P (assign k a f j)
  assign_intro P k j a f x y = elim (Bool-cases (k == j)) [
    | inl t ↦ rw t (x (ground arith))
    | inr e ↦ rw e (y (ground arith))
  ]

  pub assign_elim {κ} :
      (P : A → Type κ) (k j : ℕ) (a : A) (f : ℕ → A)
      → P (assign k a f j)
      → ((k ≡ j) × P a) ⊎ ((k ≢ j) × P (f j))
  assign_elim P k j a f h = elim (Bool-cases (k == j)) [
    | inl t ↦ inl (ground arith, rw t at h)
    | inr e ↦ inr (ground arith, rw e at h)
  ]
