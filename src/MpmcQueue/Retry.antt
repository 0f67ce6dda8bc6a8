-- ===== src/MpmcQueue/Retry.antt =====
-- src/helpers/queue.h: `push` and `pop`, which try over and over, and `empty` and `size`.
use native.Mathlib.Nat.{zero-add, suc-add}
use learning_network.Prelude.{
  ℕ, zero, suc, ◌+◌, ◌/◌, ◌%◌, ◌^◌, ◌<◌, ◌≡◌, refl, ◌∙◌, ap, arith, ◌==◌, ltb, lt→ltb, ne→==, not,
  if◌then◌else◌, Bool, sub64,
}
use learning_network.MpmcQueue.{Ring}

module _ {ℓ} {A : Type ℓ} where
  unfoldable pub empty : Ring A → Bool
  empty q = q.head_pos == q.tail_pos

  -- The difference is returned as a `bool`.
  unfoldable pub size : Ring A → Bool
  size q = not (sub64 q.tail_pos q.head_pos == 0)

-- The attempt that succeeded, or the number of attempts after which the loop gave up.
pub data Tries : Type 0 where
  succeeded : ℕ → Tries
  gave_up : ℕ → Tries
  out_of_fuel : Tries

-- The loop of `push` and of `pop`, with `i`, `r` and the number of attempts so far. `works k` is what
-- attempt `k` at `try_push` or `try_pop` returns, with all that other threads do meanwhile.
unfoldable pub retry : ℕ → ℕ → ℕ → ℕ → (ℕ → Bool) → Tries
retry zero i r k works = out_of_fuel
retry (suc fuel) i r k works =
    let yields = (i / 64) % 2 == 1 in
    let r' = if yields then suc r else r in
    let i' = if yields then 2 ^ r' else i in
    let rest = retry fuel (suc i') r' (suc k) works in
    if ltb i 65 then (if works k then succeeded k else rest) else gave_up k

unfoldable pub push : (ℕ → Bool) → Tries
push works = retry 323 1 0 0 works

-- The first success among `m` attempts from attempt `k` on.
unfoldable pub first : ℕ → ℕ → (ℕ → Bool) → Tries
first zero k works = gave_up k
first (suc m) k works = if works k then succeeded k else first m (suc k) works

retry-suc :
    (fuel i r k : ℕ) (works : ℕ → Bool)
    → i < 64
    → retry (suc fuel) i r k works
      ≡ (if works k then succeeded k else retry fuel (suc i) r (suc k) works)
unfolding retry
retry-suc fuel i r k works h =
    rw (lt→ltb i 65 (omega arith), ne→== ((i / 64) % 2) 1 (λ e. absurd (omega (arith, e, h)))) refl

-- One round, up to 64.
round :
    (d fuel m i r k : ℕ) (works : ℕ → Bool)
    → i + d ≡ 64
    → ((k' : ℕ) → retry fuel 64 r k' works ≡ first m k' works)
    → retry (d + fuel) i r k works ≡ first (d + m) k works
unfolding first
round zero fuel m i r k works e h =
    let at_end : i ≡ 64 = omega (arith, e) in rw (zero-add fuel, zero-add m, at_end) (h k)
round (suc d) fuel m i r k works e h =
    rw (suc-add d fuel, suc-add d m)
      (retry-suc (d + fuel) i r k works (omega (arith, e))
        ∙ ap (λ (rest : Tries). if works k then succeeded k else rest)
            (round d fuel m (suc i) r (suc k) works (omega (arith, e)) h))

-- From the last attempt of one round to the last of the next.
next_round :
    (r d fuel m : ℕ) (works : ℕ → Bool)
    → suc (2 ^ suc r) + d ≡ 64
    → ((k : ℕ) → retry fuel 64 (suc r) k works ≡ first m k works)
    → (k : ℕ) → retry (suc (d + fuel)) 64 r k works ≡ first (suc (d + m)) k works
unfolding retry first
next_round r d fuel m works e h k =
    ap (λ (rest : Tries). if works k then succeeded k else rest)
      (round d fuel m (suc (2 ^ suc r)) (suc r) (suc k) works e h)

last_round : (works : ℕ → Bool) (k : ℕ) → retry 2 64 5 k works ≡ first 1 k works
unfolding retry first
last_round works k = refl

-- Whatever the attempts return, the loop of `push` and of `pop` ends: with the first that succeeds
-- among 322, or, when all of them fail, by giving up, which its caller is not told.
push-first : (works : ℕ → Bool) → push works ≡ first 322 0 works
unfolding push
push-first works = round 63 260 259 1 0 0 works refl (
    next_round 0 61 198 197 works refl (
      next_round 1 59 138 137 works refl (
        next_round 2 55 82 81 works refl
          (next_round 3 47 34 33 works refl (next_round 4 31 2 1 works refl (last_round works))))))
