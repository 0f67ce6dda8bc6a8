-- ===== src/Connector/Backoff.antt =====
-- The delays between the attempts of src/Connector.cpp, and the invariant of a connector.
use native.Mathlib.Nat.{pow-suc}
use learning_network.Prelude.{
  ℕ, zero, suc, ◌*◌, ◌^◌, ◌≤◌, ◌<◌, ◌≡◌, refl, ap, sym, ◌∙◌, arith, true, List, [], ◌∷◌, ◌++◌, some,
  min, length, get_elem?, Outcome, ok, ◌>>=◌, append_assoc, append-nil, Bool-cases, inl, inr, leb,
}
use learning_network.Connector.{
  disconnected, null, Connector, max_retry_delay_ms, classify, retryable, retry, reschedule,
  delete_channel, connect, start_in_loop,
}

-- The attempts that the timers of `retry` start, each with its socket and the kernel's answer.
pub attempts : List (ℕ × ℕ) → Connector → Outcome Connector
attempts [] c = ok c
attempts ((fd, errno) ∷ xs) c = start_in_loop fd errno true c >>= attempts xs

abbrev fds : List (ℕ × ℕ) → List ℕ
fds [] = []
fds ((fd, errno) ∷ xs) = fd ∷ fds xs

-- `n` delays from the first on: each is twice the one before, up to the maximum.
unfoldable pub backoff : ℕ → ℕ → List ℕ
backoff zero d = []
backoff (suc n) d = d ∷ backoff n (min (d * 2) max_retry_delay_ms)

abbrev AllRetryable : List (ℕ × ℕ) → Type 0
AllRetryable [] = Unit {0}
AllRetryable ((fd, errno) ∷ xs) = (classify errno ≡ retryable) × AllRetryable xs

-- The connector after an attempt that failed and is tried again.
abbrev refused : ℕ → Connector → Connector
refused fd c = record c {
  closed = c.closed ++ (fd ∷ []);
  state = disconnected;
  timers = c.timers ++ (c.retry_delay_ms ∷ []);
  retry_delay_ms = min (c.retry_delay_ms * 2) max_retry_delay_ms;
}

attempt_lem :
    (fd errno : ℕ) (c : Connector)
    → classify errno ≡ retryable
    → c.state ≡ disconnected
    → c.channel ≡ null
    → c.connect_ ≡ true
    → start_in_loop fd errno true c ≡ ok (refused fd c)
unfolding start_in_loop connect retry delete_channel reschedule
attempt_lem fd errno c r s n w = ground arith

-- An attempt after another, all refused with an error that is worth a retry: each closes its
-- socket and asks for the next one after the delay of an exponential backoff.
pub attempts-backoff :
    (xs : List (ℕ × ℕ)) (c : Connector)
    → AllRetryable xs
    → c.state ≡ disconnected
    → c.channel ≡ null
    → c.connect_ ≡ true
    → (c' : Connector) × (attempts xs c ≡ ok c')
      × (c'.timers ≡ c.timers ++ backoff (length xs) c.retry_delay_ms)
      × (c'.closed ≡ c.closed ++ fds xs)
      × (c'.state ≡ disconnected)
      × (c'.channel ≡ null)
      × (c'.opened ≡ c.opened)
unfolding attempts backoff
attempts-backoff [] c r s n w =
    (c, refl, sym (append-nil c.timers), sym (append-nil c.closed), s, n, refl)
attempts-backoff ((fd, errno) ∷ xs) c r s n w =
    let (c', e, t, k, s', n', o) = attempts-backoff xs (refused fd c) r.1 refl n w in
    (
      c',
      rw (attempt_lem fd errno c r.0 s n w) e,
      t ∙ append_assoc c.timers (c.retry_delay_ms ∷ []) _,
      k ∙ append_assoc c.closed (fd ∷ []) (fds xs),
      s',
      n',
      o,
    )

pow_pos : (k : ℕ) → 1 ≤ 2 ^ k
pow_pos zero = omega arith
pow_pos (suc k) = omega (arith, pow-suc 2 k, pow_pos k)

-- Capping early makes no difference to a product by at least 1.
cap_twice :
    (d p : ℕ)
    → 1 ≤ p
    → min (min (d * 2) max_retry_delay_ms * p) max_retry_delay_ms
      ≡ min (d * (p * 2)) max_retry_delay_ms
cap_twice d zero h = absurd (omega arith)
cap_twice d (suc r) h = elim (Bool-cases (leb (d * 2) max_retry_delay_ms)) [
  | inl small ↦
      let e : min (d * 2) max_retry_delay_ms ≡ d * 2 = ground arith in
      rw e (ap (λ x. min x max_retry_delay_ms) (omega arith))
  | inr large ↦
      let e : min (d * 2) max_retry_delay_ms ≡ max_retry_delay_ms = ground arith in
      let big : max_retry_delay_ms < d * 2 = ground arith in rw e (omega arith)
]

-- The `k`-th delay is the first one doubled `k` times, and at most 30 seconds.
pub get_elem?-backoff :
    (n k d : ℕ)
    → k < n
    → d ≤ max_retry_delay_ms
    → get_elem? (backoff n d) k ≡ some (min (d * 2 ^ k) max_retry_delay_ms)
unfolding backoff
get_elem?-backoff zero k d h le = elim h [ ]
get_elem?-backoff (suc n) zero d h le = ap some (omega arith)
get_elem?-backoff (suc n) (suc k) d h le =
    get_elem?-backoff n k (min (d * 2) max_retry_delay_ms) (omega arith) (omega arith)
    ∙ ap some (
        cap_twice d (2 ^ k) (pow_pos k)
        ∙ ap (λ q. min (d * q) max_retry_delay_ms) (sym (pow-suc 2 k)))
