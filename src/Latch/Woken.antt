-- ===== src/Latch/Woken.antt =====
-- Nobody sleeps at an open latch of src/Threads/CountDownLatch.cpp, and nobody passes a closed one.
use learning_network.Prelude.{
  ℕ, ◌≡◌, refl, sym, ◌∙◌, ap, Bool, true, false, List, [], ◌∷◌, if_intro, assign, ◌⊎◌,
}
use learning_network.Latch.{
  LatchPc, wait_locking, wait_testing, asleep, awake, wait_unlocking, waited, down_locking,
  down_counting, down_notifying, down_unlocking, counted_down, Latch, is_positive, release,
  latch_step, LatchEvent, runs, stirs, sleeps, latch_exec, latch_history, new_latch,
}
use learning_network.Latch.Fair.{
  holds, passed, notifies, IsFair, move-IsFair, take_lock-IsFair, release-IsFair, pass-IsFair,
  sleep-IsFair, count-IsFair, notify-IsFair,
}

step-IsFair :
    (i : ℕ) (pc : LatchPc) (s : Latch) → IsFair s → s.threads i ≡ pc → IsFair (latch_step i pc s)
unfolding latch_step
step-IsFair i wait_locking s v e = take_lock-IsFair i wait_testing s v refl refl (ap notifies e)
step-IsFair i wait_testing s v e =
    if_intro IsFair (is_positive s.count) {x = release i asleep s}
      {y = record s { threads = assign i wait_unlocking s.threads }} (sleep-IsFair i s v e)
      (pass-IsFair i s v e)
step-IsFair i asleep s v e = v
step-IsFair i awake s v e = take_lock-IsFair i wait_testing s v refl refl (ap notifies e)
step-IsFair i wait_unlocking s v e =
    release-IsFair i waited s v (ap holds e) refl refl (λ _. v.opened i (ap passed e))
      (ap notifies e)
step-IsFair i waited s v e = v
step-IsFair i down_locking s v e = take_lock-IsFair i down_counting s v refl refl (ap notifies e)
step-IsFair i down_counting s v e = count-IsFair i s v e
step-IsFair i down_notifying s v e = notify-IsFair i s v e
step-IsFair i down_unlocking s v e =
    release-IsFair i counted_down s v (ap holds e) refl refl (λ p. absurd (cc)) (ap notifies e)
step-IsFair i counted_down s v e = v

sleeps-notifies : (pc : LatchPc) → sleeps pc ≡ true → (notifies pc ≡ false) × (holds pc ≡ false)
sleeps-notifies asleep e = (refl, refl)
sleeps-notifies wait_locking e = absurd (cc)
sleeps-notifies wait_testing e = absurd (cc)
sleeps-notifies awake e = absurd (cc)
sleeps-notifies wait_unlocking e = absurd (cc)
sleeps-notifies waited e = absurd (cc)
sleeps-notifies down_locking e = absurd (cc)
sleeps-notifies down_counting e = absurd (cc)
sleeps-notifies down_notifying e = absurd (cc)
sleeps-notifies down_unlocking e = absurd (cc)
sleeps-notifies counted_down e = absurd (cc)

exec-IsFair : (e : LatchEvent) (s : Latch) → IsFair s → IsFair (latch_exec e s)
unfolding latch_exec
exec-IsFair (runs i) s v = step-IsFair i (s.threads i) s v refl
exec-IsFair (stirs i) s v =
    if_intro IsFair (sleeps (s.threads i)) {x = record s { threads = assign i awake s.threads }}
      {y = s}
      (λ e.
        move-IsFair i awake s.holder s v refl (λ p. absurd (cc)) (sleeps-notifies (s.threads i) e).0
          (λ p. absurd (cc)) (λ j _ h. v.held j h))
      (λ _. v)

history-IsFair : (es : List LatchEvent) (s : Latch) → IsFair s → IsFair (latch_history es s)
unfolding latch_history
history-IsFair [] s v = v
history-IsFair (e ∷ es) s v = history-IsFair es (latch_exec e s) (exec-IsFair e s v)

-- A thread before its call.
abbrev pub begins : LatchPc → Bool
begins wait_locking = true
begins down_locking = true
begins pc = false

begins_lem :
    (pc : LatchPc)
    → begins pc ≡ true
    → (holds pc ≡ false) × (sleeps pc ≡ false) × (passed pc ≡ false)
begins_lem wait_locking e = (refl, refl, refl)
begins_lem down_locking e = (refl, refl, refl)
begins_lem asleep e = absurd (cc)
begins_lem wait_testing e = absurd (cc)
begins_lem awake e = absurd (cc)
begins_lem wait_unlocking e = absurd (cc)
begins_lem waited e = absurd (cc)
begins_lem down_counting e = absurd (cc)
begins_lem down_notifying e = absurd (cc)
begins_lem down_unlocking e = absurd (cc)
begins_lem counted_down e = absurd (cc)

new-IsFair :
    (count : ℕ) (threads : ℕ → LatchPc)
    → ((i : ℕ) → begins (threads i) ≡ true)
    → IsFair (new_latch count threads)
unfolding new_latch
new-IsFair count threads b = record {
  held = λ i h. absurd (let r = (begins_lem (threads i) (b i)).0 in cc);
  heard = λ i h. absurd (let r = (begins_lem (threads i) (b i)).1 in cc);
  opened = λ i h. absurd (let r = (begins_lem (threads i) (b i)).2 in cc);
}

-- For any number of threads that wait at a new latch and count it down, any interleaving of them and any
-- wake-ups without a signal: a call of `wait` returns only when the count is not above zero; at
-- most one thread holds the mutex; and a thread sleeps only while the count is above zero or the
-- thread that counted it to zero is about to notify it, so that no wake-up is lost.
pub latch_history-heard :
    (count : ℕ) (threads : ℕ → LatchPc) (es : List LatchEvent)
    → ((i : ℕ) → begins (threads i) ≡ true)
    → let s = latch_history es (new_latch count threads) in
      ((i : ℕ) → passed (s.threads i) ≡ true → is_positive s.count ≡ false)
      × ((i j : ℕ) → holds (s.threads i) ≡ true → holds (s.threads j) ≡ true → i ≡ j)
      × ((i : ℕ)
          → sleeps (s.threads i) ≡ true
          → (is_positive s.count ≡ true) ⊎ ((j : ℕ) × (notifies (s.threads j) ≡ true)))
latch_history-heard count threads es b =
    let v = history-IsFair es (new_latch count threads) (new-IsFair count threads b) in
    (v.opened, λ i j h k. let e = sym (v.held i h) ∙ v.held j k in cc, v.heard)
