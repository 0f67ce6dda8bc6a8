-- ===== src/Latch/Fair.antt =====
-- The invariant of src/Threads/CountDownLatch.cpp, and the moves of a thread that keep it.
use learning_network.Prelude.{
  ℕ, zero, suc, ◌≡◌, ◌≢◌, refl, sym, ◌∙◌, ap, subst, Bool, true, false, Option, none, some,
  Option-cases, if_intro, if◌then◌else◌, assign, assign_elim, assign_intro, assign_self, ◌⊎◌, inl,
  inr,
}
use learning_network.LogStream.{ℤ, pos, negsuc}
use learning_network.Latch.{
  LatchPc, wait_locking, wait_testing, asleep, awake, wait_unlocking, waited, down_locking,
  down_counting, down_notifying, down_unlocking, counted_down, Latch, is_positive, is_nil,
  decrement, take_lock, release, wake, sleeps,
}

-- What is known of a thread's place.
abbrev pub holds : LatchPc → Bool
holds wait_testing = true
holds wait_unlocking = true
holds down_counting = true
holds down_notifying = true
holds down_unlocking = true
holds pc = false

abbrev pub passed : LatchPc → Bool
passed wait_unlocking = true
passed waited = true
passed pc = false

abbrev pub notifies : LatchPc → Bool
notifies down_notifying = true
notifies pc = false

pub record IsFair (s : Latch) : Type 0 where
  pub held : (i : ℕ) → holds (s.threads i) ≡ true → s.holder ≡ some i
  pub heard :
      (i : ℕ)
      → sleeps (s.threads i) ≡ true
      → (is_positive s.count ≡ true) ⊎ ((j : ℕ) × (notifies (s.threads j) ≡ true))
  pub opened : (i : ℕ) → passed (s.threads i) ≡ true → is_positive s.count ≡ false

-- A thread moves to a place where it neither sleeps nor passes, from one where it does not notify;
-- the count stays, and the mutex goes to it or stays with it.
pub move-IsFair :
    (i : ℕ) (pc : LatchPc) (h : Option ℕ) (s : Latch)
    → IsFair s
    → sleeps pc ≡ false
    → (passed pc ≡ true → is_positive s.count ≡ false)
    → notifies (s.threads i) ≡ false
    → (holds pc ≡ true → h ≡ some i)
    → ((j : ℕ) → i ≢ j → holds (s.threads j) ≡ true → h ≡ some j)
    → IsFair (record s { holder = h; threads = assign i pc s.threads })
move-IsFair i pc h s v a b n k l = record {
  held = λ j e. elim (assign_elim (λ x. holds x ≡ true) i j pc s.threads e) [
    | inl (p, e') ↦ subst (λ x. h ≡ some x) p (k e')
    | inr (p, e') ↦ l j p e'
  ];
  heard = λ j e. elim (assign_elim (λ x. sleeps x ≡ true) i j pc s.threads e) [
    | inl (p, e') ↦ absurd (cc)
    | inr (p, e') ↦ elim (v.heard j e') [
      | inl c ↦ inl c
      | inr (m, e2) ↦ inr (
        m,
        assign_intro (λ x. notifies x ≡ true) i m pc s.threads
            (λ p'. absurd (let q = ap (λ x. notifies (s.threads x)) p' in cc)) (λ _. e2),
      )
    ]
  ];
  opened = λ j e. elim (assign_elim (λ x. passed x ≡ true) i j pc s.threads e) [
    | inl (p, e') ↦ b e'
    | inr (p, e') ↦ v.opened j e'
  ];
}

-- The holder is nobody else.
alone :
    (i j : ℕ) (s : Latch)
    → IsFair s
    → holds (s.threads i) ≡ true
    → i ≢ j
    → holds (s.threads j) ≡ true
    → ⊥
alone i j s v a n b = let e : some i ≡ some j = sym (v.held i a) ∙ v.held j b in n (cc)

pub take_lock-IsFair :
    (i : ℕ) (pc : LatchPc) (s : Latch)
    → IsFair s
    → sleeps pc ≡ false
    → passed pc ≡ false
    → notifies (s.threads i) ≡ false
    → IsFair (take_lock i pc s)
unfolding take_lock
take_lock-IsFair i pc s v a b n =
    let taken : Latch = record s { holder = some i; threads = assign i pc s.threads } in
    elim (Option-cases s.holder) [
      | inr (j, e) ↦ subst (λ h. IsFair (elim h [ none ↦ taken | some k ↦ s ])) (sym e) v
      | inl e ↦
          subst (λ h. IsFair (elim h [ none ↦ taken | some k ↦ s ])) (sym e)
            (move-IsFair i pc (some i) s v a (λ p. absurd (cc)) n (λ _. refl)
              (λ j _ h. absurd (let q = sym e ∙ v.held j h in cc)))
    ]

pub release-IsFair :
    (i : ℕ) (pc : LatchPc) (s : Latch)
    → IsFair s
    → holds (s.threads i) ≡ true
    → holds pc ≡ false
    → sleeps pc ≡ false
    → (passed pc ≡ true → is_positive s.count ≡ false)
    → notifies (s.threads i) ≡ false
    → IsFair (release i pc s)
unfolding release
release-IsFair i pc s v h k a b n =
    move-IsFair i pc none s v a b n (λ p. absurd (cc)) (λ j d e. absurd (alone i j s v h d e))

pub pass-IsFair :
    (i : ℕ) (s : Latch)
    → IsFair s
    → s.threads i ≡ wait_testing
    → is_positive s.count ≡ false
    → IsFair (record s { threads = assign i wait_unlocking s.threads })
pass-IsFair i s v e p =
    move-IsFair i wait_unlocking s.holder s v refl (λ _. p) (ap notifies e)
      (λ _. v.held i (ap holds e)) (λ j _ h. v.held j h)

-- It goes to sleep while the count is positive.
pub sleep-IsFair :
    (i : ℕ) (s : Latch)
    → IsFair s
    → s.threads i ≡ wait_testing
    → is_positive s.count ≡ true
    → IsFair (release i asleep s)
unfolding release
sleep-IsFair i s v e p = record {
  held = λ j h. elim (assign_elim (λ x. holds x ≡ true) i j asleep s.threads h) [
    | inl (q, h') ↦ absurd (cc)
    | inr (q, h') ↦ absurd (alone i j s v (ap holds e) q h')
  ];
  heard = λ j h. inl p;
  opened = λ j h. elim (assign_elim (λ x. passed x ≡ true) i j asleep s.threads h) [
    | inl (q, h') ↦ absurd (cc)
    | inr (q, h') ↦ v.opened j h'
  ];
}

decrement_cases :
    (c : ℤ)
    → is_positive c ≡ true
    → (is_positive (decrement c) ≡ true) ⊎ (is_nil (decrement c) ≡ true)
decrement_cases (pos zero) e = absurd (cc)
decrement_cases (pos (suc zero)) e = inr refl
decrement_cases (pos (suc (suc n))) e = inl refl
decrement_cases (negsuc n) e = absurd (cc)

decrement_stays : (c : ℤ) → is_positive c ≡ false → is_positive (decrement c) ≡ false
decrement_stays (pos zero) e = refl
decrement_stays (pos (suc n)) e = absurd (cc)
decrement_stays (negsuc n) e = refl

-- Where a thread goes after `--count`.
abbrev after_count : ℤ → LatchPc
after_count c = if is_nil c then down_notifying else down_unlocking

after_lem : (c : ℤ) → (sleeps (after_count c) ≡ false) × (passed (after_count c) ≡ false)
after_lem c =
    if_intro (λ x. (sleeps x ≡ false) × (passed x ≡ false)) (is_nil c) {x = down_notifying}
      {y = down_unlocking} (λ _. (refl, refl)) (λ _. (refl, refl))

notifies-holds : (pc : LatchPc) → notifies pc ≡ true → holds pc ≡ true
notifies-holds down_notifying e = refl
notifies-holds wait_locking e = absurd (cc)
notifies-holds wait_testing e = absurd (cc)
notifies-holds asleep e = absurd (cc)
notifies-holds awake e = absurd (cc)
notifies-holds wait_unlocking e = absurd (cc)
notifies-holds waited e = absurd (cc)
notifies-holds down_locking e = absurd (cc)
notifies-holds down_counting e = absurd (cc)
notifies-holds down_unlocking e = absurd (cc)
notifies-holds counted_down e = absurd (cc)

pub count-IsFair :
    (i : ℕ) (s : Latch)
    → IsFair s
    → s.threads i ≡ down_counting
    → IsFair (record s {
      count = decrement s.count;
      threads = assign i (after_count (decrement s.count)) s.threads;
    })
count-IsFair i s v e = record {
  held = λ j h. elim (assign_elim (λ x. holds x ≡ true) i j pc s.threads h) [
    | inl (q, h') ↦ subst (λ x. s.holder ≡ some x) q (v.held i (ap holds e))
    | inr (q, h') ↦ v.held j h'
  ];
  heard = λ j h. elim (assign_elim (λ x. sleeps x ≡ true) i j pc s.threads h) [
    | inl (q, h') ↦ absurd (let r = (after_lem (decrement s.count)).0 in cc)
    | inr (q, h') ↦ elim (v.heard j h') [
      | inl p ↦ elim (decrement_cases s.count p) [
        | inl p' ↦ inl p'
        | inr z ↦ inr (
          i,
          subst (λ x. notifies x ≡ true) (sym (assign_self i pc s.threads))
              (ap (λ b. notifies (if b then down_notifying else down_unlocking)) z),
        )
      ]
      | inr (m, n) ↦ absurd (alone i m s v (ap holds e) (other m n) (notifies-holds _ n))
    ]
  ];
  opened = λ j h. elim (assign_elim (λ x. passed x ≡ true) i j pc s.threads h) [
    | inl (q, h') ↦ absurd (let r = (after_lem (decrement s.count)).1 in cc)
    | inr (q, h') ↦ decrement_stays s.count (v.opened j h')
  ];
}
  where
    pc : LatchPc
    pc = after_count (decrement s.count)

    other : (m : ℕ) → notifies (s.threads m) ≡ true → i ≢ m
    other m n p =
        let r : notifies (s.threads m) ≡ false =
          ap (λ k. notifies (s.threads k)) (sym p) ∙ ap notifies e in
        absurd (cc)

wake_holds : (pc : LatchPc) → holds (wake pc) ≡ holds pc
unfolding wake
wake_holds asleep = refl
wake_holds wait_locking = refl
wake_holds wait_testing = refl
wake_holds awake = refl
wake_holds wait_unlocking = refl
wake_holds waited = refl
wake_holds down_locking = refl
wake_holds down_counting = refl
wake_holds down_notifying = refl
wake_holds down_unlocking = refl
wake_holds counted_down = refl

wake_rest : (pc : LatchPc) → (sleeps (wake pc) ≡ false) × (passed (wake pc) ≡ passed pc)
unfolding wake
wake_rest asleep = (refl, refl)
wake_rest wait_locking = (refl, refl)
wake_rest wait_testing = (refl, refl)
wake_rest awake = (refl, refl)
wake_rest wait_unlocking = (refl, refl)
wake_rest waited = (refl, refl)
wake_rest down_locking = (refl, refl)
wake_rest down_counting = (refl, refl)
wake_rest down_notifying = (refl, refl)
wake_rest down_unlocking = (refl, refl)
wake_rest counted_down = (refl, refl)

pub notify-IsFair :
    (i : ℕ) (s : Latch)
    → IsFair s
    → s.threads i ≡ down_notifying
    → IsFair (record s { threads = assign i down_unlocking (λ j. wake (s.threads j)) })
notify-IsFair i s v e = record {
  held = λ j h. elim (assign_elim (λ x. holds x ≡ true) i j down_unlocking woken h) [
    | inl (q, h') ↦ subst (λ x. s.holder ≡ some x) q (v.held i (ap holds e))
    | inr (q, h') ↦ v.held j (sym (wake_holds (s.threads j)) ∙ h')
  ];
  heard = λ j h. elim (assign_elim (λ x. sleeps x ≡ true) i j down_unlocking woken h) [
    | inl (q, h') ↦ absurd (cc)
    | inr (q, h') ↦ absurd (let r = (wake_rest (s.threads j)).0 in cc)
  ];
  opened = λ j h. elim (assign_elim (λ x. passed x ≡ true) i j down_unlocking woken h) [
    | inl (q, h') ↦ absurd (cc)
    | inr (q, h') ↦ v.opened j (sym (wake_rest (s.threads j)).1 ∙ h')
  ];
}
  where
    woken : ℕ → LatchPc
    woken j = wake (s.threads j)
