-- ===== src/StateWord/Interleaving.antt =====
-- The invariant of `state_` of src/TcpConnection.cpp over every interleaving of its threads.
use learning_network.Prelude.{
  ℕ, ◌+◌, ◌^◌, ◌≤◌, ◌<◌, ◌≡◌, refl, sym, arith, true, List, [], ◌∷◌, some, get_elem?, length, ◌⊎◌,
  inl, inr, Option-cases, All, All-get_elem?, All-set, sub64, length-set, subst,
}
use learning_network.StateWord.{
  one_sender, xor_sender, Pc, idle, trying, marked, inside, leaving, last, unusing, done, World,
  Event, run, hang_up, exec, history, put_thread, thread_step, try_step, mark_step, leave_step,
  last_step, unuse_step, senders, has_used, has_writing, has_disconnected, state_connected, used,
}
use learning_network.StateWord.Bits.{
  is_inside, is_past, total, total-set, total-ge, total-le-length, is_past-le,
}

-- What a thread remembers of the word: `writing` and `used` at the mark, no sender at the last swap.
abbrev PcOk : Pc → Type 0
PcOk idle = Unit {0}
PcOk (trying old) = Unit {0}
PcOk (marked old) = (has_writing old ≡ true) × (has_used old ≡ true)
PcOk inside = Unit {0}
PcOk (leaving old) = Unit {0}
PcOk (last old) = (has_writing old ≡ true) × (senders old ≡ 0)
PcOk (unusing old) = Unit {0}
PcOk done = Unit {0}

-- Of a word, for `n` counted senders and `p` threads that are past: unless the connection was
-- closed, every one of them is counted in the word, and a word with senders is marked and used.
abbrev WordOk : ℕ → ℕ → ℕ → Type 0
WordOk w n p =
    (has_disconnected w ≡ true)
    ⊎ ((n ≤ senders w)
        × (senders w ≤ p)
        × ((senders w ≡ 0) ⊎ ((has_writing w ≡ true) × (has_used w ≡ true))))

-- One access keeps this, when the counts change with the thread's place.
abbrev StepOk : ℕ → ℕ → ℕ → Pc → ℕ × Pc → Type 0
StepOk w n p pc (w', pc') =
    PcOk pc'
    × (w' < 2 ^ 64)
    × ((n' p' : ℕ)
        → n' + is_inside pc ≡ n + is_inside pc'
        → p' + is_past pc ≡ p + is_past pc'
        → WordOk w' n' p')

-- What a pass of `sendInLoop`'s loop comes to.
leave_cases :
    (w old : ℕ)
    → (leave_step w old ≡ (w, done))
      ⊎ ((has_used w ≡ true)
          × (has_writing w ≡ true)
          × (senders w ≡ 1)
          × (leave_step w old ≡ (sub64 w one_sender, last (xor_sender w))))
      ⊎ ((has_used w ≡ true)
          × (has_writing w ≡ true)
          × (leave_step w old ≡ (sub64 w one_sender, done)))
unfolding leave_step
leave_cases w old = ground arith

module _ (w n p : ℕ) (small : w < 2 ^ 64) (few : p < 2 ^ 57) (ok : WordOk w n p) where
  try_ok : (old : ℕ) → StepOk w n p (trying old) (try_step w old)
  unfolding try_step
  try_ok old = ground arith

  mark_ok : (old : ℕ) → PcOk (marked old) → StepOk w n p (marked old) (mark_step w old)
  unfolding mark_step
  mark_ok old h = ground arith

  last_ok : (old : ℕ) → PcOk (last old) → StepOk w n p (last old) (last_step w old)
  unfolding last_step
  last_ok old h = ground arith

  unuse_ok : (old : ℕ) → StepOk w n p (unusing old) (unuse_step w old)
  unfolding unuse_step
  unuse_ok old = ground arith

  -- The swap of `sendInLoop` succeeded on a marked word: with one sender and with more.
  leave_last :
      is_inside inside ≤ n
      → has_used w ≡ true
      → has_writing w ≡ true
      → senders w ≡ 1
      → StepOk w n p (leaving w) (sub64 w one_sender, last (xor_sender w))
  leave_last h u m one = ground arith

  leave_more :
      is_inside inside ≤ n
      → has_used w ≡ true
      → has_writing w ≡ true
      → StepOk w n p (leaving w) (sub64 w one_sender, done)
  leave_more h u m = ground arith

  stay_ok : (old : ℕ) → StepOk w n p (leaving old) (w, done)
  stay_ok old = ground arith

  leave_ok : (old : ℕ) → is_inside (leaving old) ≤ n → StepOk w n p (leaving old) (leave_step w old)
  unfolding leave_step
  leave_ok old h = elim (leave_cases w old) [
    | inl e ↦ subst (StepOk w n p (leaving old)) (sym e) (stay_ok old)
    | inr (inl (u, m, one, e)) ↦ subst (StepOk w n p (leaving old)) (sym e) (leave_last h u m one)
    | inr (inr (u, m, e)) ↦ subst (StepOk w n p (leaving old)) (sym e) (leave_more h u m)
  ]

  thread_ok : (pc : Pc) → PcOk pc → is_inside pc ≤ n → StepOk w n p pc (thread_step w pc)
  unfolding thread_step
  thread_ok idle h k = ground arith
  thread_ok (trying old) h k = try_ok old
  thread_ok (marked old) h k = mark_ok old h
  thread_ok inside h k = ground arith
  thread_ok (leaving old) h k = leave_ok old k
  thread_ok (last old) h k = last_ok old h
  thread_ok (unusing old) h k = unuse_ok old
  thread_ok done h k = ground arith

-- The invariant: the word is a `uint64_t`, agrees with the counts of the threads, and each thread
-- remembers what it may; there are fewer than 2^57 threads.
pub record IsSound (s : World) : Type 0 where
  pub small : s.word < 2 ^ 64
  pub few : length s.threads < 2 ^ 57
  pub word_ok : WordOk s.word (total is_inside s.threads) (total is_past s.threads)
  pub threads_ok : All PcOk s.threads

put_thread-IsSound :
    (s : World) (i : ℕ) (pc : Pc) (r : ℕ × Pc)
    → IsSound s
    → get_elem? s.threads i ≡ some pc
    → StepOk s.word (total is_inside s.threads) (total is_past s.threads) pc r
    → IsSound (put_thread s i r)
unfolding put_thread
put_thread-IsSound s i pc (w', pc') v e (k, b, f) = record {
  small = b;
  few = rw (length-set s.threads i pc') v.few;
  word_ok =
      f _ _ (total-set is_inside s.threads i pc pc' e) (total-set is_past s.threads i pc pc' e);
  threads_ok = All-set PcOk s.threads i pc' v.threads_ok k;
}

exec-IsSound : (e : Event) (s : World) → IsSound s → IsSound (exec e s)
unfolding exec
exec-IsSound hang_up s v = record {
  small = omega arith;
  few = v.few;
  word_ok = inl refl;
  threads_ok = v.threads_ok;
}
exec-IsSound (run i) s v = elim (Option-cases (get_elem? s.threads i)) [
  | inl e ↦ rw (e, exec) v
  | inr (pc, e) ↦
      rw (e, exec)
        (put_thread-IsSound s i pc (thread_step s.word pc) v e (
          thread_ok s.word (total is_inside s.threads) (total is_past s.threads) v.small
            (omega (arith, total-le-length is_past s.threads is_past-le, v.few)) v.word_ok pc
            (All-get_elem? PcOk s.threads i pc v.threads_ok e)
            (total-ge is_inside s.threads i pc e)))
]

history-IsSound : (es : List Event) (s : World) → IsSound s → IsSound (history es s)
unfolding history
history-IsSound [] s v = v
history-IsSound (e ∷ es) s v = history-IsSound es (exec e s) (exec-IsSound e s v)

-- Threads that have not begun: senders, and those that call `set_unused`.
pub data IsFresh : Pc → Type 0 where
  a_sender : IsFresh idle
  a_closer : (old : ℕ) → IsFresh (unusing old)

fresh_first :
    {pc : Pc} (ts : List Pc)
    → IsFresh pc
    → total is_inside ts ≡ 0
    → total is_past ts ≡ 0
    → All PcOk ts
    → (total is_inside (pc ∷ ts) ≡ 0) × (total is_past (pc ∷ ts) ≡ 0) × All PcOk (pc ∷ ts)
unfolding total
fresh_first ts a_sender n p k = (omega arith, omega arith, (tt, k))
fresh_first ts (a_closer old) n p k = (omega arith, omega arith, (tt, k))

fresh_counts :
    (ts : List Pc)
    → All IsFresh ts
    → (total is_inside ts ≡ 0) × (total is_past ts ≡ 0) × All PcOk ts
unfolding total
fresh_counts [] a = (refl, refl, tt)
fresh_counts (pc ∷ ts) a = let (n, p, k) = fresh_counts ts a.1 in fresh_first ts a.0 n p k

abbrev established : List Pc → World
established ts = record { word = state_connected + used; threads = ts }

established-IsSound :
    (ts : List Pc) → length ts < 2 ^ 57 → All IsFresh ts → IsSound (established ts)
established-IsSound ts few fresh =
    let (n, p, k) = fresh_counts ts fresh in
    record {
      small = omega arith;
      few = few;
      word_ok = inr (omega arith, omega arith, inl (omega arith));
      threads_ok = k;
    }

counts_of :
    (s : World)
    → WordOk s.word (total is_inside s.threads) (total is_past s.threads)
    → (has_disconnected s.word ≡ true)
      ⊎ ((total is_inside s.threads ≤ senders s.word)
          × (1 ≤ total is_inside s.threads
              → (has_writing s.word ≡ true) × (has_used s.word ≡ true)))
counts_of s h = ground arith

-- On an established connection, for any number of threads below 2^57, each sending once or
-- calling `set_unused`, and any interleaving of their accesses to the word with the closing of the
-- connection: unless the connection was closed, the word counts at least the threads between the
-- two ends of a send, and while there is one the word is marked as written and in use.
pub history-counts :
    (es : List Event) (ts : List Pc)
    → length ts < 2 ^ 57
    → All IsFresh ts
    → let s = history es (record { word = state_connected + used; threads = ts }) in
      (has_disconnected s.word ≡ true)
      ⊎ ((total is_inside s.threads ≤ senders s.word)
          × (1 ≤ total is_inside s.threads
              → (has_writing s.word ≡ true) × (has_used s.word ≡ true)))
history-counts es ts few fresh =
    let v = history-IsSound es (established ts) (established-IsSound ts few fresh) in
    counts_of (history es (established ts)) v.word_ok
