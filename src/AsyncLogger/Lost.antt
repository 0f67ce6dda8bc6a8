-- ===== src/AsyncLogger/Lost.antt =====
-- src/Loggers/AsyncLogger.cpp: the words of `state` from which nothing is logged any more.
use learning_network.Prelude.{
  ℕ, ◌≡◌, ◌⊎◌, inl, inr, refl, sym, subst, ◌∙◌, ap, arith, ◌==◌, ==_iff, Bool, true, not, if_intro,
  List, [], ◌∷◌, ◌++◌, append_assoc, assign, assign_elim,
}
use learning_network.AsyncLogger.{
  full, available, has, is_busy, AppenderPc, loading, swapping, inside, leaving, appended, refused,
  WriterPc, writer_testing, writer_loading, writer_swapping, writer_clearing, writer_inside,
  writer_leaving, writing, writer_closing, writer_ended, StopperPc, stop_start, stop_loading,
  stop_swapping, stop_joining, stop_given_up, Log, LogEvent, append, write, stop, concat, stop_step,
  writer_step, append_step, log_exec, log_history, started,
}
use learning_network.AsyncLogger.Lock.{Holds, WriterHolds, Knows, WriterKnows, Locked}
use learning_network.AsyncLogger.Exclusion.{
  open_old, swap_old, not-true, log_exec-Locked, log_history-Locked, started-Locked,
}
use learning_network.AsyncLogger.Lines.{to_write}

-- No bit says `available`, as after the store of `full`, or after the end.
abbrev IsShut : ℕ → Type 0
IsShut w = (w ≡ 2) ⊎ (w ≡ 0)

shut : (w : ℕ) → IsShut w → has w available ≡ true → ⊥
shut w (inl e) f = ground arith
shut w (inr e) f = ground arith

no_prefix {ℓ} : {A : Type ℓ} (xs ys : List A) → xs ++ ys ≡ [] → xs ≡ []
no_prefix [] ys e = refl
no_prefix (x ∷ xs) ys e = absurd (cc)

module _ {ℓ} {L : Type ℓ} (len : L → ℕ) where
  -- The logger is shut, and nobody is at the buffers.
  abbrev IsDead : Log L → Type 0
  IsDead s = IsShut s.state × ((i : ℕ) → Holds (s.appenders i) → ⊥)

  -- The buffers stay as they are, and the file gets only what the thread that writes had taken out.
  abbrev pub Frozen : Log L → Log L → Type ℓ
  Frozen s s' =
      (s'.taken ≡ s.taken)
      × (s'.buffers ≡ s.buffers)
      × (s'.cur_buffer ≡ s.cur_buffer)
      × (s'.written ++ to_write s'.writer ≡ s.written ++ to_write s.writer)

  abbrev Stays : Log L → Log L → Type ℓ
  Stays s s' = IsDead s' × Frozen s s'

  same : (s : Log L) → Frozen s s
  same s = (refl, refl, refl, refl)

  others :
      (i : ℕ) (pc : AppenderPc L) (s : Log L)
      → IsDead s
      → (Holds pc → ⊥)
      → (j : ℕ) → Holds (assign i pc s.appenders j)
      → ⊥
  others i pc s d f j h = elim (assign_elim Holds i j pc s.appenders h) [
    | inl (_, x) ↦ f x
    | inr (_, x) ↦ d.1 j x
  ]

  append_step-Stays :
      (i : ℕ) (pc : AppenderPc L) (s : Log L)
      → s.appenders i ≡ pc
      → Locked s
      → IsDead s
      → Stays s (append_step len i pc s)
  unfolding append_step
  append_step-Stays i (loading l) s e k d =
      if_intro (Stays s) (not (has s.state available))
        (λ _. ((d.0, others i refused s d (λ x. x)), same s))
        (λ f. absurd (shut s.state d.0 (not-true (has s.state available) f)))
  append_step-Stays i (swapping l old) s e k d =
      if_intro (Stays s) (s.state == old)
        (λ f.
          let (now, _) =
            open_old s.state old k.word ((==_iff s.state old).0 f) (subst Knows e (k.knows i)) in
          absurd (ground (arith, now, d.0)))
        (λ _. ((d.0, others i (loading l) s d (λ x. x)), same s))
  append_step-Stays i (inside l) s e k d = absurd (d.1 i (subst Holds (sym e) tt))
  append_step-Stays i (leaving w) s e k d = absurd (d.1 i (subst Holds (sym e) tt))
  append_step-Stays i appended s e k d = (d, same s)
  append_step-Stays i refused s e k d = (d, same s)

  moved :
      (s : Log L) (pc wr : WriterPc L)
      → s.writer ≡ pc
      → to_write wr ≡ to_write pc
      → s.written ++ to_write wr ≡ s.written ++ to_write s.writer
  moved s pc wr e f = ap (λ xs. s.written ++ xs) (f ∙ ap to_write (sym e))

  writer_step-Stays :
      (spurious : Bool) (pc : WriterPc L) (s : Log L)
      → s.writer ≡ pc
      → Locked s
      → IsDead s
      → Stays s (writer_step spurious pc s)
  unfolding writer_step concat
  writer_step-Stays spurious writer_testing s e k d =
      if_intro (Stays s) s.running
        (λ _. (d, (refl, refl, refl, moved s writer_testing writer_loading e refl)))
        (λ _. (d, (refl, refl, refl, moved s writer_testing writer_closing e refl)))
  writer_step-Stays spurious writer_loading s e k d =
      if_intro (Stays s) (not (has s.state available))
        (λ _. (d, (refl, refl, refl, moved s writer_loading writer_ended e refl)))
        (λ f. absurd (shut s.state d.0 (not-true (has s.state available) f)))
  writer_step-Stays spurious (writer_swapping old) s e k d =
      if_intro (Stays s) (s.state == old)
        (λ f.
          let (now, _) =
            swap_old s.state old k.word ((==_iff s.state old).0 f)
              (subst WriterKnows e k.writer_knows) (λ t. subst WriterHolds e (k.held t)) in
          absurd (ground (arith, now, d.0)))
        (λ _. (d, (refl, refl, refl, moved s (writer_swapping old) writer_loading e refl)))
  writer_step-Stays spurious (writer_clearing old) s e k d =
      absurd (subst WriterKnows e k.writer_knows)
  writer_step-Stays spurious writer_inside s e k d =
      absurd (ground (arith, k.writer_holds (subst WriterHolds (sym e) tt), d.0))
  writer_step-Stays spurious (writer_leaving bs) s e k d =
      absurd (ground (arith, k.writer_holds (subst WriterHolds (sym e) tt), d.0))
  writer_step-Stays spurious (writing []) s e k d =
      (d, (refl, refl, refl, moved s (writing []) writer_testing e refl))
  writer_step-Stays spurious (writing (b ∷ bs)) s e k d = (
    d,
    (
      refl,
      refl,
      refl,
      append_assoc s.written b (concat bs) ∙ moved s (writing (b ∷ bs)) (writing (b ∷ bs)) e refl,
    ),
  )
  writer_step-Stays spurious writer_closing s e k d =
      ((inr refl, d.1), (refl, refl, refl, moved s writer_closing writer_ended e refl))
  writer_step-Stays spurious writer_ended s e k d = (d, same s)

  stop_step-Stays :
      (pc : StopperPc) (s : Log L) → s.stopper ≡ pc → Locked s → IsDead s → Stays s (stop_step pc s)
  unfolding stop_step
  stop_step-Stays stop_start s e k d = (d, same s)
  stop_step-Stays stop_loading s e k d =
      if_intro (Stays s) (not (has s.state available)) (λ _. (d, same s))
        (λ _. if_intro (Stays s) (is_busy s.state) (λ _. (d, same s)) (λ _. (d, same s)))
  stop_step-Stays (stop_swapping old) s e k d =
      if_intro (Stays s) (s.state == old) (λ _. ((inr refl, d.1), same s)) (λ _. (d, same s))
  stop_step-Stays stop_joining s e k d = (d, same s)
  stop_step-Stays stop_given_up s e k d = (d, same s)

  log_exec-Stays : (e : LogEvent) (s : Log L) → Locked s → IsDead s → Stays s (log_exec len e s)
  unfolding log_exec
  log_exec-Stays (append i) s k d = append_step-Stays i (s.appenders i) s refl k d
  log_exec-Stays (write spurious) s k d = writer_step-Stays spurious s.writer s refl k d
  log_exec-Stays stop s k d = stop_step-Stays s.stopper s refl k d

  log_history-Frozen :
      (es : List LogEvent) (s : Log L) → Locked s → IsDead s → Frozen s (log_history len es s)
  unfolding log_history
  log_history-Frozen [] s k d = same s
  log_history-Frozen (e ∷ es) s k d =
      let (d', (a, b, c, f)) = log_exec-Stays e s k d in
      let (a', b', c', f') =
        log_history-Frozen es (log_exec len e s) (log_exec-Locked len e s k) d' in
      (a' ∙ a, b' ∙ b, c' ∙ c, f' ∙ f)

  -- In every state that an interleaving leads to from a `state` of `available`, and in which `state` is
  -- `full` alone: whatever the threads do from then on, no further line is taken, the buffers stay as
  -- they are, and the file gets at most what the thread that writes had taken out before.
  pub full_loses :
      (lines : ℕ → L) (es fs : List LogEvent)
      → (log_history len es (started available lines)).state ≡ full
      → let s = log_history len es (started available lines) in Frozen s (log_history len fs s)
  full_loses lines es fs e =
      let s = log_history len es (started available lines) in
      let k =
        log_history-Locked len es (started available lines)
          (started-Locked available lines (inl refl) (λ x. omega (arith, x))) in
      log_history-Frozen fs s k (inl e, λ i h. ground (arith, k.holds i h, e))

  -- From a `state` of 0 no line is ever taken and the file stays empty, in every interleaving.
  pub never_available :
      (lines : ℕ → L) (es : List LogEvent)
      → ((log_history len es (started 0 lines)).taken ≡ [])
        × ((log_history len es (started 0 lines)).written ≡ [])
  unfolding started
  never_available lines es =
      let (a, _, _, b) =
        log_history-Frozen es (started 0 lines)
          (started-Locked 0 lines (inr (inr (inr (inr refl)))) (λ x. omega (arith, x)))
          (inr refl, λ i h. h) in
      (a, no_prefix _ _ b)
