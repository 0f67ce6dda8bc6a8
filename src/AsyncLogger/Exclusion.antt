-- ===== src/AsyncLogger/Exclusion.antt =====
-- src/Loggers/AsyncLogger.cpp: one thread at a time is at the buffers.
use learning_network.Prelude.{
  ℕ, ◌-◌, ◌≡◌, ◌≢◌, inl, inr, refl, sym, subst, ◌∙◌, arith, ◌==◌, ==_iff, Bool, true, false, not,
  if_intro, leb, List, [], ◌∷◌, ◌++◌, assign,
}
use learning_network.AsyncLogger.{
  appending, full, swaping, available, has, or_bit, is_busy, AppenderPc, loading, swapping, inside,
  leaving, appended, refused, WriterPc, writer_testing, writer_loading, writer_swapping,
  writer_clearing, writer_inside, writer_leaving, writing, writer_closing, writer_ended, StopperPc,
  stop_start, stop_loading, stop_swapping, stop_joining, stop_given_up, Log, LogEvent, append,
  write, stop, stop_step, swap_buffers, writer_step, avail, append_inside, append_step, log_exec,
  log_history, started,
}
use learning_network.AsyncLogger.Lock.{
  IsWord, open_word, Holds, WriterHolds, Knows, WriterKnows, StopperKnows, IsLocked, Locked, keep,
  enter, leave,
}

pub not-true : (b : Bool) → not b ≡ false → b ≡ true
not-true true e = refl
not-true false e = sym e

swap_word :
    (w : ℕ)
    → IsWord w
    → has w available ≡ true
    → has w full ≡ false
    → has w appending ≡ false
    → w ≢ 12
    → w ≡ 8
swap_word w (inl e) f g h n = e
swap_word w (inr (inl e)) f g h n = ground arith
swap_word w (inr (inr (inl e))) f g h n = absurd (n e)
swap_word w (inr (inr (inr (inl e)))) f g h n = ground arith
swap_word w (inr (inr (inr (inr e)))) f g h n = ground arith

-- The compare-and-swap of the thread that writes succeeds with the word 8, and so do those of the others.
pub swap_old :
    (w old : ℕ)
    → IsWord w
    → w ≡ old
    → (has old available ≡ true) × (has old full ≡ false) × (has old appending ≡ false)
    → w ≢ 12
    → (w ≡ 8) × (old ≡ 8)
swap_old w old k e (a, b, c) n =
    let x =
      swap_word w k (subst (λ y. has y available ≡ true) (sym e) a)
        (subst (λ y. has y full ≡ false) (sym e) b) (subst (λ y. has y appending ≡ false) (sym e) c)
        n in
    (x, sym e ∙ x)

pub open_old :
    (w old : ℕ)
    → IsWord w
    → w ≡ old
    → (has old available ≡ true) × (is_busy old ≡ false)
    → (w ≡ 8) × (old ≡ 8)
open_old w old k e (a, b) =
    let x =
      open_word w k (subst (λ y. has y available ≡ true) (sym e) a)
        (subst (λ y. is_busy y ≡ false) (sym e) b) in
    (x, sym e ∙ x)

never_full : (w : ℕ) → IsWord w → has w available ≡ true → has w full ≡ true → ⊥
never_full w (inl e) f g = ground arith
never_full w (inr (inl e)) f g = ground arith
never_full w (inr (inr (inl e))) f g = ground arith
never_full w (inr (inr (inr (inl e)))) f g = ground arith
never_full w (inr (inr (inr (inr e)))) f g = ground arith

module _ {ℓ} {L : Type ℓ} where
  -- The thread that writes goes on, and keeps the lock or stays without it.
  writer_keep :
      (w : ℕ) (wr wr' : WriterPc L) (st : StopperPc) (th : ℕ → AppenderPc L)
      → IsLocked w wr st th
      → (WriterHolds wr' → WriterHolds wr)
      → (WriterHolds wr → WriterHolds wr')
      → WriterKnows wr'
      → IsLocked w wr' st th
  writer_keep w wr wr' st th k f g h = record {
    word = k.word;
    holds = k.holds;
    unique = k.unique;
    writer_holds = λ x. k.writer_holds (f x);
    held = λ e. g (k.held e);
    knows = k.knows;
    writer_knows = h;
    stopper_knows = k.stopper_knows;
  }

  writer_enter :
      (w : ℕ) (wr : WriterPc L) (st : StopperPc) (th : ℕ → AppenderPc L)
      → IsLocked w wr st th
      → w ≡ 8
      → IsLocked 12 writer_inside st th
  writer_enter w wr st th k e = record {
    word = inr (inr (inl refl));
    holds = λ j h. absurd (ground (arith, k.holds j h, e));
    unique = k.unique;
    writer_holds = λ _. refl;
    held = λ _. tt;
    knows = k.knows;
    writer_knows = tt;
    stopper_knows = k.stopper_knows;
  }

  writer_leave :
      (w : ℕ) (wr : WriterPc L) (bs : List (List L)) (st : StopperPc) (th : ℕ → AppenderPc L)
      → IsLocked w wr st th
      → WriterHolds wr
      → IsLocked (w - swaping) (writing bs) st th
  writer_leave w wr bs st th k h = record {
    word = inl (omega (arith, k.writer_holds h));
    holds = λ j x. absurd (ground (arith, k.holds j x, k.writer_holds h));
    unique = k.unique;
    writer_holds = λ x. absurd x;
    held = λ e. absurd (omega (arith, e, k.writer_holds h));
    knows = k.knows;
    writer_knows = tt;
    stopper_knows = k.stopper_knows;
  }

  -- 0 is stored, whoever holds the lock.
  close :
      (w : ℕ) (wr wr' : WriterPc L) (st st' : StopperPc) (th : ℕ → AppenderPc L)
      → IsLocked w wr st th
      → (WriterHolds wr' → ⊥)
      → WriterKnows wr'
      → StopperKnows st'
      → IsLocked 0 wr' st' th
  close w wr wr' st st' th k f g h = record {
    word = inr (inr (inr (inr refl)));
    holds = λ j x. inr refl;
    unique = k.unique;
    writer_holds = λ x. absurd (f x);
    held = λ e. absurd (omega (arith, e));
    knows = k.knows;
    writer_knows = g;
    stopper_knows = h;
  }

  stopper_keep :
      (w : ℕ) (wr : WriterPc L) (st st' : StopperPc) (th : ℕ → AppenderPc L)
      → IsLocked w wr st th
      → StopperKnows st'
      → IsLocked w wr st' th
  stopper_keep w wr st st' th k h = record {
    word = k.word;
    holds = k.holds;
    unique = k.unique;
    writer_holds = k.writer_holds;
    held = k.held;
    knows = k.knows;
    writer_knows = k.writer_knows;
    stopper_knows = h;
  }

  writer_step-Locked :
      (spurious : Bool) (pc : WriterPc L) (s : Log L)
      → s.writer ≡ pc
      → Locked s
      → Locked (writer_step spurious pc s)
  unfolding writer_step swap_buffers
  writer_step-Locked spurious writer_testing s e k =
      let k' = subst (λ x. IsLocked s.state x s.stopper s.appenders) e k in
      if_intro Locked s.running
        (λ _.
          writer_keep s.state writer_testing writer_loading s.stopper s.appenders k' (λ x. x)
            (λ x. x) tt)
        (λ _.
          writer_keep s.state writer_testing writer_closing s.stopper s.appenders k' (λ x. x)
            (λ x. x) tt)
  writer_step-Locked spurious writer_loading s e k =
      let k' = subst (λ x. IsLocked s.state x s.stopper s.appenders) e k in
      if_intro Locked (not (has s.state available))
        (λ _.
          writer_keep s.state writer_loading writer_ended s.stopper s.appenders k' (λ x. x) (λ x. x)
            tt)
        (λ f.
          if_intro Locked (has s.state full)
            (λ g. absurd (never_full s.state k.word (not-true (has s.state available) f) g))
            (λ g.
              if_intro Locked (has s.state appending) (λ _. k)
                (λ h.
                  writer_keep s.state writer_loading (writer_swapping s.state) s.stopper s.appenders
                    k' (λ x. x) (λ x. x) (not-true (has s.state available) f, g, h))))
  writer_step-Locked spurious (writer_swapping old) s e k =
      let k' = subst (λ x. IsLocked s.state x s.stopper s.appenders) e k in
      if_intro Locked (s.state == old)
        (λ f.
          let (now, then_) =
            swap_old s.state old k.word ((==_iff s.state old).0 f) k'.writer_knows
              (λ t. k'.held t) in
          subst (λ x. IsLocked (or_bit x swaping) writer_inside s.stopper s.appenders) (sym then_)
            (writer_enter s.state (writer_swapping old) s.stopper s.appenders k' now))
        (λ _.
          writer_keep s.state (writer_swapping old) writer_loading s.stopper s.appenders k' (λ x. x)
            (λ x. x) tt)
  writer_step-Locked spurious (writer_clearing old) s e k =
      absurd (subst WriterKnows e k.writer_knows)
  writer_step-Locked spurious writer_inside s e k =
      writer_keep s.state s.writer (writer_leaving (s.buffers ++ (s.cur_buffer ∷ []))) s.stopper
        s.appenders k (λ _. subst WriterHolds (sym e) tt) (λ _. tt) tt
  writer_step-Locked spurious (writer_leaving bs) s e k =
      writer_leave s.state s.writer bs s.stopper s.appenders k (subst WriterHolds (sym e) tt)
  writer_step-Locked spurious (writing []) s e k =
      writer_keep s.state s.writer writer_testing s.stopper s.appenders k (λ x. absurd x)
        (λ x. subst WriterHolds e x) tt
  writer_step-Locked spurious (writing (b ∷ bs)) s e k =
      writer_keep s.state s.writer (writing bs) s.stopper s.appenders k (λ x. absurd x)
        (λ x. subst WriterHolds e x) tt
  writer_step-Locked spurious writer_closing s e k =
      close s.state s.writer writer_ended s.stopper s.stopper s.appenders k (λ x. x) tt
        k.stopper_knows
  writer_step-Locked spurious writer_ended s e k = k

  stop_step-Locked :
      (pc : StopperPc) (s : Log L) → s.stopper ≡ pc → Locked s → Locked (stop_step pc s)
  unfolding stop_step
  stop_step-Locked stop_start s e k =
      stopper_keep s.state s.writer s.stopper stop_loading s.appenders k tt
  stop_step-Locked stop_loading s e k =
      if_intro Locked (not (has s.state available))
        (λ _. stopper_keep s.state s.writer s.stopper stop_given_up s.appenders k tt)
        (λ f.
          if_intro Locked (is_busy s.state) (λ _. k)
            (λ g.
              stopper_keep s.state s.writer s.stopper (stop_swapping s.state) s.appenders k
                (not-true (has s.state available) f, g)))
  stop_step-Locked (stop_swapping old) s e k =
      if_intro Locked (s.state == old)
        (λ f.
          let (now, _) =
            open_old s.state old k.word ((==_iff s.state old).0 f)
              (subst StopperKnows e k.stopper_knows) in
          close s.state s.writer s.writer s.stopper stop_joining s.appenders k
            (λ x. omega (arith, now, k.writer_holds x)) k.writer_knows tt)
        (λ _. stopper_keep s.state s.writer s.stopper stop_loading s.appenders k tt)
  stop_step-Locked stop_joining s e k = k
  stop_step-Locked stop_given_up s e k = k

module _ {ℓ} {L : Type ℓ} where
  pub started-Locked :
      (word : ℕ) (lines : ℕ → L) → IsWord word → word ≢ 12 → Locked (started word lines)
  unfolding started
  started-Locked word lines w n = record {
    word = w;
    holds = λ i h. absurd h;
    unique = λ i j x y. absurd x;
    writer_holds = λ h. absurd h;
    held = λ e. absurd (n e);
    knows = λ i. tt;
    writer_knows = tt;
    stopper_knows = tt;
  }

module _ {ℓ} {L : Type ℓ} (len : L → ℕ) where
  append_step-Locked :
      (i : ℕ) (pc : AppenderPc L) (s : Log L)
      → s.appenders i ≡ pc
      → Locked s
      → Locked (append_step len i pc s)
  unfolding append_step append_inside
  append_step-Locked i (loading l) s e k =
      if_intro Locked (not (has s.state available))
        (λ _. keep s.state s.writer s.stopper s.appenders i refused k (λ x. absurd x) tt)
        (λ f.
          if_intro Locked (is_busy s.state) (λ _. k)
            (λ g.
              keep s.state s.writer s.stopper s.appenders i (swapping l s.state) k (λ x. absurd x)
                (not-true (has s.state available) f, g)))
  append_step-Locked i (swapping l old) s e k =
      if_intro Locked (s.state == old)
        (λ f.
          let (now, then_) =
            open_old s.state old k.word ((==_iff s.state old).0 f) (subst Knows e (k.knows i)) in
          subst
            (λ x.
              IsLocked (or_bit x appending) s.writer s.stopper (assign i (inside l) s.appenders))
            (sym then_) (enter s.state s.writer s.stopper s.appenders i (inside l) k now tt))
        (λ _. keep s.state s.writer s.stopper s.appenders i (loading l) k (λ x. absurd x) tt)
  append_step-Locked i (inside l) s e k =
      if_intro Locked (leb (len l) (avail len s.cur_buffer))
        (λ _.
          keep s.state s.writer s.stopper s.appenders i (leaving available) k
            (λ _. subst Holds (sym e) tt) (inl refl))
        (λ _.
          keep s.state s.writer s.stopper s.appenders i (leaving full) k
            (λ _. subst Holds (sym e) tt) (inr refl))
  append_step-Locked i (leaving w) s e k =
      leave s.state s.writer s.stopper s.appenders i w k (subst Holds (sym e) tt)
        (subst Knows e (k.knows i))
  append_step-Locked i appended s e k = k
  append_step-Locked i refused s e k = k

  pub log_exec-Locked : (e : LogEvent) (s : Log L) → Locked s → Locked (log_exec len e s)
  unfolding log_exec
  log_exec-Locked (append i) s k = append_step-Locked i (s.appenders i) s refl k
  log_exec-Locked (write spurious) s k = writer_step-Locked spurious s.writer s refl k
  log_exec-Locked stop s k = stop_step-Locked s.stopper s refl k

  pub log_history-Locked :
      (es : List LogEvent) (s : Log L) → Locked s → Locked (log_history len es s)
  unfolding log_history
  log_history-Locked [] s k = k
  log_history-Locked (e ∷ es) s k = log_history-Locked es (log_exec len e s) (log_exec-Locked e s k)

  -- In every interleaving of calls of `append`, of the thread that writes and of `stop`, from a logger
  -- whose `state` starts as `available`: no two calls are at the buffers at once, and none is there
  -- while the thread that writes is.
  pub log_history-exclusive :
      (lines : ℕ → L) (es : List LogEvent)
      → let s = log_history len es (started available lines) in
        ((i j : ℕ) → Holds (s.appenders i) → Holds (s.appenders j) → i ≡ j)
        × ((i : ℕ) → Holds (s.appenders i) → WriterHolds s.writer → ⊥)
  log_history-exclusive lines es =
      let k =
        log_history-Locked es (started available lines)
          (started-Locked available lines (inl refl) (λ e. omega (arith, e))) in
      (k.unique, λ i x y. ground (arith, k.holds i x, k.writer_holds y))
