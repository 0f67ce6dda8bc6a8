-- ===== src/AsyncLogger/Lines.antt =====
-- src/Loggers/AsyncLogger.cpp: what becomes of the lines.
use learning_network.Prelude.{
  ℕ, ◌≤◌, ◌≡◌, refl, sym, ◌∙◌, ap, ◌==◌, Bool, true, ◌&&◌, not, if_intro, leb, le→leb, List, [],
  ◌∷◌, ◌++◌, append_assoc, append-nil, assign, assign_intro,
}
use learning_network.AsyncLogger.{
  appending, full, available, has, is_busy, buffer_size, AppenderPc, loading, swapping, inside,
  leaving, appended, refused, WriterPc, writer_testing, writer_loading, writer_swapping,
  writer_clearing, writer_inside, writer_leaving, writing, writer_closing, writer_ended, StopperPc,
  stop_start, stop_loading, stop_swapping, stop_joining, stop_given_up, Log, LogEvent, append,
  write, stop, concat, stop_step, swap_buffers, writer_step, buffer_length, avail, buffer_append,
  append_inside, append_step, log_exec, log_history, started,
}

module _ {ℓ} {L : Type ℓ} where
  concat-append : (bs : List (List L)) (b : List L) → concat (bs ++ (b ∷ [])) ≡ concat bs ++ b
  unfolding concat
  concat-append [] b = append-nil b
  concat-append (c ∷ bs) b =
      ap (λ xs. c ++ xs) (concat-append bs b) ∙ sym (append_assoc c (concat bs) b)

  -- The lines that the thread that writes holds.
  abbrev pub to_write : WriterPc L → List L
  to_write (writer_leaving bs) = concat bs
  to_write (writing bs) = concat bs
  to_write pc = []

  -- The lines taken are those in the file, those about to go there, and those in the buffers, in order.
  abbrev pub Conserves : Log L → Type ℓ
  Conserves s = s.taken ≡ s.written ++ (to_write s.writer ++ (concat s.buffers ++ s.cur_buffer))

  added :
      (taken w t c b : List L) (l : L)
      → taken ≡ w ++ (t ++ (c ++ b))
      → taken ++ (l ∷ []) ≡ w ++ (t ++ (c ++ (b ++ (l ∷ []))))
  added taken w t c b l e =
      ap (λ xs. xs ++ (l ∷ [])) e
      ∙ append_assoc w (t ++ (c ++ b)) (l ∷ [])
      ∙ ap (λ xs. w ++ xs)
          (append_assoc t (c ++ b) (l ∷ []) ∙ ap (λ xs. t ++ xs) (append_assoc c b (l ∷ [])))

  same_lines :
      (s : Log L) (pc wr : WriterPc L)
      → s.writer ≡ pc
      → to_write pc ≡ to_write wr
      → Conserves s
      → s.taken ≡ s.written ++ (to_write wr ++ (concat s.buffers ++ s.cur_buffer))
  same_lines s pc wr e f h =
      h ∙ ap (λ t. s.written ++ (t ++ (concat s.buffers ++ s.cur_buffer))) (ap to_write e ∙ f)

  writer_step-Conserves :
      (spurious : Bool) (pc : WriterPc L) (s : Log L)
      → s.writer ≡ pc
      → Conserves s
      → Conserves (writer_step spurious pc s)
  unfolding writer_step swap_buffers concat
  writer_step-Conserves spurious writer_testing s e h =
      if_intro Conserves s.running (λ _. same_lines s writer_testing writer_loading e refl h)
        (λ _. same_lines s writer_testing writer_closing e refl h)
  writer_step-Conserves spurious writer_loading s e h =
      if_intro Conserves (not (has s.state available))
        (λ _. same_lines s writer_loading writer_ended e refl h)
        (λ _.
          if_intro Conserves (has s.state full)
            (λ _. same_lines s writer_loading (writer_clearing s.state) e refl h)
            (λ _.
              if_intro Conserves (has s.state appending) (λ _. h)
                (λ _. same_lines s writer_loading (writer_swapping s.state) e refl h)))
  writer_step-Conserves spurious (writer_swapping old) s e h =
      if_intro Conserves (s.state == old)
        (λ _. same_lines s (writer_swapping old) writer_inside e refl h)
        (λ _. same_lines s (writer_swapping old) writer_loading e refl h)
  writer_step-Conserves spurious (writer_clearing old) s e h =
      if_intro Conserves ((s.state == old) && not spurious)
        (λ _. same_lines s (writer_clearing old) writer_inside e refl h)
        (λ _. same_lines s (writer_clearing old) (writer_clearing s.state) e refl h)
  writer_step-Conserves spurious writer_inside s e h =
      same_lines s writer_inside writer_testing e refl h
      ∙ ap (λ xs. s.written ++ xs)
          (sym (concat-append s.buffers s.cur_buffer)
            ∙ sym (append-nil (concat (s.buffers ++ (s.cur_buffer ∷ [])))))
  writer_step-Conserves spurious (writer_leaving bs) s e h =
      same_lines s (writer_leaving bs) (writing bs) e refl h
  writer_step-Conserves spurious (writing []) s e h =
      same_lines s (writing []) writer_testing e refl h
  writer_step-Conserves spurious (writing (b ∷ bs)) s e h =
      same_lines s (writing (b ∷ bs)) (writing (b ∷ bs)) e refl h
      ∙ ap (λ xs. s.written ++ xs) (append_assoc b (concat bs) (concat s.buffers ++ s.cur_buffer))
      ∙ sym (append_assoc s.written b (concat bs ++ (concat s.buffers ++ s.cur_buffer)))
  writer_step-Conserves spurious writer_closing s e h =
      same_lines s writer_closing writer_ended e refl h
  writer_step-Conserves spurious writer_ended s e h = h

  stop_step-Conserves : (pc : StopperPc) (s : Log L) → Conserves s → Conserves (stop_step pc s)
  unfolding stop_step
  stop_step-Conserves stop_start s h = h
  stop_step-Conserves stop_loading s h =
      if_intro Conserves (not (has s.state available)) (λ _. h)
        (λ _. if_intro Conserves (is_busy s.state) (λ _. h) (λ _. h))
  stop_step-Conserves (stop_swapping old) s h =
      if_intro Conserves (s.state == old) (λ _. h) (λ _. h)
  stop_step-Conserves stop_joining s h = h
  stop_step-Conserves stop_given_up s h = h

module _ {ℓ} {L : Type ℓ} (len : L → ℕ) where
  -- The line of a call fits into an empty buffer.
  abbrev Fits : AppenderPc L → Type 0
  Fits (loading l) = len l ≤ buffer_size
  Fits (swapping l old) = len l ≤ buffer_size
  Fits (inside l) = len l ≤ buffer_size
  Fits pc = Unit

  abbrev FitsEach : Log L → Type 0
  FitsEach s = (i : ℕ) → Fits (s.appenders i)

  fresh_buffer : (l : L) → len l ≤ buffer_size → buffer_append len [] l ≡ l ∷ []
  unfolding buffer_append avail buffer_length
  fresh_buffer l h = rw (le→leb (len l) buffer_size h) refl

  has_room :
      (b : List L) (l : L)
      → leb (len l) (avail len b) ≡ true
      → buffer_append len b l ≡ b ++ (l ∷ [])
  unfolding buffer_append
  has_room b l h = rw h refl

  append_inside-Conserves :
      (i : ℕ) (l : L) (s : Log L)
      → len l ≤ buffer_size
      → Conserves s
      → Conserves (append_inside len i l s)
  unfolding append_inside
  append_inside-Conserves i l s f h =
      if_intro Conserves (leb (len l) (avail len s.cur_buffer))
        (λ e.
          rw (has_room s.cur_buffer l e)
            (added s.taken s.written (to_write s.writer) (concat s.buffers) s.cur_buffer l h))
        (λ _.
          rw (fresh_buffer l f, concat-append s.buffers s.cur_buffer)
            (added s.taken s.written (to_write s.writer) (concat s.buffers) s.cur_buffer l h
              ∙ ap (λ xs. s.written ++ (to_write s.writer ++ xs))
                  (sym (append_assoc (concat s.buffers) s.cur_buffer (l ∷ [])))))

  append_step-Conserves :
      (i : ℕ) (pc : AppenderPc L) (s : Log L)
      → Fits pc
      → Conserves s
      → Conserves (append_step len i pc s)
  unfolding append_step
  append_step-Conserves i (loading l) s f h =
      if_intro Conserves (not (has s.state available)) (λ _. h)
        (λ _. if_intro Conserves (is_busy s.state) (λ _. h) (λ _. h))
  append_step-Conserves i (swapping l old) s f h =
      if_intro Conserves (s.state == old) (λ _. h) (λ _. h)
  append_step-Conserves i (inside l) s f h = append_inside-Conserves i l s f h
  append_step-Conserves i (leaving w) s f h = h
  append_step-Conserves i appended s f h = h
  append_step-Conserves i refused s f h = h

  goes_on :
      (i : ℕ) (pc : AppenderPc L) (s : Log L)
      → Fits pc
      → FitsEach s
      → (j : ℕ) → Fits (assign i pc s.appenders j)
  goes_on i pc s f h j = assign_intro Fits i j pc s.appenders (λ _. f) (λ _. h j)

  append_step-FitsEach :
      (i : ℕ) (pc : AppenderPc L) (s : Log L)
      → Fits pc
      → FitsEach s
      → FitsEach (append_step len i pc s)
  unfolding append_step append_inside
  append_step-FitsEach i (loading l) s f h =
      if_intro FitsEach (not (has s.state available)) (λ _. goes_on i refused s tt h)
        (λ _.
          if_intro FitsEach (is_busy s.state) (λ _. h) (λ _. goes_on i (swapping l s.state) s f h))
  append_step-FitsEach i (swapping l old) s f h =
      if_intro FitsEach (s.state == old) (λ _. goes_on i (inside l) s f h)
        (λ _. goes_on i (loading l) s f h)
  append_step-FitsEach i (inside l) s f h =
      if_intro FitsEach (leb (len l) (avail len s.cur_buffer))
        (λ _. goes_on i (leaving available) s tt h) (λ _. goes_on i (leaving full) s tt h)
  append_step-FitsEach i (leaving w) s f h = goes_on i appended s tt h
  append_step-FitsEach i appended s f h = h
  append_step-FitsEach i refused s f h = h

  writer_step-FitsEach :
      (spurious : Bool) (pc : WriterPc L) (s : Log L)
      → FitsEach s
      → FitsEach (writer_step spurious pc s)
  unfolding writer_step swap_buffers
  writer_step-FitsEach spurious writer_testing s h = if_intro FitsEach s.running (λ _. h) (λ _. h)
  writer_step-FitsEach spurious writer_loading s h =
      if_intro FitsEach (not (has s.state available)) (λ _. h)
        (λ _.
          if_intro FitsEach (has s.state full) (λ _. h)
            (λ _. if_intro FitsEach (has s.state appending) (λ _. h) (λ _. h)))
  writer_step-FitsEach spurious (writer_swapping old) s h =
      if_intro FitsEach (s.state == old) (λ _. h) (λ _. h)
  writer_step-FitsEach spurious (writer_clearing old) s h =
      if_intro FitsEach ((s.state == old) && not spurious) (λ _. h) (λ _. h)
  writer_step-FitsEach spurious writer_inside s h = h
  writer_step-FitsEach spurious (writer_leaving bs) s h = h
  writer_step-FitsEach spurious (writing []) s h = h
  writer_step-FitsEach spurious (writing (b ∷ bs)) s h = h
  writer_step-FitsEach spurious writer_closing s h = h
  writer_step-FitsEach spurious writer_ended s h = h

  stop_step-FitsEach : (pc : StopperPc) (s : Log L) → FitsEach s → FitsEach (stop_step pc s)
  unfolding stop_step
  stop_step-FitsEach stop_start s h = h
  stop_step-FitsEach stop_loading s h =
      if_intro FitsEach (not (has s.state available)) (λ _. h)
        (λ _. if_intro FitsEach (is_busy s.state) (λ _. h) (λ _. h))
  stop_step-FitsEach (stop_swapping old) s h = if_intro FitsEach (s.state == old) (λ _. h) (λ _. h)
  stop_step-FitsEach stop_joining s h = h
  stop_step-FitsEach stop_given_up s h = h

  log_exec-Conserves :
      (e : LogEvent) (s : Log L)
      → FitsEach s
      → Conserves s
      → FitsEach (log_exec len e s) × Conserves (log_exec len e s)
  unfolding log_exec
  log_exec-Conserves (append i) s f h = (
    append_step-FitsEach i (s.appenders i) s (f i) f,
    append_step-Conserves i (s.appenders i) s (f i) h,
  )
  log_exec-Conserves (write spurious) s f h =
      (writer_step-FitsEach spurious s.writer s f, writer_step-Conserves spurious s.writer s refl h)
  log_exec-Conserves stop s f h =
      (stop_step-FitsEach s.stopper s f, stop_step-Conserves s.stopper s h)

  log_exec_each-Conserves :
      (es : List LogEvent) (s : Log L) → FitsEach s → Conserves s → Conserves (log_history len es s)
  unfolding log_history
  log_exec_each-Conserves [] s f h = h
  log_exec_each-Conserves (e ∷ es) s f h =
      let (f', h') = log_exec-Conserves e s f h in
      log_exec_each-Conserves es (log_exec len e s) f' h'

  -- In every interleaving, from every word that `state` may start with: the lines whose calls reached
  -- the buffers are those in the file, then those that the thread that writes has taken out, then those
  -- in the buffers, each once and in the order of the calls. No line is longer than a buffer.
  pub log_history-Conserves :
      (word : ℕ) (lines : ℕ → L) (es : List LogEvent)
      → ((i : ℕ) → len (lines i) ≤ buffer_size)
      → Conserves (log_history len es (started word lines))
  unfolding started concat
  log_history-Conserves word lines es f = log_exec_each-Conserves es (started word lines) f refl
