-- ===== src/LogFile/Rolls.antt =====
-- src/Loggers/LogFile.cpp: when a new file is begun.
use learning_network.Prelude.{
  ℕ, suc, ◌+◌, ◌-◌, ◌/◌, ◌%◌, ◌^◌, ◌≤◌, ◌<◌, ◌≡◌, refl, sym, ◌∙◌, ap, arith, ◌==◌, ne→==, false,
  if_intro, lt→ltb, leb, lt→leb, List, [], ◌∷◌, ◌++◌, append-nil, append_assoc, All, take, length,
}
use learning_network.LogFile.{
  AppendFile, write_loop, append_file, roll_per_seconds, LogFile, flush_if_due, check, append_impl,
  append_each,
}

unfoldable pub logs_of : List (ℕ × List ℕ) → List ℕ
logs_of [] = []
logs_of (e ∷ es) = e.1 ++ logs_of es

unfoldable pub total : List (ℕ × List ℕ) → ℕ
total [] = 0
total (e ∷ es) = length e.1 + total es

append_file_lem :
    (logs : List ℕ) (f : AppendFile) → (append_file [] logs f).content ≡ f.content ++ logs
unfolding append_file write_loop
append_file_lem [] f = sym (append-nil f.content)
append_file_lem (x ∷ xs) f = rw (lt→ltb 0 (suc (length xs)) (omega arith)) refl

written_bytes_lem :
    (logs : List ℕ) (f : AppendFile)
    → (append_file [] logs f).written_bytes ≡ f.written_bytes + length logs
unfolding append_file write_loop
written_bytes_lem [] f = refl
written_bytes_lem (x ∷ xs) f = rw (lt→ltb 0 (suc (length xs)) (omega arith)) (omega arith)

module _ (roll_size flush_interval check_interval : ℕ) where
  -- The same files, in the same period.
  abbrev pub SameFiles : LogFile → LogFile → Type 0
  SameFiles f g =
      (g.file ≡ f.file) × (g.closed ≡ f.closed) × (g.start_of_period ≡ f.start_of_period)

  check-SameFiles :
      (now : ℕ) (f : LogFile)
      → now / roll_per_seconds < f.start_of_period
      → SameFiles f (check roll_size flush_interval check_interval now f)
  unfolding check flush_if_due
  check-SameFiles now f h =
      if_intro (SameFiles f) (suc f.count == check_interval)
        (λ _. rw (lt→leb f.start_of_period (now / roll_per_seconds) h) (
          if_intro (SameFiles f) (leb flush_interval (now - f.last_flush)) (λ _. (refl, refl, refl))
            (λ _. (refl, refl, refl))))
        (λ _. (refl, refl, refl))

  append_impl_lem :
      (now : ℕ) (logs : List ℕ) (f : LogFile)
      → now / roll_per_seconds < f.start_of_period
      → f.file.written_bytes + length logs < roll_size
      → roll_size ≤ 2 ^ 32
      → SameFiles
          (record f { file = append_file [] logs f.file })
          (append_impl roll_size flush_interval check_interval now [] logs f)
  unfolding append_impl
  append_impl_lem now logs f h k r =
      let g : LogFile = record f { file = append_file [] logs f.file } in
      rw
        (lt→leb roll_size (g.file.written_bytes % 2 ^ 32)
          (omega (arith, written_bytes_lem logs f.file, h, k, r)))
        (check-SameFiles now g h)

  -- `append_impl` compares the number of the day with the second in which the period began, so the days
  -- never begin a new file: whatever the clock says at each call, up to a time that is 86400 times the
  -- begin of the period, everything goes to the one file, in order, and no file is closed, as long as
  -- the file stays below the size at which it is rolled and `fwrite` writes everything.
  pub never_rolls_daily :
      (calls : List (ℕ × List ℕ)) (f : LogFile)
      → All (λ e. e.0 / roll_per_seconds < f.start_of_period) calls
      → f.file.written_bytes + total calls < roll_size
      → roll_size ≤ 2 ^ 32
      → let g = append_each roll_size flush_interval check_interval calls f in
        (g.closed ≡ f.closed) × (g.file.content ≡ f.file.content ++ logs_of calls)
  unfolding append_each logs_of total
  never_rolls_daily [] f h k r = (refl, sym (append-nil f.file.content))
  never_rolls_daily ((now, logs) ∷ es) f (h, hs) k r =
      let g = append_impl roll_size flush_interval check_interval now [] logs f in
      let (same_file, same_closed, same_start) =
        append_impl_lem now logs f h (omega (arith, k)) r in
      let (closed, content) =
        never_rolls_daily es g (rw same_start hs)
          (omega (
            arith,
            k,
            ap (λ (x : AppendFile). x.written_bytes) same_file,
            written_bytes_lem logs f.file,
          ))
          r in
      (
        closed ∙ same_closed,
        content
            ∙ ap (λ xs. xs ++ logs_of es)
                (ap (λ (x : AppendFile). x.content) same_file ∙ append_file_lem logs f.file)
            ∙ append_assoc f.file.content logs (logs_of es),
      )

-- `AppendFile::append` passes the whole text to every write: when the first one writes only its first
-- `k` bytes and reports no error, these bytes are in the file twice.
pub short_write_repeats :
    (k : ℕ) (logs : List ℕ) (f : AppendFile)
    → k < length logs
    → (append_file ((k, false) ∷ []) logs f).content ≡ f.content ++ take k logs ++ logs
unfolding append_file write_loop
short_write_repeats k logs f h =
    rw
      (
        lt→ltb 0 (length logs) (omega (arith, h)),
        ne→== k (length logs - 0) (λ e. omega (arith, e, h)),
        lt→ltb (0 + k) (length logs) (omega (arith, h)),
      )
      refl
