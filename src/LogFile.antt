-- ===== src/LogFile.antt =====
-- src/Loggers/LogFile.cpp, src/Loggers/FileUtil.cpp: the files that a log goes to. The answers of
-- `fwrite_unlocked` and `ferror_unlocked` are a list, behind whose end everything is written; the clock
-- is an argument, and stands still within one call.
pub mod Rolls
pub mod Tests
use learning_network.Prelude.{
  ℕ, suc, ◌+◌, ◌-◌, ◌*◌, ◌/◌, ◌%◌, ◌^◌, ◌==◌, Bool, true, false, ◌&&◌, not, if◌then◌else◌, ltb, leb,
  List, [], ◌∷◌, ◌++◌, take, length,
}

-- `AppendFile`: what was written, and what it counts as written.
pub record AppendFile : Type 0 where
  pub content : List ℕ
  pub written_bytes : ℕ

-- The loop of `AppendFile::append`, with what was written before and `written`.
unfoldable pub write_loop : List (ℕ × Bool) → List ℕ → List ℕ → ℕ → AppendFile
write_loop [] logs content written =
    if ltb written (length logs)
    then record { content = content ++ logs; written_bytes = written + length logs }
    else record { content = content; written_bytes = written }
write_loop (answer ∷ answers) logs content written =
    let remain = length logs - written in
    let content' = content ++ take answer.0 logs in
    let rest = write_loop answers logs content' (written + answer.0) in
    if ltb written (length logs)
    then (if not (answer.0 == remain) && answer.1
        then record { content = content'; written_bytes = written }
        else rest)
    else record { content = content; written_bytes = written }

-- `AppendFile::append`
unfoldable pub append_file : List (ℕ × Bool) → List ℕ → AppendFile → AppendFile
append_file answers logs f =
    let g = write_loop answers logs f.content 0 in
    record g { written_bytes = f.written_bytes + g.written_bytes }

abbrev pub roll_per_seconds : ℕ
roll_per_seconds = 60 * 60 * 24

-- `closed` are the files before the current one.
pub record LogFile : Type 0 where
  pub file : AppendFile
  pub closed : List (List ℕ)
  pub count : ℕ
  pub start_of_period : ℕ
  pub last_roll : ℕ
  pub last_flush : ℕ

unfoldable pub roll : ℕ → LogFile → LogFile
roll now f =
    if ltb f.start_of_period now
    then record f {
      file = record { content = []; written_bytes = 0 };
      closed = f.closed ++ (f.file.content ∷ []);
      start_of_period = now / roll_per_seconds * roll_per_seconds;
      last_roll = now;
      last_flush = now;
    }
    else f

module _ (roll_size flush_interval check_interval : ℕ) where
  -- The flush after the interval.
  unfoldable pub flush_if_due : ℕ → LogFile → LogFile
  flush_if_due now f =
      if leb flush_interval (now - f.last_flush) then record f { last_flush = now } else f

  -- The check after every `check_interval` lines.
  unfoldable pub check : ℕ → LogFile → LogFile
  check now f =
      if suc f.count == check_interval
      then flush_if_due now (
          if leb f.start_of_period (now / roll_per_seconds)
          then roll now (record f { count = 0 })
          else record f { count = 0 })
      else record f { count = suc f.count }

  unfoldable pub append_impl : ℕ → List (ℕ × Bool) → List ℕ → LogFile → LogFile
  append_impl now answers logs f =
      let g = record f { file = append_file answers logs f.file } in
      if leb roll_size (g.file.written_bytes % 2 ^ 32) then roll now g else check now g

  unfoldable pub append_each : List (ℕ × List ℕ) → LogFile → LogFile
  append_each [] f = f
  append_each (e ∷ es) f = append_each es (append_impl e.0 [] e.1 f)
