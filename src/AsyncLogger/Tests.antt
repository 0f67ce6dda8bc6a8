-- ===== src/AsyncLogger/Tests.antt =====
-- Concrete runs of the logger of src/Loggers/AsyncLogger.cpp, and its properties at concrete inputs.
use learning_network.Prelude.{
  ℕ, ◌≤◌, ◌≡◌, refl, arith, ◌==◌, false, if◌then◌else◌, List, [], ◌∷◌, ◌++◌, replicate,
}
use learning_network.AsyncLogger.{
  full, available, buffer_size, LogEvent, append, write, concat, writer_step, swap_buffers,
  buffer_length, avail, buffer_append, append_inside, append_step, log_exec, log_history, started,
}
use learning_network.AsyncLogger.Lock.{Holds, WriterHolds}
use learning_network.AsyncLogger.Exclusion.{log_history-exclusive}
use learning_network.AsyncLogger.Lines.{Conserves, log_history-Conserves}
use learning_network.AsyncLogger.Lost.{Frozen, full_loses}

-- A line is its length: two that fill a buffer but for four bytes, and one of ten.
abbrev lines : ℕ → ℕ
lines i = if i == 2 then 10 else 524286

abbrev one_call : ℕ → List LogEvent
one_call i = replicate 4 (append i)

abbrev line_size : ℕ → ℕ
line_size l = l

abbrev one_turn : List LogEvent
one_turn = replicate 7 (write false)

logged :
    (log_history line_size (one_call 0 ++ one_call 2 ++ one_turn) (started available lines)).written
    ≡ 524286 ∷ 10 ∷ []
unfolding log_history log_exec append_step append_inside buffer_append avail buffer_length
    writer_step swap_buffers concat started
logged = refl

overflowed :
    (log_history line_size (one_call 0 ++ one_call 1 ++ one_call 2) (started available lines)).state
    ≡ full
unfolding log_history log_exec append_step append_inside buffer_append avail buffer_length started
overflowed = refl

full_loses_example :
    Frozen line_size
      (log_history line_size (one_call 0 ++ one_call 1 ++ one_call 2) (started available lines))
      (log_history line_size
        (one_turn ++ one_call 3)
        (log_history line_size (one_call 0 ++ one_call 1 ++ one_call 2) (started available lines)))
full_loses_example =
    full_loses line_size lines (one_call 0 ++ one_call 1 ++ one_call 2) (one_turn ++ one_call 3)
      overflowed

log_history-exclusive_example :
    ((i j : ℕ)
      → Holds
          ((log_history line_size (one_call 0 ++ one_turn) (started available lines)).appenders i)
      → Holds
          ((log_history line_size (one_call 0 ++ one_turn) (started available lines)).appenders j)
      → i ≡ j)
    × ((i : ℕ)
        → Holds
            ((log_history line_size (one_call 0 ++ one_turn) (started available lines)).appenders i)
        → WriterHolds
            (log_history line_size (one_call 0 ++ one_turn) (started available lines)).writer
        → ⊥)
log_history-exclusive_example = log_history-exclusive line_size lines (one_call 0 ++ one_turn)

short_lines : (i : ℕ) → lines i ≤ buffer_size
short_lines i = ground arith

log_history-Conserves_example :
    Conserves
      (log_history line_size (one_call 0 ++ one_turn ++ one_call 2) (started available lines))
log_history-Conserves_example =
    log_history-Conserves line_size available lines (one_call 0 ++ one_turn ++ one_call 2)
      short_lines
