-- ===== src/LogFile/Tests.antt =====
-- Concrete runs of the log files of src/Loggers/LogFile.cpp, and their properties at concrete inputs.
use learning_network.Prelude.{ℕ, ◌≡◌, refl, arith, false, List, [], ◌∷◌}
use learning_network.LogFile.{
  LogFile, append_file, write_loop, append_impl, append_each, check, flush_if_due, roll,
}
use learning_network.LogFile.Rolls.{short_write_repeats}

abbrev begun : LogFile
begun = record {
  file = record { content = 7 ∷ []; written_bytes = 1 };
  closed = [];
  count = 0;
  start_of_period = 1606348800;
  last_roll = 1606399200;
  last_flush = 1606399200;
}

-- Two lines, three days apart, with a check for each.
abbrev days : List (ℕ × List ℕ)
days = (1606399201, 1 ∷ 2 ∷ []) ∷ (1606658401, 3 ∷ []) ∷ []

one_file : (append_each 1000 3 1 days begun).closed ≡ []
unfolding append_each append_impl append_file write_loop check flush_if_due roll
one_file = refl

repeated : (append_file ((1, false) ∷ []) (4 ∷ 5 ∷ []) begun.file).content ≡ 7 ∷ 4 ∷ 4 ∷ 5 ∷ []
repeated = short_write_repeats 1 (4 ∷ 5 ∷ []) begun.file (omega arith)
