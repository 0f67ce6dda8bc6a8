-- ===== src/Logger/Levels.antt =====
-- Which statements of src/Loggers/Logger.cpp write a line, and which end the program.
use learning_network.Prelude.{
  ℕ, suc, ◌≤◌, ◌≡◌, refl, arith, ◌==◌, ◌&&◌, not, if◌then◌else◌, Bool-cases, inl, inr, ok, true,
  false, List, [], ◌∷◌, ◌++◌,
}
use learning_network.LogStream.{Item, put_each}
use learning_network.Logger.{
  SourceFile, level_number, LogMacro, log_trace, log_debug, log_info, log_warn, log_error,
  log_fatal, log_syserr, log_sysfatal, macro_level, is_logged, LogGlobals, destroy_logger,
  log_statement, finish_items,
}

-- The globals after a statement that puts out the line.
abbrev after : LogMacro → List ℕ → LogGlobals → LogGlobals
after k out g =
    if is_logged g.log_level k && not g.aborted
    then record g {
      outputs = g.outputs ++ (out ∷ []);
      flushes = suc g.flushes;
      aborted = level_number g.log_level == 5;
    }
    else g

-- What a statement whose line fits comes to.
statement_lem :
    (k : LogMacro) (head items : List Item) (file : SourceFile) (line : ℕ) (g : LogGlobals)
    (out : List ℕ)
    → put_each [] (head ++ (items ++ finish_items file line)) ≡ ok out
    → log_statement k head file line items g ≡ ok (after k out g)
unfolding log_statement destroy_logger
statement_lem k head items file line g out e =
    elim (Bool-cases (is_logged g.log_level k && not g.aborted)) [
      | inl t ↦ rw (t, e) refl
      | inr f ↦ rw f refl
    ]

-- A statement of any of the macros, while the program runs, whose line does not overrun its buffer: the
-- line is put out when its level is at least the threshold. The statement ends the program only when
-- the threshold is FATAL, a statement of level FATAL as well; and then every statement from WARN on
-- does.
log_statement_lem :
    (k : LogMacro) (head items : List Item) (file : SourceFile) (line : ℕ) (g : LogGlobals)
    (out : List ℕ)
    → put_each [] (head ++ (items ++ finish_items file line)) ≡ ok out
    → g.aborted ≡ false
    → (g' : LogGlobals) × (log_statement k head file line items g ≡ ok g')
      × (level_number g.log_level ≤ level_number (macro_level k)
          → (g'.outputs ≡ g.outputs ++ (out ∷ [])) × (g'.flushes ≡ suc g.flushes))
      × (g'.aborted ≡ true → level_number g.log_level ≡ 5)
      × (level_number g.log_level ≡ 5 → 3 ≤ level_number (macro_level k) → g'.aborted ≡ true)
unfolding is_logged macro_level
log_statement_lem k head items file line g out e n =
    let (a, b, c) = levels k in (_, statement_lem k head items file line g out e, a, b, c)
  where
    levels :
        (k : LogMacro)
        → (level_number g.log_level ≤ level_number (macro_level k)
            → ((after k out g).outputs ≡ g.outputs ++ (out ∷ []))
              × ((after k out g).flushes ≡ suc g.flushes))
          × ((after k out g).aborted ≡ true → level_number g.log_level ≡ 5)
          × (level_number g.log_level ≡ 5
              → 3 ≤ level_number (macro_level k)
              → (after k out g).aborted ≡ true)
    levels log_trace = ground arith
    levels log_debug = ground arith
    levels log_info = ground arith
    levels log_warn = ground arith
    levels log_error = ground arith
    levels log_fatal = ground arith
    levels log_syserr = ground arith
    levels log_sysfatal = ground arith
