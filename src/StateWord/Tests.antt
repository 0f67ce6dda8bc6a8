-- ===== src/StateWord/Tests.antt =====
-- Concrete runs of the state word of src/TcpConnection.cpp.
use learning_network.Prelude.{
  ℕ, ◌+◌, ◌≤◌, ◌≡◌, refl, arith, Bool, true, false, List, [], ◌∷◌, ◌⊎◌, get_elem?, some,
}
use learning_network.StateWord.{
  Pc, idle, inside, unusing, Event, run, history, senders, has_used, has_writing, has_disconnected,
  state_connected, used,
}
use learning_network.StateWord.Bits.{is_inside, total}
use learning_network.StateWord.Interleaving.{a_sender, a_closer, history-counts}
use learning_network.StateWord.Closing.{
  sleeps, shutdown_loop, shutdown, posted, asleep, history_during,
}
use learning_network.StateWord.Closing.Shutdown.{LeftTwice, shutdown-posted}
use learning_network.StateWord.Closing.Blocked.{IsWritten, history_during-held}

abbrev turns : List Event
turns = run 0 ∷ run 1 ∷ run 0 ∷ run 0 ∷ run 1 ∷ run 2 ∷ []

abbrev callers : List Pc
callers = idle ∷ idle ∷ unusing 24 ∷ []

history-counts_example :
    (has_disconnected
        (history turns (record { word = state_connected + used; threads = callers })).word
      ≡ true)
    ⊎ ((total is_inside
            (history turns (record { word = state_connected + used; threads = callers })).threads
          ≤ senders
              (history turns (record { word = state_connected + used; threads = callers })).word)
        × (1
              ≤ total is_inside
                  (history turns
                    (record { word = state_connected + used; threads = callers })).threads
            → (has_writing
                  (history turns (record { word = state_connected + used; threads = callers })).word
                ≡ true)
              × (has_used
                    (history turns
                      (record { word = state_connected + used; threads = callers })).word
                  ≡ true)))
history-counts_example =
    history-counts turns callers (omega arith) (a_sender, (a_sender, (a_closer 24, tt)))

abbrev sent_word : ℕ
sent_word = 120

-- A connection in use and being written, then idle while the sleep is interrupted, then unused.
abbrev given_up : List (ℕ × Bool)
given_up = (24, false) ∷ (8, true) ∷ (8, false) ∷ []

at_eight : shutdown given_up sent_word ≡ posted
unfolding shutdown shutdown_loop sleeps
at_eight = refl

-- Without an interruption it sleeps for good.
at_idle : shutdown ((24, false) ∷ (8, false) ∷ (8, false) ∷ []) sent_word ≡ asleep
unfolding shutdown shutdown_loop sleeps
at_idle = refl

shutdown-posted_example : LeftTwice sent_word given_up
shutdown-posted_example = shutdown-posted given_up sent_word at_eight

abbrev callers_during : List Pc
callers_during = unusing sent_word ∷ idle ∷ inside ∷ []

history_during-held_example :
    IsWritten
      (history_during
        (0 ∷ 1 ∷ 1 ∷ 2 ∷ 0 ∷ [])
        (record { word = sent_word; threads = callers_during })).word
    × (old' : ℕ) × (get_elem?
          (history_during
            (0 ∷ 1 ∷ 1 ∷ 2 ∷ 0 ∷ [])
            (record { word = sent_word; threads = callers_during })).threads
          0
        ≡ some (unusing old'))
history_during-held_example =
    history_during-held (0 ∷ 1 ∷ 1 ∷ 2 ∷ 0 ∷ [])
      (record { word = sent_word; threads = callers_during }) sent_word refl (refl, refl)
      (refl, refl)
