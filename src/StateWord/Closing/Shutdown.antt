-- ===== src/StateWord/Closing/Shutdown.antt =====
-- `shutdown` of src/TcpConnection.cpp against the values of the word that it meets.
use learning_network.Prelude.{ℕ, ◌≡◌, ◌⊎◌, arith, Bool, false, List, [], ◌∷◌}
use learning_network.StateWord.{has_disconnected, has_used}
use learning_network.StateWord.Closing.{has_disconnecting, shutdown_loop, shutdown, posted}

-- The word of a connection that is neither closed nor shut down by another thread, and not in use.
abbrev IsLeft : ℕ → Type 0
IsLeft w = (has_disconnected w ≡ false) × (has_disconnecting w ≡ false) × (has_used w ≡ false)

-- Two values in a row are one such word.
abbrev pub LeftTwice : ℕ → List (ℕ × Bool) → Type 0
LeftTwice old [] = ⊥
LeftTwice old (v ∷ ws) = (IsLeft old × (v.0 ≡ old)) ⊎ LeftTwice v.0 ws

loop_posted : (ws : List (ℕ × Bool)) (old : ℕ) → shutdown_loop ws old ≡ posted → LeftTwice old ws
unfolding shutdown_loop
loop_posted [] old e = ground arith
loop_posted ((w, i) ∷ ws) old e = ground (arith, loop_posted ws w)

-- Whatever values of the word the accesses of a call of `shutdown` meet, and whether its sleeps are
-- interrupted or not: it hands `shutdownInLoop` to the loop only if two accesses in a row, a load or
-- a swap and the swap after it, met one value, and that was neither closed nor of another shutdown, and
-- not in use.
pub shutdown-posted : (ws : List (ℕ × Bool)) (v : ℕ) → shutdown ws v ≡ posted → LeftTwice v ws
unfolding shutdown
shutdown-posted [] v e = ground (arith, loop_posted [] v)
shutdown-posted ((w, i) ∷ ws) v e = ground (arith, loop_posted ws w, loop_posted ((w, i) ∷ ws) v)
