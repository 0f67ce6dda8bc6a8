-- ===== src/StateWord/Closing.antt =====
-- src/TcpConnection.cpp: `shutdown`, and `forceCloseInLoop` as far as the word `state_` goes. A call's
-- view of the word is the list of the values that its loads and swaps meet, in their order, each with
-- whether a sleep before it was interrupted; a wait that does not sleep ends in the next load.
pub mod Shutdown
pub mod Blocked
use learning_network.Prelude.{
  ℕ, ◌+◌, ◌/◌, ◌%◌, ◌^◌, Bool, true, false, ◌&&◌, ◌||◌, not, List, [], ◌∷◌, Option, none, some,
  if◌then◌else◌, ◌==◌, get_elem?,
}
use learning_network.StateWord.{
  has_disconnected, has_used, state_connected, used, Pc, idle, trying, marked, inside, leaving,
  last, unusing, done, World, put_thread, thread_step,
}

abbrev state_disconnecting : ℕ
state_disconnecting = 2

abbrev pub has_connecting : ℕ → Bool
has_connecting w = w % 2 == 1

abbrev pub has_disconnecting : ℕ → Bool
has_disconnecting w = w / 2 % 2 == 1

-- `connected()` and `disconnected()`
pub connected : ℕ → Bool
connected w = w / 8 % 2 == 1

pub disconnected : ℕ → Bool
disconnected w = has_disconnected w

-- What `connectEstablished` stores, whatever was there.
abbrev pub established_word : ℕ
established_word = state_connected + used

-- How a call of `shutdown` ends: closed before, another thread shuts down, `shutdownInLoop` handed to
-- the loop; or it sleeps on its own local variable, which no other thread wakes, and is not
-- interrupted; or the values are used up while it looks at the last one.
pub data ShutdownEnd : Type 0 where
  hup_before : ShutdownEnd
  other_thread : ShutdownEnd
  posted : ShutdownEnd
  asleep : ShutdownEnd
  looking : ℕ → ShutdownEnd

-- `futex_wait(&old_state, Connected | used)` compares 32 bits and sleeps on equality.
unfoldable pub sleeps : ℕ → Bool
sleeps old = old % 2 ^ 32 == established_word

-- The loop, at its head with `old_state`. Each pass that does not end takes one more access; a sleep
-- goes on with the next load only if a signal, or nothing at all, ends `futex_wait`.
unfoldable pub shutdown_loop : List (ℕ × Bool) → ℕ → ShutdownEnd
unfolding sleeps
shutdown_loop [] old =
    if has_disconnected old
    then hup_before
    else if has_disconnecting old
    then other_thread
    else if has_used old && sleeps old
    then asleep
    else looking old
shutdown_loop ((w, interrupted) ∷ ws) old =
    let rest = shutdown_loop ws w in
    if has_disconnected old
    then hup_before
    else if has_disconnecting old
    then other_thread
    else if has_used old
    then if sleeps old && not interrupted then asleep else rest
    else if w == old
    then posted
    else rest

-- `shutdown` from its first load, which a wait for `Connecting` repeats.
unfoldable pub shutdown : List (ℕ × Bool) → ℕ → ShutdownEnd
shutdown [] w = if has_connecting w then looking w else shutdown_loop [] w
shutdown ((w', i) ∷ ws) w =
    if has_connecting w then shutdown_loop ws w' else shutdown_loop ((w', i) ∷ ws) w

-- `forceCloseWithDelay`: the word, and whether a timer was added.
force_close_with_delay : ℕ → ℕ × Bool
force_close_with_delay w =
    if (w == state_connected) || (w == state_disconnecting)
    then (state_disconnecting, true)
    else (w, false)

-- Whether the access belongs to `sendInLoop`, which runs in the loop's thread.
abbrev pub is_in_loop : Pc → Bool
is_in_loop idle = false
is_in_loop (trying old) = false
is_in_loop (marked old) = false
is_in_loop inside = true
is_in_loop (leaving old) = true
is_in_loop (last old) = true
is_in_loop (unusing old) = false
is_in_loop done = false

-- The next access of a thread while the loop's thread is in `forceCloseInLoop`: the functors that
-- call `sendInLoop` wait in the loop's queue.
pub exec_during : ℕ → World → World
unfolding put_thread
exec_during i s = elim (get_elem? s.threads i) [
  | none ↦ s
  | some pc ↦ if is_in_loop pc then s else put_thread s i (thread_step s.word pc)
]

pub history_during : List ℕ → World → World
history_during [] s = s
history_during (i ∷ is) s = history_during is (exec_during i s)
