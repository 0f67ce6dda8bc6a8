-- ===== src/StateWord.antt =====
-- src/TcpConnection.cpp: the atomic word `state_`, which `send`, `sendInLoop`, `set_unused` and
-- `handle_ep_hup` share. Each thread takes one atomic access to the word at a time, so that an
-- interleaving is a list of thread numbers. A strong compare-and-swap fails only on another value.
pub mod Sequential
pub mod Bits
pub mod Interleaving
pub mod Closing
pub mod Tests
use learning_network.Prelude.{
  ℕ, ◌+◌, ◌-◌, ◌/◌, ◌%◌, ◌^◌, Bool, true, false, List, [], ◌∷◌, Option, none, some, if◌then◌else◌,
  ◌==◌, get_elem?, set, add64, sub64,
}

-- `enum StateE`
abbrev state_connecting : ℕ
state_connecting = 1

abbrev state_disconnected : ℕ
state_disconnected = 4

abbrev pub state_connected : ℕ
state_connected = 8

abbrev pub used : ℕ
used = 16

abbrev pub writing : ℕ
writing = 32

-- `1 << senders_offset`
abbrev pub one_sender : ℕ
one_sender = 64

abbrev pub senders : ℕ → ℕ
senders w = w / 64

-- Whether a word has the bit that is the given power of two.
abbrev pub has_disconnected : ℕ → Bool
has_disconnected w = w / 4 % 2 == 1

abbrev pub has_used : ℕ → Bool
has_used w = w / 16 % 2 == 1

abbrev pub has_writing : ℕ → Bool
has_writing w = w / 32 % 2 == 1

-- `kw_unlikely(old_state & Disconnected)`. The macro of src/helpers/kw_micros.h puts `!!` before its
-- argument without brackets, so this is `!!old_state & Disconnected`.
abbrev not_not : ℕ → ℕ
not_not w = if w == 0 then 0 else 1

abbrev pub unlikely_disconnected : ℕ → Bool
unlikely_disconnected w = not_not w / 4 % 2 == 1

-- `old_state | writing`, `old_state ^ writing` and `old_state ^ (1 << senders_offset)`
abbrev pub or_writing : ℕ → ℕ
or_writing w = if has_writing w then w else w + writing

abbrev xor_writing : ℕ → ℕ
xor_writing w = if has_writing w then w - writing else w + writing

abbrev pub xor_sender : ℕ → ℕ
xor_sender w = if w / 64 % 2 == 1 then w - one_sender else w + one_sender

-- Where a thread is: before `send`; at the head of its loop, with `old_state`; at the inner loop
-- that follows the mark; counted as a sender, before `sendInLoop`; in the loop of `sendInLoop`
-- with the `old_state` that it loaded on entry; at the last compare-and-swap; in the loop of
-- `set_unused`; or done.
pub data Pc : Type 0 where
  idle : Pc
  trying : ℕ → Pc
  marked : ℕ → Pc
  inside : Pc
  leaving : ℕ → Pc
  last : ℕ → Pc
  unusing : ℕ → Pc
  done : Pc

-- One pass of `send`'s loop.
pub try_step : ℕ → ℕ → ℕ × Pc
try_step w old =
    if unlikely_disconnected old
    then (w, done)
    else if has_used old
    then if has_writing old
      then if w == old then (add64 old one_sender, inside) else (w, trying w)
      else if w == old
      then (or_writing old, marked (or_writing old))
      else (w, trying w)
    else (w, done)

-- The inner loop: it adds a sender, or gives up.
pub mark_step : ℕ → ℕ → ℕ × Pc
mark_step w old = if w == old then (add64 old one_sender, inside) else (w, done)

-- One pass of the loop that ends `sendInLoop`.
pub leave_step : ℕ → ℕ → ℕ × Pc
leave_step w old =
    if unlikely_disconnected old
    then (w, done)
    else if has_used old
    then if has_writing old
      then if w == old
        then (sub64 old one_sender, (if senders old == 1 then last (xor_sender old) else done))
        else (w, done)
      else (w, done)
    else (w, done)

pub last_step : ℕ → ℕ → ℕ × Pc
last_step w old = if w == old then (xor_writing old, done) else (w, done)

-- One pass of `set_unused`'s loop; waiting on the word ends in a new load of it.
pub unuse_step : ℕ → ℕ → ℕ × Pc
unuse_step w old =
    if unlikely_disconnected old
    then (w, done)
    else if has_used old
    then if has_writing old
      then (w, unusing w)
      else if w == old
      then (old - used, done)
      else (w, unusing w)
    else (w, done)

pub thread_step : ℕ → Pc → ℕ × Pc
thread_step w idle = (w, trying w)
thread_step w (trying old) = try_step w old
thread_step w (marked old) = mark_step w old
thread_step w inside = (w, leaving w)
thread_step w (leaving old) = leave_step w old
thread_step w (last old) = last_step w old
thread_step w (unusing old) = unuse_step w old
thread_step w done = (w, done)

pub record World : Type 0 where
  pub word : ℕ
  pub threads : List Pc

-- A thread's next access, or the store of `Disconnected` in `handle_ep_hup`.
pub data Event : Type 0 where
  run : ℕ → Event
  hang_up : Event

put_thread : World → ℕ → ℕ × Pc → World
put_thread s i (w, pc) = record { word = w; threads = set s.threads i pc }

pub exec : Event → World → World
unfolding put_thread
exec hang_up s = record s { word = state_disconnected }
exec (run i) s = elim (get_elem? s.threads i) [
  | none ↦ s
  | some pc ↦ put_thread s i (thread_step s.word pc)
]

pub history : List Event → World → World
history [] s = s
history (e ∷ es) s = history es (exec e s)
