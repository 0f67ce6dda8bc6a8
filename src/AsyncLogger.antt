-- ===== src/AsyncLogger.antt =====
-- src/Loggers/AsyncLogger.cpp: the threads that append lines, the thread that writes them, and `stop`,
-- which share the word `state` as a lock. An event is one access of one of them; a `futex_wait` may
-- return at any time.
pub mod Lock
pub mod Exclusion
pub mod Lines
pub mod Lost
pub mod Tests
use learning_network.Prelude.{
  ℕ, ◌+◌, ◌-◌, ◌*◌, ◌/◌, ◌%◌, ◌≡◌, ◌==◌, Bool, true, false, ◌&&◌, ◌||◌, not, if◌then◌else◌, leb,
  List, [], ◌∷◌, ◌++◌, assign,
}

-- The bits of `state`.
abbrev pub appending : ℕ
appending = 1

abbrev pub full : ℕ
full = 2

abbrev pub swaping : ℕ
swaping = 4

abbrev pub available : ℕ
available = 8

abbrev pub has : ℕ → ℕ → Bool
has word bit = (word / bit) % 2 == 1

-- `word | bit` and `word ^ bit`
abbrev pub or_bit : ℕ → ℕ → ℕ
or_bit word bit = if has word bit then word else word + bit

abbrev xor_bit : ℕ → ℕ → ℕ
xor_bit word bit = if has word bit then word - bit else word + bit

-- `old_state & (full | appending | swaping)`
abbrev pub is_busy : ℕ → Bool
is_busy word = has word full || has word appending || has word swaping

-- `FixedBuffer<1024 * 1024>`
abbrev pub buffer_size : ℕ
buffer_size = 1024 * 1024

-- A call of `append`: before the load of `state`, before the compare-and-swap, at the buffers, before the
-- store of the new state, and at the return, with or without the line taken.
pub data AppenderPc {ℓ} (L : Type ℓ) : Type ℓ where
  loading : L → AppenderPc L
  swapping : L → ℕ → AppenderPc L
  inside : L → AppenderPc L
  leaving : ℕ → AppenderPc L
  appended : AppenderPc L
  refused : AppenderPc L

-- `threadFunc`: at the test of `running`, before the load of `state`, before either compare-and-swap, at
-- the buffers, before the subtraction, with the buffers that are left to write, before the last store, and
-- at the return.
pub data WriterPc {ℓ} (L : Type ℓ) : Type ℓ where
  writer_testing : WriterPc L
  writer_loading : WriterPc L
  writer_swapping : ℕ → WriterPc L
  writer_clearing : ℕ → WriterPc L
  writer_inside : WriterPc L
  writer_leaving : List (List L) → WriterPc L
  writing : List (List L) → WriterPc L
  writer_closing : WriterPc L
  writer_ended : WriterPc L

-- `stop`
pub data StopperPc : Type 0 where
  stop_start : StopperPc
  stop_loading : StopperPc
  stop_swapping : ℕ → StopperPc
  stop_joining : StopperPc
  stop_given_up : StopperPc

-- `written` is what the file got and `taken` the lines of the calls that reached the buffers.
pub record Log {ℓ} (L : Type ℓ) : Type ℓ where
  pub state : ℕ
  pub running : Bool
  pub cur_buffer : List L
  pub next_buffer : Bool
  pub buffers : List (List L)
  pub written : List L
  pub taken : List L
  pub writer : WriterPc L
  pub stopper : StopperPc
  pub appenders : ℕ → AppenderPc L

pub data LogEvent : Type 0 where
  append : ℕ → LogEvent
  write : Bool → LogEvent
  stop : LogEvent

module _ {ℓ} {L : Type ℓ} where
  unfoldable pub concat : List (List L) → List L
  concat [] = []
  concat (b ∷ bs) = b ++ concat bs

  -- `futex_wait` and the retry after a failed compare-and-swap lead back to the load.
  unfoldable pub stop_step : StopperPc → Log L → Log L
  stop_step stop_start s = record s { running = false; stopper = stop_loading }
  stop_step stop_loading s =
      if not (has s.state available)
      then record s { stopper = stop_given_up }
      else if is_busy s.state
      then s
      else record s { stopper = stop_swapping s.state }
  stop_step (stop_swapping old) s =
      if s.state == old
      then record s { state = 0; stopper = stop_joining }
      else record s { stopper = stop_loading }
  stop_step stop_joining s = s
  stop_step stop_given_up s = s

  -- The moves of the buffers: `newBuffer1` and `newBuffer2` are empty.
  unfoldable pub swap_buffers : Log L → Log L
  swap_buffers s = record s {
    cur_buffer = [];
    buffers = [];
    next_buffer = true;
    writer = writer_leaving (s.buffers ++ (s.cur_buffer ∷ []));
  }

  -- The flag makes the weak compare-and-swap fail, which then goes on with the word that it found.
  unfoldable pub writer_step : Bool → WriterPc L → Log L → Log L
  writer_step spurious writer_testing s =
      if s.running
      then record s { writer = writer_loading }
      else record s { writer = writer_closing }
  writer_step spurious writer_loading s =
      if not (has s.state available)
      then record s { writer = writer_ended }
      else if has s.state full
      then record s { writer = writer_clearing s.state }
      else if has s.state appending
      then s
      else record s { writer = writer_swapping s.state }
  writer_step spurious (writer_swapping old) s =
      if s.state == old
      then record s { state = or_bit old swaping; writer = writer_inside }
      else record s { writer = writer_loading }
  writer_step spurious (writer_clearing old) s =
      if (s.state == old) && not spurious
      then record s { state = or_bit (xor_bit old full) swaping; writer = writer_inside }
      else record s { writer = writer_clearing s.state }
  writer_step spurious writer_inside s = swap_buffers s
  writer_step spurious (writer_leaving bs) s = record s {
    state = s.state - swaping;
    writer = writing bs;
  }
  writer_step spurious (writing []) s = record s { writer = writer_testing }
  writer_step spurious (writing (b ∷ bs)) s = record s {
    written = s.written ++ b;
    writer = writing bs;
  }
  writer_step spurious writer_closing s = record s { state = 0; writer = writer_ended }
  writer_step spurious writer_ended s = s

module _ {ℓ} {L : Type ℓ} (len : L → ℕ) where
  unfoldable pub buffer_length : List L → ℕ
  buffer_length [] = 0
  buffer_length (l ∷ ls) = len l + buffer_length ls

  unfoldable pub avail : List L → ℕ
  avail b = buffer_size - buffer_length b

  -- `FixedBuffer::append`
  unfoldable pub buffer_append : List L → L → List L
  buffer_append b l = if leb (len l) (avail b) then b ++ (l ∷ []) else b

  unfoldable pub append_inside : ℕ → L → Log L → Log L
  append_inside i l s =
      if leb (len l) (avail s.cur_buffer)
      then record s {
        cur_buffer = buffer_append s.cur_buffer l;
        taken = s.taken ++ (l ∷ []);
        appenders = assign i (leaving available) s.appenders;
      }
      else record s {
        buffers = s.buffers ++ (s.cur_buffer ∷ []);
        next_buffer = false;
        cur_buffer = buffer_append [] l;
        taken = s.taken ++ (l ∷ []);
        appenders = assign i (leaving full) s.appenders;
      }

  unfoldable pub append_step : ℕ → AppenderPc L → Log L → Log L
  append_step i (loading l) s =
      if not (has s.state available)
      then record s { appenders = assign i refused s.appenders }
      else if is_busy s.state
      then s
      else record s { appenders = assign i (swapping l s.state) s.appenders }
  append_step i (swapping l old) s =
      if s.state == old
      then record s { state = or_bit old appending; appenders = assign i (inside l) s.appenders }
      else record s { appenders = assign i (loading l) s.appenders }
  append_step i (inside l) s = append_inside i l s
  append_step i (leaving word) s = record s {
    state = word;
    appenders = assign i appended s.appenders;
  }
  append_step i appended s = s
  append_step i refused s = s

  unfoldable pub log_exec : LogEvent → Log L → Log L
  log_exec (append i) s = append_step i (s.appenders i) s
  log_exec (write spurious) s = writer_step spurious s.writer s
  log_exec stop s = stop_step s.stopper s

  unfoldable pub log_history : List LogEvent → Log L → Log L
  log_history [] s = s
  log_history (e ∷ es) s = log_history es (log_exec e s)

-- A logger that has started, with the word that `state` holds then and the lines that are going to be
-- appended.
unfoldable pub started {ℓ} : {L : Type ℓ} → ℕ → (ℕ → L) → Log L
started word lines = record {
  state = word;
  running = true;
  cur_buffer = [];
  next_buffer = true;
  buffers = [];
  written = [];
  taken = [];
  writer = writer_testing;
  stopper = stop_start;
  appenders = λ i. loading (lines i);
}
