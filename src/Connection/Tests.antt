-- ===== src/Connection/Tests.antt =====
-- Concrete runs of the connection of src/TcpConnection.cpp.
use learning_network.Prelude.{none, some, ◌≡◌, refl, arith, true, false, [], ◌∷◌}
use learning_network.Buffer.{Buffer}
use learning_network.Buffer.Invariant.{IsValid}
use learning_network.Connection.{Connection, wrote, refused, eagain, handle_ep_out}
use learning_network.Connection.Output.{Conserves, handle_ep_out-Conserves}
use learning_network.Connection.Handover.{counted, enter, enter_loop, Memory}

abbrev empty_input : Buffer
empty_input = record { buf = 0 ∷ 0 ∷ []; read_idx = 0; write_idx = 0 }

abbrev waiting : Buffer
waiting = record { buf = 7 ∷ 8 ∷ 9 ∷ []; read_idx = 1; write_idx = 3 }

abbrev quiet : Connection
quiet = record {
  input = empty_input;
  outputs = [];
  reading = true;
  writing = false;
  disconnected = false;
  rdhup_phrase = false;
  old_len = 0;
  wants_write_complete = true;
  wire = [];
  calls = [];
}

abbrev busy : Connection
busy = record quiet { outputs = waiting ∷ []; writing = true }

waiting-IsValid : IsValid waiting
waiting-IsValid = omega arith

handle_ep_out-Conserves_example :
    Conserves busy (handle_ep_out (wrote 1 0 ∷ refused eagain ∷ []) busy)
handle_ep_out-Conserves_example =
    handle_ep_out-Conserves (wrote 1 0 ∷ refused eagain ∷ []) busy (waiting-IsValid, tt)

at_once : enter (120 ∷ []) 120 ≡ counted
unfolding enter enter_loop
at_once = refl

abbrev holding : Memory
holding a = some (5 ∷ 6 ∷ [])

abbrev freed : Memory
freed a = none
