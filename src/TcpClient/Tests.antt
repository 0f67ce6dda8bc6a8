-- ===== src/TcpClient/Tests.antt =====
-- A client of src/TcpClient.cpp at concrete inputs.
use learning_network.Prelude.{suc, ◌≡◌, refl, true, false, [], ◌∷◌, some}
use learning_network.TcpClient.{
  ClientState, start_connector, removes, fails, new, stop, timer_fires, handshake_failed,
  client_history,
}
use learning_network.TcpClient.Stopped.{attempts, StillStopped, stopped_stays, stop_undone}

abbrev halted : ClientState
halted = record {
  connects = false;
  retry = true;
  ssl = false;
  connection = some 1;
  next_conn_id = 2;
  delayed = 0;
  requests = start_connector ∷ [];
}

stopped_stays_example :
    StillStopped (attempts halted.requests) (client_history (removes 1 ∷ new ∷ fails ∷ []) halted)
stopped_stays_example = stopped_stays (removes 1 ∷ new ∷ fails ∷ []) halted refl refl

abbrev eager : ClientState
eager = record halted { connects = true }

undone :
    ((timer_fires (stop (handshake_failed eager))).connects ≡ true)
    × (attempts (timer_fires (stop (handshake_failed eager))).requests
        ≡ suc (attempts (stop eager).requests))
undone = stop_undone eager refl refl
