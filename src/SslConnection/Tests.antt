-- ===== src/SslConnection/Tests.antt =====
-- Concrete runs of the TLS connection of src/https/ssl_TcpConnection.cpp.
use learning_network.Prelude.{◌≡◌, ◌⊎◌, some, arith, true, false, [], ◌∷◌, ◌++◌, ok}
use learning_network.Buffer.{Buffer}
use learning_network.Buffer.Invariant.{IsValid, content}
use learning_network.Connection.{Connection}
use learning_network.SslConnection.{
  SslError, want_write, zero_return, ssl_wrote, write_failed, ssl_got, read_failed,
  ssl_handle_ep_in, ssl_handle_ep_out,
}
use learning_network.SslConnection.Output.{HasBytes}
use learning_network.SslConnection.Over.{over, sizes, Comes, ssl_handle_ep_out_lem}
use learning_network.SslConnection.Send.{ssl_put, ssl_minus, ssl_send_in_loop}
use learning_network.SslConnection.Send.Sent.{QueuedUp, Completed, AfterError, ssl_send_in_loop_lem}
use learning_network.Connection.Send.{is_empty}
use learning_network.SslConnection.Input.{ssl_handle_ep_in_lem, SslReacts}

abbrev no_input : Buffer
no_input = record { buf = 0 ∷ 0 ∷ []; read_idx = 0; write_idx = 0 }

abbrev first_out : Buffer
first_out = record { buf = 7 ∷ 8 ∷ 9 ∷ []; read_idx = 1; write_idx = 3 }

abbrev second_out : Buffer
second_out = record { buf = 4 ∷ []; read_idx = 0; write_idx = 1 }

abbrev two_queued : Connection
two_queued = record {
  input = no_input;
  outputs = first_out ∷ second_out ∷ [];
  reading = true;
  writing = true;
  disconnected = false;
  rdhup_phrase = false;
  old_len = 0;
  wants_write_complete = true;
  wire = 1 ∷ [];
  calls = [];
}

no_input-IsValid : IsValid no_input
no_input-IsValid = omega arith

first_out-IsValid : IsValid first_out
first_out-IsValid = omega arith

second_out-IsValid : IsValid second_out
second_out-IsValid = omega arith

first_out-HasBytes : HasBytes first_out
unfolding HasBytes
first_out-HasBytes = (first_out-IsValid, omega arith)

second_out-HasBytes : HasBytes second_out
unfolding HasBytes
second_out-HasBytes = (second_out-IsValid, omega arith)

ssl_handle_ep_out_lem_example :
    Comes
      (over (sizes two_queued.outputs) (ssl_wrote 0 ∷ write_failed want_write ∷ []))
      two_queued
      (ssl_handle_ep_out (ssl_wrote 0 ∷ write_failed want_write ∷ []) two_queued)
ssl_handle_ep_out_lem_example =
    ssl_handle_ep_out_lem (ssl_wrote 0 ∷ write_failed want_write ∷ []) two_queued
      (first_out-IsValid, (second_out-IsValid, tt))

ssl_handle_ep_in_lem_example :
    (b : Buffer) × (d : Connection) × IsValid b
    × (content b ≡ content no_input ++ (5 ∷ 6 ∷ []))
    × (ssl_handle_ep_in
          (λ c. c)
          (ssl_got 5 [] ∷ ssl_got 6 [] ∷ read_failed zero_return ∷ [])
          two_queued
        ≡ ok d)
    × SslReacts (λ c. c) (5 ∷ 6 ∷ []) zero_return (record two_queued { input = b }) d
ssl_handle_ep_in_lem_example =
    ssl_handle_ep_in_lem (λ c. c) (ssl_got 5 [] ∷ ssl_got 6 [] ∷ read_failed zero_return ∷ [])
      two_queued no_input-IsValid (omega arith, (omega arith, (tt, tt))) (omega arith)

abbrev quiet_tls : Connection
quiet_tls = record two_queued { outputs = []; writing = false }

ssl_send_in_loop_lem_example :
    ((quiet_tls.writing ≡ true) ⊎ (is_empty quiet_tls.outputs ≡ false)
      → (d : Connection) × (ssl_send_in_loop (some 5) 9 [] (5 ∷ 6 ∷ []) quiet_tls ≡ ok d)
        × QueuedUp (some 5) (5 ∷ 6 ∷ []) 2 quiet_tls.wire quiet_tls.reading quiet_tls d)
    × (quiet_tls.writing ≡ false
        → quiet_tls.outputs ≡ []
        → ((d : Connection) × (ssl_send_in_loop
                (some 5)
                9
                (ssl_put 1 ∷ ssl_put 2 ∷ [])
                (5 ∷ 6 ∷ [])
                quiet_tls
              ≡ ok d)
            × Completed (record quiet_tls { wire = quiet_tls.wire ++ (5 ∷ []) ++ (5 ∷ 6 ∷ []) }) d)
          × ((e : SslError)
              → (d : Connection) × (ssl_send_in_loop
                    (some 5)
                    9
                    (ssl_put 1 ∷ ssl_minus e ∷ [])
                    (5 ∷ 6 ∷ [])
                    quiet_tls
                  ≡ ok d)
                × AfterError e (some 5) 9 (5 ∷ 6 ∷ []) 1 (quiet_tls.wire ++ (5 ∷ [])) quiet_tls d))
ssl_send_in_loop_lem_example =
    ssl_send_in_loop_lem (some 5) 9 (1 ∷ []) [] (5 ∷ 6 ∷ []) quiet_tls (omega arith) (omega arith)
      (omega arith, tt)
