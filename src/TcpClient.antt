-- ===== src/TcpClient.antt =====
-- src/TcpClient.cpp: a client that keeps one connection. The connections are told apart by number, the
-- constructor having given `nextConnId_` to each; what the client asks of its connector and of its
-- connections is listed.
pub mod Stopped
pub mod Tests
use learning_network.Prelude.{
  ℕ, suc, ◌+◌, ◌-◌, ◌==◌, Bool, true, false, ◌&&◌, not, if◌then◌else◌, List, [], ◌∷◌, ◌++◌, Option,
  none, some, Outcome, ok, fault, failed_assert, ◌>>=◌, ◌>>◌, assert,
}

-- The calls that leave the client: of the connector and of connections, and the end of the handshake
-- that a connection over TLS waits for.
pub data ClientCall : Type 0 where
  start_connector : ClientCall
  stop_connector : ClientCall
  restart_connector : ClientCall
  start_handshake : ClientCall
  establish : ℕ → ClientCall
  shut_down : ℕ → ClientCall
  destroy : ℕ → ClientCall

-- `delayed` counts the timers that will call `connect`.
pub record ClientState : Type 0 where
  pub connects : Bool
  pub retry : Bool
  pub ssl : Bool
  pub connection : Option ℕ
  pub next_conn_id : ℕ
  pub delayed : ℕ
  pub requests : List ClientCall

unfoldable pub request : ClientCall → ClientState → ClientState
request r s = record s { requests = s.requests ++ (r ∷ []) }

unfoldable pub connect : ClientState → ClientState
connect s = request start_connector (record s { connects = true })

unfoldable pub shut_connection : Option ℕ → ClientState → ClientState
shut_connection none s = s
shut_connection (some c) s = request (shut_down c) s

unfoldable pub disconnect : ClientState → ClientState
disconnect s = shut_connection s.connection (record s { connects = false })

unfoldable pub stop : ClientState → ClientState
stop s = request stop_connector (record s { connects = false })

unfoldable pub handle_sig_int : ClientState → ClientState
handle_sig_int s = record (shut_connection s.connection s) { connects = false }

unfoldable pub enable_retry : ClientState → ClientState
enable_retry s = record s { retry = true }

-- The part of `newConnection` that both kinds of connection share.
unfoldable pub adopt : ℕ → ClientState → ClientState
adopt c s = request (establish c) (record s { connection = some c })

-- `newConnection`
unfoldable pub new_connection : ClientState → ClientState
new_connection s =
    let t = record s { next_conn_id = suc s.next_conn_id } in
    if s.ssl then request start_handshake t else adopt s.next_conn_id t

-- The callbacks of the handshake for connection `c`.
unfoldable pub handshake_succeeded : ℕ → ClientState → ClientState
handshake_succeeded c s = adopt c s

unfoldable pub handshake_failed : ClientState → ClientState
handshake_failed s =
    if s.retry && s.connects then record s { delayed = suc s.delayed; retry = false } else s

-- The timer that `handshake_failed` set.
unfoldable pub timer_fires : ClientState → ClientState
timer_fires s = if s.delayed == 0 then s else connect (record s { delayed = s.delayed - 1 })

-- The test of `removeConnection`.
unfoldable pub is_known : ℕ → Option ℕ → Bool
is_known c none = true
is_known c (some d) = c == d

unfoldable pub remove_connection : ℕ → ClientState → Outcome ClientState
remove_connection c s =
    let t = request (destroy c) (record s { connection = none }) in
    do
      assert (is_known c s.connection)
      ok (if s.retry && s.connects then request restart_connector t else t)

-- What happens to a client, but for `connect`.
pub data ClientEvent : Type 0 where
  disconnects : ClientEvent
  stops : ClientEvent
  sig_int : ClientEvent
  enables_retry : ClientEvent
  new : ClientEvent
  succeeds : ℕ → ClientEvent
  fails : ClientEvent
  fires : ClientEvent
  removes : ℕ → ClientEvent

unfoldable pub client_step : ClientEvent → ClientState → Outcome ClientState
client_step disconnects s = ok (disconnect s)
client_step stops s = ok (stop s)
client_step sig_int s = ok (handle_sig_int s)
client_step enables_retry s = ok (enable_retry s)
client_step new s = ok (new_connection s)
client_step (succeeds c) s = ok (handshake_succeeded c s)
client_step fails s = ok (handshake_failed s)
client_step fires s = ok (timer_fires s)
client_step (removes c) s = remove_connection c s

unfoldable pub client_history : List ClientEvent → ClientState → Outcome ClientState
client_history [] s = ok s
client_history (e ∷ es) s = client_step e s >>= client_history es
