-- ===== src/TcpServer.antt =====
-- src/TcpServer.cpp, src/EventloopThreadPool.cpp, src/basics/Acceptor.cpp: a server that accepts
-- connections, gives each to a loop of its pool, and forgets it at its close. The names of connections
-- differ in their number alone, which stands for the name. An exhausted list of answers means that
-- `accept` fails from then on.
pub mod Accepting
pub mod Removal
pub mod Tests
use learning_network.Prelude.{
  ℕ, zero, suc, ◌+◌, ◌%◌, ◌==◌, Bool, true, false, if◌then◌else◌, List, [], ◌∷◌, length, Option,
  none, some, Outcome, ok, fault, failed_assert, dangling_pointer, ◌>>=◌, ◌>>◌, assert, assign,
  erase, insert,
}

-- `TcpConnection`, as far as the server knows it: `peer` is the address object that it points to, and
-- the loop is one of the pool or the server's own.
pub record ServedConnection : Type 0 where
  pub fd : ℕ
  pub loop : Option ℕ
  pub peer : ℕ

-- `loop_count` and `next` are the pool's; `peers` are the `InetAddr` objects, by the order in which they
-- were allocated; `accepts` counts the calls of `accept`.
pub record Server {ℓ} (Addr : Type ℓ) : Type ℓ where
  pub loop_count : ℕ
  pub next : ℕ
  pub next_conn_id : ℕ
  pub connections : List (ℕ × ServedConnection)
  pub peers : ℕ → Addr
  pub next_peer : ℕ
  pub accepts : ℕ

-- An answer of `accept`: a descriptor and the peer's address, or an error.
pub data Answer {ℓ} (Addr : Type ℓ) : Type ℓ where
  accepted : ℕ → Addr → Answer Addr
  failed : Answer Addr

module _ {ℓ} {Addr : Type ℓ} where
  -- `getNextLoop`: the loop, and `next` afterwards.
  unfoldable pub get_next_loop : Server Addr → Option ℕ × ℕ
  get_next_loop s =
      let next = suc s.next % s.loop_count in
      if s.loop_count == 0 then (none, s.next) else (some next, next)

  unfoldable pub new_connection : ℕ → ℕ → Server Addr → Server Addr
  new_connection fd peer s = record s {
    next = (get_next_loop s).1;
    next_conn_id = suc s.next_conn_id;
    connections =
        insert s.next_conn_id (record { fd = fd; loop = (get_next_loop s).0; peer = peer })
          s.connections;
  }

  -- The loop of `Acceptor::handleRead`, with `k + 32` for its `k` and the address object that `accept`
  -- fills in.
  unfoldable pub accept_loop : List (Answer Addr) → ℕ → ℕ → Server Addr → Server Addr
  accept_loop [] budget peer s = record s { accepts = s.accepts + budget }
  accept_loop (accepted fd a ∷ answers) budget peer s =
      accept_loop answers (suc budget) peer (
        new_connection fd peer
          (record s { peers = assign peer a s.peers; accepts = suc s.accepts }))
  accept_loop (failed ∷ answers) zero peer s = s
  accept_loop (failed ∷ answers) (suc budget) peer s =
      let rest = accept_loop answers budget peer (record s { accepts = suc s.accepts }) in
      if budget == 0 then record s { accepts = suc s.accepts } else rest

  -- `Acceptor::handleRead`
  unfoldable pub handle_read : List (Answer Addr) → Server Addr → Server Addr
  handle_read answers s =
      accept_loop answers 32 s.next_peer (record s { next_peer = suc s.next_peer })

  -- `removeConnectionInLoop`
  unfoldable pub remove_connection_in_loop : ℕ → Server Addr → Outcome (Server Addr)
  remove_connection_in_loop name s =
      let left = erase name s.connections in
      do assert (suc (length left) == length s.connections); ok (record s { connections = left })

  -- The loop of `handle_sig_int` erases the entry that its iterator stands on, and then moves it on.
  unfoldable pub handle_sig_int : Server Addr → Outcome (Server Addr)
  handle_sig_int s = elim s.connections [ [] ↦ ok s | e ∷ rest ↦ fault dangling_pointer ]
