-- ===== src/TcpServer/Tests.antt =====
-- A server of src/TcpServer.cpp at concrete inputs.
use learning_network.Prelude.{
  ℕ, ◌+◌, ◌*◌, ◌≡◌, refl, List, [], ◌∷◌, map, get_elem?, none, some, lookup, insert,
}
use learning_network.TcpServer.{Server, handle_read, accept_loop, new_connection, get_next_loop}
use learning_network.TcpServer.Accepting.{answer_of, loop_at, handle_read_batch}

abbrev idle : Server ℕ
idle = record {
  loop_count = 2;
  next = 0;
  next_conn_id = 1;
  connections = [];
  peers = λ i. 0;
  next_peer = 0;
  accepts = 0;
}

-- Three clients with the addresses 100, 200 and 300.
abbrev clients : List (ℕ × ℕ)
clients = (7, 100) ∷ (8, 200) ∷ (9, 300) ∷ []

third_loop :
    lookup 3 (handle_read (map answer_of clients) idle).connections
    ≡ some (record { fd = 9; loop = some 1; peer = 0 })
unfolding handle_read accept_loop new_connection get_next_loop insert lookup
third_loop = refl

handle_read_batch_example :
    ((j : ℕ) (c : ℕ × ℕ)
      → get_elem? clients j ≡ some c
      → lookup (1 + j) (handle_read (map answer_of clients) idle).connections
        ≡ some (record { fd = c.0; loop = loop_at idle j; peer = 0 }))
    × ((handle_read (map answer_of clients) idle).peers 0 ≡ 300)
    × ((handle_read (map answer_of clients) idle).accepts ≡ 0 + 2 * 3 + 32)
handle_read_batch_example = handle_read_batch clients idle

abbrev two_left : Server ℕ
two_left = record idle {
  connections =
      (1, record { fd = 7; loop = none; peer = 0 })
      ∷ (4, record { fd = 8; loop = none; peer = 0 })
      ∷ [];
}

found : lookup 4 two_left.connections ≡ some (record { fd = 8; loop = none; peer = 0 })
unfolding lookup
found = refl
