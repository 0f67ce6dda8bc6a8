-- ===== src/Sockets/Tests.antt =====
-- Concrete addresses of src/Sockets/InetAddr.cpp.
use learning_network.Prelude.{ℕ, ◌≡◌, refl, true, List, [], ◌∷◌, Option, some}
use learning_network.Sockets.{
  InetAddr, set_tcp_no_delay, tcp_nodelay, so_keepalive, set_keep_alive, op_val,
}

-- Stand-ins for `inet_ntop` and `inet_pton`.
abbrev ntop_four : ℕ → List ℕ
ntop_four w = 48 ∷ 46 ∷ 48 ∷ []

abbrev ntop_six : List ℕ → List ℕ
ntop_six bytes = 58 ∷ 58 ∷ []

abbrev pton_four : List ℕ → Option ℕ
pton_four ip = some 7

abbrev local_end : InetAddr
local_end = record { family = 2; port = 20480; word = 16777343; bytes = [] }

abbrev peer_end : InetAddr
peer_end = record { family = 2; port = 36895; word = 16777343; bytes = [] }

-- The length that is given for TCP_NODELAY is the value, not the size of an `int`.
nodelay_length : set_tcp_no_delay true ≡ tcp_nodelay 1 1
unfolding set_tcp_no_delay op_val
nodelay_length = refl

keepalive_length : set_keep_alive true ≡ so_keepalive 1 4
unfolding set_keep_alive op_val
keepalive_length = refl
