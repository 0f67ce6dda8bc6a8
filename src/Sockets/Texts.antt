-- ===== src/Sockets/Texts.antt =====
-- The texts of the addresses of src/Sockets/InetAddr.cpp.
use learning_network.Prelude.{ℕ, ◌<◌, arith}
use learning_network.Sockets.{swap16}

swap16_lt : (n : ℕ) → n < 65536 → swap16 n < 65536
unfolding swap16
swap16_lt n h = omega arith
