-- ===== src/Sockets/Endpoints.antt =====
-- `isSelfConnect` of src/Sockets/SocketOps.cpp against the endpoints that it compares.
use learning_network.Prelude.{
  ℕ, ◌≡◌, ◌↔◌, refl, arith, ==_refl, true, false, List, [], ◌∷◌, none, some,
}
use learning_network.Sockets.{
  InetAddr, af_inet, af_inet6, same_bytes, same_ends, get_local_addr, get_peer_addr,
  is_self_connect,
}

same_bytes→eq : (xs ys : List ℕ) → same_bytes xs ys ≡ true → xs ≡ ys
unfolding same_bytes
same_bytes→eq [] [] e = refl
same_bytes→eq [] (y ∷ ys) e = absurd (cc)
same_bytes→eq (x ∷ xs) [] e = absurd (cc)
same_bytes→eq (x ∷ xs) (y ∷ ys) e = ground (arith, same_bytes→eq xs ys)

same_bytes_refl : (xs : List ℕ) → same_bytes xs xs ≡ true
unfolding same_bytes
same_bytes_refl [] = refl
same_bytes_refl (x ∷ xs) = rw (==_refl x) (same_bytes_refl xs)

ends_lem :
    (local peer : InetAddr)
    → (local.family ≡ af_inet
        → (same_ends local peer ≡ true) ↔ ((local.port ≡ peer.port) × (local.word ≡ peer.word)))
      × (local.family ≡ af_inet6
          → (same_ends local peer ≡ true) ↔ ((local.port ≡ peer.port) × (local.bytes ≡ peer.bytes)))
unfolding same_ends
ends_lem local peer = (
  λ f. (λ e. ground arith, λ (p, w). ground arith),
  λ f. (
    λ e. ground (arith, same_bytes→eq local.bytes peer.bytes),
    λ (p, b). ground (arith, same_bytes_refl local.bytes),
  ),
)

-- A connection whose two ends the kernel reports counts as one with itself exactly when they have the
-- same port and the same address of the local end's family; when the local end cannot be had, it
-- never does.
pub is_self_connect_lem :
    (local peer : InetAddr)
    → (local.family ≡ af_inet
        → (is_self_connect (some local) (some peer) ≡ true)
          ↔ ((local.port ≡ peer.port) × (local.word ≡ peer.word)))
      × (local.family ≡ af_inet6
          → (is_self_connect (some local) (some peer) ≡ true)
            ↔ ((local.port ≡ peer.port) × (local.bytes ≡ peer.bytes)))
      × (is_self_connect none (some peer) ≡ false)
unfolding is_self_connect same_ends get_local_addr get_peer_addr
is_self_connect_lem local peer = let (a, b) = ends_lem local peer in (a, b, refl)
