-- ===== src/Sockets.antt =====
-- src/Sockets/InetAddr.cpp, src/Sockets/SocketOps.cpp: addresses and their texts, and the options of a
-- socket. `inet_pton` and `inet_ntop` are parameters; a character is its code.
pub mod Texts
pub mod Endpoints
pub mod Tests
use learning_network.Prelude.{
  ℕ, zero, suc, ◌+◌, ◌-◌, ◌*◌, ◌/◌, ◌%◌, ◌==◌, ltb, leb, Bool, true, false, ◌&&◌, ◌||◌,
  if◌then◌else◌, List, [], ◌∷◌, ◌++◌, length, take, replicate, Option, none, some, Outcome, ok,
  assert, ◌>>=◌, ◌>>◌,
}
use learning_network.LogStream.{ℤ, pos, negsuc, convert}

abbrev pub af_inet : ℕ
af_inet = 2

abbrev pub af_inet6 : ℕ
af_inet6 = 10

-- The union of `sockaddr_in` and `sockaddr_in6`: the family and the port, in the order of the network,
-- lie at the same place; `word` is `sin_addr` or `sin6_flowinfo`; `bytes` is `sin6_addr`.
pub record InetAddr : Type 0 where
  pub family : ℕ
  pub port : ℕ
  pub word : ℕ
  pub bytes : List ℕ

-- `htons` and `ntohs` on a little-endian machine.
pub swap16 : ℕ → ℕ
swap16 n = n % 256 * 256 + n / 256

swap32 : ℕ → ℕ
swap32 n = n % 256 * 16777216 + n / 256 % 256 * 65536 + n / 65536 % 256 * 256 + n / 16777216 % 256

abbrev loopback6 : List ℕ
loopback6 = replicate 15 0 ++ (1 ∷ [])

-- `InetAddr(port, isLoopback, isIpv6)`. `rest` is what lies behind the shorter address.
init_port : List ℕ → ℕ → Bool → Bool → InetAddr
unfolding swap16 swap32
init_port rest port is_loopback is_ipv6 =
    if is_ipv6
    then record {
      family = af_inet6;
      port = swap16 port;
      word = 0;
      bytes = (if is_loopback then loopback6 else replicate 16 0);
    }
    else record {
      family = af_inet;
      port = swap16 port;
      word = swap32 (if is_loopback then 2130706433 else 0);
      bytes = rest;
    }

-- `strchr(ip, ':')`
pub has_colon : List ℕ → Bool
has_colon [] = false
has_colon (c ∷ cs) = (c == 58) || has_colon cs

-- The four bytes that `inet_pton(AF_INET, ...)` stores, the first of the lowest weight.
store_word : ℕ → List ℕ → List ℕ
store_word w (a ∷ b ∷ c ∷ d ∷ bytes) =
    w % 256 ∷ w / 256 % 256 ∷ w / 65536 % 256 ∷ w / 16777216 % 256 ∷ bytes
store_word w bytes = bytes

-- `fromIpPort` of either address. The longer one gets the family and the parser of the shorter.
pub from_ip_port : (List ℕ → Option ℕ) → List ℕ → ℕ → InetAddr → InetAddr
unfolding swap16
from_ip_port pton ip port a = record a {
  family = af_inet;
  port = swap16 port;
  word = elim (pton ip) [ none ↦ a.word | some w ↦ w ];
}

pub from_ip_port6 : (List ℕ → Option ℕ) → List ℕ → ℕ → InetAddr → InetAddr
unfolding swap16 store_word
from_ip_port6 pton ip port a = record a {
  family = af_inet;
  port = swap16 port;
  bytes = elim (pton ip) [ none ↦ a.bytes | some w ↦ store_word w a.bytes ];
}

-- `InetAddr(ip, port, isIpv6)`
pub init_ip : (List ℕ → Option ℕ) → List ℕ → List ℕ → ℕ → Bool → InetAddr
unfolding from_ip_port from_ip_port6 has_colon
init_ip pton rest ip port is_ipv6 =
    if is_ipv6 || has_colon ip
    then from_ip_port6 pton ip port
        (record { family = 0; port = 0; word = 0; bytes = replicate 16 0 })
    else from_ip_port pton ip port (record { family = 0; port = 0; word = 0; bytes = rest })

-- `inet_ntop` stores a text that fits with its end, and nothing otherwise.
pub ntop : ℕ → List ℕ → List ℕ → List ℕ
ntop size str buf = if ltb (length str) size then str else buf

module _ (ntop4 : ℕ → List ℕ) (ntop6 : List ℕ → List ℕ) where
  -- `toIp`, with the text that is in the buffer.
  pub to_ip : ℕ → InetAddr → List ℕ → Outcome (List ℕ)
  unfolding ntop
  to_ip size a buf =
      if a.family == af_inet
      then assert (leb 16 size) >> ok (ntop size (ntop4 a.word) buf)
      else if a.family == af_inet6
      then assert (leb 16 size) >> ok (ntop size (ntop6 a.bytes) buf)
      else ok buf

  -- The part of `toIpPort` for the longer address.
  pub with_brackets : ℕ → InetAddr → List ℕ → Outcome (List ℕ)
  unfolding to_ip
  with_brackets size a buf = to_ip (size - 1) a buf >>= λ str.
      assert (ltb (length (91 ∷ str) + 4) size)
      >> ok (take (size - 1) ((91 ∷ str) ++ (93 ∷ 58 ∷ convert (pos (swap16 a.port)))))

  -- The part that follows, for either.
  pub without_brackets : ℕ → InetAddr → List ℕ → Outcome (List ℕ)
  unfolding to_ip
  without_brackets size a buf = to_ip size a buf >>= λ str.
      assert (ltb (length str) size)
      >> ok (take (size - 1) (str ++ (58 ∷ convert (pos (swap16 a.port)))))

  -- `toIpPort`: no `return` parts them.
  pub to_ip_port : ℕ → InetAddr → List ℕ → Outcome (List ℕ)
  unfolding with_brackets without_brackets
  to_ip_port size a buf =
      let brackets = with_brackets size a buf in
      (if a.family == af_inet6 then brackets else ok buf) >>= λ b. without_brackets size a b

  -- `ipPortStr`, over an empty buffer of 64 characters for either address.
  pub ip_port_str : InetAddr → Outcome (List ℕ)
  unfolding to_ip_port
  ip_port_str a = to_ip_port 64 a []

  -- `ipStr`
  pub ip_str : InetAddr → Outcome (List ℕ)
  unfolding to_ip
  ip_str a = to_ip 64 a []

-- `memcmp` on as many bytes.
pub same_bytes : List ℕ → List ℕ → Bool
same_bytes [] [] = true
same_bytes [] (y ∷ ys) = false
same_bytes (x ∷ xs) [] = false
same_bytes (x ∷ xs) (y ∷ ys) = (x == y) && same_bytes xs ys

-- The comparison of `isSelfConnect`.
pub same_ends : InetAddr → InetAddr → Bool
unfolding same_bytes
same_ends local peer =
    if local.family == af_inet
    then (local.port == peer.port) && (local.word == peer.word)
    else if local.family == af_inet6
    then (local.port == peer.port) && same_bytes local.bytes peer.bytes
    else false

-- `getLocalAddr` and `getPeerAddr`, with what the call stored: when it fails, the address is zero.
pub get_local_addr : Option InetAddr → InetAddr
get_local_addr none = record { family = 0; port = 0; word = 0; bytes = replicate 16 0 }
get_local_addr (some a) = a

pub get_peer_addr : Option InetAddr → InetAddr
get_peer_addr none = record { family = 0; port = 0; word = 0; bytes = replicate 16 0 }
get_peer_addr (some a) = a

-- `isSelfConnect` of a descriptor, with what `getsockname` and `getpeername` stored.
pub is_self_connect : Option InetAddr → Option InetAddr → Bool
unfolding same_ends get_local_addr get_peer_addr
is_self_connect local peer = same_ends (get_local_addr local) (get_peer_addr peer)

-- `getSocketError`, with what SO_ERROR stored, if the call succeeded.
get_socket_error : Option ℕ → ℤ
get_socket_error none = negsuc 0
get_socket_error (some e) = pos e

-- A call of `setsockopt`: the option, the value and the length given for it.
pub data SetOption : Type 0 where
  tcp_nodelay : ℕ → ℕ → SetOption
  so_reuseaddr : ℕ → ℕ → SetOption
  so_reuseport : ℕ → ℕ → SetOption
  so_keepalive : ℕ → ℕ → SetOption

unfoldable pub op_val : Bool → ℕ
op_val on = if on then 1 else 0

unfoldable pub set_tcp_no_delay : Bool → SetOption
unfolding op_val
set_tcp_no_delay on = tcp_nodelay (op_val on) (op_val on)

set_reuse_addr : Bool → SetOption
unfolding op_val
set_reuse_addr on = so_reuseaddr (op_val on) 4

set_reuse_port : Bool → SetOption
unfolding op_val
set_reuse_port on = so_reuseport (op_val on) 4

unfoldable pub set_keep_alive : Bool → SetOption
unfolding op_val
set_keep_alive on = so_keepalive (op_val on) 4
