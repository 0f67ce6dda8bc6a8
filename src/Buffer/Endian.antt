-- ===== src/Buffer/Endian.antt =====
-- `appendInt64` … `readInt8` of src/Memorys/Buffer.h, over src/Sockets/Endian.h. An `intN_t` is its
-- bit pattern, a number below 256 ^ (N / 8), and `k` is `sizeof`; the host is little-endian.
use mathlib.Core.List.{reverse-reverse}
use native.Mathlib.Nat.{pow-suc}
use learning_network.Prelude.{
  All-reverse, ℕ, zero, suc, ◌+◌, ◌-◌, ◌*◌, ◌/◌, ◌%◌, ◌^◌, ◌≤◌, ◌<◌, ◌≡◌, refl, sym, ap, ◌∙◌, List,
  [], ◌∷◌, ◌++◌, arith, length, take, drop, ok, true, leb, Outcome, ◌>>=◌, ◌>>◌, assert, reverse,
  All, length-reverse, length-append, take-append_eq, drop-append_eq, take-take, append-nil,
}
use learning_network.Buffer.{Buffer, max_size, readable_bytes, bytes_at, retrieve, append}
use learning_network.Buffer.Invariant.{
  IsValid, content, readable_bytes_lem, length-content, bytes_at-ok,
}
use learning_network.Buffer.Append.{content-append}
use learning_network.Buffer.Retrieve.{content-retrieve}

-- The `k` bytes of an integer in the host's memory, and back.
unfoldable pub le_bytes : ℕ → ℕ → List ℕ
le_bytes zero x = []
le_bytes (suc k) x = x % 256 ∷ le_bytes k (x / 256)

from_le : List ℕ → ℕ
from_le [] = 0
from_le (c ∷ cs) = c + 256 * from_le cs

-- `htobe64`, `htobe32`, `htobe16`: the integer whose bytes in memory are those of `x` reversed.
host_to_network : ℕ → ℕ → ℕ
host_to_network k x = from_le (reverse (le_bytes k x))

network_to_host : ℕ → ℕ → ℕ
network_to_host k x = from_le (reverse (le_bytes k x))

pub append_int : ℕ → Buffer → ℕ → Outcome Buffer
append_int k b x = append b (le_bytes k (host_to_network k x))

peek_int : ℕ → Buffer → Outcome ℕ
peek_int k b = do
  assert (leb k (readable_bytes b))
  be ← bytes_at b.buf b.read_idx k
  ok (network_to_host k (from_le be))

pub read_int : ℕ → Buffer → Outcome (ℕ × Buffer)
read_int k b = do result ← peek_int k b; b' ← retrieve b k; ok (result, b')

length-le_bytes : (k x : ℕ) → length (le_bytes k x) ≡ k
unfolding le_bytes
length-le_bytes zero x = refl
length-le_bytes (suc k) x = ap suc (length-le_bytes k (x / 256))

le_bytes-bytes : (k x : ℕ) → All (λ c. c < 256) (le_bytes k x)
unfolding le_bytes
le_bytes-bytes zero x = tt
le_bytes-bytes (suc k) x = (omega arith, le_bytes-bytes k (x / 256))

from_le-le_bytes : (k x : ℕ) → x < 256 ^ k → from_le (le_bytes k x) ≡ x
unfolding le_bytes from_le
from_le-le_bytes zero x h = omega arith
from_le-le_bytes (suc k) x h =
    omega (arith, from_le-le_bytes k (x / 256) (omega (arith, pow-suc 256 k)))

le_bytes-from_le :
    (k : ℕ) (cs : List ℕ) → length cs ≡ k → All (λ c. c < 256) cs → le_bytes k (from_le cs) ≡ cs
unfolding le_bytes from_le
le_bytes-from_le zero [] e p = refl
le_bytes-from_le (suc k) [] e p = absurd (omega arith)
le_bytes-from_le zero (c ∷ cs) e p = absurd (omega arith)
le_bytes-from_le (suc k) (c ∷ cs) e p =
    let low : (c + 256 * from_le cs) % 256 ≡ c = omega (arith, p.0) in
    let high : (c + 256 * from_le cs) / 256 ≡ from_le cs = omega (arith, p.0) in
    rw (low, high) (ap (◌∷◌ c) (le_bytes-from_le k cs (omega arith) p.1))

-- The most significant byte first.
unfoldable pub be_bytes : ℕ → ℕ → List ℕ
be_bytes k x = reverse (le_bytes k x)

length-be_bytes : (k x : ℕ) → length (be_bytes k x) ≡ k
unfolding be_bytes
length-be_bytes k x = length-reverse (le_bytes k x) ∙ length-le_bytes k x

network_bytes : (k x : ℕ) → le_bytes k (host_to_network k x) ≡ be_bytes k x
unfolding host_to_network be_bytes
network_bytes k x =
    le_bytes-from_le k (reverse (le_bytes k x))
      (length-reverse (le_bytes k x) ∙ length-le_bytes k x)
      (All-reverse (λ c. c < 256) (le_bytes k x) (le_bytes-bytes k x))

network_to_host-be_bytes : (k x : ℕ) → x < 256 ^ k → network_to_host k (from_le (be_bytes k x)) ≡ x
unfolding network_to_host be_bytes
network_to_host-be_bytes k x h =
    ap (λ cs. from_le (reverse cs))
      (le_bytes-from_le k (reverse (le_bytes k x))
        (length-reverse (le_bytes k x) ∙ length-le_bytes k x)
        (All-reverse (λ c. c < 256) (le_bytes k x) (le_bytes-bytes k x)))
    ∙ ap from_le (reverse-reverse (le_bytes k x))
    ∙ from_le-le_bytes k x h

-- An integer is sent with its most significant byte first, behind what the buffer holds.
pub content-append_int :
    (k : ℕ) (b : Buffer) (x : ℕ)
    → IsValid b
    → length b.buf + k ≤ max_size
    → (b' : Buffer) × (append_int k b x ≡ ok b')
      × IsValid b'
      × (content b' ≡ content b ++ be_bytes k x)
unfolding append_int
content-append_int k b x v h =
    rw (network_bytes k x) (content-append b (be_bytes k x) v (omega (arith, length-be_bytes k x)))

peek_int_lem :
    (k : ℕ) (b : Buffer) (x : ℕ) (rest : List ℕ)
    → IsValid b
    → x < 256 ^ k
    → content b ≡ be_bytes k x ++ rest
    → peek_int k b ≡ ok x
unfolding peek_int
peek_int_lem k b x rest v h c =
    rw (enough, bytes_at-ok b.buf b.read_idx k (omega (arith, size, v.within)), front)
      (ap ok (network_to_host-be_bytes k x h))
  where
    size : k ≤ b.write_idx - b.read_idx
    size = omega (
      arith,
      ap length c,
      length-append (be_bytes k x) rest,
      length-be_bytes k x,
      length-content b v,
    )

    enough : leb k (readable_bytes b) ≡ true
    enough = ground (arith, readable_bytes_lem v, size)

    front : take k (drop b.read_idx b.buf) ≡ be_bytes k x
    front =
        sym (take-take k (b.write_idx - b.read_idx) (drop b.read_idx b.buf) size)
        ∙ ap (take k) c
        ∙ take-append_eq k (be_bytes k x) rest (length-be_bytes k x)

-- What `appendInt` put at the front of a buffer `readInt` gives back, and leaves what follows.
pub read_int-be_bytes :
    (k : ℕ) (b : Buffer) (x : ℕ) (rest : List ℕ)
    → IsValid b
    → x < 256 ^ k
    → content b ≡ be_bytes k x ++ rest
    → (b' : Buffer) × (read_int k b ≡ ok (x, b')) × IsValid b' × (content b' ≡ rest)
unfolding read_int
read_int-be_bytes k b x rest v h c =
    let (b', e, v', c') = (content-retrieve b k v).0 (omega (arith, size)) in
    (
      b',
      rw (peek_int_lem k b x rest v h c, e),
      v',
      c' ∙ ap (drop k) c ∙ drop-append_eq k (be_bytes k x) rest (length-be_bytes k x),
    )
  where
    size : k ≤ length (content b)
    size = omega (arith, ap length c, length-append (be_bytes k x) rest, length-be_bytes k x)

-- Round trip: an integer of `k` bytes appended to a buffer with no readable bytes is read back,
-- and the buffer is empty again.
pub read_int-append_int :
    (k : ℕ) (b : Buffer) (x : ℕ)
    → IsValid b
    → content b ≡ []
    → x < 256 ^ k
    → length b.buf + k ≤ max_size
    → (b' : Buffer) × (b'' : Buffer) × (append_int k b x ≡ ok b')
      × (read_int k b' ≡ ok (x, b''))
      × (content b'' ≡ [])
read_int-append_int k b x v none h room =
    let (b', e, v', c) = content-append_int k b x v room in
    let (b'', e', v'', c') =
      read_int-be_bytes k b' x [] v' h
        (c ∙ ap (λ xs. xs ++ be_bytes k x) none ∙ sym (append-nil (be_bytes k x))) in
    (b', b'', e, e', c')
