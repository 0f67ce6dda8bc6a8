-- ===== src/Buffer/Invariant.antt =====
-- What every operation of src/Memorys/Buffer.h keeps, and the bytes that a buffer holds.
use learning_network.Prelude.{
  ℕ, ◌+◌, ◌-◌, ◌≤◌, ◌≡◌, refl, List, [], ◌++◌, arith, length, take, drop, ok, length-take,
  length-drop, length-append, length-replicate,
}
use learning_network.Buffer.{
  Buffer, max_size, init, readable_bytes, writable_bytes, bytes_at, write_at,
}

pub record IsValid (b : Buffer) : Type 0 where
  pub ordered : b.read_idx ≤ b.write_idx
  pub within : b.write_idx ≤ length b.buf
  pub sized : length b.buf ≤ max_size

-- The readable bytes, oldest first.
abbrev pub content : Buffer → List ℕ
content b = take (b.write_idx - b.read_idx) (drop b.read_idx b.buf)

pub readable_bytes_lem : {b : Buffer} → IsValid b → readable_bytes b ≡ b.write_idx - b.read_idx
unfolding readable_bytes
readable_bytes_lem v = omega arith

pub writable_bytes_lem : {b : Buffer} → IsValid b → writable_bytes b ≡ length b.buf - b.write_idx
unfolding writable_bytes
writable_bytes_lem v = omega arith

pub length-content : (b : Buffer) → IsValid b → length (content b) ≡ b.write_idx - b.read_idx
length-content b v = omega (
  arith,
  length-take (b.write_idx - b.read_idx) (drop b.read_idx b.buf),
  length-drop b.read_idx b.buf,
)

pub init-IsValid : (n : ℕ) → n ≤ max_size → IsValid (init n)
unfolding init
init-IsValid n h = omega (arith, length-replicate {A = ℕ} n 0)

pub init-length : {n : ℕ} → length (init n).buf ≡ n
unfolding init
init-length {n} = length-replicate {A = ℕ} n 0

pub init-content : (n : ℕ) → content (init n) ≡ []
unfolding init
init-content n = refl

pub bytes_at-ok :
    (xs : List ℕ) (off len : ℕ)
    → off + len ≤ length xs
    → bytes_at xs off len ≡ ok (take len (drop off xs))
unfolding bytes_at
bytes_at-ok xs off len h = ground arith

write_at-ok :
    (xs : List ℕ) (off : ℕ) (src : List ℕ)
    → off + length src ≤ length xs
    → write_at xs off src ≡ ok (take off xs ++ (src ++ drop (off + length src) xs))
unfolding write_at
write_at-ok xs off src h = ground arith

pub length-written :
    (xs : List ℕ) (off : ℕ) (src : List ℕ)
    → off + length src ≤ length xs
    → length (take off xs ++ (src ++ drop (off + length src) xs)) ≡ length xs
length-written xs off src h = omega (
  arith,
  length-append (take off xs) (src ++ drop (off + length src) xs),
  length-append src (drop (off + length src) xs),
  length-take off xs,
  length-drop (off + length src) xs,
)
