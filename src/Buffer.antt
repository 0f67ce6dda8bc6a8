-- ===== src/Buffer.antt =====
-- src/Memorys/Buffer.h: the class `Buffer`, a byte vector with a read and a write index.
-- A pointer into the vector is its offset. `assert`, an access outside the vector's storage and
-- `vector`'s `length_error` are faults. `size_t` wraps.
pub mod Invariant
pub mod Append
pub mod Read
pub mod Retrieve
pub mod Endian
pub mod Search
pub mod Tests
use learning_network.Prelude.{
  ℕ, ◌+◌, ◌-◌, ◌%◌, ◌^◌, ◌++◌, List, if◌then◌else◌, ltb, leb, Outcome, ok, fault, ◌>>=◌, ◌>>◌,
  assert, bad_access, length_error, length, take, drop, replicate, add64, sub64,
}

pub record Buffer : Type 0 where
  pub buf : List ℕ
  pub read_idx : ℕ
  pub write_idx : ℕ

abbrev pub initial_size : ℕ
initial_size = 1024

-- `max_size()` of `std::vector<char>`
abbrev pub max_size : ℕ
max_size = 2 ^ 63 - 1

-- The constructor; its two assertions compare the fields that it has just set.
pub init : ℕ → Buffer
init size = record { buf = replicate size 0; read_idx = 0; write_idx = 0 }

pub readable_bytes : Buffer → ℕ
readable_bytes b = sub64 b.write_idx b.read_idx

pub writable_bytes : Buffer → ℕ
writable_bytes b = sub64 (length b.buf) b.write_idx

-- `swap` of `this` and `rhs`.
pub swap : Buffer → Buffer → Buffer × Buffer
swap b rhs = (
  record { buf = rhs.buf; read_idx = rhs.read_idx; write_idx = rhs.write_idx },
  record { buf = b.buf; read_idx = b.read_idx; write_idx = b.write_idx },
)

-- `len` bytes of the vector from an offset.
pub bytes_at : List ℕ → ℕ → ℕ → Outcome (List ℕ)
bytes_at xs off len =
    if leb (off + len) (length xs) then ok (take len (drop off xs)) else fault bad_access

-- The same in place: `std::copy` or `memmove` to an offset.
pub write_at : List ℕ → ℕ → List ℕ → Outcome (List ℕ)
write_at xs off src =
    if leb (off + length src) (length xs)
    then ok (take off xs ++ (src ++ drop (off + length src) xs))
    else fault bad_access

-- `vector::resize`
pub resize : List ℕ → ℕ → Outcome (List ℕ)
resize xs n =
    if ltb max_size n then fault length_error else ok (take n (xs ++ replicate (n - length xs) 0))

pub retrieve_all : Buffer → Buffer
retrieve_all b = record b { read_idx = 0; write_idx = 0 }

pub retrieve : Buffer → ℕ → Outcome Buffer
unfolding retrieve_all
retrieve b len = do
  assert (leb len (readable_bytes b))
  if ltb len (readable_bytes b)
      then ok (record b { read_idx = add64 b.read_idx len })
      else ok (retrieve_all b)

-- `end` is an offset.
pub retrieve_until : Buffer → ℕ → Outcome Buffer
retrieve_until b end = do
  assert (leb b.read_idx end)
  assert (leb end b.write_idx)
  retrieve b (sub64 end b.read_idx)

pub retrieve_as_string : Buffer → ℕ → Outcome (List ℕ × Buffer)
retrieve_as_string b len = do
  assert (leb len (readable_bytes b))
  result ← bytes_at b.buf b.read_idx len
  b' ← retrieve b len
  ok (result, b')

unfoldable pub retrieve_all_as_string : Buffer → Outcome (List ℕ × Buffer)
retrieve_all_as_string b = retrieve_as_string b (readable_bytes b)

pub has_written : Buffer → ℕ → Outcome Buffer
has_written b len = do
  assert (leb len (writable_bytes b))
  ok (record b { write_idx = add64 b.write_idx len })

pub unwrite : Buffer → ℕ → Outcome Buffer
unwrite b len = do
  assert (leb len (readable_bytes b))
  ok (record b { write_idx = sub64 b.write_idx len })

-- The move to the front that ends `addCap`.
pub compact : Buffer → Outcome Buffer
compact b = do
  let readable = sub64 b.write_idx b.read_idx
  src ← bytes_at b.buf b.read_idx readable
  moved ← write_at b.buf 0 src
  ok (record { buf = moved; read_idx = 0; write_idx = readable })

pub add_cap : Buffer → ℕ → Outcome Buffer
unfolding compact
add_cap b len = do
  grown ← if ltb b.read_idx len then resize b.buf (add64 len (length b.buf)) else ok b.buf
  compact (record b { buf = grown })

pub ensure_writable_bytes : Buffer → ℕ → Outcome Buffer
ensure_writable_bytes b len = do
  b' ← if ltb (writable_bytes b) len then add_cap b (sub64 len (writable_bytes b)) else ok b
  assert (leb len (writable_bytes b'))
  ok b'

-- `std::copy(data, data + len, writeBegin())`
pub copy_in : Buffer → List ℕ → Outcome Buffer
copy_in b src = do written ← write_at b.buf b.write_idx src; ok (record b { buf = written })

-- `append(data, len)`; the list is the `len` bytes at `data`.
pub append : Buffer → List ℕ → Outcome Buffer
unfolding copy_in
append b src = do
  roomy ← ensure_writable_bytes b (length src)
  filled ← copy_in roomy src
  has_written filled (length src)

-- `static_cast<int>` of a size, back in `size_t`.
pub int_size : ℕ → ℕ
int_size n = let low = n % 2 ^ 32 in if ltb low (2 ^ 31) then low else low + (2 ^ 64 - 2 ^ 32)

-- `toStringPiece`: the bytes that its reader sees.
pub to_string_piece : Buffer → Outcome (List ℕ)
to_string_piece b = bytes_at b.buf b.read_idx (int_size (readable_bytes b))

pub shrink : Buffer → ℕ → Outcome Buffer
shrink b reserve = do
  other ← ensure_writable_bytes (init initial_size) (add64 (readable_bytes b) reserve)
  piece ← to_string_piece b
  other' ← append other piece
  ok (swap b other').0

-- What `readv` answers: the bytes that it stored, or a failure with the error that
-- `getSocketError` then reports.
pub data ReadvResult : Type 0 where
  got : List ℕ → ReadvResult
  failed : ℕ → ReadvResult

abbrev pub extra_size : ℕ
extra_size = 65536

-- The bytes that `readFd` offers to `readv`: a second segment when the first is the smaller.
pub read_capacity : Buffer → ℕ
read_capacity b =
    if ltb (writable_bytes b) extra_size then writable_bytes b + extra_size else writable_bytes b

-- `readFd`, with the answer of `readv`. The call fills the free part of the vector first and
-- `extra` with the rest.
pub read_fd : Buffer → ReadvResult → Outcome Buffer
read_fd b (failed e) = ok b
read_fd b (got bytes) = do
  let writable = writable_bytes b
  filled ← copy_in b (take writable bytes)
  if leb (length bytes) writable
      then ok (record filled { write_idx = add64 b.write_idx (length bytes) })
      else append (record filled { write_idx = length b.buf }) (drop writable bytes)
