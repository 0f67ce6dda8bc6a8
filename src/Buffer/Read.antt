-- ===== src/Buffer/Read.antt =====
-- `readFd` and `shrink` of src/Memorys/Buffer.h against the bytes that the buffer holds.
use learning_network.Prelude.{
  ℕ, ◌+◌, ◌-◌, ◌*◌, ◌^◌, ◌≤◌, ◌<◌, ◌≡◌, refl, sym, ap, ◌∙◌, List, ◌++◌, arith, length, take, drop,
  ok, true, false, append_assoc, inl, inr, Bool-cases, leb, leb→le, take_all, take-append-drop,
  length-take, length-drop, add64,
}
use learning_network.Buffer.{
  Buffer, max_size, readable_bytes, writable_bytes, append, got, extra_size, read_capacity, read_fd,
  init, initial_size, shrink, swap, to_string_piece, int_size,
}
use learning_network.Buffer.Invariant.{
  IsValid, content, readable_bytes_lem, writable_bytes_lem, length-content, bytes_at-ok,
  init-IsValid, length-written, init-content, init-length,
}
use learning_network.Buffer.Append.{
  filled, extended, copy_in_lem, extended-IsValid, extended-content, content-append, ensure_lem,
  append_grows,
}

read_fits :
    (b : Buffer) (bytes : List ℕ)
    → IsValid b
    → leb (length bytes) (writable_bytes b) ≡ true
    → read_fd b (got bytes) ≡ ok (extended b bytes)
unfolding read_fd
read_fits b bytes v h =
    rw (take_all (writable_bytes b) bytes (leb→le _ _ h), copy_in_lem b bytes fits, h)
      (ap (λ k. ok (record (filled b bytes) { write_idx = k })) (omega (arith, fits)))
  where
    fits : b.write_idx + length bytes ≤ length b.buf
    fits = ground (arith, writable_bytes_lem v)

-- The state in which `readFd` appends what `extra` received: the vector is full.
abbrev full_after : Buffer → List ℕ → Buffer
full_after b bytes = extended b (take (writable_bytes b) bytes)

full_fits :
    (b : Buffer) (bytes : List ℕ)
    → IsValid b
    → leb (length bytes) (writable_bytes b) ≡ false
    → b.write_idx + length (take (writable_bytes b) bytes) ≡ length b.buf
full_fits b bytes v h = ground (arith, writable_bytes_lem v, length-take (writable_bytes b) bytes)

read_spills :
    (b : Buffer) (bytes : List ℕ)
    → IsValid b
    → leb (length bytes) (writable_bytes b) ≡ false
    → read_fd b (got bytes) ≡ append (full_after b bytes) (drop (writable_bytes b) bytes)
unfolding read_fd
read_spills b bytes v h =
    rw (copy_in_lem b (take (writable_bytes b) bytes) (omega (arith, full_fits b bytes v h)), h)
      (ap
        (λ k.
          append (record (filled b (take (writable_bytes b) bytes)) { write_idx = k })
            (drop (writable_bytes b) bytes))
        (sym (full_fits b bytes v h)))

read_capacity_lem : (b : Buffer) → read_capacity b ≤ writable_bytes b + extra_size
unfolding read_capacity
read_capacity_lem b = ground arith

-- Whatever `readv` stored, up to the room that it was offered, `readFd` puts behind the readable
-- bytes, also when some of it went through the second segment.
pub content-read_fd :
    (b : Buffer) (bytes : List ℕ)
    → IsValid b
    → length bytes ≤ read_capacity b
    → length b.buf + extra_size ≤ max_size
    → (b' : Buffer) × (read_fd b (got bytes) ≡ ok b')
      × IsValid b'
      × (content b' ≡ content b ++ bytes)
content-read_fd b bytes v cap h = elim (Bool-cases (leb (length bytes) (writable_bytes b))) [
  | inl fits ↦
      let room : b.write_idx + length bytes ≤ length b.buf = ground (arith, writable_bytes_lem v) in
      (
        extended b bytes,
        read_fits b bytes v fits,
        extended-IsValid b bytes v room,
        extended-content b bytes v room,
      )
  | inr over ↦ spill over (rest_room over)
]
  where
    rest_room :
        leb (length bytes) (writable_bytes b) ≡ false
        → length (full_after b bytes).buf + length (drop (writable_bytes b) bytes) ≤ max_size
    rest_room over = omega (
      arith,
      length-written b.buf b.write_idx (take (writable_bytes b) bytes)
          (omega (arith, full_fits b bytes v over)),
      length-drop (writable_bytes b) bytes,
      read_capacity_lem b,
    )

    spill :
        leb (length bytes) (writable_bytes b) ≡ false
        → length (full_after b bytes).buf + length (drop (writable_bytes b) bytes) ≤ max_size
        → (b' : Buffer) × (read_fd b (got bytes) ≡ ok b')
          × IsValid b'
          × (content b' ≡ content b ++ bytes)
    spill over room =
        let fit : b.write_idx + length (take (writable_bytes b) bytes) ≤ length b.buf =
          omega (arith, full_fits b bytes v over) in
        let (b', e, v', c) =
          content-append (full_after b bytes) (drop (writable_bytes b) bytes)
            (extended-IsValid b (take (writable_bytes b) bytes) v fit) room in
        (
          b',
          read_spills b bytes v over ∙ e,
          v',
          c
              ∙ ap (λ xs. xs ++ drop (writable_bytes b) bytes)
                  (extended-content b (take (writable_bytes b) bytes) v fit)
              ∙ append_assoc (content b) (take (writable_bytes b) bytes)
                  (drop (writable_bytes b) bytes)
              ∙ ap (◌++◌ (content b)) (take-append-drop (writable_bytes b) bytes),
        )

int_size_lem : (m n : ℕ) → m ≡ n → n < 2 ^ 31 → int_size m ≡ n
unfolding int_size
int_size_lem m n e h = ground arith

to_string_piece_lem :
    (b : Buffer)
    → IsValid b
    → b.write_idx - b.read_idx < 2 ^ 31
    → to_string_piece b ≡ ok (content b)
unfolding to_string_piece
to_string_piece_lem b v small =
    rw size (bytes_at-ok b.buf b.read_idx (b.write_idx - b.read_idx) (omega arith))
  where
    size : int_size (readable_bytes b) ≡ b.write_idx - b.read_idx
    size = int_size_lem (readable_bytes b) (b.write_idx - b.read_idx) (readable_bytes_lem v) small

-- `shrink` moves the readable bytes, unchanged, to a fresh vector, as long as their number is an
-- `int`; the vector must be able to hold them twice, with the reserve.
content-shrink :
    (b : Buffer) (reserve : ℕ)
    → IsValid b
    → b.write_idx - b.read_idx < 2 ^ 31
    → initial_size + 2 * (b.write_idx - b.read_idx) + reserve ≤ max_size
    → (b' : Buffer) × (shrink b reserve ≡ ok b') × IsValid b' × (content b' ≡ content b)
unfolding shrink swap
content-shrink b reserve v small h =
    let (other, e, room) =
      ensure_lem (init initial_size) (add64 (readable_bytes b) reserve)
        (init-IsValid initial_size (omega arith)) (omega (arith, size, init-length)) in
    let (b', e', v', c) =
      content-append other (content b) room.valid
        (omega (arith, room.grows, size, init-length, length-content b v)) in
    (
      b',
      rw (e, piece, e') refl,
      v',
      c ∙ ap (λ xs. xs ++ content b) (room.same ∙ init-content initial_size),
    )
  where
    size : add64 (readable_bytes b) reserve ≡ b.write_idx - b.read_idx + reserve
    size = ground (arith, readable_bytes_lem v)

    piece : to_string_piece b ≡ ok (content b)
    piece = to_string_piece_lem b v small

-- `readFd` makes the vector longer by at most the number of bytes read.
pub read_fd_grows :
    (b : Buffer) (bytes : List ℕ) (b' : Buffer)
    → IsValid b
    → length bytes ≤ read_capacity b
    → length b.buf + extra_size ≤ max_size
    → read_fd b (got bytes) ≡ ok b'
    → length b'.buf ≤ length b.buf + length bytes
read_fd_grows b bytes b' v cap h r = elim (Bool-cases (leb (length bytes) (writable_bytes b))) [
  | inl fits ↦
      let room : b.write_idx + length bytes ≤ length b.buf = ground (arith, writable_bytes_lem v) in
      let e = read_fits b bytes v fits in
      let same : b' ≡ extended b bytes = cc in
      omega (arith, ap (λ x. length x.buf) same, length-written b.buf b.write_idx bytes room)
  | inr over ↦
      let rest = drop (writable_bytes b) bytes in
      let front = take (writable_bytes b) bytes in
      let fit : b.write_idx + length front ≤ length b.buf =
        omega (arith, full_fits b bytes v over) in
      let size = length-written b.buf b.write_idx front fit in
      let e = read_spills b bytes v over in
      let a : append (full_after b bytes) rest ≡ ok b' = cc in
      omega (
        arith,
        append_grows (full_after b bytes) rest b' (extended-IsValid b front v fit)
            (omega (arith, size, length-drop (writable_bytes b) bytes, read_capacity_lem b)) a,
        size,
        length-drop (writable_bytes b) bytes,
      )
]

-- There is always room for 65536 bytes.
pub read_capacity-ge : (b : Buffer) → extra_size ≤ read_capacity b
unfolding read_capacity
read_capacity-ge b = ground arith
