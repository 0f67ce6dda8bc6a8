-- ===== src/Buffer/Append.antt =====
-- `append`, `ensureWritableBytes`, `addCap` and `readFd` of src/Memorys/Buffer.h against the bytes
-- that the buffer holds.
use learning_network.Prelude.{
  true, ℕ, ◌+◌, ◌-◌, ◌≤◌, ◌<◌, ◌≡◌, refl, sym, ap, ◌∙◌, List, ◌++◌, arith, length, take, drop, ok,
  length-take, length-drop, length-append, length-replicate, drop-append_le, take-append_eq,
  take-append_le, append_assoc, inl, inr, Bool-cases, leb, ltb, if◌then◌else◌, take_all, replicate,
  drop-take, not-lt→ltb, add64, sub64,
}
use learning_network.Buffer.{
  Buffer, max_size, writable_bytes, bytes_at, write_at, compact, add_cap, ensure_writable_bytes,
  copy_in, append, resize, has_written,
}
use learning_network.Buffer.Invariant.{
  IsValid, content, writable_bytes_lem, length-content, length-written,
}

-- What a step that makes room leaves: the same bytes, and `n` free places behind them.
pub record Roomier (b : Buffer) (n : ℕ) (b' : Buffer) : Type 0 where
  pub valid : IsValid b'
  pub same : content b' ≡ content b
  pub room : n ≤ length b'.buf - b'.write_idx
  pub grows : length b'.buf ≤ length b.buf + n

abbrev compacted : Buffer → Buffer
compacted b = record {
  buf = content b ++ drop (b.write_idx - b.read_idx) b.buf;
  read_idx = 0;
  write_idx = b.write_idx - b.read_idx;
}

compact_lem : (b : Buffer) → IsValid b → compact b ≡ ok (compacted b)
unfolding compact bytes_at write_at
compact_lem b v = ground (arith, length-content b v)

length-compacted : (b : Buffer) → IsValid b → length (compacted b).buf ≡ length b.buf
length-compacted b v = omega (
  arith,
  length-append (content b) (drop (b.write_idx - b.read_idx) b.buf),
  length-content b v,
  length-drop (b.write_idx - b.read_idx) b.buf,
)

sub-zero : (n : ℕ) → n - 0 ≡ n
sub-zero n = omega arith

compacted-Roomier :
    (b : Buffer) (n : ℕ)
    → IsValid b
    → n ≤ length b.buf - b.write_idx + b.read_idx
    → Roomier b n (compacted b)
compacted-Roomier b n v h = record {
  valid = record {
    ordered = omega arith;
    within = omega (arith, length-compacted b v);
    sized = omega (arith, length-compacted b v);
  };
  same =
      ap (λ k. take k (compacted b).buf) (sub-zero (b.write_idx - b.read_idx))
      ∙ take-append_eq (b.write_idx - b.read_idx) (content b) _ (length-content b v);
  room = omega (arith, length-compacted b v);
  grows = omega (arith, length-compacted b v);
}

-- The vector after `resize` to a larger size.
abbrev grown_buf : Buffer → ℕ → List ℕ
grown_buf b k = b.buf ++ replicate k 0

length-grown : (b : Buffer) (k : ℕ) → length (grown_buf b k) ≡ length b.buf + k
length-grown b k = omega (arith, length-append b.buf (replicate k 0), length-replicate {A = ℕ} k 0)

resize_lem :
    (b : Buffer) (k : ℕ)
    → length b.buf + k ≤ max_size
    → resize b.buf (add64 k (length b.buf)) ≡ ok (grown_buf b k)
unfolding resize
resize_lem b k h =
    rw (size, not-lt→ltb max_size (length b.buf + k) h, diff)
      (ap ok (take_all (length b.buf + k) (grown_buf b k) (omega (arith, length-grown b k))))
  where
    size : add64 k (length b.buf) ≡ length b.buf + k
    size = omega arith

    diff : length b.buf + k - length b.buf ≡ k
    diff = omega arith

abbrev grown : Buffer → ℕ → Buffer
grown b k = record b { buf = grown_buf b k }

grown-IsValid : (b : Buffer) (k : ℕ) → IsValid b → length b.buf + k ≤ max_size → IsValid (grown b k)
grown-IsValid b k v h = omega (arith, length-grown b k)

grown-content : (b : Buffer) (k : ℕ) → IsValid b → content (grown b k) ≡ content b
grown-content b k v =
    ap (take (b.write_idx - b.read_idx))
      (drop-append_le b.read_idx b.buf (replicate k 0) (omega arith))
    ∙ take-append_le (b.write_idx - b.read_idx) (drop b.read_idx b.buf) (replicate k 0)
        (omega (arith, length-drop b.read_idx b.buf))

add_cap_lem :
    (b : Buffer) (k : ℕ)
    → IsValid b
    → length b.buf + k ≤ max_size
    → (b' : Buffer) × (add_cap b k ≡ ok b') × Roomier b (length b.buf - b.write_idx + k) b'
unfolding add_cap
add_cap_lem b k v h = elim (Bool-cases (ltb b.read_idx k)) [
  | inl less ↦ (
    compacted (grown b k),
    rw (less, resize_lem b k h) (compact_lem (grown b k) (grown-IsValid b k v h)),
    let r =
          compacted-Roomier (grown b k) (length b.buf - b.write_idx + k) (grown-IsValid b k v h)
            (omega (arith, length-grown b k)) in
        record {
          valid = r.valid;
          same = r.same ∙ grown-content b k v;
          room = r.room;
          grows =
              omega (arith, length-compacted (grown b k) (grown-IsValid b k v h), length-grown b k);
        },
  )
  | inr enough ↦ (
    compacted b,
    rw enough (compact_lem b v),
    compacted-Roomier b (length b.buf - b.write_idx + k) v (ground arith),
  )
]

ensure_check :
    (b b' : Buffer) (n : ℕ)
    → IsValid b'
    → n ≤ length b'.buf - b'.write_idx
    → (if ltb (writable_bytes b) n then add_cap b (sub64 n (writable_bytes b)) else ok b) ≡ ok b'
    → ensure_writable_bytes b n ≡ ok b'
unfolding ensure_writable_bytes
ensure_check b b' n v room e = rw (e, enough) refl
  where
    enough : leb n (writable_bytes b') ≡ true
    enough = ground (arith, writable_bytes_lem v)

grow_branch :
    (b b' : Buffer) (n k : ℕ)
    → ltb (writable_bytes b) n ≡ true
    → sub64 n (writable_bytes b) ≡ k
    → add_cap b k ≡ ok b'
    → (if ltb (writable_bytes b) n then add_cap b (sub64 n (writable_bytes b)) else ok b) ≡ ok b'
grow_branch b b' n k less need e = rw (less, need) e

-- Room is made without touching what is readable, as long as the vector may still grow.
pub ensure_lem :
    (b : Buffer) (n : ℕ)
    → IsValid b
    → length b.buf + n ≤ max_size
    → (b' : Buffer) × (ensure_writable_bytes b n ≡ ok b') × Roomier b n b'
ensure_lem b n v h = elim (Bool-cases (ltb (writable_bytes b) n)) [
  | inl less ↦
      let need : sub64 n (writable_bytes b) ≡ n - (length b.buf - b.write_idx) =
        ground (arith, writable_bytes_lem v) in
      let (b', e, r) = add_cap_lem b (n - (length b.buf - b.write_idx)) v (omega arith) in
      let room : n ≤ length b'.buf - b'.write_idx = omega (arith, r.room) in
      let short : length b.buf - b.write_idx < n = ground (arith, writable_bytes_lem v) in
      (
        b',
        ensure_check b b' n r.valid room (grow_branch b b' n _ less need e),
        record { valid = r.valid; same = r.same; room = room; grows = omega (arith, r.grows) },
      )
  | inr fits ↦
      let room : n ≤ length b.buf - b.write_idx = ground (arith, writable_bytes_lem v) in
      (
        b,
        ensure_check b b n v room (rw fits),
        record { valid = v; same = refl; room = room; grows = omega arith },
      )
]

-- The vector after the new bytes were copied behind the readable ones.
abbrev pub filled : Buffer → List ℕ → Buffer
filled b src = record b {
  buf = take b.write_idx b.buf ++ (src ++ drop (b.write_idx + length src) b.buf);
}

abbrev pub extended : Buffer → List ℕ → Buffer
extended b src = record (filled b src) { write_idx = b.write_idx + length src }

pub copy_in_lem :
    (b : Buffer) (src : List ℕ)
    → b.write_idx + length src ≤ length b.buf
    → copy_in b src ≡ ok (filled b src)
unfolding copy_in write_at
copy_in_lem b src h = ground arith

pub has_written_lem :
    (b : Buffer) (n : ℕ)
    → IsValid b
    → b.write_idx + n ≤ length b.buf
    → has_written b n ≡ ok (record b { write_idx = b.write_idx + n })
unfolding has_written
has_written_lem b n v h = ground (arith, writable_bytes_lem v)

pub filled-IsValid :
    (b : Buffer) (src : List ℕ)
    → IsValid b
    → b.write_idx + length src ≤ length b.buf
    → IsValid (filled b src)
filled-IsValid b src v h = omega (arith, length-written b.buf b.write_idx src h)

pub extended-IsValid :
    (b : Buffer) (src : List ℕ)
    → IsValid b
    → b.write_idx + length src ≤ length b.buf
    → IsValid (extended b src)
extended-IsValid b src v h = omega (arith, length-written b.buf b.write_idx src h)

pub extended-content :
    (b : Buffer) (src : List ℕ)
    → IsValid b
    → b.write_idx + length src ≤ length b.buf
    → content (extended b src) ≡ content b ++ src
extended-content b src v h =
    ap (take n) (
      drop-append_le b.read_idx (take b.write_idx b.buf) _
        (omega (arith, length-take b.write_idx b.buf)))
    ∙ ap (λ xs. take n (xs ++ (src ++ rest)))
        (drop-take b.read_idx (b.write_idx - b.read_idx) b.write_idx b.buf (omega arith))
    ∙ ap (take n) (sym (append_assoc (content b) src rest))
    ∙ take-append_eq n (content b ++ src) rest
        (omega (arith, length-append (content b) src, length-content b v))
  where
    n : ℕ
    n = b.write_idx + length src - b.read_idx

    rest : List ℕ
    rest = drop (b.write_idx + length src) b.buf

-- `append` returns, keeps the invariant, and puts the new bytes behind those that were readable,
-- whenever the vector may still grow by their number.
pub content-append :
    (b : Buffer) (src : List ℕ)
    → IsValid b
    → length b.buf + length src ≤ max_size
    → (b' : Buffer) × (append b src ≡ ok b') × IsValid b' × (content b' ≡ content b ++ src)
unfolding append
content-append b src v h =
    let (r, e, room) = ensure_lem b (length src) v h in
    let fits : r.write_idx + length src ≤ length r.buf =
      omega (arith, room.room, room.valid.within) in
    (
      extended r src,
      rw (e, copy_in_lem r src fits)
          (has_written_lem (filled r src) (length src) (filled-IsValid r src room.valid fits)
            (omega (arith, length-written r.buf r.write_idx src fits))),
      extended-IsValid r src room.valid fits,
      extended-content r src room.valid fits ∙ ap (λ xs. xs ++ src) room.same,
    )

-- `append` makes the vector longer by at most the number of new bytes.
pub append_grows :
    (b : Buffer) (src : List ℕ) (b' : Buffer)
    → IsValid b
    → length b.buf + length src ≤ max_size
    → append b src ≡ ok b'
    → length b'.buf ≤ length b.buf + length src
unfolding append
append_grows b src b' v h a =
    let (r, e, room) = ensure_lem b (length src) v h in
    let fits : r.write_idx + length src ≤ length r.buf =
      omega (arith, room.room, room.valid.within) in
    let done : append b src ≡ ok (extended r src) =
      rw (e, copy_in_lem r src fits)
        (has_written_lem (filled r src) (length src) (filled-IsValid r src room.valid fits)
          (omega (arith, length-written r.buf r.write_idx src fits))) in
    let same : b' ≡ extended r src = cc in
    omega
      (arith, ap (λ x. length x.buf) same, length-written r.buf r.write_idx src fits, room.grows)
