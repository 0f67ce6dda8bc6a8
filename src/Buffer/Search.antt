-- ===== src/Buffer/Search.antt =====
-- `findCRLF` and `findEOL` of src/Memorys/Buffer.h. A found position is counted from `readBegin()`,
-- and `none` is the null pointer.
use mathlib.Core.Option
use learning_network.Prelude.{
  ℕ, zero, suc, ◌+◌, ◌-◌, ◌≤◌, ◌<◌, ◌≡◌, refl, List, [], ◌∷◌, arith, length, get_elem?, take, drop,
  ok, fault, failed_assert, false, ◌&&◌, leb, ◌==◌, if◌then◌else◌, Outcome, ◌>>=◌, ◌>>◌, assert,
  Option, none, some, sub64, Bool-cases, inl, inr, ap, sym, ◌∙◌, lt→leb, le→leb, drop-drop,
  drop-take, length-drop,
}
use learning_network.Buffer.{Buffer, readable_bytes, bytes_at}
use learning_network.Buffer.Invariant.{
  IsValid, content, readable_bytes_lem, length-content, bytes_at-ok,
}

-- `memmem(p, n, "\r\n", 2)`, from the list of the `n` bytes.
unfoldable pub find_pair : List ℕ → Option ℕ
find_pair [] = none
find_pair (c ∷ []) = none
find_pair (c ∷ d ∷ cs) =
    if (c == 13) && (d == 10) then some 0 else Option.map suc (find_pair (d ∷ cs))

-- `memchr(p, '\n', n)`
find_byte : List ℕ → Option ℕ
find_byte [] = none
find_byte (c ∷ cs) = if c == 10 then some 0 else Option.map suc (find_byte cs)

-- `crlf == writeBegin() ? nullptr : crlf`
not_at_end : Buffer → Option ℕ → Option ℕ
not_at_end b none = none
not_at_end b (some i) = if i == readable_bytes b then none else some i

unfoldable pub find_crlf : Buffer → Outcome (Option ℕ)
unfolding not_at_end
find_crlf b = do
  bytes ← bytes_at b.buf b.read_idx (readable_bytes b)
  ok (not_at_end b (find_pair bytes))

-- `crlf == writeBegin()` with `crlf` counted from `start`
not_at_end_from : Buffer → ℕ → Option ℕ → Option ℕ
not_at_end_from b start none = none
not_at_end_from b start (some i) = if start + i == b.write_idx then none else some i

-- `findCRLF(start)`, with `start` an offset into the vector; the result is counted from `start`.
find_crlf_from : Buffer → ℕ → Outcome (Option ℕ)
unfolding not_at_end_from
find_crlf_from b start = do
  assert (leb b.read_idx start)
  assert (leb start b.write_idx)
  bytes ← bytes_at b.buf start (sub64 (readable_bytes b) (sub64 start b.read_idx))
  ok (not_at_end_from b start (find_pair bytes))

find_eol : Buffer → Outcome (Option ℕ)
find_eol b = do bytes ← bytes_at b.buf b.read_idx (readable_bytes b); ok (find_byte bytes)

-- `findEOL(start)`, with `start` an offset into the vector; the result is counted from `start`.
pub find_eol_from : Buffer → ℕ → Outcome (Option ℕ)
find_eol_from b start = do
  assert (leb start b.read_idx)
  assert (leb start b.write_idx)
  bytes ← bytes_at b.buf start (sub64 b.write_idx start)
  ok (find_byte bytes)

-- A carriage return at `i` and a line feed behind it.
abbrev CrlfAt : List ℕ → ℕ → Type 0
CrlfAt cs i = (get_elem? cs i ≡ some 13) × (get_elem? cs (suc i) ≡ some 10)

-- What a search answers: the first place where `P` holds, or that there is none.
abbrev First : (ℕ → Type 0) → Option ℕ → Type 0
First P none = (i : ℕ) → ¬ P i
First P (some i) = P i × ((j : ℕ) → j < i → ¬ P j)

First-suc :
    (P : ℕ → Type 0) (r : Option ℕ) → ¬ P 0 → First (λ i. P (suc i)) r → First P (Option.map suc r)
First-suc P none neg f = λ i. elim i as (λ i. ¬ P i) [ zero ↦ neg | suc i ↦ f i ]
First-suc P (some i) neg f = (
  f.0,
  λ j. elim j as (λ j. j < suc i → ¬ P j) [ zero ↦ λ _. neg | suc j ↦ λ h. f.1 j (omega arith) ],
)

First-here : (P : ℕ → Type 0) → P 0 → First P (some 0)
First-here P p = (p, λ j h. elim h [ ])

not_crlf_short : (c : ℕ) (i : ℕ) → ¬ CrlfAt (c ∷ []) i
not_crlf_short c zero p = ground arith
not_crlf_short c (suc i) p = ground arith

not_crlf_here : (c d : ℕ) (cs : List ℕ) → ((c == 13) && (d == 10)) ≡ false → ¬ CrlfAt (c ∷ d ∷ cs) 0
not_crlf_here c d cs e p = ground arith

find_pair_lem : (cs : List ℕ) → First (CrlfAt cs) (find_pair cs)
unfolding find_pair
find_pair_lem [] = λ i p. ground arith
find_pair_lem (c ∷ []) = not_crlf_short c
find_pair_lem (c ∷ d ∷ cs) = elim (Bool-cases ((c == 13) && (d == 10))) [
  | inl found ↦ rw found (First-here (CrlfAt (c ∷ d ∷ cs)) (ground arith, ground arith))
  | inr other ↦ rw other (
      First-suc (CrlfAt (c ∷ d ∷ cs)) (find_pair (d ∷ cs)) (not_crlf_here c d cs other)
        (find_pair_lem (d ∷ cs)))
]

find_byte_lem : (cs : List ℕ) → First (λ i. get_elem? cs i ≡ some 10) (find_byte cs)
unfolding find_byte
find_byte_lem [] = λ i p. ground arith
find_byte_lem (c ∷ cs) = elim (Bool-cases (c == 10)) [
  | inl found ↦ rw found (First-here (λ i. get_elem? (c ∷ cs) i ≡ some 10) (ground arith))
  | inr other ↦ rw other (
      First-suc (λ i. get_elem? (c ∷ cs) i ≡ some 10) (find_byte cs) (λ p. ground arith)
        (find_byte_lem cs))
]

get_elem?-lt : (cs : List ℕ) (i : ℕ) {c : ℕ} → get_elem? cs i ≡ some c → i < length cs
get_elem?-lt [] i p = cc
get_elem?-lt (x ∷ cs) zero p = omega arith
get_elem?-lt (x ∷ cs) (suc i) p = omega (arith, get_elem?-lt cs i p)

not_at_end_lem :
    (b : Buffer) (r : Option ℕ)
    → readable_bytes b ≡ length (content b)
    → First (CrlfAt (content b)) r
    → not_at_end b r ≡ r
unfolding not_at_end
not_at_end_lem b none e f = refl
not_at_end_lem b (some i) e f = ground (arith, get_elem?-lt (content b) i f.0.0)

at_end_lem :
    (b : Buffer) (start : ℕ) (r : Option ℕ)
    → IsValid b
    → b.read_idx ≤ start
    → start ≤ b.write_idx
    → First (CrlfAt (drop (start - b.read_idx) (content b))) r
    → not_at_end_from b start r ≡ r
unfolding not_at_end_from
at_end_lem b start none v low high f = refl
at_end_lem b start (some i) v low high f = ground (
  arith,
  get_elem?-lt (drop (start - b.read_idx) (content b)) i f.0.0,
  length-drop (start - b.read_idx) (content b),
  length-content b v,
)

content_bytes :
    (b : Buffer) → IsValid b → bytes_at b.buf b.read_idx (readable_bytes b) ≡ ok (content b)
content_bytes b v =
    rw (readable_bytes_lem v)
      (bytes_at-ok b.buf b.read_idx (b.write_idx - b.read_idx) (omega (arith, v.within, v.ordered)))

-- `findCRLF` finds the first "\r\n" among the readable bytes, and the null pointer exactly when
-- there is none.
find_crlf_lem :
    (b : Buffer) → IsValid b → (r : Option ℕ) × (find_crlf b ≡ ok r) × First (CrlfAt (content b)) r
unfolding find_crlf
find_crlf_lem b v = (
  find_pair (content b),
  rw (content_bytes b v) (
      ap ok (
        not_at_end_lem b (find_pair (content b)) (readable_bytes_lem v ∙ sym (length-content b v))
          (find_pair_lem (content b)))),
  find_pair_lem (content b),
)

-- `findEOL` finds the first line feed among the readable bytes, and the null pointer exactly when
-- there is none.
find_eol_lem :
    (b : Buffer)
    → IsValid b
    → (r : Option ℕ) × (find_eol b ≡ ok r) × First (λ i. get_elem? (content b) i ≡ some 10) r
unfolding find_eol
find_eol_lem b v = (find_byte (content b), rw (content_bytes b v), find_byte_lem (content b))

-- `findEOL(start)` fails its assertion for every start behind `readBegin()`, though a search that
-- goes on after a first line has such a start.
pub find_eol_from_behind :
    (b : Buffer) (start : ℕ) → b.read_idx < start → find_eol_from b start ≡ fault failed_assert
unfolding find_eol_from
find_eol_from_behind b start h = rw (lt→leb _ _ h)

-- `findCRLF(start)` with a start among the readable bytes finds the first "\r\n" behind it.
find_crlf_from_lem :
    (b : Buffer) (start : ℕ)
    → IsValid b
    → b.read_idx ≤ start
    → start ≤ b.write_idx
    → (r : Option ℕ) × (find_crlf_from b start ≡ ok r)
      × First (CrlfAt (drop (start - b.read_idx) (content b))) r
unfolding find_crlf_from
find_crlf_from_lem b start v low high = (
  find_pair rest,
  rw (le→leb _ _ low, le→leb _ _ high, bytes)
      (ap ok (at_end_lem b start (find_pair rest) v low high (find_pair_lem rest))),
  find_pair_lem rest,
)
  where
    rest : List ℕ
    rest = drop (start - b.read_idx) (content b)

    len : sub64 (readable_bytes b) (sub64 start b.read_idx) ≡ b.write_idx - start
    len = ground (arith, readable_bytes_lem v, v.within, v.sized)

    same : take (b.write_idx - start) (drop start b.buf) ≡ rest
    same =
        ap (take (b.write_idx - start))
          (sym (drop-drop b.read_idx (start - b.read_idx) start b.buf (omega arith)))
        ∙ sym (
            drop-take (start - b.read_idx) (b.write_idx - start) (b.write_idx - b.read_idx)
              (drop b.read_idx b.buf) (omega arith))

    bytes : bytes_at b.buf start (sub64 (readable_bytes b) (sub64 start b.read_idx)) ≡ ok rest
    bytes =
        rw len
          (bytes_at-ok b.buf start (b.write_idx - start) (omega (arith, v.within)) ∙ ap ok same)
