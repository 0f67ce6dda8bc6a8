-- ===== src/Buffer/Retrieve.antt =====
-- `retrieve`, `retrieveUntil`, `retrieveAsString`, `hasWritten` and `unwrite` of
-- src/Memorys/Buffer.h: consuming bytes at the front, and adding or taking back at the end.
use learning_network.Prelude.{
  ℕ, ◌+◌, ◌-◌, ◌≤◌, ◌<◌, ◌≡◌, refl, sym, ap, ◌∙◌, [], arith, length, take, drop, ok, fault,
  failed_assert, true, inl, inr, Bool-cases, ltb, ltb→lt, leb, drop-drop, drop-take, drop_all,
  take-take, ◌⊎◌, le→leb,
}
use learning_network.Buffer.{
  Buffer, readable_bytes, retrieve, retrieve_all, retrieve_until, retrieve_as_string, has_written,
  unwrite,
}
use learning_network.Buffer.Invariant.{
  IsValid, content, readable_bytes_lem, writable_bytes_lem, length-content, bytes_at-ok,
}

-- The buffer after `n` readable bytes were consumed.
abbrev pub consumed : Buffer → ℕ → Buffer
consumed b n = record b { read_idx = b.read_idx + n }

retrieve_some :
    (b : Buffer) (n : ℕ)
    → IsValid b
    → n < b.write_idx - b.read_idx
    → retrieve b n ≡ ok (consumed b n)
unfolding retrieve
retrieve_some b n v h = ground (arith, readable_bytes_lem v)

retrieve_rest :
    (b : Buffer) (n : ℕ)
    → IsValid b
    → n ≡ b.write_idx - b.read_idx
    → retrieve b n ≡ ok (retrieve_all b)
unfolding retrieve
retrieve_rest b n v h = ground (arith, readable_bytes_lem v)

consumed-content :
    (b : Buffer) (n : ℕ)
    → n ≤ b.write_idx - b.read_idx
    → content (consumed b n) ≡ drop n (content b)
consumed-content b n h =
    ap (λ xs. take (b.write_idx - (b.read_idx + n)) xs)
      (sym (drop-drop b.read_idx n (b.read_idx + n) b.buf refl))
    ∙ sym (
        drop-take n (b.write_idx - (b.read_idx + n)) (b.write_idx - b.read_idx)
          (drop b.read_idx b.buf) (omega arith))

cleared-IsValid : (b : Buffer) → IsValid b → IsValid (retrieve_all b)
unfolding retrieve_all
cleared-IsValid b v = omega (arith, v.sized)

cleared-content : (b : Buffer) → content (retrieve_all b) ≡ []
unfolding retrieve_all
cleared-content b = refl

too_many :
    (b : Buffer) (n : ℕ)
    → IsValid b
    → b.write_idx - b.read_idx < n
    → retrieve b n ≡ fault failed_assert
unfolding retrieve
too_many b n v h = ground (arith, readable_bytes_lem v)

-- `retrieve` of at most the readable bytes drops them at the front; of more it fails its assertion.
pub content-retrieve :
    (b : Buffer) (n : ℕ)
    → IsValid b
    → (n ≤ length (content b)
        → (b' : Buffer) × (retrieve b n ≡ ok b') × IsValid b' × (content b' ≡ drop n (content b)))
      × (length (content b) < n → retrieve b n ≡ fault failed_assert)
content-retrieve b n v = (inside, outside)
  where
    size : length (content b) ≡ b.write_idx - b.read_idx
    size = length-content b v

    inside :
        n ≤ length (content b)
        → (b' : Buffer) × (retrieve b n ≡ ok b') × IsValid b' × (content b' ≡ drop n (content b))
    inside h = elim (Bool-cases (ltb n (b.write_idx - b.read_idx))) [
      | inl less ↦ (
        consumed b n,
        retrieve_some b n v (ltb→lt _ _ less),
        record { ordered = omega (arith, ltb→lt _ _ less); within = v.within; sized = v.sized },
        consumed-content b n (omega (arith, ltb→lt _ _ less)),
      )
      | inr all ↦
          let e : n ≡ b.write_idx - b.read_idx = ground (arith, size) in
          (
            retrieve_all b,
            retrieve_rest b n v e,
            cleared-IsValid b v,
            cleared-content b ∙ sym (drop_all n (content b) (omega (arith, size))),
          )
    ]

    outside : length (content b) < n → retrieve b n ≡ fault failed_assert
    outside h = too_many b n v (omega (arith, size))

until_lem :
    (b : Buffer) (end : ℕ)
    → IsValid b
    → b.read_idx ≤ end
    → end ≤ b.write_idx
    → retrieve_until b end ≡ retrieve b (end - b.read_idx)
unfolding retrieve_until
until_lem b end v low high = rw (le→leb _ _ low, le→leb _ _ high) (ap (retrieve b) (omega arith))

outside :
    (b : Buffer) (end : ℕ)
    → (end < b.read_idx) ⊎ (b.write_idx < end)
    → retrieve_until b end ≡ fault failed_assert
unfolding retrieve_until
outside b end h = ground arith

string_fault :
    (b : Buffer) (n : ℕ)
    → IsValid b
    → b.write_idx - b.read_idx < n
    → retrieve_as_string b n ≡ fault failed_assert
unfolding retrieve_as_string
string_fault b n v h = ground (arith, readable_bytes_lem v)

string_ok :
    (b b' : Buffer) (n : ℕ)
    → IsValid b
    → n ≤ b.write_idx - b.read_idx
    → retrieve b n ≡ ok b'
    → retrieve_as_string b n ≡ ok (take n (content b), b')
unfolding retrieve_as_string
string_ok b b' n v h e =
    rw (fits, bytes_at-ok b.buf b.read_idx n (omega arith), e)
      (ap (λ xs. ok (xs, b'))
        (sym (take-take n (b.write_idx - b.read_idx) (drop b.read_idx b.buf) h)))
  where
    fits : leb n (readable_bytes b) ≡ true
    fits = ground (arith, readable_bytes_lem v)

-- `retrieveUntil` consumes up to a pointer into the readable bytes, and fails its assertions for
-- any other pointer.
content-retrieve_until :
    (b : Buffer) (end : ℕ)
    → IsValid b
    → (b.read_idx ≤ end
        → end ≤ b.write_idx
        → (b' : Buffer) × (retrieve_until b end ≡ ok b')
          × IsValid b'
          × (content b' ≡ drop (end - b.read_idx) (content b)))
      × ((end < b.read_idx) ⊎ (b.write_idx < end) → retrieve_until b end ≡ fault failed_assert)
content-retrieve_until b end v = (inside, outside b end)
  where
    inside :
        b.read_idx ≤ end
        → end ≤ b.write_idx
        → (b' : Buffer) × (retrieve_until b end ≡ ok b')
          × IsValid b'
          × (content b' ≡ drop (end - b.read_idx) (content b))
    inside low high =
        let (b', e, v', c) =
          (content-retrieve b (end - b.read_idx) v).0 (omega (arith, length-content b v)) in
        (b', until_lem b end v low high ∙ e, v', c)

-- `retrieveAsString` hands out the front of the readable bytes and consumes it; asked for more
-- than there are, it fails its assertion.
pub retrieve_as_string_lem :
    (b : Buffer) (n : ℕ)
    → IsValid b
    → (n ≤ length (content b)
        → (b' : Buffer) × (retrieve_as_string b n ≡ ok (take n (content b), b'))
          × IsValid b'
          × (content b' ≡ drop n (content b)))
      × (length (content b) < n → retrieve_as_string b n ≡ fault failed_assert)
retrieve_as_string_lem b n v = (inside, λ h. string_fault b n v (omega (arith, length-content b v)))
  where
    inside :
        n ≤ length (content b)
        → (b' : Buffer) × (retrieve_as_string b n ≡ ok (take n (content b), b'))
          × IsValid b'
          × (content b' ≡ drop n (content b))
    inside h =
        let (b', e, v', c) = (content-retrieve b n v).0 h in
        (b', string_ok b b' n v (omega (arith, length-content b v)) e, v', c)

-- `hasWritten` makes bytes that stand behind the readable ones readable, and `unwrite` of as many
-- takes them back.
unwrite-has_written :
    (b : Buffer) (n : ℕ)
    → IsValid b
    → b.write_idx + n ≤ length b.buf
    → (b' : Buffer) × (has_written b n ≡ ok b')
      × IsValid b'
      × (length (content b') ≡ length (content b) + n)
      × (unwrite b' n ≡ ok b)
unfolding has_written unwrite
unwrite-has_written b n v h = (
  later,
  ground (arith, writable_bytes_lem v),
  valid,
  omega (arith, length-content b v, length-content later valid),
  ground (arith, readable_bytes_lem valid),
)
  where
    later : Buffer
    later = record b { write_idx = b.write_idx + n }

    valid : IsValid later
    valid = omega arith
