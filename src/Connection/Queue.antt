-- ===== src/Connection/Queue.antt =====
-- The bytes that src/TcpConnection.cpp and src/https/ssl_TcpConnection.cpp have queued for writing.
use learning_network.Prelude.{
  ℕ, ◌-◌, ◌≤◌, ◌≡◌, refl, sym, ap, ◌∙◌, arith, List, [], ◌∷◌, ◌++◌, length, take, drop, ok,
  append_assoc, take-take, take-append-drop, length-drop,
}
use learning_network.Buffer.{Buffer, retrieve, readable_bytes}
use learning_network.Buffer.Invariant.{IsValid, content, length-content, readable_bytes_lem}
use learning_network.Buffer.Retrieve.{content-retrieve}

unfoldable pub queued : List Buffer → List ℕ
queued [] = []
queued (b ∷ bs) = content b ++ queued bs

-- What the kernel takes from the vector, when that is readable.
pub taken_lem :
    (b : Buffer) (n : ℕ)
    → IsValid b
    → n ≤ length (content b)
    → take n (drop b.read_idx b.buf) ≡ take n (content b)
taken_lem b n v h = sym (
    take-take n (b.write_idx - b.read_idx) (drop b.read_idx b.buf)
      (omega (arith, length-content b v)))

-- Bytes that a successful call wrote and `retrieve` consumed moved from the buffer to the wire.
pub moved :
    (b : Buffer) (n : ℕ) (w : List ℕ)
    → IsValid b
    → n ≤ length (content b)
    → (b' : Buffer) × (retrieve b n ≡ ok b')
      × IsValid b'
      × ((w ++ take n (drop b.read_idx b.buf)) ++ content b' ≡ w ++ content b)
      × (length (content b') ≡ length (content b) - n)
moved b n w v h =
    let (b', e, v', c) = (content-retrieve b n v).0 h in
    (
      b',
      e,
      v',
      append_assoc w (take n (drop b.read_idx b.buf)) (content b')
          ∙ ap (λ xs. w ++ (xs ++ content b')) (taken_lem b n v h)
          ∙ ap (λ xs. w ++ (take n (content b) ++ xs)) c
          ∙ ap (◌++◌ w) (take-append-drop n (content b)),
      ap length c ∙ length-drop n (content b),
    )

pub no_bytes : (xs : List ℕ) → length xs ≡ 0 → xs ≡ []
no_bytes [] h = refl
no_bytes (x ∷ xs) h = absurd (omega arith)

-- A buffer that the code finds to be empty.
pub content-empty : (b : Buffer) → IsValid b → readable_bytes b ≡ 0 → content b ≡ []
content-empty b v h = no_bytes (content b) (omega (arith, length-content b v, readable_bytes_lem v))
