-- ===== src/Connection/Stuck.antt =====
-- `handle_ep_out` of src/TcpConnection.cpp after it has written out a buffer.
use learning_network.Prelude.{
  ℕ, zero, suc, ◌≤◌, ◌≡◌, refl, ap, ◌∙◌, arith, List, [], ◌∷◌, ◌++◌, length, take_all, ok, fault,
  failed_assert, Bool-cases, true, false, ◌==◌, inl, inr, ◌>>=◌, bind_assoc,
}
use learning_network.Buffer.{Buffer, readable_bytes}
use learning_network.Buffer.Invariant.{IsValid, content, length-content, readable_bytes_lem}
use learning_network.Buffer.Retrieve.{content-retrieve}
use learning_network.Connection.{
  Connection, WriteAnswer, wrote, refused, all_written, blocked, eagain, write_error, write_loop,
  write_buffers, after_write, out_of, handle_ep_out, completed, called,
}
use learning_network.Connection.Queue.{moved, taken_lem, no_bytes}

-- A call that writes the whole buffer leaves an empty one, and the loop goes on.
loop_writes_whole :
    (n e : ℕ) (ks : List WriteAnswer) (b : Buffer) (w : List ℕ)
    → IsValid b
    → n ≡ length (content b)
    → 1 ≤ n
    → (b' : Buffer) × IsValid b'
      × (content b' ≡ [])
      × (write_loop (wrote n e ∷ ks) b w ≡ write_loop ks b' (w ++ content b))
unfolding write_loop
loop_writes_whole zero e ks b w v h p = absurd (omega arith)
loop_writes_whole (suc n) e ks b w v h p =
    let (b', r, v', m, l) = moved b (suc n) w v (omega arith) in
    let z = no_bytes (content b') (omega arith) in
    (
      b',
      v',
      z,
      rw (r, write_loop)
          (ap (write_loop ks b') (
            ap (λ xs. w ++ xs)
              (taken_lem b (suc n) v (omega arith) ∙ take_all (suc n) (content b) (omega arith)))),
    )

-- Then the loop asks for bytes that are not there.
loop_refuses :
    (k e : ℕ) (ks : List WriteAnswer) (b : Buffer) (w : List ℕ)
    → IsValid b
    → content b ≡ []
    → write_loop (wrote (suc k) e ∷ ks) b w ≡ fault failed_assert
unfolding write_loop
loop_refuses k e ks b w v z =
    rw ((content-retrieve b (suc k) v).1 (omega (arith, ap length z)), write_loop) refl

loop_blocks :
    (ks : List WriteAnswer) (b : Buffer) (w : List ℕ)
    → write_loop (refused eagain ∷ ks) b w ≡ ok (ks, b, w, blocked)
unfolding write_loop write_error
loop_blocks ks b w = refl

readable_some : (b : Buffer) → IsValid b → 1 ≤ length (content b) → (readable_bytes b == 0) ≡ false
readable_some b v h = ground (arith, readable_bytes_lem v, length-content b v)

readable_none : (b : Buffer) → IsValid b → content b ≡ [] → (readable_bytes b == 0) ≡ true
readable_none b v h = ground (arith, readable_bytes_lem v, length-content b v, ap length h)

-- EPOLLOUT with a first buffer that has bytes is a run of the loop over that buffer.
out_of_some :
    (c : Connection) (b : Buffer) (bs : List Buffer) (ks : List WriteAnswer)
    → IsValid b
    → 1 ≤ length (content b)
    → out_of (b ∷ bs) ks c ≡ (
        write_loop ks b c.wire >>= λ (ks', b', w, end).
        after_write end (record c { outputs = b' ∷ bs; wire = w }))
unfolding out_of write_buffers
out_of_some c b bs ks v h = rw (readable_some b v h) (bind_assoc (write_loop ks b c.wire) _ _)

completed-outputs :
    (c : Connection) → record (completed c) { outputs = [] } ≡ completed (record c { outputs = [] })
unfolding completed called
completed-outputs c = elim (Bool-cases c.wants_write_complete) [
  | inl t ↦ simp (t)
  | inr f ↦ simp (f)
]

out_of_none :
    (ks : List WriteAnswer) (c : Connection) (b : Buffer)
    → IsValid b
    → content b ≡ []
    → out_of (b ∷ []) ks c ≡ after_write all_written (completed (record c { outputs = [] }))
unfolding out_of write_buffers
out_of_none ks c b v z =
    rw (readable_none b v z) (ap (after_write all_written) (completed-outputs c))

-- `handle_ep_out` does not notice that a buffer was written out: when the kernel took all of the
-- first buffer, it calls `write` for the same number of bytes again, and if the kernel takes any of
-- them, `retrieve` fails its assertion.
written_again :
    (c : Connection) (b : Buffer) (bs : List Buffer) (e k e' : ℕ) (ks : List WriteAnswer)
    → c.outputs ≡ b ∷ bs
    → IsValid b
    → 1 ≤ length (content b)
    → handle_ep_out (wrote (length (content b)) e ∷ wrote (suc k) e' ∷ ks) c ≡ fault failed_assert
unfolding handle_ep_out
written_again c b bs e k e' ks o v h =
    let (b', v', z, r) =
      loop_writes_whole (length (content b)) e (wrote (suc k) e' ∷ ks) b c.wire v refl h in
    ap (λ xs. out_of xs (wrote (length (content b)) e ∷ wrote (suc k) e' ∷ ks) c) o
    ∙ out_of_some c b bs _ v h
    ∙ rw (r, loop_refuses k e' ks b' (c.wire ++ content b) v' z) refl

-- When the kernel refuses that second call with EAGAIN, the written buffer stays in the list and
-- the user is not told; only the next EPOLLOUT pops it.
written_blocked :
    (c : Connection) (b : Buffer) (e : ℕ) (ks ks' : List WriteAnswer)
    → c.outputs ≡ b ∷ []
    → IsValid b
    → 1 ≤ length (content b)
    → (b' : Buffer) × (content b' ≡ [])
      × (handle_ep_out (wrote (length (content b)) e ∷ refused eagain ∷ ks) c
          ≡ ok (record c { outputs = b' ∷ []; wire = c.wire ++ content b }))
      × (handle_ep_out ks' (record c { outputs = b' ∷ []; wire = c.wire ++ content b })
          ≡ after_write all_written
              (completed (record c { outputs = []; wire = c.wire ++ content b })))
unfolding handle_ep_out after_write
written_blocked c b e ks ks' o v h =
    let (b', v', z, r) =
      loop_writes_whole (length (content b)) e (refused eagain ∷ ks) b c.wire v refl h in
    (
      b',
      z,
      ap (λ xs. out_of xs (wrote (length (content b)) e ∷ refused eagain ∷ ks) c) o
          ∙ out_of_some c b [] _ v h
          ∙ rw (r, loop_blocks ks b' (c.wire ++ content b)) refl,
      out_of_none ks' (record c { outputs = b' ∷ []; wire = c.wire ++ content b }) b' v' z,
    )
