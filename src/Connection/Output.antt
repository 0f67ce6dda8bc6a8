-- ===== src/Connection/Output.antt =====
-- `handle_ep_out` and `finish_in_out` of src/TcpConnection.cpp against the bytes that are queued.
use learning_network.Prelude.{
  ℕ, zero, suc, ◌≡◌, ◌≢◌, refl, sym, ap, ◌∙◌, subst, arith, List, [], ◌∷◌, ◌++◌, length, Outcome,
  ok, fault, failed_assert, dangling_pointer, append_assoc, All, Bool-cases, Bool, true, false,
  ◌==◌, if◌then◌else◌, ◌⊎◌, inl, inr, leb, leb→le, ◌>>=◌,
}
use mathlib.Core.Path.{ap₂}
use learning_network.Buffer.{Buffer, readable_bytes}
use learning_network.Buffer.Invariant.{IsValid, content}
use learning_network.Buffer.Retrieve.{content-retrieve}
use learning_network.Connection.{
  Connection, WriteAnswer, wrote, refused, WriteEnd, all_written, blocked, failed_write, eintr,
  write_error, write_loop, write_buffers, after_write, out_of, handle_ep_out, completed, called,
  hang_up,
}
use learning_network.Connection.Queue.{queued, moved, content-empty}

-- The loop over one buffer fails an assertion, or every byte is still on its way, in order.
abbrev pub LoopOk :
    Buffer → List ℕ → Outcome (List WriteAnswer × Buffer × List ℕ × WriteEnd) → Type 0
LoopOk b w (fault e) = e ≡ failed_assert
LoopOk b w (ok (ks, b', w', end)) =
    IsValid b' × (w' ++ content b' ≡ w ++ content b) × (end ≢ all_written)

LoopOk-moved :
    (b b' : Buffer) (w w' : List ℕ) (r : Outcome (List WriteAnswer × Buffer × List ℕ × WriteEnd))
    → w' ++ content b' ≡ w ++ content b
    → LoopOk b' w' r
    → LoopOk b w r
LoopOk-moved b b' w w' (fault e) h k = k
LoopOk-moved b b' w w' (ok (ks, c, u, end)) h (v, e, o) = (v, e ∙ h, o)

write_error-all_written : (e : ℕ) → write_error e ≢ all_written
unfolding write_error
write_error-all_written e = ground arith

stopped :
    (e : ℕ) (ks : List WriteAnswer) (b : Buffer) (w : List ℕ)
    (rest : Outcome (List WriteAnswer × Buffer × List ℕ × WriteEnd))
    → IsValid b
    → LoopOk b w rest
    → LoopOk b w (if e == eintr then rest else ok (ks, b, w, write_error e))
stopped e ks b w rest v h = elim (Bool-cases (e == eintr)) [
  | inl t ↦ rw t h
  | inr f ↦ rw f (v, refl, write_error-all_written e)
]

write_loop-LoopOk :
    (ks : List WriteAnswer) (b : Buffer) (w : List ℕ) → IsValid b → LoopOk b w (write_loop ks b w)
unfolding write_loop
write_loop-LoopOk [] b w v = (v, refl, λ e. cc)
write_loop-LoopOk (refused e ∷ ks) b w v =
    stopped e ks b w (write_loop ks b w) v (write_loop-LoopOk ks b w v)
write_loop-LoopOk (wrote zero e ∷ ks) b w v =
    stopped e ks b w (write_loop ks b w) v (write_loop-LoopOk ks b w v)
write_loop-LoopOk (wrote (suc n) e ∷ ks) b w v =
    elim (Bool-cases (leb (suc n) (length (content b)))) [
      | inl t ↦
          let (b', r, v', m, l) = moved b (suc n) w v (leb→le _ _ t) in
          rw (r, write_loop) (LoopOk-moved b b' w _ _ m (write_loop-LoopOk ks b' _ v'))
      | inr f ↦ rw ((content-retrieve b (suc n) v).1 (ground arith), write_loop) refl
    ]

-- The same of all buffers.
abbrev pub BuffersOk : Connection → List Buffer → Outcome (Connection × WriteEnd) → Type 0
BuffersOk c bs (fault e) = e ≡ failed_assert
BuffersOk c bs (ok (c', end)) =
    All IsValid c'.outputs × (c'.wire ++ queued c'.outputs ≡ c.wire ++ queued bs)

loop_in_queue :
    (b : Buffer) (bs : List Buffer) (c : Connection)
    (r : Outcome (List WriteAnswer × Buffer × List ℕ × WriteEnd))
    → All IsValid bs
    → LoopOk b c.wire r
    → BuffersOk c
        (b ∷ bs)
        (r >>= λ (ks', b', w, end). ok (record c { outputs = b' ∷ bs; wire = w }, end))
unfolding queued
loop_in_queue b bs c (fault e) vs h = h
loop_in_queue b bs c (ok (ks, b', w, end)) vs (v, m, o) = (
  (v, vs),
  sym (append_assoc w (content b') (queued bs))
      ∙ ap (λ xs. xs ++ queued bs) m
      ∙ append_assoc c.wire (content b) (queued bs),
)

completed-wire : (c : Connection) → (completed c).wire ≡ c.wire
unfolding completed called
completed-wire c = ground arith

BuffersOk-completed :
    (c : Connection) (b : Buffer) (bs : List Buffer) (r : Outcome (Connection × WriteEnd))
    → content b ≡ []
    → BuffersOk (completed c) bs r
    → BuffersOk c (b ∷ bs) r
unfolding queued
BuffersOk-completed c b bs (fault e) z h = h
BuffersOk-completed c b bs (ok (c', end)) z (vs, m) = (
  vs,
  m ∙ ap (λ w. w ++ queued bs) (completed-wire c) ∙ ap (λ xs. c.wire ++ (xs ++ queued bs)) (sym z),
)

write_buffers-BuffersOk :
    (bs : List Buffer) (ks : List WriteAnswer) (c : Connection)
    → All IsValid bs
    → BuffersOk c bs (write_buffers bs ks c)
unfolding write_buffers
write_buffers-BuffersOk [] ks c vs = (tt, refl)
write_buffers-BuffersOk (b ∷ bs) ks c (v, vs) = elim (Bool-cases (readable_bytes b == 0)) [
  | inl t ↦ rw t (
      BuffersOk-completed c b bs _ (content-empty b v (ground arith))
        (write_buffers-BuffersOk bs ks (completed c) vs))
  | inr f ↦ rw f (loop_in_queue b bs c _ vs (write_loop-LoopOk ks b c.wire v))
]

-- What may come of `handle_ep_out`.
abbrev pub Conserves : Connection → Outcome Connection → Type 0
Conserves c (fault e) = (e ≡ failed_assert) ⊎ (e ≡ dangling_pointer)
Conserves c (ok c') =
    All IsValid c'.outputs × (c'.wire ++ queued c'.outputs ≡ c.wire ++ queued c.outputs)

hang_up_keeps : (c : Connection) → ((hang_up c).wire ≡ c.wire) × ((hang_up c).outputs ≡ c.outputs)
unfolding hang_up called
hang_up_keeps c = ground arith

hang_up-Conserves :
    (c d : Connection) (r : Bool)
    → All IsValid d.outputs
    → d.wire ++ queued d.outputs ≡ c.wire ++ queued c.outputs
    → Conserves c (ok (if r then hang_up d else d))
hang_up-Conserves c d true vs m =
    let (w, o) = hang_up_keeps d in
    (subst (All IsValid) (sym o) vs, ap₂ (λ u bs. u ++ queued bs) w o ∙ m)
hang_up-Conserves c d false vs m = (vs, m)

after_write-Conserves :
    (c d : Connection) (end : WriteEnd)
    → BuffersOk c c.outputs (ok (d, end))
    → Conserves c (after_write end d)
unfolding after_write
after_write-Conserves c d blocked h = h
after_write-Conserves c d failed_write h = inr refl
after_write-Conserves c d all_written (vs, m) = hang_up-Conserves c d d.rdhup_phrase vs m

bind-Conserves :
    (c : Connection) (r : Outcome (Connection × WriteEnd))
    → BuffersOk c c.outputs r
    → Conserves c (r >>= λ (c', end). after_write end c')
bind-Conserves c (fault e) h = inl h
bind-Conserves c (ok (d, end)) h = after_write-Conserves c d end h

out_of-Conserves :
    (bs : List Buffer) (ks : List WriteAnswer) (c : Connection)
    → c.outputs ≡ bs
    → All IsValid c.outputs
    → Conserves c (out_of bs ks c)
unfolding out_of
out_of-Conserves [] ks c e vs = (vs, refl)
out_of-Conserves (b ∷ bs) ks c e vs = bind-Conserves c _ (
    subst (λ xs. BuffersOk c xs (write_buffers (b ∷ bs) ks c)) (sym e)
      (write_buffers-BuffersOk (b ∷ bs) ks c (subst (All IsValid) e vs)))

-- For every sequence of the kernel's answers, EPOLLOUT either ends in a failed assertion or in the
-- use of a buffer that was cleared away, or the bytes on the wire followed by the queued ones are
-- what they were: none is lost, repeated or moved.
pub handle_ep_out-Conserves :
    (ks : List WriteAnswer) (c : Connection)
    → All IsValid c.outputs
    → Conserves c (handle_ep_out ks c)
unfolding handle_ep_out
handle_ep_out-Conserves ks c vs = out_of-Conserves c.outputs ks c refl vs
