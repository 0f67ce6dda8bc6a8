-- ===== src/SslConnection/Output.antt =====
-- `handle_ep_out` of src/https/ssl_TcpConnection.cpp against the bytes that are queued.
use mathlib.Core.Path.{ap₂}
use learning_network.Prelude.{
  ℕ, suc, ◌-◌, ◌≤◌, ◌≡◌, refl, sym, ap, ◌∙◌, subst, arith, List, [], ◌∷◌, ◌++◌, map, replicate,
  length, take, drop, take_all, Outcome, ok, fault, failed_assert, append_assoc, append-nil, All,
  Bool-cases, Bool, true, false, ◌==◌, if◌then◌else◌, inl, inr, leb, leb→le, ◌>>=◌, Option, some,
  none,
}
use learning_network.Buffer.{Buffer, readable_bytes}
use learning_network.Buffer.Invariant.{IsValid, content, length-content, readable_bytes_lem}
use learning_network.Buffer.Retrieve.{content-retrieve}
use learning_network.Connection.{Connection, write_complete, called, completed}
use learning_network.Connection.Queue.{queued, moved, content-empty, no_bytes, taken_lem}
use learning_network.SslConnection.{
  SslError, want_read, want_write, zero_return, other_error, SslWrite, ssl_wrote, write_failed,
  ssl_hang_up, ssl_write_loop, ssl_next_buffer, ssl_write_buffers, ssl_after_write, ssl_out_of,
  ssl_handle_ep_out,
}

-- The loop over one buffer fails an assertion, or every byte is still on its way, in order, and a
-- buffer that it calls written out is empty.
abbrev pub LoopOk :
    Buffer → List ℕ → Outcome (List SslWrite × Buffer × List ℕ × Option SslError) → Type 0
LoopOk b w (fault e) = e ≡ failed_assert
LoopOk b w (ok (ks, b', w', end)) =
    IsValid b' × (w' ++ content b' ≡ w ++ content b) × (end ≡ none → content b' ≡ [])

LoopOk-moved :
    (b b' : Buffer) (w w' : List ℕ)
    (r : Outcome (List SslWrite × Buffer × List ℕ × Option SslError))
    → w' ++ content b' ≡ w ++ content b
    → LoopOk b' w' r
    → LoopOk b w r
LoopOk-moved b b' w w' (fault e) h k = k
LoopOk-moved b b' w w' (ok (ks, c, u, end)) h (v, e, o) = (v, e ∙ h, o)

ssl_write_loop-LoopOk :
    (ks : List SslWrite) (b : Buffer) (w : List ℕ) → IsValid b → LoopOk b w (ssl_write_loop ks b w)
unfolding ssl_write_loop
ssl_write_loop-LoopOk [] b w v = elim (Bool-cases (readable_bytes b == 0)) [
  | inl t ↦ rw t (v, refl, λ e. content-empty b v (ground arith))
  | inr f ↦ rw f (v, refl, λ e. absurd (cc))
]
ssl_write_loop-LoopOk (write_failed e ∷ ks) b w v = elim (Bool-cases (readable_bytes b == 0)) [
  | inl t ↦ rw t (v, refl, λ e. content-empty b v (ground arith))
  | inr f ↦ rw f (v, refl, λ e. absurd (cc))
]
ssl_write_loop-LoopOk (ssl_wrote n ∷ ks) b w v = elim (Bool-cases (readable_bytes b == 0)) [
  | inl t ↦ rw t (v, refl, λ e. content-empty b v (ground arith))
  | inr f ↦ rw f (elim (Bool-cases (leb (suc n) (length (content b)))) [
    | inl t ↦
        let (b', r, v', m, l) = moved b (suc n) w v (leb→le _ _ t) in
        rw (r, ssl_write_loop) (LoopOk-moved b b' w _ _ m (ssl_write_loop-LoopOk ks b' _ v'))
    | inr g ↦ rw ((content-retrieve b (suc n) v).1 (ground arith), ssl_write_loop) refl
  ])
]

-- The same of all buffers.
abbrev pub BuffersOk : List ℕ → List Buffer → Outcome (Connection × Option SslError) → Type 0
BuffersOk w bs (fault e) = e ≡ failed_assert
BuffersOk w bs (ok (c', end)) =
    All IsValid c'.outputs × (c'.wire ++ queued c'.outputs ≡ w ++ queued bs)

completed-wire : (c : Connection) → (completed c).wire ≡ c.wire
unfolding completed called
completed-wire c = ground arith

BuffersOk-wire :
    (w w' : List ℕ) (bs bs' : List Buffer) (r : Outcome (Connection × Option SslError))
    → w' ++ queued bs' ≡ w ++ queued bs
    → BuffersOk w' bs' r
    → BuffersOk w bs r
BuffersOk-wire w w' bs bs' (fault e) h k = k
BuffersOk-wire w w' bs bs' (ok (c', end)) h (vs, m) = (vs, m ∙ h)

next-BuffersOk :
    (go_on : List SslWrite → Connection → Outcome (Connection × Option SslError)) (b : Buffer)
    (bs : List Buffer) (c : Connection)
    (r : Outcome (List SslWrite × Buffer × List ℕ × Option SslError))
    → ((ks : List SslWrite) (d : Connection) → BuffersOk d.wire bs (go_on ks d))
    → All IsValid bs
    → LoopOk b c.wire r
    → BuffersOk c.wire (b ∷ bs) (r >>= λ x. ssl_next_buffer go_on bs c x)
unfolding ssl_next_buffer queued
next-BuffersOk go_on b bs c (fault e) g vs h = h
next-BuffersOk go_on b bs c (ok (ks, b', w, some e)) g vs (v, m, z) = (
  (v, vs),
  sym (append_assoc w (content b') (queued bs))
      ∙ ap (λ xs. xs ++ queued bs) m
      ∙ append_assoc c.wire (content b) (queued bs),
)
next-BuffersOk go_on b bs c (ok (ks, b', w, none)) g vs (v, m, z) =
    BuffersOk-wire c.wire (completed (record c { wire = w })).wire (b ∷ bs) bs _
      (ap (λ u. u ++ queued bs)
          (completed-wire (record c { wire = w })
            ∙ sym (append-nil w)
            ∙ ap (◌++◌ w) (sym (z refl))
            ∙ m)
        ∙ append_assoc c.wire (content b) (queued bs))
      (g ks (completed (record c { wire = w })))

ssl_write_buffers-BuffersOk :
    (bs : List Buffer) (ks : List SslWrite) (c : Connection)
    → All IsValid bs
    → BuffersOk c.wire bs (ssl_write_buffers bs ks c)
unfolding ssl_write_buffers
ssl_write_buffers-BuffersOk [] ks c vs = (tt, refl)
ssl_write_buffers-BuffersOk (b ∷ bs) ks c (v, vs) =
    next-BuffersOk (ssl_write_buffers bs) b bs c _
      (λ ks' d. ssl_write_buffers-BuffersOk bs ks' d vs) vs (ssl_write_loop-LoopOk ks b c.wire v)

-- What may come of `handle_ep_out`.
abbrev pub SslConserves : Connection → Outcome Connection → Type 0
SslConserves c (fault e) = e ≡ failed_assert
SslConserves c (ok c') =
    All IsValid c'.outputs × (c'.wire ++ queued c'.outputs ≡ c.wire ++ queued c.outputs)

hang_up_keeps :
    (c : Connection) → ((ssl_hang_up c).wire ≡ c.wire) × ((ssl_hang_up c).outputs ≡ c.outputs)
unfolding ssl_hang_up called
hang_up_keeps c = ground arith

finish_keeps :
    (c : Connection) (r : Bool)
    → ((if r then ssl_hang_up c else c).wire ≡ c.wire)
      × ((if r then ssl_hang_up c else c).outputs ≡ c.outputs)
finish_keeps c true = hang_up_keeps c
finish_keeps c false = (refl, refl)

after_keeps :
    (end : Option SslError) (c : Connection)
    → ((ssl_after_write end c).wire ≡ c.wire) × ((ssl_after_write end c).outputs ≡ c.outputs)
unfolding ssl_after_write
after_keeps (some want_write) c = (refl, refl)
after_keeps (some want_read) c = (refl, refl)
after_keeps (some zero_return) c = hang_up_keeps c
after_keeps (some other_error) c = hang_up_keeps c
after_keeps none c = finish_keeps c c.rdhup_phrase

bind-SslConserves :
    (c : Connection) (r : Outcome (Connection × Option SslError))
    → BuffersOk c.wire c.outputs r
    → SslConserves c (r >>= λ (c', end). ok (ssl_after_write end c'))
bind-SslConserves c (fault e) h = h
bind-SslConserves c (ok (d, end)) (vs, m) =
    let (w, o) = after_keeps end d in
    (subst (All IsValid) (sym o) vs, ap₂ (λ u bs. u ++ queued bs) w o ∙ m)

ssl_out_of-SslConserves :
    (bs : List Buffer) (ks : List SslWrite) (c : Connection)
    → c.outputs ≡ bs
    → All IsValid c.outputs
    → SslConserves c (ssl_out_of bs ks c)
unfolding ssl_out_of
ssl_out_of-SslConserves [] ks c e vs = (vs, refl)
ssl_out_of-SslConserves (b ∷ bs) ks c e vs = bind-SslConserves c _ (
    subst (λ xs. BuffersOk c.wire xs (ssl_write_buffers (b ∷ bs) ks c)) (sym e)
      (ssl_write_buffers-BuffersOk (b ∷ bs) ks c (subst (All IsValid) e vs)))

-- For every sequence of answers of `SSL_write`, EPOLLOUT on a TLS connection keeps the bytes on the
-- wire followed by the queued ones, hang-ups included; only an answer that claims more bytes than
-- the call was given fails an assertion.
pub ssl_handle_ep_out-SslConserves :
    (ks : List SslWrite) (c : Connection)
    → All IsValid c.outputs
    → SslConserves c (ssl_handle_ep_out ks c)
unfolding ssl_handle_ep_out
ssl_handle_ep_out-SslConserves ks c vs = ssl_out_of-SslConserves c.outputs ks c refl vs

readable_none : (b : Buffer) → IsValid b → content b ≡ [] → (readable_bytes b == 0) ≡ true
readable_none b v h = ground (arith, readable_bytes_lem v, length-content b v, ap length h)

-- A buffer with something to write, and the answer that writes all of it.
unfoldable pub HasBytes : Buffer → Type 0
HasBytes b = IsValid b × (1 ≤ length (content b))

pub whole : Buffer → SslWrite
whole b = ssl_wrote (length (content b) - 1)

pub loop_ends :
    (ks : List SslWrite) (b : Buffer)
    → IsValid b
    → content b ≡ []
    → (u w : List ℕ) → u ≡ w
    → ssl_write_loop ks b u ≡ ok (ks, b, w, none)
unfolding ssl_write_loop
loop_ends [] b v z u w e = rw (readable_none b v z) (ap (λ x. ok ([], b, x, none)) e)
loop_ends (write_failed f ∷ ks) b v z u w e =
    rw (readable_none b v z) (ap (λ x. ok (write_failed f ∷ ks, b, x, none)) e)
loop_ends (ssl_wrote n ∷ ks) b v z u w e =
    rw (readable_none b v z) (ap (λ x. ok (ssl_wrote n ∷ ks, b, x, none)) e)

pub loop_writes_whole :
    (b : Buffer) (ks : List SslWrite) (w : List ℕ)
    → HasBytes b
    → (b' : Buffer) × (ssl_write_loop (whole b ∷ ks) b w ≡ ok (ks, b', w ++ content b, none))
unfolding ssl_write_loop whole HasBytes
loop_writes_whole b ks w (v, h) =
    let n = length (content b) - 1 in
    let some_left : (readable_bytes b == 0) ≡ false =
      ground (arith, readable_bytes_lem v, length-content b v) in
    let (b', r, v', m, l) = moved b (suc n) w v (omega arith) in
    let z = no_bytes (content b') (omega arith) in
    let w' : w ++ take (suc n) (drop b.read_idx b.buf) ≡ w ++ content b =
      ap (◌++◌ w)
        (taken_lem b (suc n) v (omega arith) ∙ take_all (suc n) (content b) (omega arith)) in
    (b', rw (some_left, r, ssl_write_loop) (loop_ends ks b' v' z _ _ w'))

completed_lem :
    (c : Connection) → c.wants_write_complete ≡ true → completed c ≡ called write_complete c
unfolding completed
completed_lem c h = ground arith

-- All buffers written: what is left of the connection.
abbrev pub AllWritten : Connection → List Buffer → Connection → Type 0
AllWritten c bs c' =
    (c'.wire ≡ c.wire ++ queued bs)
    × (c'.outputs ≡ [])
    × (c'.calls ≡ c.calls ++ replicate (length bs) write_complete)
    × (c'.rdhup_phrase ≡ c.rdhup_phrase)

write_every :
    (bs : List Buffer) (ks : List SslWrite) (c : Connection)
    → All HasBytes bs
    → c.wants_write_complete ≡ true
    → (c' : Connection) × (ssl_write_buffers bs (map whole bs ++ ks) c ≡ ok (c', none))
      × AllWritten c bs c'
unfolding ssl_write_buffers queued ssl_next_buffer called
write_every [] ks c h w = (
  record c { outputs = [] },
  refl,
  (sym (append-nil c.wire), refl, sym (append-nil c.calls), refl),
)
write_every (b ∷ bs) ks c (h, hs) w =
    let (b', e) = loop_writes_whole b (map whole bs ++ ks) c.wire h in
    let d : Connection = record c { wire = c.wire ++ content b } in
    let (c', r, (m, o, k, p)) = write_every bs ks (called write_complete d) hs w in
    (
      c',
      rw e (ap (ssl_write_buffers bs (map whole bs ++ ks)) (completed_lem d w) ∙ r),
      (
        m ∙ append_assoc c.wire (content b) (queued bs),
        o,
        k ∙ append_assoc c.calls (write_complete ∷ []) (replicate (length bs) write_complete),
        p,
      ),
    )

-- When `SSL_write` takes each buffer in one call, one EPOLLOUT writes all that is queued, in the
-- order of the list, empties the list and tells the user once for each buffer. (The user has set a
-- callback, and the peer has not shut down.)
ssl_handle_ep_out-whole :
    (ks : List SslWrite) (b : Buffer) (bs : List Buffer) (c : Connection)
    → c.outputs ≡ b ∷ bs
    → All HasBytes (b ∷ bs)
    → c.wants_write_complete ≡ true
    → c.rdhup_phrase ≡ false
    → (c' : Connection) × (ssl_handle_ep_out (map whole (b ∷ bs) ++ ks) c ≡ ok c')
      × AllWritten c (b ∷ bs) c'
unfolding ssl_handle_ep_out ssl_out_of ssl_after_write
ssl_handle_ep_out-whole ks b bs c o h w q =
    let (c', r, (m, e, k, p)) = write_every (b ∷ bs) ks c h w in
    let stays : c'.rdhup_phrase ≡ false = p ∙ q in
    (c', ap (λ xs. ssl_out_of xs (map whole (b ∷ bs) ++ ks) c) o ∙ finish c' stays r, (m, e, k, p))
  where
    finish :
        (c' : Connection)
        → c'.rdhup_phrase ≡ false
        → ssl_write_buffers (b ∷ bs) (map whole (b ∷ bs) ++ ks) c ≡ ok (c', none)
        → ssl_out_of (b ∷ bs) (map whole (b ∷ bs) ++ ks) c ≡ ok c'
    finish c' f r = rw r (rw f refl)
