-- ===== src/SslConnection/Finish.antt =====
-- `finish_in_out` and `handle_ep_rdhup` of src/https/ssl_TcpConnection.cpp. The loop over the buffers
-- takes fuel, since it need not end: `none` says that the fuel ran out.
use learning_network.Prelude.{
  ℕ, zero, suc, ◌≡◌, refl, sym, ap, ◌∙◌, List, [], ◌∷◌, ◌++◌, map, replicate, length, Outcome, ok,
  ◌>>=◌, append_assoc, append-nil, All, Bool, true, false, if◌then◌else◌, Option, some, none,
}
use learning_network.Buffer.{Buffer}
use learning_network.Buffer.Invariant.{IsValid, content}
use learning_network.Connection.{Connection, write_complete, called, message_if}
use learning_network.Connection.Queue.{queued}
use learning_network.SslConnection.{
  SslError, want_read, want_write, zero_return, other_error, SslRead, SslWrite, ssl_read_loop,
  ssl_write_loop, ssl_hang_up,
}
use learning_network.SslConnection.Output.{
  HasBytes, whole, AllWritten, loop_writes_whole, loop_ends,
}

-- What a failed `SSL_write` comes to.
finish_failed : SslError → Connection → Connection
finish_failed want_write c = record c { writing = true }
finish_failed want_read c = record c { reading = true }
finish_failed zero_return c = ssl_hang_up c
finish_failed other_error c = ssl_hang_up c

-- After the loop over one buffer: it is popped only if there is a callback to tell.
finish_next :
    (List SslWrite → Connection → Outcome (Option (Connection × Bool)))
    → List Buffer
    → Connection
    → List SslWrite × Buffer × List ℕ × Option SslError
    → Outcome (Option (Connection × Bool))
finish_next go_on bs c (ks, b, w, some e) =
    ok (some (finish_failed e (record c { outputs = b ∷ bs; wire = w }), false))
finish_next go_on bs c (ks, b, w, none) =
    let popped = go_on ks (called write_complete (record c { outputs = bs; wire = w })) in
    let kept = go_on ks (record c { outputs = b ∷ bs; wire = w }) in
    if c.wants_write_complete then popped else kept

finish_step :
    (List SslWrite → Connection → Outcome (Option (Connection × Bool)))
    → List Buffer
    → List SslWrite
    → Connection
    → Outcome (Option (Connection × Bool))
finish_step go_on [] ks c = ok (some (c, true))
finish_step go_on (b ∷ bs) ks c = ssl_write_loop ks b c.wire >>= λ r. finish_next go_on bs c r

finish_buffers : ℕ → List SslWrite → Connection → Outcome (Option (Connection × Bool))
finish_buffers zero ks c = ok none
finish_buffers (suc fuel) ks c = finish_step (finish_buffers fuel) c.outputs ks c

ssl_finish_read :
    ℕ
    → (Connection → Connection)
    → List SslWrite
    → ℕ
    → SslError
    → Connection
    → Outcome (Option (Connection × Bool))
ssl_finish_read fuel on_message ks n zero_return c =
    finish_buffers fuel ks (message_if on_message n c)
ssl_finish_read fuel on_message ks n want_read c = ok (some (ssl_hang_up c, false))
ssl_finish_read fuel on_message ks n want_write c = ok (some (ssl_hang_up c, false))
ssl_finish_read fuel on_message ks n other_error c = ok (some (ssl_hang_up c, false))

ssl_finish_in_out :
    ℕ
    → (Connection → Connection)
    → List SslRead
    → List SslWrite
    → Connection
    → Outcome (Option (Connection × Bool))
ssl_finish_in_out fuel on_message rs ks c = ssl_read_loop rs c.input 0 >>= λ (b, n, end).
    ssl_finish_read fuel on_message ks n end (record c { input = b })

if_true : {A : Type 0} (t : Bool) (x y : A) → t ≡ true → (if t then x else y) ≡ x
if_true t x y h = rw h refl

if_false : {A : Type 0} (t : Bool) (x y : A) → t ≡ false → (if t then x else y) ≡ y
if_false t x y h = rw h refl

-- Without a write-complete callback the loop never ends once the first buffer is written out: it
-- is neither written again nor popped.
finish_buffers_spins :
    (fuel : ℕ) (ks : List SslWrite) (c : Connection) (b : Buffer) (bs : List Buffer)
    → c.wants_write_complete ≡ false
    → c.outputs ≡ b ∷ bs
    → IsValid b
    → content b ≡ []
    → finish_buffers fuel ks c ≡ ok none
unfolding finish_buffers finish_step finish_next
finish_buffers_spins zero ks c b bs q o v z = refl
finish_buffers_spins (suc fuel) ks c b bs q o v z =
    ap (λ xs. finish_step (finish_buffers fuel) xs ks c) o
    ∙ rw (loop_ends ks b v z c.wire c.wire refl) (
        if_false c.wants_write_complete _ _ q
        ∙ finish_buffers_spins fuel ks (record c { outputs = b ∷ bs }) b bs q refl v z)

-- With a callback, and `SSL_write` taking each buffer in one call, the loop writes all that is
-- queued, in order, and tells the user once for each buffer; one more than the number of buffers is
-- enough fuel.
finish_buffers-whole :
    (bs : List Buffer) (ks : List SslWrite) (c : Connection)
    → c.wants_write_complete ≡ true
    → c.outputs ≡ bs
    → All HasBytes bs
    → (c' : Connection) × (finish_buffers (suc (length bs)) (map whole bs ++ ks) c
        ≡ ok (some (c', true)))
      × AllWritten c bs c'
unfolding finish_buffers finish_step finish_next called queued
finish_buffers-whole [] ks c q o h = (
  c,
  ap (λ xs. finish_step (finish_buffers zero) xs ks c) o,
  (sym (append-nil c.wire), o, sym (append-nil c.calls), refl),
)
finish_buffers-whole (b ∷ bs) ks c q o (h, hs) =
    let (b', e) = loop_writes_whole b (map whole bs ++ ks) c.wire h in
    let d : Connection = record c { outputs = bs; wire = c.wire ++ content b } in
    let (c', r, (m, n, k, p)) = finish_buffers-whole bs ks (called write_complete d) q refl hs in
    (
      c',
      ap (λ xs. finish_step (finish_buffers (suc (length bs))) xs (map whole (b ∷ bs) ++ ks) c) o
          ∙ rw e (if_true c.wants_write_complete _ _ q ∙ r),
      (
        m ∙ append_assoc c.wire (content b) (queued bs),
        n,
        k ∙ append_assoc c.calls (write_complete ∷ []) (replicate (length bs) write_complete),
        p,
      ),
    )
