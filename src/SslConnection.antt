-- ===== src/SslConnection.antt =====
-- src/https/ssl_TcpConnection.cpp: the event handlers of a connection over TLS, on the state of
-- Connection. What `SSL_read` and `SSL_write` return, with `SSL_get_error`, are lists, one answer for
-- each call in its order; when a list is used up, the library wants to read, or to write.
pub mod Output
pub mod Over
pub mod Input
pub mod Finish
pub mod Send
pub mod Tests
use learning_network.Prelude.{
  ℕ, suc, ◌+◌, ◌==◌, Bool, true, false, List, [], ◌∷◌, ◌++◌, if◌then◌else◌, length, take, drop,
  Option, none, some, Outcome, ok, ◌>>=◌,
}
use learning_network.Buffer.{
  Buffer, readable_bytes, retrieve, ensure_writable_bytes, copy_in, has_written,
}
use learning_network.Connection.{Connection, close, called, completed, message_if}

pub data SslError : Type 0 where
  want_read : SslError
  want_write : SslError
  zero_return : SslError
  other_error : SslError

-- `SSL_read` stored a byte and more, or failed.
pub data SslRead : Type 0 where
  ssl_got : ℕ → List ℕ → SslRead
  read_failed : SslError → SslRead

-- `SSL_write` wrote one byte more than the number, or failed.
pub data SslWrite : Type 0 where
  ssl_wrote : ℕ → SslWrite
  write_failed : SslError → SslWrite

-- `handle_ep_hup`, when nobody else uses the connection, so that `set_unused` returns at once.
pub ssl_hang_up : Connection → Connection
unfolding called
ssl_hang_up c =
    if c.disconnected
    then c
    else called close (record c { reading = false; writing = false; disconnected = true })

abbrev pub read_room : ℕ
read_room = 65536

-- The loop of `SSL_read`: before each call there is room for 65536 bytes.
pub ssl_read_loop : List SslRead → Buffer → ℕ → Outcome (Buffer × ℕ × SslError)
ssl_read_loop [] b n = ensure_writable_bytes b read_room >>= λ r. ok (r, n, want_read)
ssl_read_loop (read_failed e ∷ rs) b n = ensure_writable_bytes b read_room >>= λ r. ok (r, n, e)
ssl_read_loop (ssl_got x xs ∷ rs) b n =
    ensure_writable_bytes b read_room
    >>= (λ r. copy_in r (x ∷ xs))
    >>= (λ f. has_written f (length (x ∷ xs)))
    >>= λ b'. ssl_read_loop rs b' (n + length (x ∷ xs))

pub ssl_after_read : (Connection → Connection) → ℕ → SslError → Connection → Connection
ssl_after_read on_message n want_read c = message_if on_message n c
ssl_after_read on_message n want_write c = message_if on_message n (record c { writing = true })
ssl_after_read on_message n zero_return c = ssl_hang_up (message_if on_message n c)
ssl_after_read on_message n other_error c = ssl_hang_up c

pub ssl_handle_ep_in : (Connection → Connection) → List SslRead → Connection → Outcome Connection
ssl_handle_ep_in on_message rs c = ssl_read_loop rs c.input 0 >>= λ (b, n, end).
    ok (ssl_after_read on_message n end (record c { input = b }))

-- The loop over one buffer; the end is `none` when the buffer was written out.
pub ssl_write_loop :
    List SslWrite → Buffer → List ℕ → Outcome (List SslWrite × Buffer × List ℕ × Option SslError)
ssl_write_loop [] b w = ok ([], b, w, (if readable_bytes b == 0 then none else some want_write))
ssl_write_loop (write_failed e ∷ ks) b w =
    if readable_bytes b == 0 then ok (write_failed e ∷ ks, b, w, none) else ok (ks, b, w, some e)
ssl_write_loop (ssl_wrote n ∷ ks) b w =
    let go = retrieve b (suc n) >>= λ b'.
    ssl_write_loop ks b' (w ++ take (suc n) (drop b.read_idx b.buf)) in
    if readable_bytes b == 0 then ok (ssl_wrote n ∷ ks, b, w, none) else go

-- After the loop over one buffer: a buffer that was written out is popped, the user is told, and the
-- rest goes on.
pub ssl_next_buffer :
    (List SslWrite → Connection → Outcome (Connection × Option SslError))
    → List Buffer
    → Connection
    → List SslWrite × Buffer × List ℕ × Option SslError
    → Outcome (Connection × Option SslError)
ssl_next_buffer go_on bs c (ks, b, w, some e) = ok (record c { outputs = b ∷ bs; wire = w }, some e)
ssl_next_buffer go_on bs c (ks, b, w, none) = go_on ks (completed (record c { wire = w }))

pub ssl_write_buffers :
    List Buffer → List SslWrite → Connection → Outcome (Connection × Option SslError)
ssl_write_buffers [] ks c = ok (record c { outputs = [] }, none)
ssl_write_buffers (b ∷ bs) ks c =
    ssl_write_loop ks b c.wire >>= λ r. ssl_next_buffer (ssl_write_buffers bs) bs c r

pub ssl_after_write : Option SslError → Connection → Connection
ssl_after_write (some want_write) c = c
ssl_after_write (some want_read) c = record c { reading = true }
ssl_after_write (some zero_return) c = ssl_hang_up c
ssl_after_write (some other_error) c = ssl_hang_up c
ssl_after_write none c = if c.rdhup_phrase then ssl_hang_up c else c

-- `handle_ep_out`, with the list of the buffers.
pub ssl_out_of : List Buffer → List SslWrite → Connection → Outcome Connection
ssl_out_of [] ks c = ok (record c { writing = false })
ssl_out_of (b ∷ bs) ks c =
    ssl_write_buffers (b ∷ bs) ks c >>= λ (c', end). ok (ssl_after_write end c')

pub ssl_handle_ep_out : List SslWrite → Connection → Outcome Connection
ssl_handle_ep_out ks c = ssl_out_of c.outputs ks c
