-- ===== src/SslConnection/Input.antt =====
-- `handle_ep_in` of src/https/ssl_TcpConnection.cpp.
use learning_network.Prelude.{
  ℕ, suc, ◌+◌, ◌*◌, ◌≤◌, ◌≡◌, refl, true, sym, ap, ◌∙◌, arith, List, [], ◌∷◌, ◌++◌, length, ok,
  append_assoc, append-nil, All, ◌>>=◌, length-append,
}
use learning_network.Buffer.{Buffer, ensure_writable_bytes, copy_in, has_written, max_size}
use learning_network.Buffer.Invariant.{IsValid, content, length-written}
use learning_network.Buffer.Append.{
  ensure_lem, copy_in_lem, has_written_lem, filled, filled-IsValid, extended, extended-IsValid,
  extended-content,
}
use learning_network.Connection.{Connection, called, message_if}
use learning_network.Connection.Input.{Told, HungUp, message_if-Told}
use learning_network.SslConnection.{
  SslError, want_read, want_write, zero_return, other_error, ssl_hang_up, SslRead, ssl_got,
  read_failed, read_room, ssl_read_loop, ssl_after_read, ssl_handle_ep_in,
}

-- What the answers say: the bytes before the first failure, and the failure.
abbrev ssl_received : List SslRead → List ℕ
ssl_received [] = []
ssl_received (read_failed e ∷ rs) = []
ssl_received (ssl_got x xs ∷ rs) = (x ∷ xs) ++ ssl_received rs

abbrev ssl_ending : List SslRead → SslError
ssl_ending [] = want_read
ssl_ending (read_failed e ∷ rs) = e
ssl_ending (ssl_got x xs ∷ rs) = ssl_ending rs

-- No call stores more than the room that is always there.
abbrev pub Fits : SslRead → Type 0
Fits (ssl_got x xs) = suc (length xs) ≤ read_room
Fits (read_failed e) = Unit {0}

-- One call with its `hasWritten`.
read_one :
    (b : Buffer) (src : List ℕ)
    → IsValid b
    → length src ≤ read_room
    → length b.buf + read_room ≤ max_size
    → (b' : Buffer) × ((ensure_writable_bytes b read_room
          >>= (λ r. copy_in r src)
          >>= (λ f. has_written f (length src)))
        ≡ ok b')
      × IsValid b'
      × (content b' ≡ content b ++ src)
      × (length b'.buf ≤ length b.buf + read_room)
read_one b src v s h =
    let (r, e, room) = ensure_lem b read_room v h in
    let fits : r.write_idx + length src ≤ length r.buf =
      omega (arith, room.room, room.valid.within) in
    let size = length-written r.buf r.write_idx src fits in
    (
      extended r src,
      rw (e, copy_in_lem r src fits)
          (has_written_lem (filled r src) (length src) (filled-IsValid r src room.valid fits)
            (omega (arith, size))),
      extended-IsValid r src room.valid fits,
      extended-content r src room.valid fits ∙ ap (λ xs. xs ++ src) room.same,
      omega (arith, size, room.grows),
    )

-- The loop returns with every byte behind the readable ones.
ssl_read_loop_lem :
    (rs : List SslRead) (b : Buffer) (n : ℕ)
    → IsValid b
    → All Fits rs
    → length b.buf + suc (length rs) * read_room ≤ max_size
    → (b' : Buffer) × (ssl_read_loop rs b n ≡ ok (b', n + length (ssl_received rs), ssl_ending rs))
      × IsValid b'
      × (content b' ≡ content b ++ ssl_received rs)
unfolding ssl_read_loop
ssl_read_loop_lem [] b n v s h =
    let (r, e, room) = ensure_lem b read_room v (omega arith) in
    (
      r,
      rw e (ap (λ k. ok (r, k, want_read)) (omega arith)),
      room.valid,
      room.same ∙ sym (append-nil (content b)),
    )
ssl_read_loop_lem (read_failed f ∷ rs) b n v s h =
    let (r, e, room) = ensure_lem b read_room v (omega arith) in
    (
      r,
      rw e (ap (λ k. ok (r, k, f)) (omega arith)),
      room.valid,
      room.same ∙ sym (append-nil (content b)),
    )
ssl_read_loop_lem (ssl_got x xs ∷ rs) b n v s h =
    let chunk = x ∷ xs in
    let total = length-append chunk (ssl_received rs) in
    let (b1, e1, v1, c1, g) = read_one b chunk v s.0 (omega arith) in
    let (b', e, v', c) = ssl_read_loop_lem rs b1 (n + length chunk) v1 s.1 (omega arith) in
    (
      b',
      rw (e1, e) (ap (λ k. ok (b', k, ssl_ending rs)) (omega (arith, total))),
      v',
      c ∙ ap (λ w. w ++ ssl_received rs) c1 ∙ append_assoc (content b) chunk (ssl_received rs),
    )

-- What a reading that brought the bytes and ended that way makes of the connection.
pub SslReacts : (Connection → Connection) → List ℕ → SslError → Connection → Connection → Type 0
SslReacts on_message w want_read c d = Told on_message w c d
SslReacts on_message w want_write c d = Told on_message w (record c { writing = true }) d
SslReacts on_message w zero_return c d = (m : Connection) × Told on_message w c m × HungUp m d
SslReacts on_message w other_error c d = HungUp c d

ssl_hang_up-HungUp : (c : Connection) → HungUp c (ssl_hang_up c)
unfolding HungUp ssl_hang_up called
ssl_hang_up-HungUp c = (λ h. rw h refl, λ h. rw h refl)

ssl_after_read-SslReacts :
    (on_message : Connection → Connection) (w : List ℕ) (end : SslError) (c : Connection)
    → SslReacts on_message w end c (ssl_after_read on_message (length w) end c)
unfolding SslReacts ssl_after_read
ssl_after_read-SslReacts on_message w want_read c = message_if-Told on_message w c
ssl_after_read-SslReacts on_message w want_write c =
    message_if-Told on_message w (record c { writing = true })
ssl_after_read-SslReacts on_message w zero_return c =
    let m = message_if on_message (length w) c in
    (m, message_if-Told on_message w c, ssl_hang_up-HungUp m)
ssl_after_read-SslReacts on_message w other_error c = ssl_hang_up-HungUp c

-- EPOLLIN on a TLS connection, for every sequence of answers of `SSL_read` and whatever the message
-- callback does: the bytes that came are put behind the readable ones; if there are any, the callback
-- is called once, and not after an error; a close of the peer, after that call, or an error hangs up,
-- which stops the listening and tells the user once; and a wish to write starts listening for it,
-- before the call. The vector must have room for 65536 bytes in each call.
pub ssl_handle_ep_in_lem :
    (on_message : Connection → Connection) (rs : List SslRead) (c : Connection)
    → IsValid c.input
    → All Fits rs
    → length c.input.buf + suc (length rs) * read_room ≤ max_size
    → (b : Buffer) × (d : Connection) × IsValid b
      × (content b ≡ content c.input ++ ssl_received rs)
      × (ssl_handle_ep_in on_message rs c ≡ ok d)
      × SslReacts on_message (ssl_received rs) (ssl_ending rs) (record c { input = b }) d
unfolding ssl_handle_ep_in
ssl_handle_ep_in_lem on_message rs c v s h =
    let (b, r, v', m) = ssl_read_loop_lem rs c.input 0 v s h in
    let c' = record c { input = b } in
    (
      b,
      ssl_after_read on_message (length (ssl_received rs)) (ssl_ending rs) c',
      v',
      m,
      rw r (ap (λ k. ok (ssl_after_read on_message k (ssl_ending rs) c')) (omega arith)),
      ssl_after_read-SslReacts on_message (ssl_received rs) (ssl_ending rs) c',
    )
