-- ===== src/Connection.antt =====
-- src/TcpConnection.cpp: what a connection does with its descriptor and its buffers, in the thread of
-- its loop. The kernel's answers are lists, one for each call in its order; when a list is used up,
-- the kernel would block. Of the channel only the events that it listens to are kept, and of the
-- word `state_` only whether it is `Disconnected`: StateWord has the rest. A buffer holds fewer than
-- 2^31 readable bytes, where its size is the same as an `int`.
pub mod Queue
pub mod Output
pub mod Stuck
pub mod Input
pub mod Send
pub mod Handover
pub mod Tests
use learning_network.Prelude.{
  ℕ, zero, suc, ◌+◌, ◌==◌, Bool, true, false, not, ◌&&◌, ◌||◌, List, [], ◌∷◌, ◌++◌, if◌then◌else◌,
  ltb, leb, length, take, drop, Outcome, ok, fault, ◌>>=◌, ◌>>◌, assert, bad_access,
  dangling_pointer, add64, sub64,
}
use learning_network.Buffer.{
  Buffer, ReadvResult, got, failed, read_fd, readable_bytes, retrieve, init, append,
}

abbrev pub eintr : ℕ
eintr = 4

abbrev pub eagain : ℕ
eagain = 11

-- What `write` returned, a count or -1, with what `getSocketError` reports after it.
pub data WriteAnswer : Type 0 where
  wrote : ℕ → ℕ → WriteAnswer
  refused : ℕ → WriteAnswer

-- The user's callbacks that were called or queued.
pub data Call : Type 0 where
  message : Call
  oob_message : ℕ → Call
  write_complete : Call
  close : Call
  connection_up : Call
  high_water : ℕ → Call

pub record Connection : Type 0 where
  pub input : Buffer
  pub outputs : List Buffer
  pub reading : Bool
  pub writing : Bool
  pub disconnected : Bool
  pub rdhup_phrase : Bool
  pub old_len : ℕ
  pub wants_write_complete : Bool
  pub wire : List ℕ
  pub calls : List Call

unfoldable pub called : Call → Connection → Connection
called k c = record c { calls = c.calls ++ (k ∷ []) }

-- `writeCompleteCallback_`, if there is one.
unfoldable pub completed : Connection → Connection
unfolding called
completed c = if c.wants_write_complete then called write_complete c else c

-- `handle_ep_hup`
pub hang_up : Connection → Connection
unfolding called
hang_up c =
    if c.disconnected
    then c
    else called close (record c { reading = false; writing = false; disconnected = true })

-- `handle_ep_err`, with the error of the socket.
pub handle_ep_err : ℕ → Connection → Connection
handle_ep_err err c = if err == 0 then c else hang_up c

-- `connectEstablished`
connect_established : Connection → Connection
unfolding called
connect_established c = called connection_up (record c { reading = true; disconnected = false })

-- How a loop of `readFd` or `recv` ended: the kernel would block, the peer closed, or an error.
pub data ReadEnd : Type 0 where
  drained : ReadEnd
  would_block : ReadEnd
  eof : ReadEnd
  broken : ReadEnd

pub read_error : ℕ → ReadEnd
read_error e = if e == 0 then drained else if e == eagain then would_block else broken

-- The loop of `readFd`, with the number of bytes so far. A failed call with SO_ERROR 0 drained it.
pub read_loop : List ReadvResult → Buffer → ℕ → Outcome (Buffer × ℕ × ReadEnd)
read_loop [] b n = ok (b, n, drained)
read_loop (failed e ∷ rs) b n =
    let rest = read_loop rs b n in if e == eintr then rest else ok (b, n, read_error e)
read_loop (got [] ∷ rs) b n = ok (b, n, eof)
read_loop (got (x ∷ xs) ∷ rs) b n =
    read_fd b (got (x ∷ xs)) >>= λ b'. read_loop rs b' (n + length (x ∷ xs))

-- `messageCallback_`, whose effect is the argument, if bytes came.
pub message_if : (Connection → Connection) → ℕ → Connection → Connection
unfolding called
message_if on_message n c = if n == 0 then c else on_message (called message c)

pub after_read : (Connection → Connection) → ℕ → ReadEnd → Connection → Connection
after_read on_message n drained c = message_if on_message n c
after_read on_message n would_block c = message_if on_message n c
after_read on_message n eof c = hang_up (message_if on_message n c)
after_read on_message n broken c = hang_up c

pub handle_ep_in : (Connection → Connection) → List ReadvResult → Connection → Outcome Connection
handle_ep_in on_message rs c = read_loop rs c.input 0 >>= λ (b, n, end).
    ok (after_read on_message n end (record c { input = b }))

-- The loop of `recv` in `handle_ep_pri`: the last byte and the number of bytes.
recv_loop : List ReadvResult → ℕ → ℕ → ℕ × ℕ × ReadEnd
recv_loop [] oob n = (oob, n, drained)
recv_loop (failed e ∷ rs) oob n = if e == eintr then recv_loop rs oob n else (oob, n, read_error e)
recv_loop (got [] ∷ rs) oob n = (oob, n, eof)
recv_loop (got (x ∷ xs) ∷ rs) oob n = recv_loop rs x (suc n)

after_recv : (Connection → Connection) → ℕ × ℕ × ReadEnd → Connection → Connection
unfolding called
after_recv on_message (oob, n, eof) c = hang_up (message_if on_message n c)
after_recv on_message (oob, n, broken) c = hang_up c
after_recv on_message (oob, n, drained) c = if n == 1 then called (oob_message oob) c else c
after_recv on_message (oob, n, would_block) c = if n == 1 then called (oob_message oob) c else c

pub handle_ep_pri : (Connection → Connection) → List ReadvResult → Connection → Connection
handle_ep_pri on_message rs c = after_recv on_message (recv_loop rs 0 0) c

-- How a loop of `write` ended. `while (left)` is never done, since nothing assigns `left`.
pub data WriteEnd : Type 0 where
  all_written : WriteEnd
  blocked : WriteEnd
  failed_write : WriteEnd

-- After a call that wrote nothing, unless it is to be repeated.
pub write_error : ℕ → WriteEnd
write_error e = if e == eagain then blocked else failed_write

-- The inner loop, for the buffer and the bytes that the kernel took: it takes them from the
-- vector, at most `left` of them.
pub write_loop :
    List WriteAnswer → Buffer → List ℕ → Outcome (List WriteAnswer × Buffer × List ℕ × WriteEnd)
write_loop [] b w = ok ([], b, w, blocked)
write_loop (wrote (suc n) e ∷ ks) b w =
    retrieve b (suc n) >>= λ b'. write_loop ks b' (w ++ take (suc n) (drop b.read_idx b.buf))
write_loop (wrote zero e ∷ ks) b w =
    let rest = write_loop ks b w in if e == eintr then rest else ok (ks, b, w, write_error e)
write_loop (refused e ∷ ks) b w =
    let rest = write_loop ks b w in if e == eintr then rest else ok (ks, b, w, write_error e)

-- The outer loop over the buffers. A buffer without readable bytes is popped.
pub write_buffers : List Buffer → List WriteAnswer → Connection → Outcome (Connection × WriteEnd)
unfolding completed called
write_buffers [] ks c = ok (record c { outputs = [] }, all_written)
write_buffers (b ∷ bs) ks c =
    let rest = write_buffers bs ks (completed c) in
    if readable_bytes b == 0
    then rest
    else write_loop ks b c.wire >>= λ (ks', b', w, end).
        ok (record c { outputs = b' ∷ bs; wire = w }, end)

-- What `handle_ep_out` does at the end of the loops. After a failed write it clears the list and
-- reads the buffer that was the list's front.
pub after_write : WriteEnd → Connection → Outcome Connection
after_write all_written c = ok (if c.rdhup_phrase then hang_up c else c)
after_write blocked c = ok c
after_write failed_write c = fault dangling_pointer

-- `handle_ep_out`, with the list of the buffers.
pub out_of : List Buffer → List WriteAnswer → Connection → Outcome Connection
out_of [] ks c = ok (record c { writing = false })
out_of (b ∷ bs) ks c = write_buffers (b ∷ bs) ks c >>= λ (c', end). after_write end c'

pub handle_ep_out : List WriteAnswer → Connection → Outcome Connection
handle_ep_out ks c = out_of c.outputs ks c

-- `finish_in_out`: the connection, and whether everything was read and written.
finish_write : WriteEnd → Connection → Connection × Bool
finish_write all_written c = (c, true)
finish_write blocked c = (c, false)
finish_write failed_write c = (hang_up c, false)

finish_read :
    (Connection → Connection)
    → List WriteAnswer
    → ℕ
    → ReadEnd
    → Connection
    → Outcome (Connection × Bool)
finish_read on_message ks n drained c = ok (hang_up c, false)
finish_read on_message ks n would_block c = ok (hang_up c, false)
finish_read on_message ks n broken c = ok (hang_up c, false)
finish_read on_message ks n eof c =
    let c' = message_if on_message n c in
    write_buffers c'.outputs ks c' >>= λ (d, end). ok (finish_write end d)

pub finish_in_out :
    (Connection → Connection)
    → List ReadvResult
    → List WriteAnswer
    → Connection
    → Outcome (Connection × Bool)
finish_in_out on_message rs ks c = read_loop rs c.input 0 >>= λ (b, n, end).
    finish_read on_message ks n end (record c { input = b })

pub handle_ep_rdhup :
    (Connection → Connection)
    → List ReadvResult
    → List WriteAnswer
    → Connection
    → Outcome Connection
handle_ep_rdhup on_message rs ks c = finish_in_out on_message rs ks c >>= λ (c', finished).
    ok (record (if finished then hang_up c' else c') { rdhup_phrase = true })
