-- ===== src/SslConnection/Send.antt =====
-- `sendInLoop` of src/https/ssl_TcpConnection.cpp.
pub mod Loop
pub mod Sent
use learning_network.Prelude.{
  ℕ, ◌-◌, ◌≤◌, ◌<◌, ◌≡◌, ◌⊎◌, inl, inr, refl, sym, ap, ◌∙◌, subst, arith, List, [], ◌∷◌, ◌++◌,
  length, take, take_all, map, Outcome, ok, fault, bad_access, Option, none, some, Bool, true,
  false, not, ◌&&◌, ◌==◌, ltb, leb, if◌then◌else◌, ◌>>=◌, sub64, add64, le→leb, All, append_assoc,
  append-nil, length-take,
}
use learning_network.Buffer.{Buffer, init, append, initial_size, max_size}
use learning_network.Buffer.Invariant.{content, init-IsValid, init-content, init-length}
use learning_network.Buffer.Append.{content-append}
use learning_network.Connection.{Connection, Call, high_water, write_complete, called, completed}
use learning_network.Connection.Queue.{queued}
use learning_network.Connection.Send.{
  is_empty, Direct, Nwrote, from_data, at_start, count, minus_one,
}
use learning_network.Connection.Send.Written.{not_zero, sub64_self, tests_idle}
use learning_network.StateWord.{Pc, leave_step, last_step}
use learning_network.SslConnection.{SslError, want_read, want_write, zero_return, other_error}

-- What `SSL_write` returned here: a number, or less than 0 with the error.
pub data SslPut : Type 0 where
  ssl_put : ℕ → SslPut
  ssl_minus : SslError → SslPut

-- After a call that failed.
pub ssl_put_failed : SslError → Direct → Direct
ssl_put_failed want_write d = record d { nwrote = minus_one }
ssl_put_failed want_read d = record d {
  nwrote = minus_one;
  conn = record d.conn { reading = true };
}
ssl_put_failed zero_return d = record d { nwrote = minus_one; fault_error = true }
ssl_put_failed other_error d = record d { nwrote = minus_one; fault_error = true }

-- The `while` loop: every call passes all of `data`. When the answers are used up, it wants to write.
pub ssl_direct_loop : List SslPut → List ℕ → Direct → Direct
unfolding ssl_put_failed
ssl_direct_loop [] bytes d = if d.remaining == 0 then d else ssl_put_failed want_write d
ssl_direct_loop (ssl_minus e ∷ ks) bytes d = if d.remaining == 0 then d else ssl_put_failed e d
ssl_direct_loop (ssl_put n ∷ ks) bytes d =
    let r = sub64 (length bytes) n in
    let c = record d.conn { wire = d.conn.wire ++ take n bytes } in
    let rest =
      ssl_direct_loop ks bytes (record d {
        remaining = r;
        nwrote = count n;
        conn = (if r == 0 then completed c else c);
      }) in
    if d.remaining == 0 then d else rest

ssl_attempt : List SslPut → List ℕ → Connection → Direct
ssl_attempt ks bytes c =
    if not c.writing && is_empty c.outputs
    then ssl_direct_loop ks bytes (at_start bytes c)
    else at_start bytes c

-- The high-water callback, with the mark if a callback is set: it is queued when the sum reaches the
-- mark that `oldLen` has not reached.
pub ssl_high_water : Option ℕ → ℕ → ℕ → Connection → Connection
ssl_high_water none old sum c = c
ssl_high_water (some mark) old sum c =
    if leb mark sum && ltb old mark then called (high_water sum) c else c

-- What is left goes into a default-constructed buffer at the front of the list.
ssl_with_rest : Option ℕ → Direct → Buffer → Connection
unfolding ssl_high_water
ssl_with_rest mark d b =
    let old = add64 d.conn.old_len d.remaining in
    record (ssl_high_water mark old (add64 old d.remaining) d.conn) {
      old_len = old;
      outputs = b ∷ d.conn.outputs;
      writing = true;
    }

ssl_queue_rest : Option ℕ → ℕ → List ℕ → Direct → Outcome Connection
unfolding ssl_with_rest
ssl_queue_rest mark before bytes d =
    let rest = from_data before bytes d.nwrote in
    let queue =
      append (init initial_size) (take d.remaining rest) >>= λ b. ok (ssl_with_rest mark d b) in
    if leb d.remaining (length rest) then queue else fault bad_access

ssl_queue_if : Option ℕ → ℕ → List ℕ → Direct → Outcome Connection
ssl_queue_if mark before bytes d =
    let queue = ssl_queue_rest mark before bytes d in
    if not d.fault_error && leb 1 d.remaining then queue else ok d.conn

pub ssl_send_in_loop : Option ℕ → ℕ → List SslPut → List ℕ → Connection → Outcome Connection
ssl_send_in_loop mark before ks bytes c = ssl_queue_if mark before bytes (ssl_attempt ks bytes c)

-- The last loop, on the word `state_`, is the same text as in `sendInLoop` of src/TcpConnection.cpp.
ssl_leave_step : ℕ → ℕ → ℕ × Pc
ssl_leave_step w old = leave_step w old

ssl_last_step : ℕ → ℕ → ℕ × Pc
ssl_last_step w old = last_step w old
