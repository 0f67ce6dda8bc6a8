-- ===== src/Connection/Send/Written.antt =====
-- `sendInLoop` of src/TcpConnection.cpp against the bytes on the wire and in the queue.
use learning_network.Prelude.{
  ℕ, zero, suc, ◌+◌, ◌-◌, ◌^◌, ◌≤◌, ◌<◌, ◌≡◌, refl, ap, ◌∙◌, arith, List, [], ◌∷◌, ◌++◌, length,
  take, take_all, ok, true, false, not, ◌&&◌, ◌==◌, sub64, le→leb, length-take, append-nil,
}
use learning_network.Buffer.{Buffer, init, append, max_size}
use learning_network.Buffer.Invariant.{IsValid, content, init-IsValid, init-content, init-length}
use learning_network.Buffer.Append.{content-append}
use learning_network.Connection.{Connection, WriteAnswer, wrote, refused, eagain, completed}
use learning_network.Connection.Queue.{queued}
use learning_network.Connection.Send.{
  is_empty, Direct, direct_loop, from_data, with_rest, queue_rest, at_start, attempt, queue_if,
  send_in_loop, count, minus_one,
}

-- The new buffer has room for what is left.
new_buffer :
    (src : List ℕ) (n : ℕ)
    → length src ≡ n
    → n + n ≤ max_size
    → (b : Buffer) × (append (init n) src ≡ ok b) × IsValid b × (content b ≡ src)
new_buffer src n e h =
    let (b, a, v, c) =
      content-append (init n) src (init-IsValid n (omega arith))
        (omega (arith, init-length {n = n})) in
    (b, a, v, c ∙ ap (λ xs. xs ++ src) (init-content n))

pub queue_rest_lem :
    (before : ℕ) (bytes : List ℕ) (d : Direct)
    → d.remaining ≤ length (from_data before bytes d.nwrote)
    → d.remaining + d.remaining ≤ max_size
    → (b : Buffer) × IsValid b
      × (content b ≡ take d.remaining (from_data before bytes d.nwrote))
      × (queue_rest before bytes d ≡ ok (with_rest d b))
unfolding queue_rest
queue_rest_lem before bytes d h k =
    let rest = from_data before bytes d.nwrote in
    let (b, a, v, c) =
      new_buffer (take d.remaining rest) d.remaining (omega (arith, length-take d.remaining rest))
        k in
    (b, v, c, rw (le→leb _ _ h, a) refl)

pub tests_idle :
    (c : Connection)
    → c.writing ≡ false
    → c.outputs ≡ []
    → (not c.writing && is_empty c.outputs) ≡ true
unfolding is_empty
tests_idle c w o = simp (w, o, is_empty)

attempt_idle :
    (ks : List WriteAnswer) (bytes : List ℕ) (c : Connection)
    → c.writing ≡ false
    → c.outputs ≡ []
    → attempt ks bytes c ≡ direct_loop ks bytes (at_start bytes c)
unfolding attempt
attempt_idle ks bytes c w o = rw (tests_idle c w o) refl

attempt_writing :
    (ks : List WriteAnswer) (bytes : List ℕ) (c : Connection)
    → c.writing ≡ true
    → attempt ks bytes c ≡ at_start bytes c
unfolding attempt
attempt_writing ks bytes c w = ground arith

queue_if_done :
    (before : ℕ) (bytes : List ℕ) (d : Direct)
    → d.remaining ≡ 0
    → queue_if before bytes d ≡ ok d.conn
unfolding queue_if
queue_if_done before bytes d h = rw h (ground arith)

queue_if_rest :
    (before : ℕ) (bytes : List ℕ) (d : Direct)
    → d.fault_error ≡ false
    → 1 ≤ d.remaining
    → d.remaining ≤ length bytes
    → queue_if before bytes d ≡ queue_rest before bytes d
unfolding queue_if
queue_if_rest before bytes d f h k = rw (le→leb _ _ k) (ground arith)

loop_stops :
    (ks : List WriteAnswer) (bytes : List ℕ) (d : Direct)
    → d.remaining ≡ 0
    → direct_loop ks bytes d ≡ d
unfolding direct_loop
loop_stops [] bytes d h = ground arith
loop_stops (wrote n e ∷ ks) bytes d h = ground arith
loop_stops (refused e ∷ ks) bytes d h = ground arith

pub not_zero : (n : ℕ) → 1 ≤ n → (n == 0) ≡ false
not_zero n h = ground arith

pub sub64_self : (n : ℕ) → sub64 n n ≡ 0
sub64_self n = ground arith

sub64_less : (m n : ℕ) → n < m → m < 2 ^ 64 → sub64 m n ≡ m - n
sub64_less m n h k = omega arith

-- A call that writes all of the message ends the loop.
loop_writes_whole :
    (e : ℕ) (ks : List WriteAnswer) (bytes : List ℕ) (d : Direct)
    → 1 ≤ d.remaining
    → length bytes < 2 ^ 64
    → direct_loop (wrote (length bytes) e ∷ ks) bytes d ≡ record d {
      remaining = 0;
      nwrote = count (length bytes);
      conn = completed (record d.conn { wire = d.conn.wire ++ bytes });
    }
unfolding direct_loop
loop_writes_whole e ks bytes d h k =
    rw
      (
        not_zero d.remaining h,
        sub64_self (length bytes),
        take_all (length bytes) bytes (omega arith),
      )
      (loop_stops ks bytes _ refl)

-- While the connection is already writing, all of the message is queued, in front of what was
-- queued before: the newer message is written first.
send_while_writing :
    (before : ℕ) (ks : List WriteAnswer) (bytes : List ℕ) (c : Connection)
    → c.writing ≡ true
    → 1 ≤ length bytes
    → length bytes + length bytes ≤ max_size
    → (c' : Connection) × (send_in_loop before ks bytes c ≡ ok c')
      × (queued c'.outputs ≡ bytes ++ queued c.outputs)
      × (c'.wire ≡ c.wire)
      × (c'.writing ≡ true)
unfolding send_in_loop queued with_rest from_data
send_while_writing before ks bytes c w h k =
    let (b, v, m, e) = queue_rest_lem before bytes (at_start bytes c) (omega arith) k in
    (
      with_rest (at_start bytes c) b,
      ap (queue_if before bytes) (attempt_writing ks bytes c w)
          ∙ queue_if_rest before bytes (at_start bytes c) refl h (omega arith)
          ∙ e,
      ap (λ xs. xs ++ queued c.outputs) (m ∙ take_all (length bytes) bytes (omega arith)),
      refl,
      refl,
    )

-- A call that writes all of the message at once: it is on the wire, nothing is queued.
send_at_once :
    (before e : ℕ) (ks : List WriteAnswer) (bytes : List ℕ) (c : Connection)
    → c.writing ≡ false
    → c.outputs ≡ []
    → 1 ≤ length bytes
    → length bytes < 2 ^ 64
    → send_in_loop before (wrote (length bytes) e ∷ ks) bytes c
      ≡ ok (completed (record c { wire = c.wire ++ bytes }))
unfolding send_in_loop
send_at_once before e ks bytes c w o h k =
    ap (queue_if before bytes)
      (attempt_idle _ bytes c w o ∙ loop_writes_whole e ks bytes (at_start bytes c) h k)
    ∙ queue_if_done before bytes _ refl

-- A call that writes a part of the message goes on with all of it.
loop_writes_some :
    (n e : ℕ) (ks : List WriteAnswer) (bytes : List ℕ) (d : Direct)
    → 1 ≤ d.remaining
    → n < length bytes
    → length bytes < 2 ^ 64
    → direct_loop (wrote n e ∷ ks) bytes d
      ≡ direct_loop ks bytes (record d {
        remaining = length bytes - n;
        nwrote = count n;
        conn = record d.conn { wire = d.conn.wire ++ take n bytes };
      })
unfolding direct_loop
loop_writes_some n e ks bytes d h l k =
    rw
      (
        not_zero d.remaining h,
        sub64_less (length bytes) n l k,
        not_zero (length bytes - n) (omega arith),
      )
      refl

-- A partial write is followed by another call for all of the message: its first bytes are on the
-- wire twice.
send_repeats :
    (before n e e' : ℕ) (ks : List WriteAnswer) (bytes : List ℕ) (c : Connection)
    → c.writing ≡ false
    → c.outputs ≡ []
    → n < length bytes
    → length bytes < 2 ^ 64
    → send_in_loop before (wrote n e ∷ wrote (length bytes) e' ∷ ks) bytes c
      ≡ ok (completed (record c { wire = (c.wire ++ take n bytes) ++ bytes }))
unfolding send_in_loop
send_repeats before n e e' ks bytes c w o h k =
    ap (queue_if before bytes) (
      attempt_idle _ bytes c w o
      ∙ loop_writes_some n e _ bytes (at_start bytes c) (omega arith) h k
      ∙ loop_writes_whole e' ks bytes _ (omega arith) k)
    ∙ queue_if_done before bytes _ refl

loop_refused :
    (ks : List WriteAnswer) (bytes : List ℕ) (d : Direct)
    → 1 ≤ d.remaining
    → direct_loop (refused eagain ∷ ks) bytes d ≡ record d { nwrote = minus_one }
unfolding direct_loop
loop_refused ks bytes d h = rw (not_zero d.remaining h) refl

-- `take` of as many bytes as before, from one byte earlier.
take_before :
    (x n : ℕ) (xs : List ℕ) → length xs ≡ n → 1 ≤ n → take n (x ∷ xs) ≡ x ∷ take (n - 1) xs
take_before x zero xs e h = absurd (omega arith)
take_before x (suc n) xs e h = ap (λ k. x ∷ take k xs) (omega arith)

-- After EAGAIN the queued buffer begins one byte in front of the message and lacks its last byte.
send_refused :
    (before : ℕ) (ks : List WriteAnswer) (bytes : List ℕ) (c : Connection)
    → c.writing ≡ false
    → c.outputs ≡ []
    → 1 ≤ length bytes
    → length bytes + length bytes ≤ max_size
    → (c' : Connection) × (send_in_loop before (refused eagain ∷ ks) bytes c ≡ ok c')
      × (queued c'.outputs ≡ before ∷ take (length bytes - 1) bytes)
      × (c'.wire ≡ c.wire)
unfolding send_in_loop queued with_rest from_data
send_refused before ks bytes c w o h k =
    let d : Direct = record (at_start bytes c) { nwrote = minus_one } in
    let (b, v, m, e) = queue_rest_lem before bytes d (omega arith) k in
    (
      with_rest d b,
      ap (queue_if before bytes)
            (attempt_idle _ bytes c w o ∙ loop_refused ks bytes (at_start bytes c) h)
          ∙ queue_if_rest before bytes d refl h (omega arith)
          ∙ e,
      ap (λ xs. xs ++ queued c.outputs) (m ∙ take_before before (length bytes) bytes refl h)
          ∙ ap (λ bs. (before ∷ take (length bytes - 1) bytes) ++ queued bs) o
          ∙ append-nil _,
      refl,
    )
