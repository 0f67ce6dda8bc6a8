-- ===== src/SslConnection/Send/Sent.antt =====
-- What becomes of a message that `sendInLoop` of src/https/ssl_TcpConnection.cpp gets.
use learning_network.Prelude.{
  ℕ, ◌+◌, ◌≤◌, ◌<◌, ◌≡◌, ◌⊎◌, inl, inr, refl, subst, ap, ◌∙◌, arith, List, [], ◌∷◌, ◌++◌, length,
  take, take_all, map, ok, Option, none, some, Bool, true, false, not, ◌&&◌, add64, le→leb, All,
  length-take,
}
use learning_network.Buffer.{init, initial_size, max_size}
use learning_network.Buffer.Invariant.{init-IsValid, init-content, init-length}
use learning_network.Buffer.Append.{content-append}
use learning_network.Connection.{Connection, Call, high_water, write_complete, called, completed}
use learning_network.Connection.Queue.{queued}
use learning_network.Connection.Send.{is_empty, Direct, from_data, at_start, minus_one}
use learning_network.Connection.Send.Written.{tests_idle}
use learning_network.SslConnection.{SslError, want_read, want_write, zero_return, other_error}
use learning_network.SslConnection.Send.{
  SslPut, ssl_put, ssl_minus, ssl_put_failed, ssl_direct_loop, ssl_attempt, ssl_high_water,
  ssl_with_rest, ssl_queue_rest, ssl_queue_if, ssl_send_in_loop,
}
use learning_network.SslConnection.Send.Loop.{
  repeated, left_of, left_small, loop_writes_whole, loop_fails, partly, loop_partly,
}

-- The user's high-water callback was queued when the sum reached the mark, and otherwise was not.
pub WaterTold : Option ℕ → ℕ → ℕ → List Call → List Call → Type 0
WaterTold none old sum a b = b ≡ a
WaterTold (some mark) old sum a b =
    (old < mark → mark ≤ sum → b ≡ a ++ (high_water sum ∷ []))
    × (mark ≤ old → b ≡ a)
    × (sum < mark → b ≡ a)

-- `d` is `c` with the wire as it is now and the text in front of the queue.
pub QueuedUp : Option ℕ → List ℕ → ℕ → List ℕ → Bool → Connection → Connection → Type 0
unfolding WaterTold
QueuedUp mark text r wire reading c d =
    (queued d.outputs ≡ text ++ queued c.outputs)
    × (d.wire ≡ wire)
    × (d.reading ≡ reading)
    × (d.writing ≡ true)
    × (d.old_len ≡ add64 c.old_len r)
    × WaterTold mark (add64 c.old_len r) (add64 (add64 c.old_len r) r) c.calls d.calls

-- `d` is `c` after `writeCompleteCallback_`, if there is one.
pub Completed : Connection → Connection → Type 0
Completed c d =
    (c.wants_write_complete ≡ true → d ≡ record c { calls = c.calls ++ (write_complete ∷ []) })
    × (c.wants_write_complete ≡ false → d ≡ c)

-- What an error of `SSL_write` comes to, with `r` bytes left and `wire` written.
pub AfterError : SslError → Option ℕ → ℕ → List ℕ → ℕ → List ℕ → Connection → Connection → Type 0
unfolding QueuedUp
AfterError want_write mark before bytes r wire c d =
    QueuedUp mark (take r (before ∷ bytes)) r wire c.reading c d
AfterError want_read mark before bytes r wire c d =
    QueuedUp mark (take r (before ∷ bytes)) r wire true c d
AfterError zero_return mark before bytes r wire c d = d ≡ record c { wire = wire }
AfterError other_error mark before bytes r wire c d = d ≡ record c { wire = wire }

high_water-WaterTold :
    (mark : Option ℕ) (old sum : ℕ) (c : Connection)
    → WaterTold mark old sum c.calls (ssl_high_water mark old sum c).calls
unfolding WaterTold ssl_high_water called
high_water-WaterTold none old sum c = refl
high_water-WaterTold (some mark) old sum c =
    (λ a b. ground arith, λ a. ground arith, λ a. ground arith)

high_water_keeps :
    (mark : Option ℕ) (old sum : ℕ) (c : Connection)
    → ((ssl_high_water mark old sum c).wire ≡ c.wire)
      × ((ssl_high_water mark old sum c).reading ≡ c.reading)
unfolding ssl_high_water called
high_water_keeps none old sum c = (refl, refl)
high_water_keeps (some mark) old sum c = (ground arith, ground arith)

completed-Completed : (c : Connection) → Completed c (completed c)
unfolding Completed completed called
completed-Completed c = (λ h. rw h refl, λ h. rw h refl)

module _ (mark : Option ℕ) (before : ℕ) (bytes : List ℕ) where
  -- What is left of the message goes into a buffer in front of the queue.
  rest_queued :
      (d : Direct)
      → d.fault_error ≡ false
      → 1 ≤ d.remaining
      → d.remaining ≤ length (from_data before bytes d.nwrote)
      → d.remaining + initial_size ≤ max_size
      → (c' : Connection) × (ssl_queue_if mark before bytes d ≡ ok c')
        × QueuedUp mark
            (take d.remaining (from_data before bytes d.nwrote))
            d.remaining
            d.conn.wire
            d.conn.reading
            d.conn
            c'
  unfolding ssl_queue_if ssl_queue_rest ssl_with_rest QueuedUp queued
  rest_queued d f h k m =
      let text = take d.remaining (from_data before bytes d.nwrote) in
      let (b, a, v, x) =
        content-append (init initial_size) text (init-IsValid initial_size (omega arith)) (
          omega (
            arith,
            m,
            init-length {n = initial_size},
            length-take d.remaining (from_data before bytes d.nwrote),
          )) in
      let old = add64 d.conn.old_len d.remaining in
      let (w, r) = high_water_keeps mark old (add64 old d.remaining) d.conn in
      (
        ssl_with_rest mark d b,
        rw (f, le→leb _ _ h, le→leb _ _ k, a) refl,
        (
          ap (λ xs. xs ++ queued d.conn.outputs)
              (x ∙ ap (λ xs. xs ++ text) (init-content initial_size)),
          w,
          r,
          refl,
          refl,
          high_water-WaterTold mark old (add64 old d.remaining) d.conn,
        ),
      )

  queue_if_none : (d : Direct) → d.remaining ≡ 0 → ssl_queue_if mark before bytes d ≡ ok d.conn
  unfolding ssl_queue_if
  queue_if_none d h = ground arith

  queue_if_failed :
      (d : Direct) → d.fault_error ≡ true → ssl_queue_if mark before bytes d ≡ ok d.conn
  unfolding ssl_queue_if
  queue_if_failed d h = ground arith

module _ (mark : Option ℕ) (before : ℕ) (ps : List ℕ) (ks : List SslPut) (bytes : List ℕ)
    (c : Connection) (h : 1 ≤ length bytes) (m : length bytes + initial_size ≤ max_size) where
  -- The connection writes already, or has something queued.
  send_waiting :
      (not c.writing && is_empty c.outputs) ≡ false
      → (d : Connection) × (ssl_send_in_loop mark before ks bytes c ≡ ok d)
        × QueuedUp mark bytes (length bytes) c.wire c.reading c d
  unfolding ssl_send_in_loop ssl_attempt from_data
  send_waiting w =
      let (d, e, q) =
        rest_queued mark before bytes (at_start bytes c) refl h (omega arith) (omega (arith, m)) in
      (
        d,
        rw w e,
        subst (λ t. QueuedUp mark t (length bytes) c.wire c.reading c d)
            (take_all (length bytes) bytes (omega arith)) q,
      )

  module _ (w : c.writing ≡ false) (o : c.outputs ≡ []) (a : All (λ n. n < length bytes) ps) where
    attempt_partly :
        (k : SslPut)
        → ssl_attempt (map ssl_put ps ++ (k ∷ ks)) bytes c
          ≡ ssl_direct_loop (k ∷ ks) bytes (partly bytes ps (at_start bytes c))
    unfolding ssl_attempt
    attempt_partly k =
        rw (tests_idle c w o)
          (loop_partly ps (k ∷ ks) bytes (at_start bytes c) h (omega (arith, m)) a)

    some_left : 1 ≤ left_of (length bytes) (length bytes) ps
    some_left = (left_small (length bytes) (length bytes) ps h (omega arith) a).0

    send_whole :
        (d : Connection) × (ssl_send_in_loop mark before
            (map ssl_put ps ++ (ssl_put (length bytes) ∷ ks))
            bytes
            c
          ≡ ok d)
        × Completed (record c { wire = c.wire ++ repeated bytes ps ++ bytes }) d
    unfolding ssl_send_in_loop
    send_whole =
        let c' : Connection = record c { wire = c.wire ++ repeated bytes ps ++ bytes } in
        (
          completed c',
          ap (ssl_queue_if mark before bytes) (
                attempt_partly (ssl_put (length bytes))
                ∙ loop_writes_whole ks bytes (partly bytes ps (at_start bytes c)) some_left)
              ∙ queue_if_none mark before bytes _ refl,
          completed-Completed c',
        )

    attempt_fails :
        (e : SslError)
        → ssl_attempt (map ssl_put ps ++ (ssl_minus e ∷ ks)) bytes c
          ≡ ssl_put_failed e (partly bytes ps (at_start bytes c))
    attempt_fails e =
        attempt_partly (ssl_minus e)
        ∙ loop_fails e ks bytes (partly bytes ps (at_start bytes c)) some_left

    OnError : SslError → Type 0
    OnError e =
        (d : Connection) × (ssl_send_in_loop mark before (map ssl_put ps ++ (ssl_minus e ∷ ks))
            bytes c
          ≡ ok d)
        × AfterError e mark before bytes (left_of (length bytes) (length bytes) ps)
            (c.wire ++ repeated bytes ps) c d

    fails_later :
        (e : SslError) (d1 : Direct)
        → ssl_put_failed e (partly bytes ps (at_start bytes c)) ≡ d1
        → d1.fault_error ≡ false
        → d1.nwrote ≡ minus_one
        → d1.remaining ≡ left_of (length bytes) (length bytes) ps
        → (d : Connection) × (ssl_send_in_loop mark before
              (map ssl_put ps ++ (ssl_minus e ∷ ks))
              bytes
              c
            ≡ ok d)
          × QueuedUp mark
              (take d1.remaining (from_data before bytes d1.nwrote))
              d1.remaining
              d1.conn.wire
              d1.conn.reading
              d1.conn
              d
    unfolding ssl_send_in_loop from_data
    fails_later e d1 same f n r =
        let (more, few) = left_small (length bytes) (length bytes) ps h (omega arith) a in
        let (d, x, q) =
          rest_queued mark before bytes d1 f (omega (arith, more, r)) (rw n (omega (arith, few, r)))
            (omega (arith, few, r, m)) in
        (d, ap (ssl_queue_if mark before bytes) (attempt_fails e ∙ same) ∙ x, q)

    send_fails : (e : SslError) → OnError e
    unfolding OnError AfterError ssl_put_failed ssl_send_in_loop QueuedUp from_data
    send_fails want_write = fails_later want_write _ refl refl refl refl
    send_fails want_read = fails_later want_read _ refl refl refl refl
    send_fails zero_return = (
      _,
      ap (ssl_queue_if mark before bytes) (attempt_fails zero_return)
          ∙ queue_if_failed mark before bytes _ refl,
      refl,
    )
    send_fails other_error = (
      _,
      ap (ssl_queue_if mark before bytes) (attempt_fails other_error)
          ∙ queue_if_failed mark before bytes _ refl,
      refl,
    )

-- `sendInLoop` over TLS, for a message of at least one byte. When the connection writes already or has
-- something queued, all of the message is queued, in front of what was queued before. Otherwise
-- `SSL_write` is called with all of the message each time, so that calls which write less than all
-- put the beginning on the wire again; then: when a call takes all of it, it is on the wire and the
-- user is told; when a call would have to wait to write or to read, what is queued begins one byte
-- in front of the message and is as long as what the last call left; on any other error nothing is
-- queued. Where something is queued the connection listens for writing, and the high-water callback,
-- if there is one, is queued exactly when the sum reaches the mark and `oldLen` has not; a wait for
-- reading listens for it.
pub ssl_send_in_loop_lem :
    (mark : Option ℕ) (before : ℕ) (ps : List ℕ) (ks : List SslPut) (bytes : List ℕ)
    (c : Connection)
    → 1 ≤ length bytes
    → length bytes + initial_size ≤ max_size
    → All (λ n. n < length bytes) ps
    → ((c.writing ≡ true) ⊎ (is_empty c.outputs ≡ false)
        → (d : Connection) × (ssl_send_in_loop mark before ks bytes c ≡ ok d)
          × QueuedUp mark bytes (length bytes) c.wire c.reading c d)
      × (c.writing ≡ false
          → c.outputs ≡ []
          → ((d : Connection) × (ssl_send_in_loop mark before
                  (map ssl_put ps ++ (ssl_put (length bytes) ∷ ks))
                  bytes
                  c
                ≡ ok d)
              × Completed (record c { wire = c.wire ++ repeated bytes ps ++ bytes }) d)
            × ((e : SslError)
                → (d : Connection) × (ssl_send_in_loop mark before
                      (map ssl_put ps ++ (ssl_minus e ∷ ks))
                      bytes
                      c
                    ≡ ok d)
                  × AfterError e mark before bytes
                      (left_of (length bytes) (length bytes) ps)
                      (c.wire ++ repeated bytes ps)
                      c
                      d))
unfolding OnError
ssl_send_in_loop_lem mark before ps ks bytes c h m a = (
  λ w. send_waiting mark before ps ks bytes c h m (busy w),
  λ w o. (
    send_whole mark before ps ks bytes c h m w o a,
    send_fails mark before ps ks bytes c h m w o a,
  ),
)
  where
    busy :
        (c.writing ≡ true) ⊎ (is_empty c.outputs ≡ false)
        → (not c.writing && is_empty c.outputs) ≡ false
    busy (inl e) = ground arith
    busy (inr e) = ground arith
