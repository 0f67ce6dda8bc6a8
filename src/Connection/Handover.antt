-- ===== src/Connection/Handover.antt =====
-- The calls of src/TcpConnection.cpp that send: `send(stringPiece)`, `send(Buffer*)` and `send_OOB`, from
-- the word `state_` to the functor for the loop. The values of the word that a call meets are a list,
-- as in StateWord.Closing. A `stringPiece` is an address and a length.
use learning_network.Prelude.{
  ℕ, ◌≡◌, refl, ◌∙◌, sym, ap, arith, Bool, true, false, List, [], ◌∷◌, take, drop, length, Option,
  none, some, if◌then◌else◌, ◌==◌, leb, Outcome, ok, fault, dangling_pointer, bad_access, ◌>>=◌,
  Any, drop_all, take_all,
}
use learning_network.StateWord.{unlikely_disconnected, has_used, has_writing, or_writing}
use learning_network.StateWord.Closing.{has_connecting}
use learning_network.Buffer.Invariant.{IsValid, content, readable_bytes_lem, length-content}
use learning_network.Buffer.Retrieve.{retrieve_as_string_lem}
use learning_network.Buffer.{
  Buffer, readable_bytes, retrieve_all, retrieve_all_as_string, retrieve_as_string,
}

-- How the loop on the word ends: counted as a sender, given up, or not ended with these values.
pub data Entered : Type 0 where
  counted : Entered
  given_up : Entered
  outside : ℕ → Entered

-- The inner loop, after the mark.
pub enter_marked : List ℕ → ℕ → Entered
enter_marked [] old = outside old
enter_marked (w ∷ ws) old = if w == old then counted else given_up

-- The outer loop, with `old_state`. Where the swap that sets the mark fails, the word is loaded again.
unfoldable pub enter_loop : List ℕ → ℕ → Entered
unfolding enter_marked
enter_loop [] old =
    if unlikely_disconnected old then given_up else if has_used old then outside old else given_up
enter_loop (w ∷ []) old =
    let again = enter_loop [] w in
    if unlikely_disconnected old
    then given_up
    else if has_used old
    then if w == old
      then (if has_writing old then counted else outside (or_writing old))
      else (if has_writing old then again else outside w)
    else given_up
enter_loop (w ∷ w' ∷ ws) old =
    let again = enter_loop (w' ∷ ws) w in
    let reload = enter_loop ws w' in
    if unlikely_disconnected old
    then given_up
    else if has_used old
    then if w == old
      then (if has_writing old then counted else enter_marked (w' ∷ ws) (or_writing old))
      else (if has_writing old then again else reload)
    else given_up

-- From the first load, which a wait for `Connecting` repeats.
unfoldable pub enter : List ℕ → ℕ → Entered
enter [] w = if has_connecting w then outside w else enter_loop [] w
enter (w' ∷ ws) w = if has_connecting w then enter_loop ws w' else enter_loop (w' ∷ ws) w

-- What is at an address, if it has not been freed.
abbrev pub Memory : Type 0
Memory = ℕ → Option (List ℕ)

read_view : Memory → ℕ → ℕ → Outcome (List ℕ)
read_view mem a n = elim (mem a) [
  | none ↦ fault dangling_pointer
  | some bytes ↦ if leb n (length bytes) then ok (take n bytes) else fault bad_access
]

-- What a functor for the loop has captured: a `stringPiece`, or a `std::string`.
pub data Deferred : Type 0 where
  of_view : ℕ → ℕ → Deferred
  of_copy : List ℕ → Deferred

-- The bytes that it passes to `sendInLoop` when it runs.
pub run_deferred : Memory → Deferred → Outcome (List ℕ)
unfolding read_view
run_deferred mem (of_view a n) = read_view mem a n
run_deferred mem (of_copy bytes) = ok bytes

-- How a call ends: without an effect, not at all with these values, with `sendInLoop` called, or with a
-- functor queued.
pub data Handed : Type 0 where
  dropped : Handed
  unfinished : Handed
  sent_now : List ℕ → Handed
  queued_up : Deferred → Handed

hand_view : Memory → Bool → ℕ → ℕ → Entered → Outcome Handed
hand_view mem in_thread a n counted =
    let now = read_view mem a n >>= λ bytes. ok (sent_now bytes) in
    if in_thread then now else ok (queued_up (of_view a n))
hand_view mem in_thread a n given_up = ok dropped
hand_view mem in_thread a n (outside w) = ok unfinished

-- `send(const stringPiece&)`
pub send : Memory → Bool → List ℕ → ℕ → ℕ → ℕ → Outcome Handed
unfolding hand_view
send mem in_thread ws w a n = hand_view mem in_thread a n (enter ws w)

-- `send_OOB`, which does the same: the bytes are not sent as out-of-band data.
pub send_oob : Memory → Bool → List ℕ → ℕ → ℕ → ℕ → Outcome Handed
unfolding hand_view
send_oob mem in_thread ws w a n = hand_view mem in_thread a n (enter ws w)

hand_buffer : Bool → Buffer → Entered → Outcome (Handed × Buffer)
hand_buffer in_thread b counted =
    let later = retrieve_all_as_string b >>= λ (bytes, b'). ok (queued_up (of_copy bytes), b') in
    if in_thread
    then ok (sent_now (take (readable_bytes b) (drop b.read_idx b.buf)), retrieve_all b)
    else later
hand_buffer in_thread b given_up = ok (dropped, b)
hand_buffer in_thread b (outside w) = ok (unfinished, b)

-- `send(Buffer*)`
pub send_buffer : Bool → List ℕ → ℕ → Buffer → Outcome (Handed × Buffer)
unfolding hand_buffer
send_buffer in_thread ws w b = hand_buffer in_thread b (enter ws w)

loop-counted :
    (ws : List ℕ) (old : ℕ) → enter_loop ws old ≡ counted → Any (λ w. has_used w ≡ true) (old ∷ ws)
unfolding enter_loop
loop-counted [] old e = ground arith
loop-counted (w ∷ []) old e = ground (arith, loop-counted [] w)
loop-counted (w ∷ w' ∷ ws) old e = ground arith

-- Whatever values of the word a call of `send` meets, it counts itself as a sender only if one of them
-- says that the connection is in use.
enter-counted : (ws : List ℕ) (v : ℕ) → enter ws v ≡ counted → Any (λ w. has_used w ≡ true) (v ∷ ws)
unfolding enter
enter-counted [] v e = ground (arith, loop-counted [] v)
enter-counted (w ∷ ws) v e = ground (arith, loop-counted ws w, loop-counted (w ∷ ws) v)

string_rest :
    (b : Buffer) (n : ℕ)
    → IsValid b
    → n ≡ length (content b)
    → (b' : Buffer) × (content b' ≡ []) × (retrieve_as_string b n ≡ ok (content b, b'))
string_rest b n v h =
    let (b', e, k, c) = (retrieve_as_string_lem b n v).0 (omega (arith, h)) in
    (
      b',
      c ∙ drop_all n (content b) (omega (arith, h)),
      e ∙ ap (λ xs. ok (xs, b')) (take_all n (content b) (omega (arith, h))),
    )

string_all :
    (b : Buffer)
    → IsValid b
    → (b' : Buffer) × (content b' ≡ []) × (retrieve_all_as_string b ≡ ok (content b, b'))
unfolding retrieve_all_as_string
string_all b v =
    string_rest b (readable_bytes b) v (readable_bytes_lem v ∙ sym (length-content b v))

-- Once a call outside the loop's thread is counted, `send(Buffer*)` leaves the buffer empty and queues
-- the bytes themselves, which the loop gets whatever happens to the memory until then. `send` of a
-- `stringPiece` and `send_OOB` queue the address: when the caller frees its bytes before the loop
-- comes to them, the loop reads freed memory.
pub deferred_lem :
    (mem later : Memory) (ws : List ℕ) (w a n : ℕ) (b : Buffer)
    → IsValid b
    → enter ws w ≡ counted
    → (b' : Buffer) × (d d' : Deferred) × (send_buffer false ws w b ≡ ok (queued_up d', b'))
      × (content b' ≡ [])
      × (run_deferred later d' ≡ ok (content b))
      × (send mem false ws w a n ≡ ok (queued_up d))
      × (send_oob mem false ws w a n ≡ ok (queued_up d))
      × (later a ≡ none → run_deferred later d ≡ fault dangling_pointer)
unfolding send send_oob hand_view send_buffer hand_buffer run_deferred read_view
deferred_lem mem later ws w a n b v e =
    let (b', c, k) = string_all b v in
    (
      b',
      of_view a n,
      of_copy (content b),
      rw (e, hand_buffer, k) refl,
      c,
      refl,
      rw (e, hand_view) refl,
      rw (e, hand_view) refl,
      λ f. rw (f, read_view) refl,
    )
