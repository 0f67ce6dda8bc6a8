-- ===== src/Connection/Send.antt =====
-- `sendInLoop` of src/TcpConnection.cpp up to its last loop, which StateWord models.
pub mod Written
use learning_network.Prelude.{
  ℕ, zero, suc, ◌+◌, ◌-◌, ◌^◌, ◌≤◌, ◌<◌, ◌≡◌, refl, ap, ◌∙◌, arith, List, [], ◌∷◌, ◌++◌, length,
  take, drop, take_all, Outcome, ok, fault, bad_access, Bool, true, false, not, ◌&&◌, ◌==◌, leb,
  if◌then◌else◌, ◌>>=◌, ◌>>◌, assert, sub64, add64, le→leb, length-take, append-nil,
}
use learning_network.Buffer.{Buffer, init, append, max_size}
use learning_network.Buffer.Invariant.{IsValid, content, init-IsValid, init-content, init-length}
use learning_network.Buffer.Append.{content-append}
use learning_network.Connection.{
  Connection, WriteAnswer, wrote, refused, eintr, eagain, completed, called,
}
use learning_network.Connection.Queue.{queued}

-- `nwrote`
pub data Nwrote : Type 0 where
  count : ℕ → Nwrote
  minus_one : Nwrote

pub is_empty : List Buffer → Bool
is_empty [] = true
is_empty (b ∷ bs) = false

pub record Direct : Type 0 where
  pub remaining : ℕ
  pub nwrote : Nwrote
  pub fault_error : Bool
  pub conn : Connection

-- The `while` loop: every call passes all of `data`, from its begin.
pub direct_loop : List WriteAnswer → List ℕ → Direct → Direct
unfolding completed called
direct_loop [] bytes d = if d.remaining == 0 then d else record d { nwrote = minus_one }
direct_loop (wrote n e ∷ ks) bytes d =
    let r = sub64 (length bytes) n in
    let c = record d.conn { wire = d.conn.wire ++ take n bytes } in
    let rest =
      direct_loop ks bytes (record d {
        remaining = r;
        nwrote = count n;
        conn = (if r == 0 then completed c else c);
      }) in
    if d.remaining == 0 then d else rest
direct_loop (refused e ∷ ks) bytes d =
    let rest = direct_loop ks bytes (record d { nwrote = minus_one }) in
    if d.remaining == 0
    then d
    else if e == eagain
    then record d { nwrote = minus_one }
    else if e == eintr
    then rest
    else record d { nwrote = minus_one; fault_error = true }

-- The memory from `data + nwrote` on. `before` is the byte in front of `data`.
unfoldable pub from_data : ℕ → List ℕ → Nwrote → List ℕ
from_data before bytes (count n) = drop n bytes
from_data before bytes minus_one = before ∷ bytes

-- What is left goes into a new buffer at the front of the list. The test against the high-water
-- mark asks for `oldLen >= highWaterMark_ && oldLen < highWaterMark_`, and never holds.
unfoldable pub with_rest : Direct → Buffer → Connection
with_rest d b = record d.conn {
  old_len = add64 d.conn.old_len d.remaining;
  outputs = b ∷ d.conn.outputs;
  writing = true;
}

pub queue_rest : ℕ → List ℕ → Direct → Outcome Connection
queue_rest before bytes d =
    let rest = from_data before bytes d.nwrote in
    let queue = append (init d.remaining) (take d.remaining rest) >>= λ b. ok (with_rest d b) in
    if leb d.remaining (length rest) then queue else fault bad_access

abbrev pub at_start : List ℕ → Connection → Direct
at_start bytes c = record {
  remaining = length bytes;
  nwrote = count 0;
  fault_error = false;
  conn = c;
}

-- The part that writes, if nothing waits to be written.
pub attempt : List WriteAnswer → List ℕ → Connection → Direct
attempt ks bytes c =
    if not c.writing && is_empty c.outputs
    then direct_loop ks bytes (at_start bytes c)
    else at_start bytes c

pub queue_if : ℕ → List ℕ → Direct → Outcome Connection
queue_if before bytes d =
    let queue = queue_rest before bytes d in
    let rest = if not d.fault_error && leb 1 d.remaining then queue else ok d.conn in
    assert (leb d.remaining (length bytes)) >> rest

pub send_in_loop : ℕ → List WriteAnswer → List ℕ → Connection → Outcome Connection
send_in_loop before ks bytes c = queue_if before bytes (attempt ks bytes c)
