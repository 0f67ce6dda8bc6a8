-- ===== src/SslConnection/Send/Loop.antt =====
-- The loop of `SSL_write` in `sendInLoop` of src/https/ssl_TcpConnection.cpp.
use learning_network.Prelude.{
  ℕ, ◌-◌, ◌≤◌, ◌<◌, ◌≡◌, refl, sym, ap, ◌∙◌, arith, List, [], ◌∷◌, ◌++◌, length, take, take_all,
  map, sub64, All, append_assoc, append-nil,
}
use learning_network.Buffer.{max_size}
use learning_network.Connection.{completed}
use learning_network.Connection.Send.{Direct, Nwrote, count}
use learning_network.Connection.Send.Written.{not_zero, sub64_self}
use learning_network.SslConnection.{SslError}
use learning_network.SslConnection.Send.{
  SslPut, ssl_put, ssl_minus, ssl_put_failed, ssl_direct_loop,
}

-- What calls that write less than all put on the wire, since each of them begins with the first byte,
-- and what is left for `sendInLoop` after them.
abbrev pub repeated : List ℕ → List ℕ → List ℕ
repeated bytes [] = []
repeated bytes (n ∷ ps) = take n bytes ++ repeated bytes ps

abbrev pub left_of : ℕ → ℕ → List ℕ → ℕ
left_of len r [] = r
left_of len r (n ∷ ps) = left_of len (len - n) ps

abbrev pub last_put : Nwrote → List ℕ → Nwrote
last_put w [] = w
last_put w (n ∷ ps) = last_put (count n) ps

pub left_small :
    (len r : ℕ) (ps : List ℕ)
    → 1 ≤ r
    → r ≤ len
    → All (λ n. n < len) ps
    → (1 ≤ left_of len r ps) × (left_of len r ps ≤ len)
left_small len r [] a b h = (a, b)
left_small len r (n ∷ ps) a b (k, h) =
    left_small len (len - n) ps (omega (arith, k)) (omega arith) h

loop_stops :
    (ks : List SslPut) (bytes : List ℕ) (d : Direct)
    → d.remaining ≡ 0
    → ssl_direct_loop ks bytes d ≡ d
unfolding ssl_direct_loop
loop_stops [] bytes d h = ground arith
loop_stops (ssl_put n ∷ ks) bytes d h = ground arith
loop_stops (ssl_minus e ∷ ks) bytes d h = ground arith

pub loop_writes_whole :
    (ks : List SslPut) (bytes : List ℕ) (d : Direct)
    → 1 ≤ d.remaining
    → ssl_direct_loop (ssl_put (length bytes) ∷ ks) bytes d ≡ record d {
      remaining = 0;
      nwrote = count (length bytes);
      conn = completed (record d.conn { wire = d.conn.wire ++ bytes });
    }
unfolding ssl_direct_loop
loop_writes_whole ks bytes d h =
    rw
      (
        not_zero d.remaining h,
        sub64_self (length bytes),
        take_all (length bytes) bytes (omega arith),
      )
      (loop_stops ks bytes _ refl)

pub loop_fails :
    (e : SslError) (ks : List SslPut) (bytes : List ℕ) (d : Direct)
    → 1 ≤ d.remaining
    → ssl_direct_loop (ssl_minus e ∷ ks) bytes d ≡ ssl_put_failed e d
unfolding ssl_direct_loop
loop_fails e ks bytes d h = rw (not_zero d.remaining h) refl

loop_writes_part :
    (n : ℕ) (ks : List SslPut) (bytes : List ℕ) (d : Direct)
    → 1 ≤ d.remaining
    → n < length bytes
    → length bytes ≤ max_size
    → ssl_direct_loop (ssl_put n ∷ ks) bytes d
      ≡ ssl_direct_loop ks bytes (record d {
        remaining = length bytes - n;
        nwrote = count n;
        conn = record d.conn { wire = d.conn.wire ++ take n bytes };
      })
unfolding ssl_direct_loop
loop_writes_part n ks bytes d h k m =
    let part : sub64 (length bytes) n ≡ length bytes - n = omega (arith, k, m) in
    rw (not_zero d.remaining h, part, not_zero (length bytes - n) (omega (arith, k))) refl

-- The loop after calls that write less than all.
abbrev pub partly : List ℕ → List ℕ → Direct → Direct
partly bytes ps d = record d {
  remaining = left_of (length bytes) d.remaining ps;
  nwrote = last_put d.nwrote ps;
  conn = record d.conn { wire = d.conn.wire ++ repeated bytes ps };
}

pub loop_partly :
    (ps : List ℕ) (ks : List SslPut) (bytes : List ℕ) (d : Direct)
    → 1 ≤ d.remaining
    → length bytes ≤ max_size
    → All (λ n. n < length bytes) ps
    → ssl_direct_loop (map ssl_put ps ++ ks) bytes d ≡ ssl_direct_loop ks bytes (partly bytes ps d)
loop_partly [] ks bytes d h m a =
    ap (λ w. ssl_direct_loop ks bytes (record d { conn = record d.conn { wire = w } }))
      (sym (append-nil d.conn.wire))
loop_partly (n ∷ ps) ks bytes d h m (k, a) =
    let d1 : Direct = record d {
      remaining = length bytes - n;
      nwrote = count n;
      conn = record d.conn { wire = d.conn.wire ++ take n bytes };
    } in
    loop_writes_part n (map ssl_put ps ++ ks) bytes d h k m
    ∙ loop_partly ps ks bytes d1 (omega (arith, k)) m a
    ∙ ap
        (λ w.
          ssl_direct_loop ks bytes
            (record (partly bytes (n ∷ ps) d) { conn = record d.conn { wire = w } }))
        (append_assoc d.conn.wire (take n bytes) (repeated bytes ps))
