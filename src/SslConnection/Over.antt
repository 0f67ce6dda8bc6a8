-- ===== src/SslConnection/Over.antt =====
-- `handle_ep_out` of src/https/ssl_TcpConnection.cpp: when an assertion fails, and what else comes of it.
use learning_network.Prelude.{
  ℕ, suc, ◌-◌, ◌≡◌, refl, sym, ap, ◌∙◌, subst, arith, List, [], ◌∷◌, ◌++◌, map, take, drop, length,
  Outcome, ok, fault, failed_assert, All, Bool-cases, Bool, true, false, ◌==◌, if◌then◌else◌, inl,
  inr, leb, leb→le, ◌>>=◌, Option, some, none,
}
use learning_network.Buffer.{Buffer, readable_bytes}
use learning_network.Buffer.Invariant.{IsValid, content, length-content, readable_bytes_lem}
use learning_network.Buffer.Retrieve.{content-retrieve}
use learning_network.Connection.{Connection, completed}
use learning_network.Connection.Queue.{queued, moved}
use learning_network.SslConnection.{
  SslError, SslWrite, ssl_wrote, write_failed, ssl_write_loop, ssl_next_buffer, ssl_write_buffers,
  ssl_after_write, ssl_out_of, ssl_handle_ep_out,
}
use learning_network.SslConnection.Output.{SslConserves, ssl_handle_ep_out-SslConserves}

-- Whether an answer claims more bytes than are left of the buffer at hand, of which `n` are left; the
-- function tells it of the other buffers.
abbrev over_one : (List SslWrite → Bool) → List SslWrite → ℕ → Bool
over_one go [] n = if n == 0 then go [] else false
over_one go (write_failed e ∷ ks) n = if n == 0 then go (write_failed e ∷ ks) else false
over_one go (ssl_wrote k ∷ ks) n =
    let rest = if leb (suc k) n then over_one go ks (n - suc k) else true in
    if n == 0 then go (ssl_wrote k ∷ ks) else rest

-- The answers against the lengths of the buffers, each of which is left when it is used up.
pub over : List ℕ → List SslWrite → Bool
over [] ks = false
over (n ∷ ns) ks = over_one (over ns) ks n

abbrev pub sizes : List Buffer → List ℕ
sizes bs = map (λ b. length (content b)) bs

OneOver :
    (List SslWrite → Bool)
    → Bool
    → Outcome (List SslWrite × Buffer × List ℕ × Option SslError)
    → Type 0
OneOver go t (fault e) = t ≡ true
OneOver go t (ok (ks, b, w, none)) = t ≡ go ks
OneOver go t (ok (ks, b, w, some e)) = t ≡ false

readable_zero : (b : Buffer) → IsValid b → (readable_bytes b == 0) ≡ (length (content b) == 0)
readable_zero b v = ap (λ n. n == 0) (readable_bytes_lem v ∙ sym (length-content b v))

loop_over :
    (go : List SslWrite → Bool) (ks : List SslWrite) (b : Buffer) (w : List ℕ)
    → IsValid b
    → OneOver go (over_one go ks (length (content b))) (ssl_write_loop ks b w)
unfolding OneOver ssl_write_loop
loop_over go [] b w v = elim (Bool-cases (readable_bytes b == 0)) [
  | inl t ↦ rw (t, sym (readable_zero b v) ∙ t) refl
  | inr f ↦ rw (f, sym (readable_zero b v) ∙ f) refl
]
loop_over go (write_failed e ∷ ks) b w v = elim (Bool-cases (readable_bytes b == 0)) [
  | inl t ↦ rw (t, sym (readable_zero b v) ∙ t) refl
  | inr f ↦ rw (f, sym (readable_zero b v) ∙ f) refl
]
loop_over go (ssl_wrote n ∷ ks) b w v = elim (Bool-cases (readable_bytes b == 0)) [
  | inl t ↦ rw (t, sym (readable_zero b v) ∙ t) refl
  | inr f ↦
      rw (f, sym (readable_zero b v) ∙ f)
        (elim (Bool-cases (leb (suc n) (length (content b)))) [
          | inl t ↦
              let (b', r, v', m, l) = moved b (suc n) w v (leb→le _ _ t) in
              rw (t, r, ssl_write_loop)
                (subst
                  (λ k.
                    OneOver go (over_one go ks k)
                      (ssl_write_loop ks b' (w ++ take (suc n) (drop b.read_idx b.buf))))
                  l (loop_over go ks b' _ v'))
          | inr g ↦ rw (g, (content-retrieve b (suc n) v).1 (ground arith), ssl_write_loop) refl
        ])
]

BuffersOver : Bool → Outcome (Connection × Option SslError) → Type 0
BuffersOver t (fault e) = t ≡ true
BuffersOver t (ok r) = t ≡ false

next_over :
    (go : List SslWrite → Bool)
    (go_on : List SslWrite → Connection → Outcome (Connection × Option SslError)) (bs : List Buffer)
    (c : Connection) (t : Bool) (r : Outcome (List SslWrite × Buffer × List ℕ × Option SslError))
    → ((ks : List SslWrite) (d : Connection) → BuffersOver (go ks) (go_on ks d))
    → OneOver go t r
    → BuffersOver t (r >>= λ x. ssl_next_buffer go_on bs c x)
unfolding OneOver BuffersOver ssl_next_buffer
next_over go go_on bs c t (fault e) g h = h
next_over go go_on bs c t (ok (ks, b, w, some e)) g h = h
next_over go go_on bs c t (ok (ks, b, w, none)) g h =
    subst (λ x. BuffersOver x (go_on ks (completed (record c { wire = w })))) (sym h)
      (g ks (completed (record c { wire = w })))

buffers_over :
    (bs : List Buffer) (ks : List SslWrite) (c : Connection)
    → All IsValid bs
    → BuffersOver (over (sizes bs) ks) (ssl_write_buffers bs ks c)
unfolding BuffersOver over ssl_write_buffers
buffers_over [] ks c vs = refl
buffers_over (b ∷ bs) ks c (v, vs) =
    next_over (over (sizes bs)) (ssl_write_buffers bs) bs c _ _ (λ ks' d. buffers_over bs ks' d vs)
      (loop_over (over (sizes bs)) ks b c.wire v)

abbrev Ends : Bool → Outcome Connection → Type 0
Ends t (fault e) = t ≡ true
Ends t (ok c') = t ≡ false

bind_over :
    (t : Bool) (r : Outcome (Connection × Option SslError))
    → BuffersOver t r
    → Ends t (r >>= λ (c', end). ok (ssl_after_write end c'))
unfolding BuffersOver
bind_over t (fault e) h = h
bind_over t (ok (d, end)) h = h

out_over :
    (bs : List Buffer) (ks : List SslWrite) (c : Connection)
    → All IsValid bs
    → Ends (over (sizes bs) ks) (ssl_out_of bs ks c)
unfolding over ssl_out_of
out_over [] ks c vs = refl
out_over (b ∷ bs) ks c vs = bind_over _ _ (buffers_over (b ∷ bs) ks c vs)

-- What may come of `handle_ep_out`, when `t` says whether an answer claims more than is left.
abbrev pub Comes : Bool → Connection → Outcome Connection → Type 0
Comes t c (fault e) = (e ≡ failed_assert) × (t ≡ true)
Comes t c (ok c') =
    All IsValid c'.outputs
    × (c'.wire ++ queued c'.outputs ≡ c.wire ++ queued c.outputs)
    × (t ≡ false)

both :
    (t : Bool) (c : Connection) (r : Outcome Connection) → SslConserves c r → Ends t r → Comes t c r
both t c (fault e) h k = (h, k)
both t c (ok c') (v, m) k = (v, m, k)

-- For every sequence of answers of `SSL_write` to EPOLLOUT on a TLS connection: if an answer claims more
-- bytes than are left of the buffer at hand, an assertion fails; if none does, the handler
-- returns, and the bytes on the wire followed by the queued ones are what they were, hang-ups included.
pub ssl_handle_ep_out_lem :
    (ks : List SslWrite) (c : Connection)
    → All IsValid c.outputs
    → Comes (over (sizes c.outputs) ks) c (ssl_handle_ep_out ks c)
unfolding ssl_handle_ep_out
ssl_handle_ep_out_lem ks c vs =
    both _ c _ (ssl_handle_ep_out-SslConserves ks c vs) (out_over c.outputs ks c vs)
