-- ===== src/TcpClient/Stopped.antt =====
-- src/TcpClient.cpp: a client that was told to stop.
use learning_network.Prelude.{
  ℕ, suc, ◌≡◌, refl, ◌∙◌, ap, arith, ◌==◌, ne→==, Bool, true, false, ◌&&◌, if◌then◌else◌, if_intro,
  List, [], ◌∷◌, ◌++◌, Option, none, some, Outcome, ok, fault, ◌>>=◌, ◌>>◌, assert,
}
use learning_network.TcpClient.{
  ClientCall, start_connector, stop_connector, restart_connector, start_handshake, establish,
  shut_down, destroy, ClientState, request, connect, shut_connection, disconnect, stop,
  handle_sig_int, enable_retry, adopt, new_connection, handshake_succeeded, handshake_failed,
  timer_fires, is_known, remove_connection, ClientEvent, disconnects, stops, sig_int, enables_retry,
  new, succeeds, fails, fires, removes, client_step, client_history,
}

-- How often the connector was asked to connect.
unfoldable pub attempts : List ClientCall → ℕ
attempts [] = 0
attempts (start_connector ∷ rs) = suc (attempts rs)
attempts (restart_connector ∷ rs) = suc (attempts rs)
attempts (r ∷ rs) = attempts rs

-- The client does not want to connect, no timer will make it, and it has asked `n` times.
abbrev IsStopped : ℕ → ClientState → Type 0
IsStopped n s = (s.connects ≡ false) × (s.delayed ≡ 0) × (attempts s.requests ≡ n)

-- A call that does not ask the connector to connect.
abbrev Harmless : ClientCall → Type 0
Harmless start_connector = ⊥
Harmless restart_connector = ⊥
Harmless r = Unit

attempts-append :
    (r : ClientCall) (rs : List ClientCall) → Harmless r → attempts (rs ++ (r ∷ [])) ≡ attempts rs
unfolding attempts
attempts-append start_connector [] h = absurd h
attempts-append stop_connector [] h = refl
attempts-append restart_connector [] h = absurd h
attempts-append start_handshake [] h = refl
attempts-append (establish c) [] h = refl
attempts-append (shut_down c) [] h = refl
attempts-append (destroy c) [] h = refl
attempts-append r (start_connector ∷ rs) h = ap suc (attempts-append r rs h)
attempts-append r (stop_connector ∷ rs) h = attempts-append r rs h
attempts-append r (restart_connector ∷ rs) h = ap suc (attempts-append r rs h)
attempts-append r (start_handshake ∷ rs) h = attempts-append r rs h
attempts-append r (establish c ∷ rs) h = attempts-append r rs h
attempts-append r (shut_down c ∷ rs) h = attempts-append r rs h
attempts-append r (destroy c ∷ rs) h = attempts-append r rs h

request-IsStopped :
    (n : ℕ) (r : ClientCall) (s : ClientState)
    → Harmless r
    → IsStopped n s
    → IsStopped n (request r s)
unfolding request
request-IsStopped n r s h (a, b, c) = (a, b, attempts-append r s.requests h ∙ c)

shut-IsStopped :
    (n : ℕ) (o : Option ℕ) (s : ClientState) → IsStopped n s → IsStopped n (shut_connection o s)
unfolding shut_connection
shut-IsStopped n none s h = h
shut-IsStopped n (some c) s h = request-IsStopped n (shut_down c) s tt h

-- The step returns a client that is still stopped, or fails.
abbrev pub StillStopped : ℕ → Outcome ClientState → Type 0
StillStopped n (ok s) = IsStopped n s
StillStopped n (fault e) = Unit

client_step-IsStopped :
    (n : ℕ) (e : ClientEvent) (s : ClientState) → IsStopped n s → StillStopped n (client_step e s)
unfolding client_step disconnect stop handle_sig_int enable_retry new_connection adopt
    handshake_succeeded handshake_failed timer_fires remove_connection
client_step-IsStopped n disconnects s (a, b, c) =
    shut-IsStopped n s.connection (record s { connects = false }) (refl, b, c)
client_step-IsStopped n stops s (a, b, c) =
    request-IsStopped n stop_connector (record s { connects = false }) tt (refl, b, c)
client_step-IsStopped n sig_int s h =
    let (a, b, c) = shut-IsStopped n s.connection s h in (refl, b, c)
client_step-IsStopped n enables_retry s h = h
client_step-IsStopped n new s h =
    if_intro (IsStopped n) s.ssl
      (λ _.
        request-IsStopped n start_handshake (record s { next_conn_id = suc s.next_conn_id }) tt h)
      (λ _. request-IsStopped n (establish s.next_conn_id) _ tt h)
client_step-IsStopped n (succeeds d) s h = request-IsStopped n (establish d) _ tt h
client_step-IsStopped n fails s (a, b, c) =
    if_intro (IsStopped n) (s.retry && s.connects) (λ e. absurd (ground (arith, e, a)))
      (λ _. (a, b, c))
client_step-IsStopped n fires s (a, b, c) =
    if_intro (IsStopped n) (s.delayed == 0) (λ _. (a, b, c)) (λ e. absurd (ground (arith, e, b)))
client_step-IsStopped n (removes d) s h = removed (is_known d s.connection)
  where
    t : ClientState
    t = request (destroy d) (record s { connection = none })

    t-IsStopped : IsStopped n t
    t-IsStopped = request-IsStopped n (destroy d) (record s { connection = none }) tt h

    removed :
        (known : Bool)
        → StillStopped n
            (assert known >> ok (if s.retry && s.connects then request restart_connector t else t))
    removed true =
        if_intro (IsStopped n) (s.retry && s.connects) (λ e. absurd (ground (arith, e, h.0)))
          (λ _. t-IsStopped)
    removed false = tt

go_on :
    (n : ℕ) (o : Outcome ClientState) (f : ClientState → Outcome ClientState)
    → ((s : ClientState) → IsStopped n s → StillStopped n (f s))
    → StillStopped n o
    → StillStopped n (o >>= f)
go_on n (ok s) f g k = g s k
go_on n (fault e) f g k = tt

stays :
    (n : ℕ) (es : List ClientEvent) (s : ClientState)
    → IsStopped n s
    → StillStopped n (client_history es s)
unfolding client_history
stays n [] s h = h
stays n (e ∷ es) s h =
    go_on n (client_step e s) (client_history es) (λ s' k. stays n es s' k)
      (client_step-IsStopped n e s h)

-- After `disconnect`, `stop` or an interrupt, when no timer for a retry is pending: whatever connections
-- then come, finish or fail their handshake, and are removed, and whoever enables the retry or stops
-- again, the connector is not asked to connect until somebody calls `connect`; unless an assertion of
-- `removeConnection` fails.
pub stopped_stays :
    (es : List ClientEvent) (s : ClientState)
    → s.connects ≡ false
    → s.delayed ≡ 0
    → StillStopped (attempts s.requests) (client_history es s)
unfolding client_history
stopped_stays es s a b = stays (attempts s.requests) es s (a, b, refl)

attempts-start :
    (rs : List ClientCall) → attempts (rs ++ (start_connector ∷ [])) ≡ suc (attempts rs)
unfolding attempts
attempts-start [] = refl
attempts-start (start_connector ∷ rs) = ap suc (attempts-start rs)
attempts-start (stop_connector ∷ rs) = attempts-start rs
attempts-start (restart_connector ∷ rs) = ap suc (attempts-start rs)
attempts-start (start_handshake ∷ rs) = attempts-start rs
attempts-start (establish c ∷ rs) = attempts-start rs
attempts-start (shut_down c ∷ rs) = attempts-start rs
attempts-start (destroy c ∷ rs) = attempts-start rs

-- A failed handshake sets a timer that calls `connect` without a look at what happened since, so a
-- client that is stopped meanwhile connects again.
pub stop_undone :
    (s : ClientState)
    → s.retry ≡ true
    → s.connects ≡ true
    → let s' = timer_fires (stop (handshake_failed s)) in
      (s'.connects ≡ true) × (attempts s'.requests ≡ suc (attempts (stop s).requests))
unfolding timer_fires stop handshake_failed connect request
stop_undone s r c =
    rw (r, c, ne→== (suc s.delayed) 0 (λ e. absurd (omega (arith, e))))
      (refl, attempts-start (s.requests ++ (stop_connector ∷ [])))
