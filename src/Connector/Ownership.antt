-- ===== src/Connector/Ownership.antt =====
-- The invariant of src/Connector.cpp, and who owns the socket of an attempt.
use learning_network.Prelude.{
  ℕ, ◌≤◌, ◌≡◌, refl, arith, true, false, Bool, leb, ◌&&◌, ◌≢◌, List, [], ◌∷◌, ◌++◌, ◌⊎◌, inl, inr,
  Bool-cases, ok,
}
use learning_network.Connector.{
  init, States, disconnected, connecting, connected, ChannelPtr, null, live, deleted, Connector,
  max_retry_delay_ms, init_retry_delay_ms, contains, classify, ErrorClass, success, may_succeed,
  retryable, fatal, retry, reschedule, delete_channel, delete_at, connect, start_in_loop, start,
  restart, stop, stop_in_loop, is_disconnected, add_channel, deref, hand_over, established,
  connecting_fd, check_whether_connected, handle_err, remove_and_reset_channel, Event, step,
  started, restarted, retried, stopped, stop_ran, failed, writable,
}

-- All delays lie between the first and the largest.
unfoldable pub bounded : List ℕ → Bool
bounded [] = true
bounded (d ∷ ds) = leb init_retry_delay_ms d && (leb d max_retry_delay_ms && bounded ds)

bounded-snoc :
    (ds : List ℕ) (d : ℕ)
    → bounded ds ≡ true
    → init_retry_delay_ms ≤ d
    → d ≤ max_retry_delay_ms
    → bounded (ds ++ (d ∷ [])) ≡ true
unfolding bounded
bounded-snoc [] d b l h = ground arith
bounded-snoc (x ∷ ds) d b l h = ground (arith, bounded-snoc ds d)

pub is_live : ChannelPtr → Bool
is_live null = false
is_live (live fd) = true
is_live (deleted fd) = false

-- While the connector is connecting its channel lives.
unfoldable pub channel_ok : States → ChannelPtr → Bool
channel_ok connecting p = is_live p
channel_ok disconnected p = true
channel_ok connected p = true

-- The delays asked for, and the next one, stay within their limits, and the channel of a pending
-- attempt is there.
pub record IsSound (c : Connector) : Type 0 where
  pub low : init_retry_delay_ms ≤ c.retry_delay_ms
  pub high : c.retry_delay_ms ≤ max_retry_delay_ms
  pub asked : bounded c.timers ≡ true
  pub pending : channel_ok c.state c.channel ≡ true

retry-IsSound :
    (b : Bool) (fd : ℕ) (c c' : Connector) → IsSound c → retry b fd c ≡ ok c' → IsSound c'
unfolding retry delete_channel delete_at reschedule channel_ok
retry-IsSound b fd c c' s e = ground (arith, bounded-snoc c.timers c.retry_delay_ms)

connect-IsSound :
    (fd errno : ℕ) (reset : Bool) (c c' : Connector)
    → IsSound c
    → c.state ≢ connecting
    → connect fd errno reset c ≡ ok c'
    → IsSound c'
unfolding connect established hand_over connecting_fd deref channel_ok is_live
connect-IsSound fd errno reset c c' s n e = ground (arith, retry-IsSound false fd c c' s)

start_in_loop-IsSound :
    (fd errno : ℕ) (reset : Bool) (c c' : Connector)
    → IsSound c
    → start_in_loop fd errno reset c ≡ ok c'
    → IsSound c'
unfolding start_in_loop is_disconnected
start_in_loop-IsSound fd errno reset c c' s e =
    ground (arith, connect-IsSound fd errno reset c c' s)

fd_of : ChannelPtr → ℕ
fd_of null = 0
fd_of (live fd) = fd
fd_of (deleted fd) = fd

check-IsSound :
    (err : ℕ) (self tied reset : Bool) (c c' : Connector)
    → IsSound c
    → check_whether_connected err self tied reset c ≡ ok c'
    → IsSound c'
unfolding check_whether_connected hand_over deref channel_ok fd_of
check-IsSound err self tied reset c c' s e =
    ground (arith, retry-IsSound true (fd_of c.channel) c c' s)

stop_in_loop-IsSound : (c c' : Connector) → IsSound c → stop_in_loop c ≡ ok c' → IsSound c'
unfolding stop_in_loop remove_and_reset_channel deref channel_ok fd_of
stop_in_loop-IsSound c c' s e =
    ground (arith, retry-IsSound false (fd_of c.channel) (record c { state = disconnected }) c')

handle_err-IsSound : (c c' : Connector) → IsSound c → handle_err c ≡ ok c' → IsSound c'
unfolding handle_err remove_and_reset_channel deref fd_of
handle_err-IsSound c c' s e = ground (arith, retry-IsSound true (fd_of c.channel) c c' s)

init-IsSound : IsSound init
unfolding init bounded channel_ok
init-IsSound = ground arith

restart-IsSound :
    (c : Connector)
    → IsSound c
    → IsSound
        (record c { state = disconnected; retry_delay_ms = init_retry_delay_ms; connect_ = true })
unfolding channel_ok
restart-IsSound c s = ground arith

step-IsSound : (e : Event) (c c' : Connector) → IsSound c → step e c ≡ ok c' → IsSound c'
unfolding step start restart stop
step-IsSound (started fd errno reset) c c' s e =
    start_in_loop-IsSound fd errno reset (record c { connect_ = true }) c' (ground arith) e
step-IsSound (restarted fd errno reset) c c' s e =
    start_in_loop-IsSound fd errno reset
      (record c { state = disconnected; retry_delay_ms = init_retry_delay_ms; connect_ = true }) c'
      (restart-IsSound c s) e
step-IsSound (retried fd errno reset) c c' s e = start_in_loop-IsSound fd errno reset c c' s e
step-IsSound stopped c c' s e = ground arith
step-IsSound stop_ran c c' s e = stop_in_loop-IsSound c c' s e
step-IsSound failed c c' s e = handle_err-IsSound c c' s e
step-IsSound (writable err self tied reset) c c' s e = check-IsSound err self tied reset c c' s e

-- The connectors that the events of a history can lead to.
pub data Reach : Connector → Type 0 where
  new : Reach init
  next : {c c' : Connector} → Reach c → (e : Event) → step e c ≡ ok c' → Reach c'

-- In every connector that any history of events leads to without a fault, each delay that was
-- asked for and the next one lie between half a second and 30 seconds, and while an attempt is
-- pending its channel has not been deleted.
pub Reach-IsSound : {c : Connector} → Reach c → IsSound c
Reach-IsSound new = init-IsSound
Reach-IsSound (next {c = c} {c' = c'} r e p) = step-IsSound e c c' (Reach-IsSound r) p

-- Where the socket of an attempt is afterwards: closed, handed to the callback, or with the pending
-- channel; in each case that alone.
pub data Owner (fd : ℕ) (c c' : Connector) : Type 0 where
  nobody :
      c'.closed ≡ c.closed ++ (fd ∷ [])
      → c'.opened ≡ c.opened
      → c'.state ≢ connecting
      → Owner fd c c'
  user :
      c'.closed ≡ c.closed
      → c'.opened ≡ c.opened ++ (fd ∷ [])
      → c'.state ≡ connected
      → Owner fd c c'
  pending :
      c'.closed ≡ c.closed
      → c'.opened ≡ c.opened
      → c'.channel ≡ live fd
      → c'.state ≡ connecting
      → Owner fd c c'

class_cases :
    (k : ErrorClass) → (k ≡ success) ⊎ ((k ≡ may_succeed) ⊎ ((k ≡ retryable) ⊎ (k ≡ fatal)))
class_cases success = inl refl
class_cases may_succeed = inr (inl refl)
class_cases retryable = inr (inr (inl refl))
class_cases fatal = inr (inr (inr refl))

waits :
    (fd errno : ℕ) (reset : Bool) (c : Connector)
    → c.channel ≡ null
    → contains c.stale fd ≡ false
    → classify errno ≡ may_succeed
    → connect fd errno reset c ≡ ok (record c { state = connecting; channel = live fd })
unfolding connect connecting_fd add_channel deref
waits fd errno reset c n s e = ground arith

dropped :
    (fd errno : ℕ) (reset : Bool) (c : Connector)
    → classify errno ≡ fatal
    → connect fd errno reset c ≡ ok (record c { closed = c.closed ++ (fd ∷ []) })
unfolding connect
dropped fd errno reset c e = ground arith

established_as :
    (fd errno : ℕ) (reset : Bool) (c : Connector)
    → contains c.stale fd ≡ false
    → classify errno ≡ success
    → connect fd errno reset c
      ≡ ok (hand_over reset fd (record c { state = connected; channel = live fd }))
unfolding connect established add_channel deref
established_as fd errno reset c s e = ground arith

handed :
    (fd : ℕ) (reset : Bool) (c : Connector)
    → c.connect_ ≡ true
    → let c' = hand_over reset fd (record c { state = connected; channel = live fd }) in
      (c'.closed ≡ c.closed) × (c'.opened ≡ c.opened ++ (fd ∷ [])) × (c'.state ≡ connected)
unfolding hand_over
handed fd reset c w = ground arith

refused :
    (fd : ℕ) (reset : Bool) (c : Connector)
    → c.connect_ ≡ false
    → let c' = hand_over reset fd (record c { state = connected; channel = live fd }) in
      (c'.closed ≡ c.closed ++ (fd ∷ [])) × (c'.opened ≡ c.opened) × (c'.state ≡ connected)
unfolding hand_over
refused fd reset c w = ground arith

rescheduled :
    (fd : ℕ) (c : Connector)
    → let c' = reschedule (record c { closed = c.closed ++ (fd ∷ []); state = disconnected }) in
      (c'.closed ≡ c.closed ++ (fd ∷ [])) × (c'.opened ≡ c.opened) × (c'.state ≡ disconnected)
unfolding reschedule
rescheduled fd c = ground arith

hand_over-Owner :
    (fd : ℕ) (reset : Bool) (c : Connector)
    → Owner fd c (hand_over reset fd (record c { state = connected; channel = live fd }))
hand_over-Owner fd reset c = elim (Bool-cases c.connect_) [
  | inl w ↦ let (k, o, t) = handed fd reset c w in user k o t
  | inr w ↦ let (k, o, t) = refused fd reset c w in nobody k o (λ q. cc)
]

retried_as :
    (fd errno : ℕ) (reset : Bool) (c : Connector)
    → c.channel ≡ null
    → classify errno ≡ retryable
    → connect fd errno reset c
      ≡ ok (reschedule (record c { closed = c.closed ++ (fd ∷ []); state = disconnected }))
unfolding connect retry delete_channel delete_at
retried_as fd errno reset c n e = ground arith

reschedule-Owner :
    (fd : ℕ) (c : Connector)
    → Owner fd c (reschedule (record c { closed = c.closed ++ (fd ∷ []); state = disconnected }))
reschedule-Owner fd c = let (k, o, t) = rescheduled fd c in nobody k o (λ q. cc)

-- An attempt, started while the connector is disconnected and has no channel, returns whatever the
-- kernel answers, and its socket then has exactly one owner: it is closed, or handed to the
-- callback, or waits with its channel for the outcome. (The poller holds no deleted channel for it.)
pub connect-Owner :
    (fd errno : ℕ) (reset : Bool) (c : Connector)
    → c.channel ≡ null
    → c.state ≡ disconnected
    → contains c.stale fd ≡ false
    → (c' : Connector) × (connect fd errno reset c ≡ ok c') × Owner fd c c'
connect-Owner fd errno reset c n d s = elim (class_cases (classify errno)) [
  | inl e ↦ (_, established_as fd errno reset c s e, hand_over-Owner fd reset c)
  | inr (inl e) ↦ (
    record c { state = connecting; channel = live fd },
    waits fd errno reset c n s e,
    pending refl refl refl refl,
  )
  | inr (inr (inl e)) ↦ (_, retried_as fd errno reset c n e, reschedule-Owner fd c)
  | inr (inr (inr e)) ↦ (
    record c { closed = c.closed ++ (fd ∷ []) },
    dropped fd errno reset c e,
    nobody refl refl (λ q. cc),
  )
]
