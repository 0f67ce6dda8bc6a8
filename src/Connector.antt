-- ===== src/Connector.antt =====
-- src/Connector.h and src/Connector.cpp: making a connection, with retries. `closed` are the
-- descriptors closed, `opened` those handed to the new-connection callback, and `timers` the delays
-- of `runAfter`, in milliseconds, all oldest first. What the kernel answers is an argument.
pub mod Backoff
pub mod Ownership
pub mod Retry
pub mod Tests
use learning_network.Prelude.{
  ℕ, ◌*◌, Bool, true, false, List, [], ◌∷◌, ◌++◌, if◌then◌else◌, ◌==◌, ◌||◌, min, Outcome, ok,
  fault, ◌>>=◌, ◌>>◌, assert, failed_assert, null_pointer, dangling_pointer,
}

-- `enum States`
pub data States : Type 0 where
  disconnected connecting connected : States

-- `Channel*`: null, or a channel of a descriptor that lives or was deleted.
pub data ChannelPtr : Type 0 where
  null : ChannelPtr
  live : ℕ → ChannelPtr
  deleted : ℕ → ChannelPtr

abbrev pub max_retry_delay_ms : ℕ
max_retry_delay_ms = 30 * 1000

abbrev pub init_retry_delay_ms : ℕ
init_retry_delay_ms = 500

-- `stale` are the descriptors for which the poller still holds a channel that was deleted.
pub record Connector : Type 0 where
  pub connect_ : Bool
  pub state : States
  pub channel : ChannelPtr
  pub retry_delay_ms : ℕ
  pub closed : List ℕ
  pub opened : List ℕ
  pub timers : List ℕ
  pub stale : List ℕ

unfoldable pub init : Connector
init = record {
  connect_ = false;
  state = disconnected;
  channel = null;
  retry_delay_ms = init_retry_delay_ms;
  closed = [];
  opened = [];
  timers = [];
  stale = [];
}

pub contains : List ℕ → ℕ → Bool
contains [] n = false
contains (x ∷ xs) n = (x == n) || contains xs n

-- `loop_->add_channel(fd)`: a channel that the poller holds for the descriptor is used again.
pub add_channel : Connector → ℕ → ChannelPtr
add_channel c fd = if contains c.stale fd then deleted fd else live fd

-- `channel_->…`, which gives the channel's descriptor.
pub deref : ChannelPtr → Outcome ℕ
deref null = fault null_pointer
deref (live fd) = ok fd
deref (deleted fd) = fault dangling_pointer

-- `delete channel_`: the destructor asserts that no event of the channel is being handled, and
-- closes the descriptor. `channel_` keeps its value.
delete_at : ChannelPtr → Bool → Connector → Outcome Connector
delete_at null in_event c = ok c
delete_at (live fd) true c = fault failed_assert
delete_at (live fd) false c =
    ok (record c { channel = deleted fd; closed = c.closed ++ (fd ∷ []); stale = fd ∷ c.stale })
delete_at (deleted fd) in_event c = fault dangling_pointer

pub delete_channel : Bool → Connector → Outcome Connector
unfolding delete_at
delete_channel in_event c = delete_at c.channel in_event c

-- `runAfter(retryDelayMs_, startInLoop)`, if a connection is still wanted.
reschedule : Connector → Connector
reschedule c =
    if c.connect_
    then record c {
      timers = c.timers ++ (c.retry_delay_ms ∷ []);
      retry_delay_ms = min (c.retry_delay_ms * 2) max_retry_delay_ms;
    }
    else c

-- `in_event`: whether the caller is a callback of the channel.
pub retry : Bool → ℕ → Connector → Outcome Connector
unfolding reschedule
retry in_event fd c = do
  c' ← delete_channel in_event (record c { closed = c.closed ++ (fd ∷ []); state = disconnected })
  ok (reschedule c')

-- The end of an attempt that succeeded: the callback gets the descriptor, unless `stop` came
-- first. `reset` says whether the callback calls `resetChannel`.
hand_over : Bool → ℕ → Connector → Connector
hand_over reset fd c =
    if c.connect_
    then record c { opened = c.opened ++ (fd ∷ []); channel = if reset then null else c.channel }
    else record c { closed = c.closed ++ (fd ∷ []) }

pub connecting_fd : ℕ → Connector → Outcome Connector
connecting_fd fd c = elim c.channel [
  | null ↦ do
    let c' = record c { state = connecting; channel = add_channel c fd }
    _ ← deref c'.channel
    ok c'
  | _ ↦ fault failed_assert
]

established : Bool → ℕ → Connector → Outcome Connector
unfolding hand_over
established reset fd c = do
  let c' = record c { state = connected; channel = add_channel c fd }
  _ ← deref c'.channel
  ok (hand_over reset fd c')

-- The classes of the switch in `connect`, by `errno` (0 for success): EINPROGRESS, EINTR, EISCONN;
-- EAGAIN, EADDRINUSE, EADDRNOTAVAIL, ECONNREFUSED, ENETUNREACH; all others.
pub data ErrorClass : Type 0 where
  success may_succeed retryable fatal : ErrorClass

pub classify : ℕ → ErrorClass
classify e =
    if e == 0
    then success
    else if (e == 115) || ((e == 4) || (e == 106))
    then may_succeed
    else if (e == 11) || ((e == 98) || ((e == 99) || ((e == 111) || (e == 101))))
    then retryable
    else fatal

-- `connect`, where the kernel made the socket `fd` and answered `errno`.
pub connect : ℕ → ℕ → Bool → Connector → Outcome Connector
unfolding established
connect fd errno reset c = elim (classify errno) [
  | success ↦ established reset fd c
  | may_succeed ↦ connecting_fd fd c
  | retryable ↦ retry false fd c
  | fatal ↦ ok (record c { closed = c.closed ++ (fd ∷ []) })
]

is_disconnected : States → Bool
is_disconnected disconnected = true
is_disconnected connecting = false
is_disconnected connected = false

pub start_in_loop : ℕ → ℕ → Bool → Connector → Outcome Connector
unfolding is_disconnected
start_in_loop fd errno reset c = do
  assert (is_disconnected c.state)
  if c.connect_ then connect fd errno reset c else ok c

pub start : ℕ → ℕ → Bool → Connector → Outcome Connector
start fd errno reset c = start_in_loop fd errno reset (record c { connect_ = true })

pub restart : ℕ → ℕ → Bool → Connector → Outcome Connector
restart fd errno reset c =
    start_in_loop fd errno reset
      (record c { state = disconnected; retry_delay_ms = init_retry_delay_ms; connect_ = true })

-- `stop`; it queues `stopInLoop`.
pub stop : Connector → Connector
stop c = record c { connect_ = false }

-- `removeAndResetChannel`
pub remove_and_reset_channel : Connector → Outcome ℕ
remove_and_reset_channel c = deref c.channel

pub stop_in_loop : Connector → Outcome Connector
stop_in_loop c = elim c.state [
  | connecting ↦ do
    fd ← remove_and_reset_channel (record c { state = disconnected })
    retry false fd (record c { state = disconnected })
  | _ ↦ ok c
]

-- The socket is writable: `err` is its pending error, `self` whether it is connected to itself,
-- and `tied` whether the channel belongs to a connection.
pub check_whether_connected : ℕ → Bool → Bool → Bool → Connector → Outcome Connector
unfolding hand_over
check_whether_connected err self tied reset c = do
  fd ← deref c.channel
  elim c.state [
    | connecting ↦
        if err == 0
        then if self
          then retry true fd c
          else ok (hand_over reset fd (record c { state = connected }))
        else retry true fd c
    | connected ↦ if tied then ok c else fault failed_assert
    | disconnected ↦ ok c
  ]

pub handle_err : Connector → Outcome Connector
handle_err c = elim c.state [
  | connecting ↦ do fd ← remove_and_reset_channel c; retry true fd c
  | _ ↦ ok c
]

-- What can happen to a connector.
pub data Event : Type 0 where
  started restarted retried : ℕ → ℕ → Bool → Event
  stopped stop_ran failed : Event
  writable : ℕ → Bool → Bool → Bool → Event

pub step : Event → Connector → Outcome Connector
step (started fd errno reset) c = start fd errno reset c
step (restarted fd errno reset) c = restart fd errno reset c
step (retried fd errno reset) c = start_in_loop fd errno reset c
step stopped c = ok (stop c)
step stop_ran c = stop_in_loop c
step failed c = handle_err c
step (writable err self tied reset) c = check_whether_connected err self tied reset c
