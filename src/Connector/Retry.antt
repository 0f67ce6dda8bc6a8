-- ===== src/Connector/Retry.antt =====
-- Where src/Connector.cpp faults: after an attempt that had a channel.
use learning_network.Prelude.{
  ℕ, ◌≡◌, ◌≢◌, arith, true, Bool, [], ◌∷◌, ◌++◌, ok, fault, failed_assert, dangling_pointer,
  append_assoc, ◌⊎◌, ◌∙◌,
}
use learning_network.Connector.{
  disconnected, connecting, live, deleted, Connector, classify, retryable, may_succeed, retry,
  reschedule, delete_channel, delete_at, connect, start_in_loop, start, stop_in_loop,
  is_disconnected, deref, connecting_fd, check_whether_connected, handle_err,
  remove_and_reset_channel,
}

-- An attempt that is pending and fails, because the socket reports an error, is connected to
-- itself, or the channel an error event, does not lead to a retry: the channel is deleted while its
-- event is handled, and its destructor's assertion fails.
pending_attempt_fails :
    (fd err : ℕ) (self tied reset : Bool) (c : Connector)
    → c.state ≡ connecting
    → c.channel ≡ live fd
    → (((err ≢ 0) ⊎ (self ≡ true))
        → check_whether_connected err self tied reset c ≡ fault failed_assert)
      × (handle_err c ≡ fault failed_assert)
unfolding check_whether_connected handle_err deref retry delete_channel delete_at
    remove_and_reset_channel
pending_attempt_fails fd err self tied reset c s l = (λ h. ground arith, ground arith)

abbrev twice_closed : ℕ → Connector → Connector
twice_closed fd c = record c {
  closed = (c.closed ++ (fd ∷ [])) ++ (fd ∷ []);
  state = disconnected;
  channel = deleted fd;
  stale = fd ∷ c.stale;
}

stop_in_loop_lem :
    (fd : ℕ) (c : Connector)
    → c.state ≡ connecting
    → c.channel ≡ live fd
    → stop_in_loop c ≡ ok (reschedule (twice_closed fd c))
unfolding stop_in_loop remove_and_reset_channel deref retry delete_channel delete_at
stop_in_loop_lem fd c s l = ground arith

reschedule_lem :
    (c : Connector)
    → ((reschedule c).closed ≡ c.closed)
      × ((reschedule c).channel ≡ c.channel)
      × ((reschedule c).state ≡ c.state)
unfolding reschedule
reschedule_lem c = ground arith

stopped_pending :
    (fd : ℕ) (c : Connector)
    → c.state ≡ connecting
    → c.channel ≡ live fd
    → (c' : Connector) × (stop_in_loop c ≡ ok c')
      × (c'.closed ≡ c.closed ++ (fd ∷ fd ∷ []))
      × (c'.channel ≡ deleted fd)
      × (c'.state ≡ disconnected)
stopped_pending fd c s l =
    let (k, d, s') = reschedule_lem (twice_closed fd c) in
    (
      reschedule (twice_closed fd c),
      stop_in_loop_lem fd c s l,
      k ∙ append_assoc c.closed (fd ∷ []) (fd ∷ []),
      d,
      s',
    )

-- `stopInLoop` during a pending attempt closes its descriptor twice and leaves `channel_` pointing at
-- the deleted channel, so that the next `start` faults for every answer of the kernel that is an
-- error worth a retry or leaves the new attempt pending.
start_after_stop :
    (fd fd' errno : ℕ) (reset : Bool) (c : Connector)
    → c.state ≡ connecting
    → c.channel ≡ live fd
    → (c' : Connector) × (stop_in_loop c ≡ ok c')
      × (c'.closed ≡ c.closed ++ (fd ∷ fd ∷ []))
      × (classify errno ≡ retryable → start fd' errno reset c' ≡ fault dangling_pointer)
      × (classify errno ≡ may_succeed → start fd' errno reset c' ≡ fault failed_assert)
unfolding start start_in_loop is_disconnected connect retry delete_channel delete_at connecting_fd
start_after_stop fd fd' errno reset c s l =
    let (c', e, k, d, s') = stopped_pending fd c s l in
    (c', e, k, λ h. ground arith, λ h. ground arith)
