-- ===== src/Connector/Tests.antt =====
-- The theorems on src/Connector.cpp at concrete connectors.
use learning_network.Prelude.{◌*◌, ◌^◌, ◌≡◌, refl, arith, true, [], ◌∷◌, ok, some, get_elem?, min}
use learning_network.Connector.{
  disconnected, connecting, null, live, Connector, init, max_retry_delay_ms, classify, connect,
  start, started, step, start_in_loop, contains, connecting_fd, add_channel, deref,
}
use learning_network.Connector.Backoff.{attempts, backoff, attempts-backoff, get_elem?-backoff}
use learning_network.Connector.Ownership.{IsSound, new, next, Reach-IsSound, Owner, connect-Owner}

abbrev ready : Connector
ready = record {
  connect_ = true;
  state = disconnected;
  channel = null;
  retry_delay_ms = 500;
  closed = [];
  opened = [];
  timers = [];
  stale = [];
}

abbrev waiting : Connector
waiting = record ready { state = connecting; channel = live 7 }

-- Two refused attempts, on sockets 7 and 8.
attempts-backoff_example :
    (c' : Connector) × (attempts ((7, 111) ∷ (8, 101) ∷ []) ready ≡ ok c')
    × (c'.timers ≡ 500 ∷ 1000 ∷ [])
    × (c'.closed ≡ 7 ∷ 8 ∷ [])
    × (c'.state ≡ disconnected)
    × (c'.channel ≡ null)
    × (c'.opened ≡ [])
unfolding classify backoff
attempts-backoff_example =
    attempts-backoff ((7, 111) ∷ (8, 101) ∷ []) ready (refl, (refl, tt)) refl refl refl

get_elem?-backoff_example :
    get_elem? (backoff 9 500) 8 ≡ some (min (500 * 2 ^ 8) max_retry_delay_ms)
get_elem?-backoff_example = get_elem?-backoff 9 8 500 (omega arith) (omega arith)

first_attempt : step (started 7 115 true) init ≡ ok waiting
unfolding step start start_in_loop connect classify connecting_fd add_channel deref contains init
first_attempt = refl

Reach-IsSound_example : IsSound waiting
Reach-IsSound_example = Reach-IsSound (next new (started 7 115 true) first_attempt)

connect-Owner_example : (c' : Connector) × (connect 7 111 true ready ≡ ok c') × Owner 7 ready c'
unfolding contains
connect-Owner_example = connect-Owner 7 111 true ready refl refl refl
