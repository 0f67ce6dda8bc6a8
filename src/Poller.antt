-- ===== src/Poller.antt =====
-- src/basics/Poller.cpp and src/basics/Channel.cpp: the channels of a loop, and the set of descriptors
-- that the kernel watches for its epoll descriptor. Both are functions of the descriptor. A channel
-- of the loop is in `m_channels` under its descriptor, and a change of the object is a change there.
pub mod Update
pub mod Dispatch
pub mod Tests
use learning_network.Prelude.{
  ℕ, Bool, true, false, ◌&&◌, ◌||◌, not, if◌then◌else◌, ◌==◌, List, [], ◌∷◌, ◌++◌, Option, none,
  some, Outcome, ok, fault, ◌>>=◌, ◌>>◌, assert, failed_assert, null_pointer,
}

-- `ch_extern`, `ch_added` and `ch_deleted`
pub data Index : Type 0 where
  ch_extern : Index
  ch_added : Index
  ch_deleted : Index

-- `listen_events`: the bits of `READ_EVENT` are set and cleared together.
pub record Interest : Type 0 where
  pub reads : Bool
  pub writes : Bool

pub record Channel : Type 0 where
  pub fd : ℕ
  pub idx : Index
  pub listen : Interest
  pub added_to_loop : Bool
  pub tied : Bool

-- The events of an `epoll_event`: those of `READ_EVENT` and `WRITE_EVENT`, EPOLLET and EPOLLRDHUP.
pub record Events : Type 0 where
  pub in_events : Bool
  pub out_events : Bool
  pub edge_triggered : Bool
  pub rdhup : Bool

-- What the kernel was told: events, or what stood in an `ev` that was never set.
pub data Registered : Type 0 where
  asked : Events → Registered
  uninitialised : Registered

pub record Poller : Type 0 where
  pub channels : ℕ → Option Channel
  pub watched : ℕ → Option Registered

unfoldable pub put {ℓ} : {A : Type ℓ} → ℕ → Option A → (ℕ → Option A) → ℕ → Option A
put k v m j = if k == j then v else m j

-- `Poller::add_channel`
pub new_channel : ℕ → Channel
new_channel fd = record {
  fd = fd;
  idx = ch_deleted;
  listen = record { reads = false; writes = false };
  added_to_loop = false;
  tied = false;
}

pub add_to : Option Channel → ℕ → Poller → Poller
unfolding new_channel
add_to none fd p = record p { channels = put fd (some (new_channel fd)) p.channels }
add_to (some ch) fd p = p

pub add_channel : ℕ → Poller → Poller
add_channel fd p = add_to (p.channels fd) fd p

-- `epoll_ctl`: adding a descriptor that is watched, or changing or deleting one that is not, fails,
-- which is only logged.
pub data Control : Type 0 where
  ctl_add : Control
  ctl_mod : Control
  ctl_del : Control

pub control : Control → Registered → Option Registered → Option Registered
control ctl_add r none = some r
control ctl_add r (some old) = some old
control ctl_mod r none = none
control ctl_mod r (some old) = some r
control ctl_del r k = none

abbrev pub is_none_event : Interest → Bool
is_none_event l = not l.reads && not l.writes

-- `Epoller::update`
pub event_of : Interest → Registered
event_of l =
    if is_none_event l
    then uninitialised
    else asked
        (record { in_events = l.reads; out_events = l.writes; edge_triggered = true; rdhup = true })

pub update : Control → Channel → Poller → Poller
unfolding event_of control
update op ch p = record {
  channels = put ch.fd (some ch) p.channels;
  watched = put ch.fd (control op (event_of ch.listen) (p.watched ch.fd)) p.watched;
}

abbrev pub is_some {ℓ} : {A : Type ℓ} → Option A → Bool
is_some none = false
is_some (some a) = true

-- `Epoller::updateChannel`
pub update_known : Index → Channel → Poller → Poller
unfolding update
update_known ch_deleted ch p = update ctl_add (record ch { idx = ch_added }) p
update_known ch_extern ch p = update ctl_add (record ch { idx = ch_added }) p
update_known ch_added ch p =
    if is_none_event ch.listen
    then update ctl_del (record ch { idx = ch_deleted; tied = false }) p
    else update ctl_mod ch p

pub is_extern : Index → Bool
is_extern ch_extern = true
is_extern ch_added = false
is_extern ch_deleted = false

pub update_channel : Channel → Poller → Outcome Poller
update_channel ch p =
    let found = is_some (p.channels ch.fd) in
    assert (if is_extern ch.idx then not found else found) >> ok (update_known ch.idx ch p)

-- The operations of `Channel` that change what it listens to.
pub data Op : Type 0 where
  enable_read : Op
  enable_write : Op
  disable_read : Op
  disable_write : Op
  disable_all : Op

pub change : Op → Channel → Channel
change enable_read ch = record ch { listen = record ch.listen { reads = true } }
change enable_write ch = record ch { listen = record ch.listen { writes = true } }
change disable_read ch = record ch {
  listen = record ch.listen { reads = false };
  added_to_loop = true;
}
change disable_write ch = record ch {
  listen = record ch.listen { writes = false };
  added_to_loop = true;
}
change disable_all ch = record ch { listen = record { reads = false; writes = false } }

-- An operation on the channel of a descriptor.
pub apply_to : Option Channel → Op → Poller → Outcome Poller
apply_to none op p = fault null_pointer
apply_to (some ch) op p = update_channel (change op ch) p

pub apply : Op → ℕ → Poller → Outcome Poller
apply op fd p = apply_to (p.channels fd) op p
