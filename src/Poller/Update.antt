-- ===== src/Poller/Update.antt =====
-- src/basics/Poller.cpp: what the channels and the kernel agree on.
use learning_network.Prelude.{
  ℕ, List, [], ◌∷◌, ◌>>=◌, ◌≡◌, refl, sym, ap, ◌∙◌, subst, arith, Bool, true, false, not, ◌&&◌,
  ◌==◌, if◌then◌else◌, Option, none, some, Outcome, ok, Bool-cases, inl, inr, ◌⊎◌,
}
use learning_network.Poller.{
  Index, ch_extern, ch_added, ch_deleted, Interest, asked, uninitialised, Channel, Registered,
  Poller, put, Control, ctl_add, ctl_mod, ctl_del, control, is_none_event, event_of, update,
  update_known, is_extern, update_channel, Op, enable_read, enable_write, disable_read,
  disable_write, disable_all, change, apply_to, apply, add_to, add_channel, new_channel,
}

-- The kernel was told what the channel listens to, with EPOLLET and EPOLLRDHUP; if that is nothing, it
-- was told an `ev` that nobody set.
pub Told : Interest → Registered → Type 0
Told l uninitialised = (l.reads ≡ false) × (l.writes ≡ false)
Told l (asked e) =
    ((l.reads ≡ true) ⊎ (l.writes ≡ true))
    × (e.in_events ≡ l.reads)
    × (e.out_events ≡ l.writes)
    × (e.edge_triggered ≡ true)
    × (e.rdhup ≡ true)

event_of-Told : (l : Interest) → Told l (event_of l)
unfolding Told event_of
event_of-Told l = events_of l.reads l.writes refl refl
  where
    events_of :
        (r w : Bool)
        → l.reads ≡ r
        → l.writes ≡ w
        → Told l (
            if not r && not w
            then uninitialised
            else asked
                (record { in_events = r; out_events = w; edge_triggered = true; rdhup = true }))
    events_of true w e f = (inl e, sym e, sym f, refl, refl)
    events_of false true e f = (inr f, sym e, sym f, refl, refl)
    events_of false false e f = (e, f)

-- A channel that is marked as added is watched for its events, any other is not watched.
abbrev pub AgreesAt : Index → Interest → Option Registered → Type 0
AgreesAt ch_deleted l k = k ≡ none
AgreesAt ch_added l k = (r : Registered) × (k ≡ some r) × Told l r
AgreesAt ch_extern l k = ⊥

abbrev pub Agrees : ℕ → Option Channel → Option Registered → Type 0
Agrees fd none k = k ≡ none
Agrees fd (some ch) k = (ch.fd ≡ fd) × AgreesAt ch.idx ch.listen k

pub IsSound : Poller → Type 0
IsSound p = (j : ℕ) → Agrees j (p.channels j) (p.watched j)

put_self : {A : Type 0} (k : ℕ) (v : Option A) (m : ℕ → Option A) → put k v m k ≡ v
unfolding put
put_self k v m = ground arith

put_other :
    {A : Type 0} (k j : ℕ) (v : Option A) (m : ℕ → Option A) → (k == j) ≡ false → put k v m j ≡ m j
unfolding put
put_other k j v m h = rw h refl

-- An update leaves the other descriptors alone.
update-IsSound :
    (op : Control) (ch : Channel) (p : Poller)
    → IsSound p
    → Agrees ch.fd (some ch) (control op (event_of ch.listen) (p.watched ch.fd))
    → IsSound (update op ch p)
unfolding update IsSound
update-IsSound op ch p s h j = elim (Bool-cases (ch.fd == j)) [
  | inl t ↦
      let e : ch.fd ≡ j = ground arith in
      subst
        (λ i.
          Agrees i (put ch.fd (some ch) p.channels i)
            (put ch.fd (control op (event_of ch.listen) (p.watched ch.fd)) p.watched i))
        e
        (rw
          (
            put_self ch.fd (some ch) p.channels,
            put_self ch.fd (control op (event_of ch.listen) (p.watched ch.fd)) p.watched,
          )
          h)
  | inr f ↦
      rw
        (
          put_other ch.fd j (some ch) p.channels f,
          put_other ch.fd j (control op (event_of ch.listen) (p.watched ch.fd)) p.watched f,
        )
        (s j)
]

watched_new : (r : Registered) (k : Option Registered) → k ≡ none → control ctl_add r k ≡ some r
unfolding control
watched_new r k h = ap (control ctl_add r) h

watched_changed :
    (r old : Registered) (k : Option Registered) → k ≡ some old → control ctl_mod r k ≡ some r
unfolding control
watched_changed r old k h = ap (control ctl_mod r) h

watched_no_more : (r : Registered) (k : Option Registered) → control ctl_del r k ≡ none
unfolding control
watched_no_more r k = refl

either : (t : Bool) (p q : Poller) → IsSound p → IsSound q → IsSound (if t then p else q)
either true p q h k = h
either false p q h k = k

-- Whatever the channel listened to before.
update_known-IsSound :
    (i : Index) (before : Interest) (ch : Channel) (p : Poller)
    → IsSound p
    → ch.idx ≡ i
    → AgreesAt i before (p.watched ch.fd)
    → IsSound (update_known i ch p)
unfolding update_known
update_known-IsSound ch_extern before ch p s e h = elim h [ ]
update_known-IsSound ch_deleted before ch p s e h =
    update-IsSound ctl_add (record ch { idx = ch_added }) p s
      (
        refl,
        (
          event_of ch.listen,
          watched_new (event_of ch.listen) (p.watched ch.fd) h,
          event_of-Told ch.listen,
        ),
      )
update_known-IsSound ch_added before ch p s e h =
    either (is_none_event ch.listen) _ _
      (update-IsSound ctl_del (record ch { idx = ch_deleted; tied = false }) p s
        (refl, watched_no_more (event_of ch.listen) (p.watched ch.fd)))
      (update-IsSound ctl_mod ch p s (
        refl,
        subst (λ i. AgreesAt i ch.listen (control ctl_mod (event_of ch.listen) (p.watched ch.fd)))
            (sym e)
            (
              event_of ch.listen,
              watched_changed (event_of ch.listen) h.0 (p.watched ch.fd) h.1,
              event_of-Told ch.listen,
            ),
      ))

-- The operations of a channel keep its descriptor and its mark.
change_keeps :
    (op : Op) (ch : Channel) → ((change op ch).fd ≡ ch.fd) × ((change op ch).idx ≡ ch.idx)
unfolding change
change_keeps enable_read ch = (refl, refl)
change_keeps enable_write ch = (refl, refl)
change_keeps disable_read ch = (refl, refl)
change_keeps disable_write ch = (refl, refl)
change_keeps disable_all ch = (refl, refl)

update_channel_ok :
    (ch : Channel) (old : Channel) (p : Poller)
    → p.channels ch.fd ≡ some old
    → is_extern ch.idx ≡ false
    → update_channel ch p ≡ ok (update_known ch.idx ch p)
unfolding update_channel
update_channel_ok ch old p e x = rw (e, x) refl

not_extern :
    (i : Index) (l : Interest) (k : Option Registered) → AgreesAt i l k → is_extern i ≡ false
unfolding is_extern
not_extern ch_extern l k h = elim h [ ]
not_extern ch_added l k h = refl
not_extern ch_deleted l k h = refl

-- An operation on a channel of the loop returns and keeps the agreement.
apply-IsSound :
    (op : Op) (fd : ℕ) (p : Poller) (ch : Channel)
    → IsSound p
    → p.channels fd ≡ some ch
    → (p' : Poller) × (apply op fd p ≡ ok p') × IsSound p'
unfolding apply apply_to IsSound
apply-IsSound op fd p ch s e =
    let (same_fd, agrees) = subst (λ o. Agrees fd o (p.watched fd)) e (s fd) in
    let (f, i) = change_keeps op ch in
    let here : (change op ch).fd ≡ fd = f ∙ same_fd in
    let there : p.channels (change op ch).fd ≡ some ch = ap p.channels here ∙ e in
    let ext : is_extern (change op ch).idx ≡ false =
      ap is_extern i ∙ not_extern ch.idx ch.listen (p.watched fd) agrees in
    let at : AgreesAt (change op ch).idx ch.listen (p.watched (change op ch).fd) =
      subst (λ x. AgreesAt x ch.listen (p.watched (change op ch).fd)) (sym i)
        (subst (λ x. AgreesAt ch.idx ch.listen (p.watched x)) (sym here) agrees) in
    (
      update_known (change op ch).idx (change op ch) p,
      ap (λ o. apply_to o op p) e ∙ update_channel_ok (change op ch) ch p there ext,
      update_known-IsSound (change op ch).idx ch.listen (change op ch) p s refl at,
    )

new_channel-IsSound :
    (fd : ℕ) (p : Poller)
    → IsSound p
    → p.watched fd ≡ none
    → IsSound (record p { channels = put fd (some (new_channel fd)) p.channels })
unfolding IsSound new_channel
new_channel-IsSound fd p s h j = elim (Bool-cases (fd == j)) [
  | inl t ↦
      let e : fd ≡ j = ground arith in
      subst (λ i. Agrees i (put fd (some (new_channel fd)) p.channels i) (p.watched i)) e
        (rw (put_self fd (some (new_channel fd)) p.channels) (refl, h))
  | inr f ↦ rw (put_other fd j (some (new_channel fd)) p.channels f) (s j)
]

add_to_lem :
    (o : Option Channel) (fd : ℕ) (p : Poller)
    → IsSound p
    → p.channels fd ≡ o
    → IsSound (add_to o fd p) × ((ch : Channel) × ((add_to o fd p).channels fd ≡ some ch))
unfolding add_to IsSound
add_to_lem none fd p s e = (
  new_channel-IsSound fd p s (subst (λ o. Agrees fd o (p.watched fd)) e (s fd)),
  (new_channel fd, put_self fd (some (new_channel fd)) p.channels),
)
add_to_lem (some ch) fd p s e = (s, (ch, e))

add_channel_lem :
    (fd : ℕ) (p : Poller)
    → IsSound p
    → IsSound (add_channel fd p) × ((ch : Channel) × ((add_channel fd p).channels fd ≡ some ch))
unfolding add_channel
add_channel_lem fd p s = add_to_lem (p.channels fd) fd p s refl

-- What users of a loop do with descriptors: `add_channel`, which finds a channel that is there, and an
-- operation on the channel.
pub use_all : List (Op × ℕ) → Poller → Outcome Poller
use_all [] p = ok p
use_all (u ∷ us) p = apply u.0 u.1 (add_channel u.1 p) >>= λ p'. use_all us p'

abbrev pub no_channels : Poller
no_channels = record { channels = λ j. none; watched = λ j. none }

use_all_lem :
    (us : List (Op × ℕ)) (p : Poller)
    → IsSound p
    → (p' : Poller) × (use_all us p ≡ ok p') × IsSound p'
unfolding use_all
use_all_lem [] p s = (p, refl, s)
use_all_lem (u ∷ us) p s =
    let (s1, (ch, c)) = add_channel_lem u.1 p s in
    let (p2, e2, s2) = apply-IsSound u.0 u.1 (add_channel u.1 p) ch s1 c in
    let (p', e, s') = use_all_lem us p2 s2 in (p', rw (e2, e) refl, s')

-- Whatever users enable and disable, on whichever descriptors and in whichever order, no call faults,
-- and in the end the kernel watches a descriptor exactly if its channel is marked as added. It was then
-- told the events that the channel listens to, with EPOLLET and EPOLLRDHUP; where a channel listens to
-- none, it was told the `ev` of `Epoller::update` that nobody set.
pub use_all-Agrees :
    (us : List (Op × ℕ))
    → (p : Poller) × (use_all us no_channels ≡ ok p)
      × ((j : ℕ) → Agrees j (p.channels j) (p.watched j))
unfolding IsSound
use_all-Agrees us = use_all_lem us no_channels (λ j. refl)
