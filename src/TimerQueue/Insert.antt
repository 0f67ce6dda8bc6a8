-- ===== src/TimerQueue/Insert.antt =====
-- `insert`, `addTimerInLoop` and `cancelTimerInLoop` of src/Timers/TimerQueue.cpp: the map of
-- active timers.
use learning_network.Prelude.{
  ℕ, suc, ◌<◌, ◌≡◌, ◌≢◌, refl, ap, ◌∙◌, arith, true, false, Bool, List, [], ◌∷◌, none, some, ltb,
  leb, ◌==◌, if◌then◌else◌, ok, lookup, insert as map_insert, erase, Ascending, insert-Ascending,
  erase-Ascending, lookup_below, lookup-insert, lookup-erase, Bool-cases, inl, inr,
}
use learning_network.TimerQueue.{
  SameTimeTimers, TimerQueue, insert, insert_old, insert_new, begin_first, put_rest,
  cancel_timer_in_loop, add_timer_in_loop,
}

-- The map is ordered by time.
abbrev IsOrdered : TimerQueue → Type 0
IsOrdered q = Ascending 0 q.active_timers

-- Whether a key is the first of the map once it is in it.
abbrev is_first : ℕ → List (ℕ × SameTimeTimers) → Bool
is_first k [] = true
is_first k ((j, ts) ∷ m) = leb k j

begin_insert :
    (q : TimerQueue) (k : ℕ) (v : SameTimeTimers) (m : List (ℕ × SameTimeTimers))
    → (first : ℕ) × (begin_first (record q { active_timers = map_insert k v m }) ≡ ok first)
      × (leb k first ≡ is_first k m)
unfolding begin_first map_insert
begin_insert q k v [] = (k, refl, ground arith)
begin_insert q k v ((j, ts) ∷ m) = elim (Bool-cases (ltb k j)) [
  | inl less ↦ (k, rw less, ground arith)
  | inr more ↦ (j, ground arith, refl)
]

abbrev added : ℕ → Bool → ℕ → TimerQueue → TimerQueue
added p o k q = record q { active_timers = map_insert k ((p, o) ∷ []) q.active_timers }

insert_new_lem :
    (p : ℕ) (o : Bool) (k : ℕ) (q : TimerQueue)
    → insert_new q p k o ≡ ok (added p o k q, is_first k q.active_timers)
unfolding insert_new
insert_new_lem p o k q =
    let (first, e, c) = begin_insert q k ((p, o) ∷ []) q.active_timers in
    rw e (ap (λ b. ok (added p o k q, b)) c)

insert-eq-new :
    (p : ℕ) (o : Bool) (q : TimerQueue)
    → lookup (q.timers p).trigger_time q.active_timers ≡ none
    → insert p o q ≡ insert_new q p (q.timers p).trigger_time o
unfolding insert
insert-eq-new p o q h = rw (h, insert)

is_first-true :
    (k : ℕ) (m : List (ℕ × SameTimeTimers))
    → Ascending 0 m
    → is_first k m ≡ true
    → (j : ℕ) → j < k
    → lookup j m ≡ none
unfolding lookup
is_first-true k [] a e j h = refl
is_first-true k ((i, ts) ∷ m) a e j h = ground (arith, lookup_below j (suc i) m a.1)

is_first-false :
    (k : ℕ) (m : List (ℕ × SameTimeTimers))
    → is_first k m ≡ false
    → (j : ℕ) × (j < k) × (lookup j m ≢ none)
unfolding lookup
is_first-false k [] e = absurd (cc)
is_first-false k ((i, ts) ∷ m) e = (i, ground arith, ground arith)

-- A timer whose time no active timer has becomes active, under that time and alone; all other
-- times keep their timers, the map stays ordered, and the answer, on which the descriptor is armed
-- anew, is true exactly when no active timer is due earlier.
insert_new_time :
    (p : ℕ) (o : Bool) (q : TimerQueue)
    → IsOrdered q
    → lookup (q.timers p).trigger_time q.active_timers ≡ none
    → (q' : TimerQueue) × (b : Bool) × (insert p o q ≡ ok (q', b))
      × IsOrdered q'
      × ((j : ℕ)
          → lookup j q'.active_timers ≡ (
              if (q.timers p).trigger_time == j
              then some ((p, o) ∷ [])
              else lookup j q.active_timers))
      × (b ≡ true → (j : ℕ) → j < (q.timers p).trigger_time → lookup j q.active_timers ≡ none)
      × (b ≡ false → (j : ℕ) × (j < (q.timers p).trigger_time) × (lookup j q.active_timers ≢ none))
insert_new_time p o q a h =
    let k = (q.timers p).trigger_time in
    (
      added p o k q,
      is_first k q.active_timers,
      insert-eq-new p o q h ∙ insert_new_lem p o k q,
      insert-Ascending k 0 _ q.active_timers (omega arith) a,
      λ j. lookup-insert k j ((p, o) ∷ []) q.active_timers,
      is_first-true k q.active_timers a,
      is_first-false k q.active_timers,
    )

begin_le :
    (q : TimerQueue) (k : ℕ) (m : List (ℕ × SameTimeTimers)) {ts : SameTimeTimers}
    → Ascending 0 m
    → lookup k m ≡ some ts
    → (first : ℕ) × (begin_first (record q { active_timers = m }) ≡ ok first)
      × (ltb k first ≡ false)
unfolding begin_first lookup
begin_le q k [] a e = absurd (cc)
begin_le q k ((j, ts') ∷ m) a e = (j, refl, ground (arith, lookup_below k (suc j) m a.1))

insert_old_lem :
    (p : ℕ) (o : Bool) (k : ℕ) (q : TimerQueue) (ts : SameTimeTimers)
    → IsOrdered q
    → lookup k q.active_timers ≡ some ts
    → lookup p ts ≡ none
    → insert_old q p k o ts ≡ ok (q, false)
unfolding insert_old
insert_old_lem p o k q ts a e e' =
    let (first, b, c) = begin_le q k q.active_timers a e in
    rw (e', insert_old, b) (ap (λ x. ok (q, x)) c)

insert-eq-old :
    (p : ℕ) (o : Bool) (q : TimerQueue) (ts : SameTimeTimers)
    → lookup (q.timers p).trigger_time q.active_timers ≡ some ts
    → insert p o q ≡ insert_old q p (q.timers p).trigger_time o ts
unfolding insert
insert-eq-old p o q ts h = rw (h, insert)

-- A timer whose time an active timer has already is lost: adding it succeeds, but the queue is what
-- it was, and the descriptor is not armed anew.
add_same_time :
    (t p : ℕ) (o : Bool) (q : TimerQueue) (ts : SameTimeTimers)
    → IsOrdered q
    → lookup (q.timers p).trigger_time q.active_timers ≡ some ts
    → lookup p ts ≡ none
    → add_timer_in_loop t p o q ≡ ok q
unfolding add_timer_in_loop
add_same_time t p o q ts a e e' =
    rw (insert-eq-old p o q ts e ∙ insert_old_lem p o (q.timers p).trigger_time q ts a e e')

abbrev Cancelled : TimerQueue → TimerQueue → ℕ → SameTimeTimers → Type 0
Cancelled q q' k rest =
    IsOrdered q'
    × ((j : ℕ) → j ≢ k → lookup j q'.active_timers ≡ lookup j q.active_timers)
    × (rest ≡ [] → lookup k q'.active_timers ≡ none)
    × (rest ≢ [] → lookup k q'.active_timers ≡ some rest)

put_rest_lem :
    (q : TimerQueue) (k : ℕ) (rest : SameTimeTimers)
    → IsOrdered q
    → Cancelled q (put_rest q k rest) k rest
unfolding put_rest
put_rest_lem q k [] a = (
  erase-Ascending k 0 q.active_timers a,
  λ j ne. ground (arith, lookup-erase k j 0 q.active_timers a),
  λ _. ground (arith, lookup-erase k k 0 q.active_timers a),
  λ ne. absurd (ne refl),
)
put_rest_lem q k (x ∷ rest) a = (
  insert-Ascending k 0 (x ∷ rest) q.active_timers (omega arith) a,
  λ j ne. ground (arith, lookup-insert k j (x ∷ rest) q.active_timers),
  λ e. absurd (cc),
  λ _. ground (arith, lookup-insert k k (x ∷ rest) q.active_timers),
)

cancel-put_rest :
    (p : ℕ) (o : Bool) (q : TimerQueue) (ts : SameTimeTimers)
    → lookup (q.timers p).trigger_time q.active_timers ≡ some ts
    → (cancel_timer_in_loop p o q).active_timers
      ≡ (put_rest q (q.timers p).trigger_time (erase p ts)).active_timers
unfolding cancel_timer_in_loop
cancel-put_rest p true q ts h = rw (h, cancel_timer_in_loop)
cancel-put_rest p false q ts h = rw (h, cancel_timer_in_loop)

-- A cancelled timer is no longer among those of its time, which goes when it was the last; every
-- other time keeps its timers, and the map stays ordered.
cancel_timer_lem :
    (p : ℕ) (o : Bool) (q : TimerQueue) (ts : SameTimeTimers)
    → IsOrdered q
    → lookup (q.timers p).trigger_time q.active_timers ≡ some ts
    → IsOrdered (cancel_timer_in_loop p o q)
      × ((j : ℕ)
          → j ≢ (q.timers p).trigger_time
          → lookup j (cancel_timer_in_loop p o q).active_timers ≡ lookup j q.active_timers)
      × (erase p ts ≡ []
          → lookup (q.timers p).trigger_time (cancel_timer_in_loop p o q).active_timers ≡ none)
      × (erase p ts ≢ []
          → lookup (q.timers p).trigger_time (cancel_timer_in_loop p o q).active_timers
            ≡ some (erase p ts))
cancel_timer_lem p o q ts a h =
    rw (cancel-put_rest p o q ts h) (put_rest_lem q (q.timers p).trigger_time (erase p ts) a)
