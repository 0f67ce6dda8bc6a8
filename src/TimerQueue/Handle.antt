-- ===== src/TimerQueue/Handle.antt =====
-- `handle_timers` and `reset` of src/Timers/TimerQueue.cpp, for callbacks that leave the queue alone.
use learning_network.Prelude.{
  ℕ, zero, suc, ◌-◌, ◌^◌, ◌≤◌, ◌≡◌, ◌≢◌, refl, ap, sym, ◌∙◌, arith, true, false, Bool, List, [],
  ◌∷◌, ◌++◌, Option, none, some, leb, if◌then◌else◌, Outcome, ok, fault, bad_access, lookup,
  Ascending, lookup_below, Bool-cases, inl, inr, length, append_assoc, append-nil, subst, erase,
  ◌==◌,
}
use learning_network.TimerQueue.{
  Timer, SameTimeTimers, TimerQueue, fire, fire_all, handle_loop, handle_timers, erase_begin, reset,
  reset_all, period_from_now, update_fd, cancel_timer_in_loop, put_rest,
}

abbrev pub names : SameTimeTimers → List ℕ
names [] = []
names ((p, o) ∷ ts) = p ∷ names ts

-- The timers of the map whose time has come, in the order of the map, and what is left of it.
unfoldable pub due : ℕ → List (ℕ × SameTimeTimers) → List ℕ
due now [] = []
due now ((k, ts) ∷ m) = if leb k now then names ts ++ due now m else []

unfoldable pub pending : ℕ → List (ℕ × SameTimeTimers) → List (ℕ × SameTimeTimers)
pending now [] = []
pending now ((k, ts) ∷ m) = if leb k now then pending now m else (k, ts) ∷ m

-- Those among the timers that repeat.
unfoldable pub repeating : (ℕ → Timer) → List ℕ → List ℕ
repeating heap [] = []
repeating heap (p ∷ ps) = if (heap p).repeat then p ∷ repeating heap ps else repeating heap ps

repeating-append :
    (heap : ℕ → Timer) (ps qs : List ℕ)
    → repeating heap (ps ++ qs) ≡ repeating heap ps ++ repeating heap qs
unfolding repeating
repeating-append heap [] qs = refl
repeating-append heap (p ∷ ps) qs = ground (arith, repeating-append heap ps qs)

-- In an ordered map the due timers are those of the times up to `now`.
lookup-pending :
    (now k lo : ℕ) (m : List (ℕ × SameTimeTimers))
    → Ascending lo m
    → lookup k (pending now m) ≡ (if leb k now then none else lookup k m)
unfolding lookup pending
lookup-pending now k lo [] a = ground arith
lookup-pending now k lo ((j, ts) ∷ m) a =
    ground (arith, lookup-pending now k (suc j) m a.1, lookup_below k (suc j) m a.1)

module _ (effect : ℕ → TimerQueue → TimerQueue)
    (quiet : (p : ℕ) (q : TimerQueue) → effect p q ≡ q) where
  -- What a pass over some timers leaves in the queue.
  record Fired (q : TimerQueue) (ps : List ℕ) (q' : TimerQueue) : Type 0 where
    same_heap : q'.timers ≡ q.timers
    same_fd : q'.armed ≡ q.armed
    calls : q'.fired ≡ q.fired ++ ps
    repeats : q'.triggered_timers ≡ q.triggered_timers ++ repeating q.timers ps

  fire-Fired :
      (x : ℕ × Bool) (q : TimerQueue)
      → Fired q (x.0 ∷ []) (fire effect x q) × ((fire effect x q).active_timers ≡ q.active_timers)
  unfolding fire repeating
  fire-Fired (p, o) q =
      rw (quiet p (record q { fired = q.fired ++ (p ∷ []) }))
        (ground (arith, append-nil q.triggered_timers))

  Fired-trans :
      (ps qs : List ℕ) (q r s : TimerQueue) → Fired q ps r → Fired r qs s → Fired q (ps ++ qs) s
  Fired-trans ps qs q r s f g = record {
    same_heap = g.same_heap ∙ f.same_heap;
    same_fd = g.same_fd ∙ f.same_fd;
    calls = g.calls ∙ ap (λ xs. xs ++ qs) f.calls ∙ append_assoc q.fired ps qs;
    repeats =
        g.repeats
        ∙ ap (λ heap. r.triggered_timers ++ repeating heap qs) f.same_heap
        ∙ ap (λ xs. xs ++ repeating q.timers qs) f.repeats
        ∙ append_assoc q.triggered_timers (repeating q.timers ps) (repeating q.timers qs)
        ∙ ap (◌++◌ q.triggered_timers) (sym (repeating-append q.timers ps qs));
  }

  Fired-none : (q : TimerQueue) → Fired q [] q
  unfolding repeating
  Fired-none q = record {
    same_heap = refl;
    same_fd = refl;
    calls = sym (append-nil q.fired);
    repeats = sym (append-nil q.triggered_timers);
  }

  fire_all-Fired :
      (ts : SameTimeTimers) (q : TimerQueue)
      → Fired q (names ts) (fire_all effect ts q)
        × ((fire_all effect ts q).active_timers ≡ q.active_timers)
  unfolding fire_all
  fire_all-Fired [] q = (Fired-none q, refl)
  fire_all-Fired ((p, o) ∷ ts) q =
      let here = fire-Fired (p, o) q in
      let rest = fire_all-Fired ts (fire effect (p, o) q) in
      (Fired-trans (p ∷ []) (names ts) q _ _ here.0 rest.0, rest.1 ∙ here.1)

  -- The queue after the first entry of the map was handled.
  abbrev stepped : SameTimeTimers → List (ℕ × SameTimeTimers) → TimerQueue → TimerQueue
  stepped ts m q = record (fire_all effect ts q) { active_timers = m }

  stepped-Fired :
      (ts : SameTimeTimers) (m : List (ℕ × SameTimeTimers)) (q : TimerQueue)
      → Fired q (names ts) (stepped ts m q)
  stepped-Fired ts m q =
      let f = (fire_all-Fired ts q).0 in
      record { same_heap = f.same_heap; same_fd = f.same_fd; calls = f.calls; repeats = f.repeats }

  step_done :
      (fuel now k : ℕ) (ts : SameTimeTimers) (m : List (ℕ × SameTimeTimers)) (q : TimerQueue)
      → q.active_timers ≡ (k, ts) ∷ m
      → leb k now ≡ false
      → handle_loop effect (suc fuel) now q ≡ some (ok q)
  unfolding handle_loop
  step_done fuel now k ts m q e l = simp (e, handle_loop, l)

  erase_lem :
      (x : ℕ × SameTimeTimers) (m : List (ℕ × SameTimeTimers)) (q : TimerQueue)
      → q.active_timers ≡ x ∷ m
      → erase_begin q ≡ ok (record q { active_timers = m })
  unfolding erase_begin
  erase_lem x m q e = simp (e, erase_begin)

  step_last :
      (fuel now k : ℕ) (ts : SameTimeTimers) (q : TimerQueue)
      → q.active_timers ≡ (k, ts) ∷ []
      → leb k now ≡ true
      → handle_loop effect (suc fuel) now q ≡ some (ok (stepped ts [] q))
  unfolding handle_loop
  step_last fuel now k ts q e l =
      simp (
        e,
        handle_loop,
        l,
        erase_lem (k, ts) [] (fire_all effect ts q) ((fire_all-Fired ts q).1 ∙ e),
      )

  step_more :
      (fuel now k : ℕ) (ts : SameTimeTimers) (y : ℕ × SameTimeTimers)
      (m : List (ℕ × SameTimeTimers)) (q : TimerQueue)
      → q.active_timers ≡ (k, ts) ∷ y ∷ m
      → leb k now ≡ true
      → handle_loop effect (suc fuel) now q ≡ handle_loop effect fuel now (stepped ts (y ∷ m) q)
  unfolding handle_loop
  step_more fuel now k ts y m q e l = simp (
    e,
    handle_loop,
    l,
    erase_lem (k, ts) (y ∷ m) (fire_all effect ts q) ((fire_all-Fired ts q).1 ∙ e),
  )

  -- What the loop of `handle_timers` leaves, from a map that is not empty.
  abbrev Handled : ℕ → TimerQueue → List (ℕ × SameTimeTimers) → Option (Outcome TimerQueue) → Type 0
  Handled now q m r =
      (q' : TimerQueue) × (r ≡ some (ok q'))
      × Fired q (due now m) q'
      × (q'.active_timers ≡ pending now m)

  handle_loop_lem :
      (fuel now : ℕ) (x : ℕ × SameTimeTimers) (m : List (ℕ × SameTimeTimers)) (q : TimerQueue)
      → q.active_timers ≡ x ∷ m
      → length (x ∷ m) ≤ fuel
      → Handled now q (x ∷ m) (handle_loop effect fuel now q)
  unfolding due pending
  handle_loop_lem zero now x m q e h = absurd (omega arith)
  handle_loop_lem (suc fuel) now (k, ts) [] q e h = elim (Bool-cases (leb k now)) [
    | inl l ↦ (
      stepped ts [] q,
      step_last fuel now k ts q e l,
      rw (l, append-nil (names ts)) (stepped-Fired ts [] q),
      rw l,
    )
    | inr l ↦ (q, step_done fuel now k ts [] q e l, rw l (Fired-none q), rw l e)
  ]
  handle_loop_lem (suc fuel) now (k, ts) (y ∷ m) q e h = elim (Bool-cases (leb k now)) [
    | inl l ↦
        let (q', e', f, a) =
          handle_loop_lem fuel now y m (stepped ts (y ∷ m) q) refl (omega arith) in
        (
          q',
          step_more fuel now k ts y m q e l ∙ e',
          rw l (Fired-trans (names ts) (due now (y ∷ m)) q _ q' (stepped-Fired ts (y ∷ m) q) f),
          rw l a,
        )
    | inr l ↦ (q, step_done fuel now k ts (y ∷ m) q e l, rw l (Fired-none q), rw l e)
  ]

  reset_lem :
      (t now : ℕ) (q : TimerQueue)
      → q.triggered_timers ≡ []
      → reset t now q ≡ ok (update_fd t (2 ^ 64 - 1) q)
  unfolding reset
  reset_lem t now q e = simp (e, reset_all)

  handled_reset :
      (fuel t now : ℕ) (q q' : TimerQueue)
      → handle_loop effect fuel now (record q { triggered_timers = [] }) ≡ some (ok q')
      → q'.triggered_timers ≡ []
      → handle_timers effect fuel t now q ≡ some (ok (update_fd t (2 ^ 64 - 1) q'))
  unfolding handle_timers
  handled_reset fuel t now q q' e f = rw (handle_timers, e, reset_lem t now q' f)

  loop_of_handler :
      (fuel now : ℕ) (q : TimerQueue)
      → q.active_timers ≢ []
      → length q.active_timers ≤ fuel
      → Handled now
          (record q { triggered_timers = [] })
          q.active_timers
          (handle_loop effect fuel now (record q { triggered_timers = [] }))
  loop_of_handler fuel now q ne h = go q.active_timers refl
    where
      go :
          (m : List (ℕ × SameTimeTimers))
          → q.active_timers ≡ m
          → Handled now
              (record q { triggered_timers = [] })
              q.active_timers
              (handle_loop effect fuel now (record q { triggered_timers = [] }))
      go [] e = absurd (ne e)
      go (x ∷ m) e =
          let (q', r, f, a) =
            handle_loop_lem fuel now x m (record q { triggered_timers = [] }) e
              (omega (arith, ap length e)) in
          (
            q',
            r,
            subst (λ l. Fired (record q { triggered_timers = [] }) (due now l) q') (sym e) f,
            a ∙ ap (pending now) (sym e),
          )

  -- For callbacks that leave the queue alone, when none of the timers that are due repeats: with an
  -- active timer and fuel for each time in the map, `handle_timers` returns. It has called exactly the
  -- timers that were due, those of an earlier time first, the others stay active, and the descriptor
  -- is armed for the last instant that a `uint64_t` can hold, whatever the next active timer's time is.
  pub handle_timers_lem :
      (fuel t now : ℕ) (q : TimerQueue)
      → q.active_timers ≢ []
      → length q.active_timers ≤ fuel
      → repeating q.timers (due now q.active_timers) ≡ []
      → (q' : TimerQueue) × (handle_timers effect fuel t now q ≡ some (ok q'))
        × (q'.fired ≡ q.fired ++ due now q.active_timers)
        × (q'.active_timers ≡ pending now q.active_timers)
        × (q'.armed ≡ some (period_from_now t (2 ^ 64 - 1)))
  unfolding update_fd
  handle_timers_lem fuel t now q ne h once =
      let (q', e, f, a) = loop_of_handler fuel now q ne h in
      (
        update_fd t (2 ^ 64 - 1) q',
        handled_reset fuel t now q q' e (f.repeats ∙ once),
        f.calls,
        a,
        refl,
      )

==_self : (k : ℕ) → (k == k) ≡ true
==_self k = ground arith

cancel_only :
    (p : ℕ) (o o' : Bool) (q : TimerQueue)
    → q.active_timers ≡ ((q.timers p).trigger_time, (p, o) ∷ []) ∷ []
    → ((cancel_timer_in_loop p o' q).active_timers ≡ [])
      × ((cancel_timer_in_loop p o' q).armed ≡ q.armed)
unfolding cancel_timer_in_loop put_rest lookup erase
cancel_only p o true q e = (
  simp (e, cancel_timer_in_loop, lookup, ==_self, erase),
  simp (e, cancel_timer_in_loop, lookup, ==_self, erase),
)
cancel_only p o false q e = (
  simp (e, cancel_timer_in_loop, lookup, ==_self, erase),
  simp (e, cancel_timer_in_loop, lookup, ==_self, erase),
)

-- With no active timer `handle_timers` reads the key of an element that is not there; so it does
-- when the descriptor, which `cancelTimer` leaves armed, fires after the only timer was cancelled.
handle_timers_after_cancel :
    (effect : ℕ → TimerQueue → TimerQueue) (fuel t now p : ℕ) (o o' : Bool) (q : TimerQueue)
    → q.active_timers ≡ ((q.timers p).trigger_time, (p, o) ∷ []) ∷ []
    → (handle_timers effect (suc fuel) t now (cancel_timer_in_loop p o' q)
        ≡ some (fault bad_access))
      × ((cancel_timer_in_loop p o' q).armed ≡ q.armed)
unfolding handle_timers handle_loop
handle_timers_after_cancel effect fuel t now p o o' q e =
    let c = cancel_only p o o' q e in (simp (c.0, handle_timers, handle_loop), c.1)
