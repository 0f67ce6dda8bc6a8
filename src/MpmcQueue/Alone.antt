-- ===== src/MpmcQueue/Alone.antt =====
-- A call of src/helpers/queue.h that runs by itself from some moment on.
use learning_network.Prelude.{
  ℕ, zero, suc, ◌+◌, ◌%◌, ◌^◌, ◌≤◌, ◌<◌, ◌≡◌, ◌⊎◌, inl, inr, refl, sym, ◌∙◌, ap, subst, arith, ◌==◌,
  ==_refl, Bool, true, false, List, [], ◌∷◌, ◌++◌, length, replicate, assign_self, add64,
}
use learning_network.MpmcQueue.{
  Ring, World, exec, history, access, is_behind, Pc, push_start, push_at, push_swap, push_store,
  pushed, push_full, pop_start, pop_at, pop_swap, pop_read, popped, pop_empty,
}
use learning_network.MpmcQueue.Slots.{round_slot}
use learning_network.MpmcQueue.Invariant.{IsSound}
use learning_network.MpmcQueue.Refine.{add64-suc}
use learning_network.MpmcQueue.Runs.{
  Call, try_push, try_pop, begin, start, Returned, reached-IsSound,
}

is_behind_lem : (seq pos : ℕ) → seq < pos → pos < 2 ^ 63 → is_behind seq pos ≡ true
is_behind_lem seq pos h k = ground arith

not_same : (seq pos : ℕ) → seq < pos → (seq == pos) ≡ false
not_same seq pos h = ground arith

below_top : (a b : ℕ) → a ≤ b → (a < b) ⊎ (a ≡ b)
below_top a b h = ground arith

module _ {ℓ} {A : Type ℓ} (n : ℕ) where
  -- `k` accesses of one call.
  solo : ℕ → Ring A → Pc A → Pc A
  solo zero q pc = pc
  solo (suc k) q pc = let r = access n false q pc in solo k r.0 r.1

  history-replicate :
      (k i : ℕ) (w : World A)
      → (history n (replicate k (i, false)) w).threads i ≡ solo k w.ring (w.threads i)
  unfolding history exec solo
  history-replicate zero i w = refl
  history-replicate (suc k) i w =
      let r = access n false w.ring (w.threads i) in
      history-replicate k i (exec n (i, false) w) ∙ ap (solo k r.0) (assign_self i r.1 w.threads)

  push_at_free :
      (q : Ring A) (v : A) (p : ℕ)
      → q.sequence (p % n) ≡ p
      → access n false q (push_at v p) ≡ (q, push_swap v p)
  unfolding access
  push_at_free q v p e = rw (e, ==_refl p) refl

  push_at_behind :
      (q : Ring A) (v : A) (p : ℕ)
      → q.sequence (p % n) < p
      → p < 2 ^ 63
      → access n false q (push_at v p) ≡ (q, push_full v)
  unfolding access
  push_at_behind q v p h k =
      rw (not_same (q.sequence (p % n)) p h, is_behind_lem (q.sequence (p % n)) p h k) refl

  push_swap_alone :
      (q : Ring A) (v : A)
      → access n false q (push_swap v q.tail_pos)
        ≡ (record q { tail_pos = add64 q.tail_pos 1 }, push_store v q.tail_pos)
  unfolding access
  push_swap_alone q v = rw (==_refl q.tail_pos) refl

  -- The node of the tail.
  tail_seq :
      (log : ℕ → A) (q : Ring A) (th : ℕ → Pc A)
      → IsSound n log q th
      → (q.sequence (q.tail_pos % n) ≡ q.tail_pos) ⊎ (q.sequence (q.tail_pos % n) < q.tail_pos)
  tail_seq log q th s = elim (below_top q.tail_pos (q.head_pos + n) s.room) [
    | inl h ↦ elim (s.free q.tail_pos (omega arith) h) [
      | inl e ↦ inl e
      | inr e ↦ inr (omega (arith, e, s.two))
    ]
    | inr e ↦ inr (
        subst (λ x. q.sequence x < q.tail_pos) (sym (ap (λ x. x % n) e ∙ round_slot n q.head_pos))
          (elim (s.filled q.head_pos (omega arith) (omega (arith, e, s.two))) [
            | inl c ↦ omega (arith, c, e, s.two)
            | inr (c, _) ↦ omega (arith, c, e, s.two)
          ]))
  ]

  push_solo :
      (log : ℕ → A) (q : Ring A) (th : ℕ → Pc A) (v : A)
      → IsSound n log q th
      → (solo 5 q (push_start v) ≡ pushed) ⊎ (solo 5 q (push_start v) ≡ push_full v)
  unfolding solo access
  push_solo log q th v s = elim (tail_seq log q th s) [
    | inl e ↦ inl (
        ap (λ r. solo 3 r.0 r.1) (push_at_free q v q.tail_pos e)
        ∙ ap (λ r. solo 2 r.0 r.1) (push_swap_alone q v))
    | inr h ↦
        inr (ap (λ r. solo 3 r.0 r.1) (push_at_behind q v q.tail_pos h (omega (arith, s.few))))
  ]

  pop_at_filled :
      (q : Ring A) (p : ℕ)
      → q.sequence (p % n) ≡ add64 p 1
      → access n false q (pop_at p) ≡ (q, pop_swap p)
  unfolding access
  pop_at_filled q p e = rw (e, ==_refl (add64 p 1)) refl

  pop_at_behind :
      (q : Ring A) (p : ℕ)
      → q.sequence (p % n) < add64 p 1
      → add64 p 1 < 2 ^ 63
      → access n false q (pop_at p) ≡ (q, pop_empty)
  unfolding access
  pop_at_behind q p h k =
      rw
        (
          not_same (q.sequence (p % n)) (add64 p 1) h,
          is_behind_lem (q.sequence (p % n)) (add64 p 1) h k,
        )
        refl

  pop_swap_alone :
      (q : Ring A)
      → access n false q (pop_swap q.head_pos)
        ≡ (record q { head_pos = add64 q.head_pos 1 }, pop_read q.head_pos)
  unfolding access
  pop_swap_alone q = rw (==_refl q.head_pos) refl

  -- The node of the head.
  head_seq :
      (log : ℕ → A) (q : Ring A) (th : ℕ → Pc A)
      → IsSound n log q th
      → (q.sequence (q.head_pos % n) ≡ add64 q.head_pos 1)
        ⊎ (q.sequence (q.head_pos % n) < add64 q.head_pos 1)
  head_seq log q th s =
      rw (add64-suc q.head_pos (omega (arith, s.few, s.ordered)))
        (elim (below_top q.head_pos q.tail_pos s.ordered) [
          | inl h ↦ elim (s.filled q.head_pos (omega arith) h) [
            | inl c ↦ inr (omega (arith, c))
            | inr (c, _) ↦ inl c
          ]
          | inr e ↦ elim (s.free q.head_pos (omega (arith, e)) (omega (arith, s.two))) [
            | inl c ↦ inr (omega (arith, c))
            | inr c ↦ inr (omega (arith, c, s.two))
          ]
        ])

  pop_solo :
      (log : ℕ → A) (q : Ring A) (th : ℕ → Pc A)
      → IsSound n log q th
      → ((x : A) × (solo 5 q pop_start ≡ popped x)) ⊎ (solo 5 q pop_start ≡ pop_empty)
  unfolding solo access
  pop_solo log q th s = elim (head_seq log q th s) [
    | inl e ↦ inl (
      _,
      ap (λ r. solo 3 r.0 r.1) (pop_at_filled q q.head_pos e)
          ∙ ap (λ r. solo 2 r.0 r.1) (pop_swap_alone q),
    )
    | inr h ↦ inr (
        ap (λ r. solo 3 r.0 r.1)
          (pop_at_behind q q.head_pos h (
            omega (
              arith,
              add64-suc q.head_pos (omega (arith, s.few, s.ordered)),
              s.few,
              s.ordered,
              s.two,
            ))))
  ]

  solo_returns :
      (log : ℕ → A) (q : Ring A) (th : ℕ → Pc A) (c : Call A)
      → IsSound n log q th
      → Returned c (solo 5 q (begin c))
  solo_returns log q th (try_push v) s = push_solo log q th v s
  solo_returns log q th try_pop s = pop_solo log q th s

  history-append :
      (es fs : List (ℕ × Bool)) (w : World A)
      → history n (es ++ fs) w ≡ history n fs (history n es w)
  unfolding history
  history-append [] fs w = refl
  history-append (e ∷ es) fs w = history-append es fs (exec n e w)

  -- Whatever the other calls have done and wherever they stopped, a call that has not begun and then
  -- runs by itself, with no spurious failure, returns within five accesses: a push with success or
  -- with "full", a pop with an element or with "empty". The ring has at least two nodes, and the
  -- history before is not so long that a position passes 2^63.
  pub alone_returns :
      (blank : A) (calls : ℕ → Call A) (es : List (ℕ × Bool)) (i : ℕ)
      → 2 ≤ n
      → length es + n < 2 ^ 63
      → (history n es (start blank calls)).threads i ≡ begin (calls i)
      → Returned
          (calls i)
          ((history n (es ++ replicate 5 (i, false)) (start blank calls)).threads i)
  alone_returns blank calls es i two few e =
      let w = history n es (start blank calls) in
      let (log, sound) = reached-IsSound n blank calls es two few in
      subst (Returned (calls i))
        (sym (
          ap (λ w'. w'.threads i) (history-append es (replicate 5 (i, false)) (start blank calls))
          ∙ history-replicate 5 i w
          ∙ ap (solo 5 w.ring) e))
        (solo_returns log w.ring w.threads (calls i) sound)
