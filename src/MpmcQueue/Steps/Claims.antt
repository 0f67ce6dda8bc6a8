-- ===== src/MpmcQueue/Steps/Claims.antt =====
-- The compare-and-swaps of src/helpers/queue.h that succeed: a position is claimed.
use learning_network.Prelude.{
  ℕ, suc, ◌+◌, ◌%◌, ◌^◌, ◌≤◌, ◌<◌, ◌≡◌, ◌≢◌, ◌⊎◌, inl, inr, refl, sym, ◌∙◌, subst, ap, arith, Bool,
  true, false, assign, assign_self, assign_other, assign_intro,
}
use learning_network.MpmcQueue.{
  Ring, Pc, push_swap, push_store, push_publish, pop_swap, pop_read, pop_release,
}
use learning_network.MpmcQueue.Slots.{round_slot}
use learning_network.MpmcQueue.Invariant.{Owns, PcOk, IsFilled, IsSound, assign-IsUnique}
use learning_network.MpmcQueue.Frame.{same_node, Keeps}
use learning_network.MpmcQueue.Steps.Stores.{go-PcOk}

last_or_below : (r b : ℕ) → r < suc b → (r < b) ⊎ (r ≡ b)
last_or_below r b h = ground arith

module _ {ℓ} {A : Type ℓ} (n : ℕ) where
  claim-Owns :
      (th : ℕ → Pc A) (log : ℕ → A) (q : Ring A) (i : ℕ) (v : A)
      → ((j : ℕ) → PcOk n log q (th j))
      → (k : Bool) (r : ℕ) → Owns k (push_store v q.tail_pos) r
      → Owns k (th i) r ⊎ ((j : ℕ) → Owns k (th j) r → ⊥)
  claim-Owns th log q i v h true r o =
      inr (λ j x. owner_below (th j) (h j) (subst (λ y. Owns true (th j) y) (sym o) x))
    where
      owner_below : (c : Pc A) → PcOk n log q c → Owns true c q.tail_pos → ⊥
      owner_below (push_store w p) (a, b, c, d) e = omega (arith, b, e)
      owner_below (push_publish p) (a, b, c, d) e = omega (arith, b, e)
      owner_below c h e = absurd e
  claim-Owns th log q i v h false r o = absurd o

  -- `try_push` claims the tail.
  pub claim-IsSound :
      (log : ℕ → A) (q : Ring A) (i : ℕ) (v : A) (th : ℕ → Pc A)
      → IsSound n log q th
      → th i ≡ push_swap v q.tail_pos
      → suc q.tail_pos + n < 2 ^ 63
      → IsSound n
          (assign q.tail_pos v log)
          (record q { tail_pos = suc q.tail_pos })
          (assign i (push_store v q.tail_pos) th)
  claim-IsSound log q i v th s at_i small =
      let q' = record q { tail_pos = suc q.tail_pos } in
      let log' = assign q.tail_pos v log in
      let (_, _, known) : PcOk n log q (push_swap v q.tail_pos) =
        subst (λ c. PcOk n log q c) at_i (s.places i) in
      let seq : q.sequence (q.tail_pos % n) ≡ q.tail_pos = known refl in
      let older : (r : ℕ) → r < q.tail_pos → log' r ≡ log r =
        λ r h. assign_other q.tail_pos r v log (λ e. absurd (omega (arith, h, e))) in
      let distinct : (r : ℕ) → q.sequence (r % n) ≡ suc r → q.tail_pos ≢ r + n = λ r c e. absurd (
        omega (
          arith,
          s.two,
          e,
          same_node n q.sequence q.tail_pos r seq c (ap (λ y. y % n) e ∙ round_slot n r),
        )) in
      let not_full : q.tail_pos ≢ q.head_pos + n = λ e.
        elim (s.filled q.head_pos (omega arith) (omega (arith, e, s.two))) [
          | inl c ↦ absurd (
              omega (
                arith,
                s.two,
                e,
                same_node n q.sequence q.tail_pos q.head_pos seq c
                    (ap (λ y. y % n) e ∙ round_slot n q.head_pos),
              ))
          | inr (c, _) ↦ distinct q.head_pos c e
        ] in
      let others : (j : ℕ) → i ≢ j → Keeps n log log' q q' (th j) = λ j ne. record {
        heads = omega arith;
        tails = omega arith;
        claims = λ r own a b c. (a, c, older r b, λ d _. d);
        reads = λ r own a b c.
            (omega (arith, b, distinct r c), c, older r (omega (arith, a, s.ordered)), λ d. d);
        tail_node = λ e. absurd (omega (arith, e));
        head_node = λ _ c. c;
      } in
      let filled' : (r : ℕ) → q.head_pos ≤ r → r < suc q.tail_pos → IsFilled n log' q' r = λ r a b.
        assign_intro
          (λ y. (q.sequence (r % n) ≡ r) ⊎ ((q.sequence (r % n) ≡ suc r) × (q.item (r % n) ≡ y)))
          q.tail_pos r v log (λ e. inl (subst (λ y. q.sequence (y % n) ≡ y) e seq))
          (λ e. s.filled r a (omega (arith, b, e))) in
      record {
        two = s.two;
        few = small;
        ordered = omega (arith, s.ordered);
        room = omega (arith, s.room, not_full);
        filled = filled';
        free = λ r a b. s.free r (omega (arith, a)) b;
        places =
            go-PcOk n log log' q q' i (push_store v q.tail_pos) th s.places
              (s.ordered, omega arith, seq, assign_self q.tail_pos v log) others;
        unique =
            assign-IsUnique i (push_store v q.tail_pos) th s.unique
              (claim-Owns th log q i v s.places);
      }

  take-Owns :
      (th : ℕ → Pc A) (log : ℕ → A) (q : Ring A)
      → ((j : ℕ) → PcOk n log q (th j))
      → (i : ℕ) (k : Bool) (r : ℕ) → Owns {A = A} k (pop_read q.head_pos) r
      → Owns k (th i) r ⊎ ((j : ℕ) → Owns k (th j) r → ⊥)
  take-Owns th log q h i true r o = absurd o
  take-Owns th log q h i false r o =
      inr (λ j x. owner_below (th j) (h j) (subst (λ y. Owns false (th j) y) (sym o) x))
    where
      owner_below : (c : Pc A) → PcOk n log q c → Owns false c q.head_pos → ⊥
      owner_below (pop_read p) (a, b, c, d) e = omega (arith, a, e)
      owner_below (pop_release p x) (a, b, c, d) e = omega (arith, a, e)
      owner_below c h e = absurd e

  -- `try_pop` claims the head.
  pub take-IsSound :
      (log : ℕ → A) (q : Ring A) (i : ℕ) (th : ℕ → Pc A)
      → IsSound n log q th
      → th i ≡ pop_swap q.head_pos
      → (q.head_pos < q.tail_pos)
        × IsSound n log (record q { head_pos = suc q.head_pos }) (assign i (pop_read q.head_pos) th)
  take-IsSound log q i th s at_i =
      let q' = record q { head_pos = suc q.head_pos } in
      let (_, _, known) : PcOk n log q (pop_swap q.head_pos) =
        subst (λ c. PcOk n log q c) at_i (s.places i) in
      let seq : q.sequence (q.head_pos % n) ≡ suc q.head_pos = known refl in
      let nonempty : q.head_pos ≢ q.tail_pos = λ e.
        elim (s.free q.head_pos (omega (arith, e)) (omega (arith, s.two))) [
          | inl c ↦ omega (arith, c, seq)
          | inr c ↦ omega (arith, c, seq, s.two)
        ] in
      let not_head : (r : ℕ) → q.sequence (r % n) ≡ r → q.head_pos ≢ r =
        λ r c e. absurd (omega (arith, e, seq, c, ap (λ y. q.sequence (y % n)) e)) in
      let some_in : q.head_pos < q.tail_pos = omega (arith, nonempty, s.ordered) in
      let stored : q.item (q.head_pos % n) ≡ log q.head_pos =
        elim (s.filled q.head_pos (omega arith) some_in) [
          | inl c ↦ absurd (omega (arith, c, seq))
          | inr (_, d) ↦ d
        ] in
      let others : (j : ℕ) → i ≢ j → Keeps n log log q q' (th j) = λ j ne. record {
        heads = omega arith;
        tails = omega arith;
        claims = λ r own a b c. (omega (arith, a, not_head r c), c, refl, λ d _. d);
        reads = λ r own a b c. (b, c, refl, λ d. d);
        tail_node = λ _ c. c;
        head_node = λ e. absurd (omega (arith, e));
      } in
      (
        some_in,
        record {
          two = s.two;
          few = s.few;
          ordered = omega (arith, some_in);
          room = omega (arith, s.room);
          filled = λ r a b. s.filled r (omega (arith, a)) b;
          free = λ r a b. elim (last_or_below r (q.head_pos + n) (omega (arith, b))) [
            | inl h ↦ s.free r a h
            | inr e ↦
                inr (
                  omega
                    (arith, e, seq, ap q.sequence (ap (λ y. y % n) e ∙ round_slot n q.head_pos)))
          ];
          places =
              go-PcOk n log log q q' i (pop_read q.head_pos) th s.places
                (omega arith, s.room, seq, stored) others;
          unique =
              assign-IsUnique i (pop_read q.head_pos) th s.unique (take-Owns th log q s.places i);
        },
      )
