-- ===== src/MpmcQueue/Steps/Stores.antt =====
-- The stores to a node of src/helpers/queue.h: of the element, and of the sequence number by
-- `try_push` and by `try_pop`.
use learning_network.Prelude.{
  ℕ, suc, ◌+◌, ◌%◌, ◌≡◌, ◌≢◌, ◌⊎◌, inl, inr, refl, sym, ◌∙◌, subst, ap, arith, Bool, true, false,
  assign, assign_self, assign_intro,
}
use learning_network.MpmcQueue.{Ring, Pc, push_store, push_publish, pushed, pop_release, popped}
use learning_network.MpmcQueue.Slots.{next_slot, round_slot}
use learning_network.MpmcQueue.Invariant.{Owns, PcOk, IsUnique, IsSound, assign-IsUnique}
use learning_network.MpmcQueue.Frame.{same_node, assign_keeps, Keeps, Keeps-PcOk}

publish-Owns {ℓ} :
    (A : Type ℓ) (p : ℕ) (k : Bool) (r : ℕ)
    → Owns {A = A} k pushed r
    → Owns {A = A} k (push_publish p) r
publish-Owns A p true r o = absurd o
publish-Owns A p false r o = o

module _ {ℓ} {A : Type ℓ} (n : ℕ) where
  -- Another thread owns other positions.
  pub apart :
      (th : ℕ → Pc A) (k : Bool) (i j p r : ℕ)
      → IsUnique th
      → Owns {A = A} k (th i) p
      → i ≢ j
      → Owns {A = A} k (th j) r
      → p ≢ r
  apart th k i j p r u a h b e = absurd (h (u k i j r (subst (λ x. Owns k (th i) x) e a) b))

  -- What every thread knows, once the one that moved knows it and the others keep it.
  pub go-PcOk :
      (log log' : ℕ → A) (q q' : Ring A) (i : ℕ) (pc : Pc A) (th : ℕ → Pc A)
      → ((j : ℕ) → PcOk n log q (th j))
      → PcOk n log' q' pc
      → ((j : ℕ) → i ≢ j → Keeps n log log' q q' (th j))
      → (j : ℕ) → PcOk n log' q' (assign i pc th j)
  go-PcOk log log' q q' i pc th h own k j =
      assign_intro (PcOk n log' q') i j pc th (λ _. own)
        (λ ne. Keeps-PcOk n log log' q q' (th j) (k j ne) (h j))

  -- A thread that claims nothing new.
  pub less-IsUnique :
      (i : ℕ) (c c' : Pc A) (th : ℕ → Pc A)
      → IsUnique th
      → th i ≡ c
      → ((k : Bool) (r : ℕ) → Owns {A = A} k c' r → Owns {A = A} k c r)
      → IsUnique (assign i c' th)
  less-IsUnique i c c' th u e f =
      assign-IsUnique i c' th u (λ k r o. inl (subst (λ x. Owns k x r) (sym e) (f k r o)))

  store-Owns :
      (v : A) (p : ℕ) (k : Bool) (r : ℕ)
      → Owns {A = A} k (push_publish p) r
      → Owns {A = A} k (push_store v p) r
  store-Owns v p true r o = o
  store-Owns v p false r o = o

  release-Owns :
      (p : ℕ) (x : A) (k : Bool) (r : ℕ)
      → Owns {A = A} k (popped x) r
      → Owns {A = A} k (pop_release p x) r
  release-Owns p x true r o = o
  release-Owns p x false r o = absurd o

  -- The element is stored.
  pub store-IsSound :
      (log : ℕ → A) (q : Ring A) (i : ℕ) (v : A) (p : ℕ) (th : ℕ → Pc A)
      → IsSound n log q th
      → th i ≡ push_store v p
      → IsSound n log (record q { item = assign (p % n) v q.item }) (assign i (push_publish p) th)
  store-IsSound log q i v p th s at_i =
      let q' = record q { item = assign (p % n) v q.item } in
      let (below, above, seq, logged) : PcOk n log q (push_store v p) =
        subst (λ c. PcOk n log q c) at_i (s.places i) in
      let owner : Owns true (th i) p = subst (λ c. Owns true c p) (sym at_i) refl in
      let others : (j : ℕ) → i ≢ j → Keeps n log log q q' (th j) = λ j ne. record {
        heads = omega arith;
        tails = omega arith;
        claims = λ r own a b c. (
          a,
          c,
          refl,
          λ d _. assign_keeps q.item d (λ e.
              absurd
                (apart th true i j p r s.unique owner ne own (same_node n q.sequence p r seq c e))),
        );
        reads = λ r own a b c. (
          b,
          c,
          refl,
          λ d. assign_keeps q.item d (λ e.
              absurd (
                next_slot n r s.two
                  (sym e ∙ ap (λ x. x % n) (same_node n q.sequence p r seq c e)))),
        );
        tail_node = λ _ e. e;
        head_node = λ _ e. e;
      } in
      record {
        two = s.two;
        few = s.few;
        ordered = s.ordered;
        room = s.room;
        filled = λ r a b. elim (s.filled r a b) [
          | inl e ↦ inl e
          | inr (e, d) ↦ inr (
            e,
            assign_keeps q.item d (λ x. absurd (
                next_slot n r s.two
                  (sym x ∙ ap (λ y. y % n) (same_node n q.sequence p r seq e x)))),
          )
        ];
        free = s.free;
        places =
            go-PcOk log log q q' i (push_publish p) th s.places
              (below, above, seq, assign_self (p % n) v q.item ∙ sym logged) others;
        unique =
            less-IsUnique i (push_store v p) (push_publish p) th s.unique at_i (store-Owns v p);
      }

  -- `try_push` stores the sequence number.
  pub publish-IsSound :
      (log : ℕ → A) (q : Ring A) (i p : ℕ) (th : ℕ → Pc A)
      → IsSound n log q th
      → th i ≡ push_publish p
      → IsSound n log
          (record q { sequence = assign (p % n) (suc p) q.sequence })
          (assign i pushed th)
  publish-IsSound log q i p th s at_i =
      let q' = record q { sequence = assign (p % n) (suc p) q.sequence } in
      let (below, above, seq, stored) : PcOk n log q (push_publish p) =
        subst (λ c. PcOk n log q c) at_i (s.places i) in
      let owner : Owns true (th i) p = subst (λ c. Owns true c p) (sym at_i) refl in
      let same : (r a : ℕ) → q.sequence (r % n) ≡ a → p % n ≡ r % n → p ≡ a =
        λ r a e x. same_node n q.sequence p r seq e x in
      let never : (r : ℕ) → q.sequence (r % n) ≡ suc r → p % n ≡ r % n → suc p ≡ suc r =
        λ r e x. absurd (next_slot n r s.two (sym x ∙ ap (λ y. y % n) (same r _ e x))) in
      let others : (j : ℕ) → i ≢ j → Keeps n log log q q' (th j) = λ j ne. record {
        heads = omega arith;
        tails = omega arith;
        claims = λ r own a b c. (
          a,
          assign_keeps q.sequence c
              (λ e. absurd (apart th true i j p r s.unique owner ne own (same r _ c e))),
          refl,
          λ d _. d,
        );
        reads = λ r own a b c. (b, assign_keeps q.sequence c (never r c), refl, λ d. d);
        tail_node =
            λ _ c. assign_keeps q.sequence c (λ e. omega (arith, above, same q.tail_pos _ c e));
        head_node = λ _ c. assign_keeps q.sequence c (never q.head_pos c);
      } in
      record {
        two = s.two;
        few = s.few;
        ordered = s.ordered;
        room = s.room;
        filled = λ r a b.
            assign_intro (λ y. (y ≡ r) ⊎ ((y ≡ suc r) × (q.item (r % n) ≡ log r))) (p % n) (r % n)
              (suc p) q.sequence
              (λ x. elim (s.filled r a b) [
                | inl e ↦
                    inr (ap suc (same r _ e x), sym (ap q.item x) ∙ stored ∙ ap log (same r _ e x))
                | inr (e, d) ↦ inr (never r e x, d)
              ])
              (λ _. s.filled r a b);
        free = λ r a b.
            assign_intro (λ y. (y ≡ r) ⊎ (y + n ≡ suc r)) (p % n) (r % n) (suc p) q.sequence
              (λ x. elim (s.free r a b) [
                | inl e ↦ absurd (omega (arith, same r _ e x, above, a))
                | inr e ↦ absurd (
                    next_slot n r s.two (
                      sym x
                      ∙ sym (round_slot n p)
                      ∙ ap (λ y. y % n) (ap (λ (y : ℕ). y + n) (sym seq ∙ ap q.sequence x) ∙ e)))
              ])
              (λ _. s.free r a b);
        places = go-PcOk log log q q' i pushed th s.places tt others;
        unique = less-IsUnique i (push_publish p) pushed th s.unique at_i (publish-Owns A p);
      }

  -- `try_pop` stores the sequence number.
  pub release-IsSound :
      (log : ℕ → A) (q : Ring A) (i p : ℕ) (x : A) (th : ℕ → Pc A)
      → IsSound n log q th
      → th i ≡ pop_release p x
      → IsSound n log
          (record q { sequence = assign (p % n) (p + n) q.sequence })
          (assign i (popped x) th)
  release-IsSound log q i p x th s at_i =
      let q' = record q { sequence = assign (p % n) (p + n) q.sequence } in
      let (below, above, seq, taken) : PcOk n log q (pop_release p x) =
        subst (λ c. PcOk n log q c) at_i (s.places i) in
      let owner : Owns false (th i) p = subst (λ c. Owns false c p) (sym at_i) refl in
      let same : (r a : ℕ) → q.sequence (r % n) ≡ a → p % n ≡ r % n → suc p ≡ a =
        λ r a e x. same_node n q.sequence p r seq e x in
      let never : (r : ℕ) → q.sequence (r % n) ≡ r → p % n ≡ r % n → p + n ≡ r =
        λ r e x. absurd (next_slot n p s.two (x ∙ ap (λ y. y % n) (sym (same r _ e x)))) in
      let others : (j : ℕ) → i ≢ j → Keeps n log log q q' (th j) = λ j ne. record {
        heads = omega arith;
        tails = omega arith;
        claims = λ r own a b c. (a, assign_keeps q.sequence c (never r c), refl, λ d _. d);
        reads = λ r own a b c. (
          b,
          assign_keeps q.sequence c (λ e.
              absurd (apart th false i j p r s.unique owner ne own (omega (arith, same r _ c e)))),
          refl,
          λ d. d,
        );
        tail_node = λ _ c. assign_keeps q.sequence c (never q.tail_pos c);
        head_node =
            λ _ c. assign_keeps q.sequence c (λ e. omega (arith, below, same q.head_pos _ c e));
      } in
      record {
        two = s.two;
        few = s.few;
        ordered = s.ordered;
        room = s.room;
        filled = λ r a b.
            assign_intro (λ y. (y ≡ r) ⊎ ((y ≡ suc r) × (q.item (r % n) ≡ log r))) (p % n) (r % n)
              (p + n) q.sequence
              (λ x. elim (s.filled r a b) [
                | inl e ↦ inl (never r e x)
                | inr (e, d) ↦ absurd (omega (arith, same r _ e x, below, a))
              ])
              (λ _. s.filled r a b);
        free = λ r a b.
            assign_intro (λ y. (y ≡ r) ⊎ (y + n ≡ suc r)) (p % n) (r % n) (p + n) q.sequence
              (λ x. elim (s.free r a b) [
                | inl e ↦ inl (never r e x)
                | inr e ↦ inl (omega (arith, e, seq, ap q.sequence x))
              ])
              (λ _. s.free r a b);
        places = go-PcOk log log q q' i (popped x) th s.places tt others;
        unique = less-IsUnique i (pop_release p x) (popped x) th s.unique at_i (release-Owns p x);
      }
