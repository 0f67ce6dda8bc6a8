-- ===== src/MpmcQueue/Owned.antt =====
-- src/helpers/queue.h: a node that is between two states is in the hands of a call that is under way.
use learning_network.Prelude.{
  ℕ, suc, ◌+◌, ◌%◌, ◌≤◌, ◌<◌, ◌≡◌, ◌⊎◌, inl, inr, refl, sym, ◌∙◌, subst, ap, arith, Bool, true,
  false, assign, assign_self, assign_intro,
}
use learning_network.MpmcQueue.{
  Ring, Pc, push_swap, push_store, push_publish, pushed, pop_swap, pop_read, pop_release, popped,
}
use learning_network.MpmcQueue.Slots.{next_slot, round_slot}
use learning_network.MpmcQueue.Invariant.{Owns, PcOk, IsSound}

module _ {ℓ} {A : Type ℓ} (n : ℕ) where
  -- A claimed node that is not published belongs to a push, and a node behind the tail that is not yet
  -- released belongs to the pop of the round before.
  pub record IsOwned (q : Ring A) (th : ℕ → Pc A) : Type ℓ where
    pub writers :
        (p : ℕ)
        → q.head_pos ≤ p
        → p < q.tail_pos
        → q.sequence (p % n) ≡ p
        → (i : ℕ) × Owns true (th i) p
    pub readers :
        (p : ℕ)
        → q.tail_pos ≤ p
        → p < q.head_pos + n
        → q.sequence (p % n) + n ≡ suc p
        → (r i : ℕ) × (r + n ≡ p) × Owns false (th i) r

  -- An owner that is another thread, or keeps what it owns, is one still.
  owner_stays :
      (th : ℕ → Pc A) (i : ℕ) (c' : Pc A) (k : Bool) (p j : ℕ)
      → Owns k (th j) p
      → (Owns k (th i) p → Owns k c' p)
      → (j' : ℕ) × Owns k (assign i c' th j') p
  owner_stays th i c' k p j o f = (
    j,
    assign_intro (λ c. Owns k c p) i j c' th (λ e. f (subst (λ x. Owns k (th x) p) (sym e) o))
        (λ _. o),
  )

  pub quiet-IsOwned :
      (q : Ring A) (i : ℕ) (c c' : Pc A) (th : ℕ → Pc A)
      → IsOwned q th
      → th i ≡ c
      → ((k : Bool) (r : ℕ) → Owns k c r → Owns k c' r)
      → IsOwned q (assign i c' th)
  quiet-IsOwned q i c c' th o at_i f =
      let keep : (k : Bool) (r : ℕ) → Owns k (th i) r → Owns k c' r =
        λ k r x. f k r (subst (λ d. Owns k d r) at_i x) in
      record {
        writers = λ p a b e.
            let (j, x) = o.writers p a b e in owner_stays th i c' true p j x (keep true p);
        readers = λ p a b e.
            let (r, j, m, x) = o.readers p a b e in
            let (j', y) = owner_stays th i c' false r j x (keep false r) in (r, j', m, y);
      }

  pub store-IsOwned :
      (q : Ring A) (i : ℕ) (v : A) (p : ℕ) (th : ℕ → Pc A)
      → IsOwned q th
      → th i ≡ push_store v p
      → IsOwned (record q { item = assign (p % n) v q.item }) (assign i (push_publish p) th)
  store-IsOwned q i v p th o at_i =
      let s = quiet-IsOwned q i (push_store v p) (push_publish p) th o at_i (λ k r x. keep k r x) in
      record { writers = s.writers; readers = s.readers }
    where
      keep : (k : Bool) (r : ℕ) → Owns k (push_store v p) r → Owns {A = A} k (push_publish p) r
      keep true r x = x
      keep false r x = absurd x

  pub publish-IsOwned :
      (log : ℕ → A) (q : Ring A) (i p : ℕ) (th : ℕ → Pc A)
      → IsSound n log q th
      → IsOwned q th
      → th i ≡ push_publish p
      → IsOwned (record q { sequence = assign (p % n) (suc p) q.sequence }) (assign i pushed th)
  publish-IsOwned log q i p th s o at_i =
      let (below, above, seq, stored) : PcOk n log q (push_publish p) =
        subst (λ c. PcOk n log q c) at_i (s.places i) in
      record {
        writers = λ r a b.
            assign_intro (λ y. y ≡ r → (j : ℕ) × Owns true (assign i pushed th j) r) (p % n) (r % n)
              (suc p) q.sequence (λ x e. absurd (next_slot n p s.two (x ∙ ap (λ y. y % n) (sym e))))
              (λ ne e.
                let (j, x) = o.writers r a b e in
                owner_stays th i pushed true r j x (λ y.
                  let same : p ≡ r = subst (λ c. Owns true c r) at_i y in
                  absurd (ne (ap (λ z. z % n) same))));
        readers = λ r a b.
            assign_intro
              (λ y. y + n ≡ suc r → (t j : ℕ) × (t + n ≡ r) × Owns false (assign i pushed th j) t)
              (p % n) (r % n) (suc p) q.sequence (λ x e. absurd (omega (arith, e, b, below)))
              (λ ne e.
                let (t, j, m, x) = o.readers r a b e in
                let (j', y) =
                  owner_stays th i pushed false t j x
                    (λ y. absurd (subst (λ c. Owns false c t) at_i y)) in
                (t, j', m, y));
      }

  pub release-IsOwned :
      (log : ℕ → A) (q : Ring A) (i p : ℕ) (x : A) (th : ℕ → Pc A)
      → IsSound n log q th
      → IsOwned q th
      → th i ≡ pop_release p x
      → IsOwned (record q { sequence = assign (p % n) (p + n) q.sequence }) (assign i (popped x) th)
  release-IsOwned log q i p x th s o at_i =
      let (below, above, seq, taken) : PcOk n log q (pop_release p x) =
        subst (λ c. PcOk n log q c) at_i (s.places i) in
      record {
        writers = λ r a b.
            assign_intro (λ y. y ≡ r → (j : ℕ) × Owns true (assign i (popped x) th j) r) (p % n)
              (r % n) (p + n) q.sequence (λ _ e. absurd (omega (arith, e, b, above)))
              (λ ne e.
                let (j, y) = o.writers r a b e in
                owner_stays th i (popped x) true r j y
                  (λ z. absurd (subst (λ c. Owns true c r) at_i z)));
        readers = λ r a b.
            assign_intro
              (λ y.
                y + n ≡ suc r → (t j : ℕ) × (t + n ≡ r) × Owns false (assign i (popped x) th j) t)
              (p % n) (r % n) (p + n) q.sequence
              (λ z e. absurd (
                next_slot n r s.two
                  (sym z ∙ sym (round_slot n p) ∙ sym (round_slot n (p + n)) ∙ ap (λ y. y % n) e)))
              (λ ne e.
                let (t, j, m, y) = o.readers r a b e in
                let (j', w) = owner_stays th i (popped x) false t j y (λ z.
                  let same : p ≡ t = subst (λ c. Owns false c t) at_i z in
                  absurd
                    (ne (sym (round_slot n p) ∙ ap (λ y. (y + n) % n) same ∙ ap (λ y. y % n) m))) in
                (t, j', m, w));
      }

  pub claim-IsOwned :
      (q : Ring A) (i : ℕ) (v : A) (th : ℕ → Pc A)
      → IsOwned q th
      → th i ≡ push_swap v q.tail_pos
      → IsOwned (record q { tail_pos = suc q.tail_pos }) (assign i (push_store v q.tail_pos) th)
  claim-IsOwned q i v th o at_i = record {
    writers = λ p a b e. elim (last_or_below p q.tail_pos b) [
      | inl h ↦
          let (j, x) = o.writers p a h e in
          owner_stays th i (push_store v q.tail_pos) true p j x
            (λ y. absurd (subst (λ c. Owns true c p) at_i y))
      | inr h ↦
          (i, subst (λ c. Owns true c p) (sym (assign_self i (push_store v q.tail_pos) th)) (sym h))
    ];
    readers = λ p a b e.
        let (r, j, m, x) = o.readers p (omega arith) b e in
        let (j', y) =
          owner_stays th i (push_store v q.tail_pos) false r j x
            (λ y. absurd (subst (λ c. Owns false c r) at_i y)) in
        (r, j', m, y);
  }
    where
      last_or_below : (r b : ℕ) → r < suc b → (r < b) ⊎ (r ≡ b)
      last_or_below r b h = ground arith

  pub take-IsOwned :
      (q : Ring A) (i : ℕ) (th : ℕ → Pc A)
      → IsOwned q th
      → th i ≡ pop_swap q.head_pos
      → IsOwned (record q { head_pos = suc q.head_pos }) (assign i (pop_read q.head_pos) th)
  take-IsOwned q i th o at_i = record {
    writers = λ p a b e.
        let (j, x) = o.writers p (omega arith) b e in
        owner_stays th i (pop_read q.head_pos) true p j x
          (λ y. absurd (subst (λ c. Owns true c p) at_i y));
    readers = λ p a b e. elim (last_or_below p (q.head_pos + n) (omega (arith, b))) [
      | inl h ↦
          let (r, j, m, x) = o.readers p a h e in
          let (j', y) =
            owner_stays th i (pop_read q.head_pos) false r j x
              (λ y. absurd (subst (λ c. Owns false c r) at_i y)) in
          (r, j', m, y)
      | inr h ↦ (
        q.head_pos,
        i,
        sym h,
        subst (λ c. Owns false c q.head_pos) (sym (assign_self i (pop_read q.head_pos) th)) refl,
      )
    ];
  }
    where
      last_or_below : (r b : ℕ) → r < suc b → (r < b) ⊎ (r ≡ b)
      last_or_below r b h = ground arith
