-- ===== src/MpmcQueue/Refine.antt =====
-- The interleaved accesses to the ring of src/helpers/queue.h do what the queue of Fifo does.
use mathlib.Core.Path.{ap₂}
use learning_network.Prelude.{
  ℕ, suc, ◌+◌, ◌-◌, ◌%◌, ◌^◌, ◌≤◌, ◌<◌, ◌≡◌, refl, sym, ◌∙◌, ap, subst, arith, ◌==◌, if_intro,
  ==_iff, ◌&&◌, not, Bool, true, false, [], ◌∷◌, ◌++◌, assign, assign_self, assign_other, add64,
  ◌⊎◌, inl, inr, length, add64_exact,
}
use learning_network.MpmcQueue.{
  Ring, access, is_behind, Pc, push_start, push_at, push_swap, push_store, push_publish, pushed,
  push_full, pop_start, pop_at, pop_swap, pop_read, pop_release, popped, pop_empty,
}
use learning_network.MpmcQueue.Invariant.{Owns, PcOk, IsSound}
use learning_network.MpmcQueue.Steps.{
  quiet-IsSound, store-IsSound, publish-IsSound, release-IsSound, claim-IsSound, take-IsSound,
}
use learning_network.MpmcQueue.Owned.{
  IsOwned, quiet-IsOwned, store-IsOwned, publish-IsOwned, release-IsOwned, claim-IsOwned,
  take-IsOwned,
}
use learning_network.MpmcQueue.Behind.{behind_push, behind_pop}
use learning_network.MpmcQueue.Fifo.{
  Op, pushing, has_pushed, was_full, popping, has_popped, was_empty, Goes, FifoStep, appends, takes,
  gives_up_push, gives_up_pop, returns_push, returns_pop, stays, view, segment, abstract,
  length-segment, segment-suc, segment-assign,
}

and_left : (a b : Bool) → (a && b) ≡ true → a ≡ true
and_left true b e = refl
and_left false b e = e

pub add64-suc : (p : ℕ) → p < 2 ^ 63 → add64 p 1 ≡ suc p
add64-suc p h = omega (arith, h)

-- `pos + buffer_mask + 1`
add64_round : (p n : ℕ) → 2 ≤ n → p + n < 2 ^ 64 → add64 (add64 p (n - 1)) 1 ≡ p + n
add64_round p n h k = omega (arith, h, k, add64_exact p (n - 1) (omega (arith, k)))

module _ {ℓ} {A : Type ℓ} (n : ℕ) where
  -- What an access of thread `i` comes to.
  abbrev pub Outcome : (ℕ → A) → Ring A → (ℕ → Pc A) → ℕ → Ring A × Pc A → Type ℓ
  Outcome log q th i r =
      (log' : ℕ → A) × (r.0.tail_pos ≤ suc q.tail_pos)
      × IsSound n log' r.0 (assign i r.1 th)
      × IsOwned n r.0 (assign i r.1 th)
      × FifoStep n i (abstract log q th) (abstract log' r.0 (assign i r.1 th))

  goes :
      (log log' : ℕ → A) (q q' : Ring A) (th : ℕ → Pc A) (i : ℕ) (pc : Pc A) (op : Op A)
      → view log' pc ≡ op
      → ((j : ℕ) → view log' (th j) ≡ view log (th j))
      → Goes i op (abstract log q th) (abstract log' q' (assign i pc th))
  goes log log' q q' th i pc op e k = (
    ap (view log') (assign_self i pc th) ∙ e,
    λ j ne. ap (view log') (assign_other i j pc th ne) ∙ k j,
  )

  -- The ring stays, and so does what the thread wants.
  quiet :
      (log : ℕ → A) (q : Ring A) (th : ℕ → Pc A) (i : ℕ) (c c' : Pc A)
      → IsSound n log q th
      → IsOwned n q th
      → th i ≡ c
      → PcOk n log q c'
      → ((k : Bool) (r : ℕ) → Owns k c' r → Owns k c r)
      → ((k : Bool) (r : ℕ) → Owns k c r → Owns k c' r)
      → view log c' ≡ view log c
      → Outcome log q th i (q, c')
  quiet log q th i c c' s o at_i own f g e = (
    log,
    omega arith,
    quiet-IsSound n log q i c c' th s at_i own f,
    quiet-IsOwned n q i c c' th o at_i g,
    stays refl (goes log log q q th i c' _ (e ∙ ap (view log) (sym at_i)) (λ _. refl)),
  )

  abbrev idle : Pc A → Bool
  idle (push_store v p) = false
  idle (push_publish p) = false
  idle (pop_read p) = false
  idle (pop_release p x) = false
  idle c = true

  idle-Owns : (c c' : Pc A) → idle c' ≡ true → (k : Bool) (r : ℕ) → Owns k c' r → Owns k c r
  idle-Owns c (push_store v p) h k r o = ground arith
  idle-Owns c (push_publish p) h k r o = ground arith
  idle-Owns c (pop_read p) h k r o = ground arith
  idle-Owns c (pop_release p x) h k r o = ground arith
  idle-Owns c c' h true r o = absurd o
  idle-Owns c c' h false r o = absurd o

  -- What a thread's call is does not change with a later push.
  view_kept :
      (log : ℕ → A) (q : Ring A) (v : A) (c : Pc A)
      → q.head_pos ≤ q.tail_pos
      → PcOk n log q c
      → view (assign q.tail_pos v log) c ≡ view log c
  view_kept log q v (push_start w) o h = refl
  view_kept log q v (push_at w p) o h = refl
  view_kept log q v (push_swap w p) o h = refl
  view_kept log q v (push_store w p) o h = refl
  view_kept log q v (push_publish p) o h = refl
  view_kept log q v pushed o h = refl
  view_kept log q v (push_full w) o h = refl
  view_kept log q v pop_start o h = refl
  view_kept log q v (pop_at p) o h = refl
  view_kept log q v (pop_swap p) o h = refl
  view_kept log q v (pop_read p) o (a, b, c, d) =
      ap popping (assign_other q.tail_pos p v log (λ e. absurd (omega (arith, a, o, e))))
  view_kept log q v (pop_release p x) o h = refl
  view_kept log q v (popped x) o h = refl
  view_kept log q v pop_empty o h = refl

  -- A pop that is under way, as the queue sees it.
  reader_view :
      (log : ℕ → A) (c : Pc A) (r : ℕ) → Owns false c r → (x : A) × (view log c ≡ popping x)
  reader_view log (pop_read p) r o = (log p, refl)
  reader_view log (pop_release p x) r o = (x, refl)
  reader_view log c r o = absurd o

  writer_view : (log : ℕ → A) (c : Pc A) (r : ℕ) → Owns true c r → view log c ≡ pushing
  writer_view log (push_store v p) r o = refl
  writer_view log (push_publish p) r o = refl
  writer_view log c r o = absurd o

  full_or_popping :
      (log : ℕ → A) (q : Ring A) (th : ℕ → Pc A)
      → (q.tail_pos ≡ q.head_pos + n) ⊎ ((r i : ℕ) × Owns false (th i) r)
      → (length (abstract log q th).queue ≡ n)
        ⊎ ((j : ℕ) × (x : A) × ((abstract log q th).ops j ≡ popping x))
  full_or_popping log q th (inl e) =
      inl (length-segment log q.head_pos (q.tail_pos - q.head_pos) ∙ omega (arith, e))
  full_or_popping log q th (inr (r, i, o)) =
      let (x, e) = reader_view log (th i) r o in inr (i, x, e)

  empty_or_pushing :
      (log : ℕ → A) (q : Ring A) (th : ℕ → Pc A)
      → (q.tail_pos ≡ q.head_pos) ⊎ ((r i : ℕ) × Owns true (th i) r)
      → ((abstract log q th).queue ≡ []) ⊎ ((j : ℕ) × ((abstract log q th).ops j ≡ pushing))
  empty_or_pushing log q th (inl e) =
      inl (ap (segment log q.head_pos) {x = q.tail_pos - q.head_pos} {y = 0} (omega (arith, e)))
  empty_or_pushing log q th (inr (r, i, o)) = inr (i, writer_view log (th i) r o)

  refused :
      (log : ℕ → A) (q : Ring A) (th : ℕ → Pc A) (i : ℕ) (v : A) (p : ℕ)
      → IsSound n log q th
      → IsOwned n q th
      → th i ≡ push_at v p
      → p ≤ q.tail_pos
      → is_behind (q.sequence (p % n)) p ≡ true
      → Outcome log q th i (q, push_full v)
  refused log q th i v p s o at_i h b = (
    log,
    omega arith,
    quiet-IsSound n log q i (push_at v p) (push_full v) th s at_i tt
        (idle-Owns _ (push_full v) refl),
    quiet-IsOwned n q i (push_at v p) (push_full v) th o at_i (idle-Owns _ (push_at v p) refl),
    gives_up_push v (ap (view log) at_i)
        (full_or_popping log q th (behind_push n log q th s o p h b)) refl
        (goes log log q q th i (push_full v) (was_full v) refl (λ _. refl)),
  )

  found_empty :
      (log : ℕ → A) (q : Ring A) (th : ℕ → Pc A) (i p : ℕ)
      → IsSound n log q th
      → IsOwned n q th
      → th i ≡ pop_at p
      → p ≤ q.head_pos
      → is_behind (q.sequence (p % n)) (suc p) ≡ true
      → Outcome log q th i (q, pop_empty)
  found_empty log q th i p s o at_i h b = (
    log,
    omega arith,
    quiet-IsSound n log q i (pop_at p) pop_empty th s at_i tt (idle-Owns _ pop_empty refl),
    quiet-IsOwned n q i (pop_at p) pop_empty th o at_i (idle-Owns _ (pop_at p) refl),
    gives_up_pop (ap (view log) at_i) (empty_or_pushing log q th (behind_pop n log q th s o p h b))
        refl (goes log log q q th i pop_empty was_empty refl (λ _. refl)),
  )

  read-Owns :
      (p : ℕ) (x : A) (k : Bool) (r : ℕ)
      → Owns k (pop_release p x) r
      → Owns {A = A} k (pop_read p) r
  read-Owns p x true r o = o
  read-Owns p x false r o = o

  Owns-read :
      (p : ℕ) (x : A) (k : Bool) (r : ℕ)
      → Owns {A = A} k (pop_read p) r
      → Owns k (pop_release p x) r
  Owns-read p x true r o = o
  Owns-read p x false r o = o

  claim :
      (log : ℕ → A) (q : Ring A) (th : ℕ → Pc A) (i : ℕ) (v : A)
      → IsSound n log q th
      → IsOwned n q th
      → th i ≡ push_swap v q.tail_pos
      → suc q.tail_pos + n < 2 ^ 63
      → Outcome log q th i (record q { tail_pos = suc q.tail_pos }, push_store v q.tail_pos)
  claim log q th i v s o at_i small =
      let sound = claim-IsSound n log q i v th s at_i small in
      let log' = assign q.tail_pos v log in
      let k = q.tail_pos - q.head_pos in
      (
        log',
        omega arith,
        sound,
        claim-IsOwned n q i v th o at_i,
        appends v (ap (view log) at_i)
            (rw (length-segment log q.head_pos k) (omega (arith, s.ordered, sound.room, s.two)))
            (ap (segment log' q.head_pos) {x = suc q.tail_pos - q.head_pos} {y = suc k}
                (omega (arith, s.ordered))
              ∙ segment-suc log' q.head_pos k q.tail_pos (omega (arith, s.ordered))
              ∙ ap₂ (λ xs y. xs ++ (y ∷ []))
                  (segment-assign log q.head_pos k q.tail_pos v (omega (arith, s.ordered)))
                  (assign_self q.tail_pos v log))
            (goes log log' q (record q { tail_pos = suc q.tail_pos }) th i (push_store v q.tail_pos)
              pushing refl (λ j. view_kept log q v (th j) s.ordered (s.places j))),
      )

  pop_claim :
      (log : ℕ → A) (q : Ring A) (th : ℕ → Pc A) (i : ℕ)
      → IsSound n log q th
      → IsOwned n q th
      → th i ≡ pop_swap q.head_pos
      → Outcome log q th i (record q { head_pos = suc q.head_pos }, pop_read q.head_pos)
  pop_claim log q th i s o at_i =
      let (some_in, sound) = take-IsSound n log q i th s at_i in
      (
        log,
        omega arith,
        sound,
        take-IsOwned n q i th o at_i,
        takes (log q.head_pos) (ap (view log) at_i)
            (ap (segment log q.head_pos) {x = q.tail_pos - q.head_pos}
              {y = suc (q.tail_pos - suc q.head_pos)} (omega (arith, some_in)))
            (goes log log q (record q { head_pos = suc q.head_pos }) th i (pop_read q.head_pos)
              (popping (log q.head_pos)) refl (λ j. refl)),
      )

  pub access_lem :
      (log : ℕ → A) (q : Ring A) (th : ℕ → Pc A) (i : ℕ) (spurious : Bool) (c : Pc A)
      → IsSound n log q th
      → IsOwned n q th
      → th i ≡ c
      → suc q.tail_pos + n < 2 ^ 63
      → Outcome log q th i (access n spurious q c)
  unfolding access
  access_lem log q th i spurious (push_start v) s o at_i small =
      quiet log q th i (push_start v) (push_at v q.tail_pos) s o at_i (tt, omega arith)
        (idle-Owns _ (push_at v q.tail_pos) refl) (idle-Owns _ _ refl) refl
  access_lem log q th i spurious (push_at v p) s o at_i small =
      let h : PcOk n log q (push_at v p) = subst (PcOk n log q) at_i (s.places i) in
      if_intro (λ c. Outcome log q th i (q, c)) (q.sequence (p % n) == p)
        (λ e.
          quiet log q th i (push_at v p) (push_swap v p) s o at_i
            (tt, h.1, λ _. (==_iff (q.sequence (p % n)) p).0 e) (idle-Owns _ (push_swap v p) refl)
            (idle-Owns _ _ refl) refl)
        (λ _.
          if_intro (λ c. Outcome log q th i (q, c)) (is_behind (q.sequence (p % n)) p)
            (λ b. refused log q th i v p s o at_i h.1 b)
            (λ _.
              quiet log q th i (push_at v p) (push_start v) s o at_i tt
                (idle-Owns _ (push_start v) refl) (idle-Owns _ _ refl) refl))
  access_lem log q th i spurious (push_swap v p) s o at_i small =
      if_intro (Outcome log q th i) ((q.tail_pos == p) && not spurious)
        (λ e.
          let same = (==_iff q.tail_pos p).0 (and_left _ _ e) in
          subst (λ x. Outcome log q th i (record q { tail_pos = add64 x 1 }, push_store v x)) same
            (rw (add64-suc q.tail_pos (omega (arith, small)))
              (claim log q th i v s o (at_i ∙ ap (push_swap v) (sym same)) small)))
        (λ _.
          quiet log q th i (push_swap v p) (push_at v q.tail_pos) s o at_i (tt, omega arith)
            (idle-Owns _ (push_at v q.tail_pos) refl) (idle-Owns _ _ refl) refl)
  access_lem log q th i spurious (push_store v p) s o at_i small = (
    log,
    omega arith,
    store-IsSound n log q i v p th s at_i,
    store-IsOwned n q i v p th o at_i,
    stays refl (goes log log q q th i (push_publish p) _ (ap (view log) (sym at_i)) (λ _. refl)),
  )
  access_lem log q th i spurious (push_publish p) s o at_i small =
      let (_, above, _, _) : PcOk n log q (push_publish p) =
        subst (PcOk n log q) at_i (s.places i) in
      rw (add64-suc p (omega (arith, above, s.few))) (
        log,
        omega arith,
        publish-IsSound n log q i p th s at_i,
        publish-IsOwned n log q i p th s o at_i,
        returns_push (ap (view log) at_i) refl
            (goes log log q q th i pushed has_pushed refl (λ _. refl)),
      )
  access_lem log q th i spurious pop_start s o at_i small =
      quiet log q th i pop_start (pop_at q.head_pos) s o at_i (tt, omega arith)
        (idle-Owns _ (pop_at q.head_pos) refl) (idle-Owns _ _ refl) refl
  access_lem log q th i spurious (pop_at p) s o at_i small =
      let h : PcOk n log q (pop_at p) = subst (PcOk n log q) at_i (s.places i) in
      if_intro (λ c. Outcome log q th i (q, c)) (q.sequence (p % n) == add64 p 1)
        (λ e.
          quiet log q th i (pop_at p) (pop_swap p) s o at_i
            (
              tt,
              h.1,
              λ _.
                  (==_iff (q.sequence (p % n)) (add64 p 1)).0 e
                  ∙ add64-suc p (omega (arith, h.1, s.ordered, s.few)),
            )
            (idle-Owns _ (pop_swap p) refl) (idle-Owns _ _ refl) refl)
        (λ _.
          if_intro (λ c. Outcome log q th i (q, c)) (is_behind (q.sequence (p % n)) (add64 p 1))
            (λ b. found_empty log q th i p s o at_i h.1 (
              subst (λ x. is_behind (q.sequence (p % n)) x ≡ true)
                (add64-suc p (omega (arith, h.1, s.ordered, s.few))) b))
            (λ _.
              quiet log q th i (pop_at p) pop_start s o at_i tt (idle-Owns _ pop_start refl)
                (idle-Owns _ _ refl) refl))
  access_lem log q th i spurious (pop_swap p) s o at_i small =
      if_intro (Outcome log q th i) ((q.head_pos == p) && not spurious)
        (λ e.
          let same = (==_iff q.head_pos p).0 (and_left _ _ e) in
          subst (λ x. Outcome log q th i (record q { head_pos = add64 x 1 }, pop_read x)) same
            (rw (add64-suc q.head_pos (omega (arith, s.few, s.ordered)))
              (pop_claim log q th i s o (at_i ∙ ap pop_swap (sym same)))))
        (λ _.
          quiet log q th i (pop_swap p) (pop_at q.head_pos) s o at_i (tt, omega arith)
            (idle-Owns _ (pop_at q.head_pos) refl) (idle-Owns _ _ refl) refl)
  access_lem log q th i spurious (pop_read p) s o at_i small =
      let (a, b, c, d) : PcOk n log q (pop_read p) = subst (PcOk n log q) at_i (s.places i) in
      quiet log q th i (pop_read p) (pop_release p (q.item (p % n))) s o at_i (a, b, c, d)
        (read-Owns p (q.item (p % n))) (Owns-read p (q.item (p % n))) (ap popping d)
  access_lem log q th i spurious (pop_release p x) s o at_i small =
      let (below, _, _, _) : PcOk n log q (pop_release p x) =
        subst (PcOk n log q) at_i (s.places i) in
      rw (add64_round p n s.two (omega (arith, below, s.ordered, s.few))) (
        log,
        omega arith,
        release-IsSound n log q i p x th s at_i,
        release-IsOwned n log q i p x th s o at_i,
        returns_pop x (ap (view log) at_i) refl
            (goes log log q q th i (popped x) (has_popped x) refl (λ _. refl)),
      )
  access_lem log q th i spurious pushed s o at_i small =
      quiet log q th i pushed pushed s o at_i tt (λ k r x. x) (λ k r x. x) refl
  access_lem log q th i spurious (push_full v) s o at_i small =
      quiet log q th i (push_full v) (push_full v) s o at_i tt (λ k r x. x) (λ k r x. x) refl
  access_lem log q th i spurious (popped x) s o at_i small =
      quiet log q th i (popped x) (popped x) s o at_i tt (λ k r x. x) (λ k r x. x) refl
  access_lem log q th i spurious pop_empty s o at_i small =
      quiet log q th i pop_empty pop_empty s o at_i tt (λ k r x. x) (λ k r x. x) refl
