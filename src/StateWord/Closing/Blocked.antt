-- ===== src/StateWord/Closing/Blocked.antt =====
-- `forceCloseInLoop` of src/TcpConnection.cpp while a message is being sent by another thread.
use learning_network.Prelude.{
  ℕ, zero, suc, ◌≡◌, refl, arith, true, false, List, [], ◌∷◌, some, get_elem?, set, inl, inr,
  Option-cases, if_intro, subst,
}
use learning_network.StateWord.{
  Pc, idle, trying, marked, inside, leaving, last, unusing, done, World, put_thread, thread_step,
  try_step, mark_step, unuse_step, has_used, has_writing,
}
use learning_network.StateWord.Closing.{is_in_loop, exec_during, history_during}

-- The word of a connection that is in use and being written.
abbrev pub IsWritten : ℕ → Type 0
IsWritten w = (has_writing w ≡ true) × (has_used w ≡ true)

-- Where the loop's thread is in `set_unused`.
abbrev IsHeld : Pc → Type 0
IsHeld (unusing old) = IsWritten old
IsHeld idle = ⊥
IsHeld (trying old) = ⊥
IsHeld (marked old) = ⊥
IsHeld inside = ⊥
IsHeld (leaving old) = ⊥
IsHeld (last old) = ⊥
IsHeld done = ⊥

try_IsWritten : (w old : ℕ) → IsWritten w → IsWritten (try_step w old).0
unfolding try_step
try_IsWritten w old h = ground arith

mark_IsWritten : (w old : ℕ) → IsWritten w → IsWritten (mark_step w old).0
unfolding mark_step
mark_IsWritten w old h = ground arith

unuse_IsWritten : (w old : ℕ) → IsWritten w → IsWritten (unuse_step w old).0
unfolding unuse_step
unuse_IsWritten w old h = ground arith

step_IsWritten :
    (w : ℕ) (pc : Pc) → is_in_loop pc ≡ false → IsWritten w → IsWritten (thread_step w pc).0
unfolding thread_step
step_IsWritten w idle e h = h
step_IsWritten w (trying old) e h = try_IsWritten w old h
step_IsWritten w (marked old) e h = mark_IsWritten w old h
step_IsWritten w (unusing old) e h = unuse_IsWritten w old h
step_IsWritten w done e h = h
step_IsWritten w inside e h = absurd (cc)
step_IsWritten w (leaving old) e h = absurd (cc)
step_IsWritten w (last old) e h = absurd (cc)

thread_step-IsHeld : (w : ℕ) (pc : Pc) → IsWritten w → IsHeld pc → IsHeld (thread_step w pc).1
unfolding thread_step unuse_step
thread_step-IsHeld w (unusing old) h k = ground arith
thread_step-IsHeld w idle h k = absurd k
thread_step-IsHeld w (trying old) h k = absurd k
thread_step-IsHeld w (marked old) h k = absurd k
thread_step-IsHeld w inside h k = absurd k
thread_step-IsHeld w (leaving old) h k = absurd k
thread_step-IsHeld w (last old) h k = absurd k
thread_step-IsHeld w done h k = absurd k

pub record IsWaiting (s : World) : Type 0 where
  pub written : IsWritten s.word
  pub held : (pc : Pc) × (get_elem? s.threads 0 ≡ some pc) × IsHeld pc

set_other : (ts : List Pc) (i : ℕ) (pc : Pc) → get_elem? (set ts (suc i) pc) 0 ≡ get_elem? ts 0
set_other [] i pc = refl
set_other (x ∷ ts) i pc = refl

set_head :
    (ts : List Pc) (pc pc' : Pc) → get_elem? ts 0 ≡ some pc → get_elem? (set ts 0 pc') 0 ≡ some pc'
set_head [] pc pc' e = absurd (cc)
set_head (x ∷ ts) pc pc' e = refl

put_thread-IsWaiting :
    (s : World) (i : ℕ) (pc : Pc)
    → get_elem? s.threads i ≡ some pc
    → is_in_loop pc ≡ false
    → IsWaiting s
    → IsWaiting (put_thread s i (thread_step s.word pc))
unfolding put_thread
put_thread-IsWaiting s zero pc e f v =
    let (pc', e', k) = v.held in
    let same : pc' ≡ pc = cc in
    record {
      written = step_IsWritten s.word pc f v.written;
      held = (
        _,
        set_head s.threads pc _ e,
        thread_step-IsHeld s.word pc v.written (subst IsHeld same k),
      );
    }
put_thread-IsWaiting s (suc i) pc e f v =
    let (pc', e', k) = v.held in
    record {
      written = step_IsWritten s.word pc f v.written;
      held = (pc', rw (set_other s.threads i (thread_step s.word pc).1) e', k);
    }

exec_during-IsWaiting : (i : ℕ) (s : World) → IsWaiting s → IsWaiting (exec_during i s)
unfolding exec_during
exec_during-IsWaiting i s v = elim (Option-cases (get_elem? s.threads i)) [
  | inl e ↦ rw (e, exec_during) v
  | inr (pc, e) ↦
      rw (e, exec_during)
        (if_intro IsWaiting (is_in_loop pc) (λ _. v) (λ f. put_thread-IsWaiting s i pc e f v))
]

history_during-IsWaiting : (is : List ℕ) (s : World) → IsWaiting s → IsWaiting (history_during is s)
unfolding history_during
history_during-IsWaiting [] s v = v
history_during-IsWaiting (i ∷ is) s v =
    history_during-IsWaiting is (exec_during i s) (exec_during-IsWaiting i s v)

-- `forceCloseInLoop` calls `set_unused` in the loop's thread. If the word that it meets is in use and
-- marked as written, then for any number of accesses of any threads, in any order, it never gets
-- past it: only `sendInLoop` takes the mark away, and that waits for the loop. The word stays in use
-- and marked.
pub history_during-held :
    (is : List ℕ) (s : World) (old : ℕ)
    → get_elem? s.threads 0 ≡ some (unusing old)
    → IsWritten old
    → IsWritten s.word
    → let s' = history_during is s in
      IsWritten s'.word × (old' : ℕ) × (get_elem? s'.threads 0 ≡ some (unusing old'))
history_during-held is s old e h k =
    let v = history_during-IsWaiting is s (record { written = k; held = (unusing old, e, h) }) in
    let (pc, e', k') = v.held in let (old', e2) = held_pc pc e' k' in (v.written, old', e2)
  where
    held_pc :
        (pc : Pc)
        → get_elem? (history_during is s).threads 0 ≡ some pc
        → IsHeld pc
        → (old' : ℕ) × (get_elem? (history_during is s).threads 0 ≡ some (unusing old'))
    held_pc (unusing old') e k = (old', e)
    held_pc idle e k = absurd k
    held_pc (trying old') e k = absurd k
    held_pc (marked old') e k = absurd k
    held_pc inside e k = absurd k
    held_pc (leaving old') e k = absurd k
    held_pc (last old') e k = absurd k
    held_pc done e k = absurd k
