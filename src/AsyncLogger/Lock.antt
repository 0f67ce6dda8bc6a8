-- ===== src/AsyncLogger/Lock.antt =====
-- src/Loggers/AsyncLogger.cpp: `state` as a lock.
use learning_network.Prelude.{
  ℕ, ◌≡◌, ◌⊎◌, inl, inr, refl, sym, ◌∙◌, arith, true, false, assign, assign_intro, assign_elim,
}
use learning_network.AsyncLogger.{
  appending, full, available, has, is_busy, AppenderPc, swapping, inside, leaving, appended,
  WriterPc, writer_swapping, writer_clearing, writer_inside, writer_leaving, StopperPc,
  stop_swapping, Log,
}

-- What `state` may be.
abbrev pub IsWord : ℕ → Type 0
IsWord w = (w ≡ 8) ⊎ (w ≡ 9) ⊎ (w ≡ 12) ⊎ (w ≡ 2) ⊎ (w ≡ 0)

pub open_word : (w : ℕ) → IsWord w → has w available ≡ true → is_busy w ≡ false → w ≡ 8
open_word w (inl e) f g = e
open_word w (inr (inl e)) f g = ground arith
open_word w (inr (inr (inl e))) f g = ground arith
open_word w (inr (inr (inr (inl e)))) f g = ground arith
open_word w (inr (inr (inr (inr e)))) f g = ground arith

module _ {ℓ} {L : Type ℓ} where
  -- The threads that are at the buffers, up to their last access to `state`.
  abbrev pub Holds : AppenderPc L → Type 0
  Holds (inside l) = Unit
  Holds (leaving w) = Unit
  Holds pc = ⊥

  abbrev pub WriterHolds : WriterPc L → Type 0
  WriterHolds writer_inside = Unit
  WriterHolds (writer_leaving bs) = Unit
  WriterHolds pc = ⊥

  -- What a thread knows of the word that it has loaded, and that it will store.
  abbrev pub Knows : AppenderPc L → Type 0
  Knows (swapping l old) = (has old available ≡ true) × (is_busy old ≡ false)
  Knows (leaving w) = (w ≡ 8) ⊎ (w ≡ 2)
  Knows pc = Unit

  abbrev pub WriterKnows : WriterPc L → Type 0
  WriterKnows (writer_swapping old) =
      (has old available ≡ true) × (has old full ≡ false) × (has old appending ≡ false)
  WriterKnows (writer_clearing old) = ⊥
  WriterKnows pc = Unit

abbrev pub StopperKnows : StopperPc → Type 0
StopperKnows (stop_swapping old) = (has old available ≡ true) × (is_busy old ≡ false)
StopperKnows pc = Unit

module _ {ℓ} {L : Type ℓ} where
  pub record IsLocked (w : ℕ) (wr : WriterPc L) (st : StopperPc) (th : ℕ → AppenderPc L)
      : Type ℓ where
    pub word : IsWord w
    pub holds : (i : ℕ) → Holds (th i) → (w ≡ 9) ⊎ (w ≡ 0)
    pub unique : (i j : ℕ) → Holds (th i) → Holds (th j) → i ≡ j
    pub writer_holds : WriterHolds wr → w ≡ 12
    pub held : w ≡ 12 → WriterHolds wr
    pub knows : (i : ℕ) → Knows (th i)
    pub writer_knows : WriterKnows wr
    pub stopper_knows : StopperKnows st

  abbrev pub Locked : Log L → Type ℓ
  Locked s = IsLocked s.state s.writer s.stopper s.appenders

  -- A call goes on and takes no hold.
  pub keep :
      (w : ℕ) (wr : WriterPc L) (st : StopperPc) (th : ℕ → AppenderPc L) (i : ℕ) (pc : AppenderPc L)
      → IsLocked w wr st th
      → (Holds pc → Holds (th i))
      → Knows pc
      → IsLocked w wr st (assign i pc th)
  keep w wr st th i pc k f g = record {
    word = k.word;
    holds = λ j h. elim (assign_elim Holds i j pc th h) [
      | inl (e, h') ↦ k.holds i (f h')
      | inr (e, h') ↦ k.holds j h'
    ];
    unique = λ a b x y. elim (assign_elim Holds i a pc th x) [
      | inl (e, x') ↦ elim (assign_elim Holds i b pc th y) [
        | inl (e', y') ↦ sym e ∙ e'
        | inr (e', y') ↦ sym e ∙ k.unique i b (f x') y'
      ]
      | inr (e, x') ↦ elim (assign_elim Holds i b pc th y) [
        | inl (e', y') ↦ k.unique a i x' (f y') ∙ e'
        | inr (e', y') ↦ k.unique a b x' y'
      ]
    ];
    writer_holds = k.writer_holds;
    held = k.held;
    knows = λ j. assign_intro Knows i j pc th (λ _. g) (λ _. k.knows j);
    writer_knows = k.writer_knows;
    stopper_knows = k.stopper_knows;
  }

  -- A call takes the free lock.
  pub enter :
      (w : ℕ) (wr : WriterPc L) (st : StopperPc) (th : ℕ → AppenderPc L) (i : ℕ) (pc : AppenderPc L)
      → IsLocked w wr st th
      → w ≡ 8
      → Knows pc
      → IsLocked 9 wr st (assign i pc th)
  enter w wr st th i pc k e g =
      let nobody : (j : ℕ) → Holds (th j) → ⊥ =
        λ j h. elim (k.holds j h) [ inl x ↦ omega (arith, x, e) | inr x ↦ omega (arith, x, e) ] in
      record {
        word = inr (inl refl);
        holds = λ j h. inl refl;
        unique = λ a b x y. elim (assign_elim Holds i a pc th x) [
          | inl (p, _) ↦ elim (assign_elim Holds i b pc th y) [
            | inl (p', _) ↦ sym p ∙ p'
            | inr (_, y') ↦ absurd (nobody b y')
          ]
          | inr (_, x') ↦ absurd (nobody a x')
        ];
        writer_holds = λ h. absurd (omega (arith, k.writer_holds h, e));
        held = λ x. absurd (omega (arith, x));
        knows = λ j. assign_intro Knows i j pc th (λ _. g) (λ _. k.knows j);
        writer_knows = k.writer_knows;
        stopper_knows = k.stopper_knows;
      }

  -- A call gives the lock up.
  pub leave :
      (w : ℕ) (wr : WriterPc L) (st : StopperPc) (th : ℕ → AppenderPc L) (i w' : ℕ)
      → IsLocked w wr st th
      → Holds (th i)
      → (w' ≡ 8) ⊎ (w' ≡ 2)
      → IsLocked w' wr st (assign i appended th)
  leave w wr st th i w' k mine new =
      let not_mine : (j : ℕ) → Holds (assign i appended th j) → ⊥ = λ j h.
        elim (assign_elim Holds i j appended th h) [
          | inl (e, x) ↦ absurd x
          | inr (e, x) ↦ absurd (e (k.unique i j mine x))
        ] in
      record {
        word = elim new [ inl e ↦ inl e | inr e ↦ inr (inr (inr (inl e))) ];
        holds = λ j h. absurd (not_mine j h);
        unique = λ a b x y. absurd (not_mine a x);
        writer_holds = λ h. absurd (ground (arith, k.writer_holds h, k.holds i mine));
        held = λ x. absurd (ground (arith, x, new));
        knows = λ j. assign_intro Knows i j appended th (λ _. tt) (λ _. k.knows j);
        writer_knows = k.writer_knows;
        stopper_knows = k.stopper_knows;
      }
