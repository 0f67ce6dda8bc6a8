-- ===== src/SignalHandler/Delivered.antt =====
-- Every signal that src/SignalHandler.cpp asks for has a handler.
use learning_network.Prelude.{
  ℕ, zero, suc, ◌≡◌, refl, ◌∙◌, arith, ◌==◌, true, not, ◌&&◌, List, [], ◌∷◌, ◌++◌, some, Any, inl,
  inr, ok, subst, Bool-cases, ==_iff, Bool,
}
use learning_network.SignalHandler.{
  Signal, sigint, sighup, sigterm, sigquit, sigabrt, sigchld, signo, Signals, zeroed, set_handle,
  mask_from, init_signals, call_handler, dispatch_signal, received, default_handler, set_each,
}

-- One of the calls set this handler for the signal.
abbrev pub WasSet : List (Signal × ℕ) → ℕ → ℕ → Type 0
WasSet cs n h = Any (λ c. (signo c.0 ≡ n) × (c.1 ≡ h)) cs

-- What is known of a signal that is cared for, after some calls.
abbrev Known : List (Signal × ℕ) → Signals → ℕ → Type 0
Known cs s n = (h : ℕ) × (s.handlers n ≡ some h) × (WasSet cs n h)

IsReady : List (Signal × ℕ) → Signals → Type 0
IsReady cs s = (n : ℕ) → s.sig_cared n ≡ true → Known cs s n

set_handle-IsReady :
    (cs : List (Signal × ℕ)) (sig : Signal) (h : ℕ) (s : Signals)
    → WasSet cs (signo sig) h
    → IsReady cs s
    → IsReady cs (set_handle sig h s)
unfolding IsReady set_handle
set_handle-IsReady cs sig h s w v n e = elim (Bool-cases (signo sig == n)) [
  | inl t ↦
      let same : signo sig ≡ n = (==_iff (signo sig) n).0 t in
      (h, rw t refl, subst (λ k. WasSet cs k h) same w)
  | inr f ↦ let (h', e', a) = v n (rw f at e) in (h', rw f e', a)
]

set_each-IsReady :
    (all cs : List (Signal × ℕ)) (s : Signals)
    → ((n h : ℕ) → WasSet cs n h → WasSet all n h)
    → IsReady all s
    → IsReady all (set_each cs s)
unfolding set_each
set_each-IsReady all [] s i v = v
set_each-IsReady all (c ∷ cs) s i v =
    set_each-IsReady all cs (set_handle c.0 c.1 s) (λ n h w. i n h (inr w))
      (set_handle-IsReady all c.0 c.1 s (i (signo c.0) c.1 (inl (refl, refl))) v)

mask_cared :
    (left i n : ℕ) (cared : ℕ → Bool) → Any (λ k. k ≡ n) (mask_from left i cared) → cared n ≡ true
unfolding mask_from
mask_cared zero i n cared a = absurd a
mask_cared (suc left) i n cared a = elim (Bool-cases (cared i && not (i == 0))) [
  | inr f ↦ mask_cared left (suc i) n cared (rw f at a)
  | inl t ↦ elim (rw t at a) [
    | inl e ↦ subst (λ k. cared k ≡ true) e (ground (arith, t))
    | inr b ↦ mask_cared left (suc i) n cared b
  ]
]

dispatch_set :
    (sig : Signal) (s : Signals) → dispatch_signal (signo sig) s ≡ call_handler (signo sig) s
unfolding dispatch_signal
dispatch_set sigint s = refl
dispatch_set sighup s = refl
dispatch_set sigterm s = refl
dispatch_set sigquit s = refl
dispatch_set sigabrt s = refl
dispatch_set sigchld s = refl

-- A signal that some call set a handler for is dispatched to the handler that is set now.
dispatch_known :
    (cs : List (Signal × ℕ)) (n h h' : ℕ) (s : Signals)
    → WasSet cs n h
    → s.handlers n ≡ some h'
    → dispatch_signal n s ≡ ok (record s { ran = s.ran ++ (h' ∷ []) })
unfolding call_handler
dispatch_known [] n h h' s w e = absurd w
dispatch_known (c ∷ cs) n h h' s (inr w) e = dispatch_known cs n h h' s w e
dispatch_known (c ∷ cs) n h h' s (inl (k, _)) e =
    subst (λ m. dispatch_signal m s ≡ call_handler m s) k (dispatch_set c.0 s)
    ∙ rw (e, call_handler) refl

zeroed-IsReady : (cs : List (Signal × ℕ)) → IsReady cs zeroed
unfolding IsReady
zeroed-IsReady cs n e = absurd (cc)

-- For an object whose memory was zero, after any calls of the setters and `init`: each signal of the
-- mask has a handler, which one of the calls set for it, and when the signal comes, exactly this
-- handler runs; no empty function is called.
pub default_handler-runs :
    (cs : List (Signal × ℕ)) (n : ℕ)
    → Any (λ k. k ≡ n) (init_signals (set_each cs zeroed)).mask
    → let s = init_signals (set_each cs zeroed) in
      (h : ℕ) × (s.handlers n ≡ some h)
      × WasSet cs n h
      × (default_handler (received n) s ≡ ok (record s { ran = s.ran ++ (h ∷ []) }))
unfolding init_signals default_handler IsReady
default_handler-runs cs n a =
    let ready = set_each-IsReady cs cs zeroed (λ k h w. w) (zeroed-IsReady cs) in
    let (h, e, w) = ready n (mask_cared 65 0 n (set_each cs zeroed).sig_cared a) in
    (h, e, w, dispatch_known cs n h h (init_signals (set_each cs zeroed)) w e)
