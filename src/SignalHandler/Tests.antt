-- ===== src/SignalHandler/Tests.antt =====
-- Concrete runs of src/SignalHandler.cpp.
use learning_network.Prelude.{
  ℕ, ◌≡◌, refl, List, [], ◌∷◌, ◌++◌, some, Any, inl, ok, fault, bad_function_call,
}
use learning_network.SignalHandler.{
  Signal, sigint, sigterm, zeroed, set_each, set_handle, init_signals, mask_from, received,
  short_read, default_handler, dispatch_signal, call_handler,
}
use learning_network.SignalHandler.Delivered.{WasSet, default_handler-runs}

abbrev setters : List (Signal × ℕ)
setters = (sigint, 7) ∷ (sigterm, 8) ∷ (sigint, 9) ∷ []

sigint_masked : Any (λ k. k ≡ 2) (init_signals (set_each setters zeroed)).mask
unfolding init_signals mask_from set_each set_handle
sigint_masked = inl refl

default_handler-runs_example :
    (h : ℕ) × ((init_signals (set_each setters zeroed)).handlers 2 ≡ some h)
    × WasSet setters 2 h
    × (default_handler (received 2) (init_signals (set_each setters zeroed))
        ≡ ok (record (init_signals (set_each setters zeroed)) {
          ran = (init_signals (set_each setters zeroed)).ran ++ (h ∷ []);
        }))
default_handler-runs_example = default_handler-runs setters 2 sigint_masked

-- After a failed read the number comes from memory that nothing wrote.
stray_signal :
    default_handler (short_read 15) (init_signals (set_each [] zeroed)) ≡ fault bad_function_call
unfolding default_handler dispatch_signal call_handler init_signals set_each
stray_signal = refl
