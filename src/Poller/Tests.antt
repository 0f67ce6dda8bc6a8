-- ===== src/Poller/Tests.antt =====
-- Concrete runs of the channels and the poller of src/basics.
use learning_network.Prelude.{ℕ, ◌≡◌, [], ◌∷◌, ok}
use learning_network.Poller.{Poller, enable_read, enable_write, disable_all, disable_write}
use learning_network.Poller.Update.{Agrees, use_all, no_channels, use_all-Agrees}

use_all-Agrees_example :
    (p : Poller) × (use_all
        ((enable_read, 5) ∷ (enable_write, 5) ∷ (disable_all, 5) ∷ (disable_write, 7) ∷ [])
        no_channels
      ≡ ok p)
    × ((j : ℕ) → Agrees j (p.channels j) (p.watched j))
use_all-Agrees_example =
    use_all-Agrees
      ((enable_read, 5) ∷ (enable_write, 5) ∷ (disable_all, 5) ∷ (disable_write, 7) ∷ [])
