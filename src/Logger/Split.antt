-- ===== src/Logger/Split.antt =====
-- The seconds and microseconds of src/Loggers/Logger.cpp, and the name of a source file.
use learning_network.Prelude.{ℕ, zero, suc, ◌+◌, ◌-◌, ◌*◌, ◌/◌, ◌%◌, ◌≤◌, ◌<◌, ◌≡◌, ap, ◌∙◌, arith}
use learning_network.LogStream.{ℤ, pos, negsuc}
use learning_network.Logger.{million, negated, adjust, split_time}

-- The time that lies so many microseconds after the begin of a second.
abbrev pub joined_time : ℤ → ℕ → ℤ
joined_time (pos s) us = pos (s * million + us)
joined_time (negsuc s) us = negsuc (suc s * million - us - 1)

negative_split :
    (q r : ℕ)
    → r < million
    → 1 ≤ q * million + r
    → let (s, us) = adjust (negated q) (negated r) in
      (us < million) × (joined_time s us ≡ negsuc (q * million + r - 1))
negative_split zero zero h k = absurd (omega arith)
negative_split (suc q) zero h k = (omega arith, ap negsuc (omega arith))
negative_split zero (suc r) h k = (omega arith, ap negsuc (omega arith))
negative_split (suc q) (suc r) h k = (omega arith, ap negsuc (omega arith))

-- For every time, before the epoch as well, the microseconds are fewer than a million, and with the
-- seconds they give the time back: the division rounds down.
pub split_time-joined :
    (t : ℤ) → let (s, us) = split_time t in (us < million) × (joined_time s us ≡ t)
unfolding split_time
split_time-joined (pos n) = (omega arith, ap pos (omega arith))
split_time-joined (negsuc n) =
    let (a, b) = negative_split (suc n / million) (suc n % million) (omega arith) (omega arith) in
    (a, b ∙ ap negsuc (omega arith))
