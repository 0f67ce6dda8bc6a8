-- ===== src/LogStream/Digits.antt =====
-- src/Loggers/LogStream.h: the digits, read back.
use native.Mathlib.Nat.{pow-suc}
use learning_network.Prelude.{
  ℕ, zero, suc, ◌+◌, ◌-◌, ◌*◌, ◌/◌, ◌%◌, ◌^◌, ◌≤◌, ◌<◌, ◌≡◌, refl, sym, ◌∙◌, arith, ltb, ◌==◌,
  ==_iff, if◌then◌else◌, if_intro, List, [], ◌∷◌, ◌++◌, reverse, length,
}
use mathlib.Core.List.{reverse-cons}
use learning_network.LogStream.{
  ℤ, pos, negsuc, quotient, digits, char_at, digit_of, is_zero, convert_loop, digits_hex,
  convert_hex_loop,
}

-- The value of the digits of a base, the last first, and of the characters of a text, the first first.
unfoldable pub little_value : (ℕ → ℕ) → ℕ → List ℕ → ℕ
little_value f base [] = 0
little_value f base (c ∷ cs) = f c + base * little_value f base cs

unfoldable pub read_digits : (ℕ → ℕ) → ℕ → ℕ → List ℕ → ℕ
read_digits f base acc [] = acc
read_digits f base acc (c ∷ cs) = read_digits f base (acc * base + f c) cs

read_digits-append :
    (f : ℕ → ℕ) (base acc c : ℕ) (cs : List ℕ)
    → read_digits f base acc (cs ++ (c ∷ [])) ≡ read_digits f base acc cs * base + f c
unfolding read_digits
read_digits-append f base acc c [] = refl
read_digits-append f base acc c (d ∷ cs) = read_digits-append f base (acc * base + f d) c cs

pub read_digits-reverse :
    (f : ℕ → ℕ) (base : ℕ) (cs : List ℕ)
    → read_digits f base 0 (reverse cs) ≡ little_value f base cs
unfolding little_value read_digits
read_digits-reverse f base [] = refl
read_digits-reverse f base (c ∷ cs) =
    rw
      (reverse-cons c cs, read_digits-append f base 0 c (reverse cs), read_digits-reverse f base cs)
      (omega arith)

abbrev pub decimal_value : ℕ → ℕ
decimal_value c = c - 48

-- The digits of hexadecimal numbers, and their letters.
unfoldable pub hex_value : ℕ → ℕ
hex_value c = if ltb c 65 then c - 48 else c - 55

below_ten : (r : ℕ) → r < 10 → (char_at digits (9 + r) ≡ 48 + r) × (char_at digits (9 - r) ≡ 48 + r)
below_ten zero h = (refl, refl)
below_ten (suc zero) h = (refl, refl)
below_ten (suc (suc zero)) h = (refl, refl)
below_ten (suc (suc (suc zero))) h = (refl, refl)
below_ten (suc (suc (suc (suc zero)))) h = (refl, refl)
below_ten (suc (suc (suc (suc (suc zero))))) h = (refl, refl)
below_ten (suc (suc (suc (suc (suc (suc zero)))))) h = (refl, refl)
below_ten (suc (suc (suc (suc (suc (suc (suc zero))))))) h = (refl, refl)
below_ten (suc (suc (suc (suc (suc (suc (suc (suc zero)))))))) h = (refl, refl)
below_ten (suc (suc (suc (suc (suc (suc (suc (suc (suc zero))))))))) h = (refl, refl)
below_ten (suc (suc (suc (suc (suc (suc (suc (suc (suc (suc r)))))))))) h =
    absurd (omega (arith, h))

below_sixteen : (r : ℕ) → r < 16 → hex_value (char_at digits_hex r) ≡ r
unfolding hex_value
below_sixteen zero h = refl
below_sixteen (suc zero) h = refl
below_sixteen (suc (suc zero)) h = refl
below_sixteen (suc (suc (suc zero))) h = refl
below_sixteen (suc (suc (suc (suc zero)))) h = refl
below_sixteen (suc (suc (suc (suc (suc zero))))) h = refl
below_sixteen (suc (suc (suc (suc (suc (suc zero)))))) h = refl
below_sixteen (suc (suc (suc (suc (suc (suc (suc zero))))))) h = refl
below_sixteen (suc (suc (suc (suc (suc (suc (suc (suc zero)))))))) h = refl
below_sixteen (suc (suc (suc (suc (suc (suc (suc (suc (suc zero))))))))) h = refl
below_sixteen (suc (suc (suc (suc (suc (suc (suc (suc (suc (suc zero)))))))))) h = refl
below_sixteen (suc (suc (suc (suc (suc (suc (suc (suc (suc (suc (suc zero))))))))))) h = refl
below_sixteen (suc (suc (suc (suc (suc (suc (suc (suc (suc (suc (suc (suc zero)))))))))))) h = refl
below_sixteen (suc (suc (suc (suc (suc (suc (suc (suc (suc (suc (suc (suc (suc zero))))))))))))) h =
    refl
below_sixteen
      (suc (suc (suc (suc (suc (suc (suc (suc (suc (suc (suc (suc (suc (suc zero)))))))))))))) h =
    refl
below_sixteen
      (suc (suc (suc (suc (suc (suc (suc (suc (suc (suc (suc (suc (suc (suc (suc zero)))))))))))))))
      h =
    refl
below_sixteen
      (suc
        (suc (suc (suc (suc (suc (suc (suc (suc (suc (suc (suc (suc (suc (suc (suc r))))))))))))))))
      h =
    absurd (omega (arith, h))

unfoldable pub magnitude : ℤ → ℕ
magnitude (pos n) = n
magnitude (negsuc n) = suc n

magnitude-quotient : (i : ℤ) → magnitude (quotient i) ≡ magnitude i / 10
unfolding magnitude quotient
magnitude-quotient (pos n) = refl
magnitude-quotient (negsuc n) =
    if_intro (λ x. magnitude x ≡ suc n / 10) (suc n / 10 == 0) (λ e. ground (arith, e))
      (λ e. ground (arith, e))

is_zero_lem : (i : ℤ) → is_zero i ≡ (magnitude i == 0)
unfolding magnitude is_zero
is_zero_lem (pos n) = refl
is_zero_lem (negsuc n) = ground arith

pub digit_of_lem : (i : ℤ) → digit_of i ≡ 48 + magnitude i % 10
unfolding digit_of magnitude
digit_of_lem (pos n) = (below_ten (n % 10) (omega arith)).0
digit_of_lem (negsuc n) = (below_ten (suc n % 10) (omega arith)).1

fewer : (n k : ℕ) → n < 10 ^ suc k → n / 10 < 10 ^ k
fewer n k h = omega (arith, h, pow-suc 10 k)

fewer_hex : (n k : ℕ) → n < 16 ^ suc k → n / 16 < 16 ^ k
fewer_hex n k h = omega (arith, h, pow-suc 16 k)

pub convert_loop_lem :
    (fuel : ℕ) (i : ℤ)
    → magnitude i < 10 ^ fuel
    → (little_value decimal_value 10 (convert_loop fuel i) ≡ magnitude i)
      × (length (convert_loop fuel i) ≤ fuel)
unfolding little_value convert_loop
convert_loop_lem zero i h = (omega (arith, h), omega arith)
convert_loop_lem (suc fuel) i h =
    let (v, l) =
      convert_loop_lem fuel (quotient i) (rw (magnitude-quotient i) (fewer (magnitude i) fuel h)) in
    if_intro
      (λ cs.
        (decimal_value (digit_of i) + 10 * little_value decimal_value 10 cs ≡ magnitude i)
        × (suc (length cs) ≤ suc fuel))
      (is_zero (quotient i))
      (λ e.
        let none_left =
          (==_iff (magnitude (quotient i)) 0).0 (sym (is_zero_lem (quotient i)) ∙ e) in
        (omega (arith, digit_of_lem i, magnitude-quotient i, none_left), omega arith))
      (λ _. (omega (arith, digit_of_lem i, magnitude-quotient i, v), omega (arith, l)))

pub convert_hex_loop_lem :
    (fuel i : ℕ)
    → i < 16 ^ fuel
    → (little_value hex_value 16 (convert_hex_loop fuel i) ≡ i)
      × (length (convert_hex_loop fuel i) ≤ fuel)
unfolding little_value convert_hex_loop
convert_hex_loop_lem zero i h = (omega (arith, h), omega arith)
convert_hex_loop_lem (suc fuel) i h =
    let (v, l) = convert_hex_loop_lem fuel (i / 16) (fewer_hex i fuel h) in
    if_intro
      (λ cs.
        (hex_value (char_at digits_hex (i % 16)) + 16 * little_value hex_value 16 cs ≡ i)
        × (suc (length cs) ≤ suc fuel))
      (i / 16 == 0)
      (λ e.
        let none_left = (==_iff (i / 16) 0).0 e in
        (omega (arith, below_sixteen (i % 16) (omega arith), none_left), omega arith))
      (λ _. (omega (arith, below_sixteen (i % 16) (omega arith), v), omega (arith, l)))
