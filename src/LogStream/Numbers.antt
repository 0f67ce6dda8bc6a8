-- ===== src/LogStream/Numbers.antt =====
-- src/Loggers/LogStream.h, src/Loggers/LogStream.cpp: the text of a number is read back as the number.
use learning_network.Prelude.{
  ℕ, zero, suc, ◌^◌, ◌≤◌, ◌<◌, ◌≡◌, refl, ◌∙◌, ap, arith, ◌==◌, if◌then◌else◌, List, [], ◌∷◌,
  append-nil, reverse, length, length-reverse, All, All-reverse, if_intro, ne→==,
}
use mathlib.Core.List.{reverse-append}
use learning_network.LogStream.{
  ℤ, pos, negsuc, quotient, is_zero, convert_loop, sign_of, convert, convert_hex_loop, convert_hex,
}
use learning_network.LogStream.Digits.{
  read_digits, read_digits-reverse, decimal_value, hex_value, magnitude, digit_of_lem,
  convert_loop_lem, convert_hex_loop_lem,
}

-- A reader of decimal numbers: a sign that may be missing, and digits.
abbrev negate : ℕ → ℤ
negate zero = pos 0
negate (suc n) = negsuc n

unfoldable pub read_signed : List ℕ → ℤ
read_signed [] = pos 0
read_signed (c ∷ cs) =
    if c == 45
    then negate (read_digits decimal_value 10 0 cs)
    else pos (read_digits decimal_value 10 0 (c ∷ cs))

abbrev read_hex : List ℕ → ℕ
read_hex cs = read_digits hex_value 16 0 cs

loop-AtLeast : (fuel : ℕ) (i : ℤ) → All (λ c. 48 ≤ c) (convert_loop fuel i)
unfolding convert_loop
loop-AtLeast zero i = tt
loop-AtLeast (suc fuel) i = (
  omega (arith, digit_of_lem i),
  if_intro (All (λ c. 48 ≤ c)) (is_zero (quotient i)) (λ _. tt)
      (λ _. loop-AtLeast fuel (quotient i)),
)

read_signed_lem :
    (xs : List ℕ) → All (λ c. 48 ≤ c) xs → read_signed xs ≡ pos (read_digits decimal_value 10 0 xs)
unfolding read_signed read_digits
read_signed_lem [] h = refl
read_signed_lem (c ∷ cs) h = rw (ne→== c 45 (λ e. omega (arith, e, h.0))) refl

-- The text that `convert` makes of an integer of up to 64 bits, signed or not, reads back as that
-- integer, and it has at most 21 characters.
pub read_signed-convert :
    (v : ℤ) → magnitude v < 2 ^ 64 → (read_signed (convert v) ≡ v) × (length (convert v) ≤ 21)
unfolding convert sign_of magnitude read_signed
read_signed-convert (pos n) h =
    let loop = convert_loop 20 (pos n) in
    let (value, short) = convert_loop_lem 20 (pos n) (omega (arith, h)) in
    rw (append-nil loop) (
      read_signed_lem (reverse loop) (All-reverse (λ c. 48 ≤ c) loop (loop-AtLeast 20 (pos n)))
          ∙ ap pos (read_digits-reverse decimal_value 10 loop ∙ value),
      rw (length-reverse loop) (omega (arith, short)),
    )
read_signed-convert (negsuc n) h =
    let loop = convert_loop 20 (negsuc n) in
    let (value, short) = convert_loop_lem 20 (negsuc n) (omega (arith, h)) in
    rw (reverse-append loop (45 ∷ [])) (
      ap negate (read_digits-reverse decimal_value 10 loop ∙ value),
      omega (arith, short, length-reverse loop),
    )

-- The same for `convertHex` and 16 characters.
pub read_hex-convert_hex :
    (v : ℕ) → v < 2 ^ 64 → (read_hex (convert_hex v) ≡ v) × (length (convert_hex v) ≤ 16)
unfolding convert_hex
read_hex-convert_hex v h =
    let loop = convert_hex_loop 16 v in
    let (value, short) = convert_hex_loop_lem 16 v (omega (arith, h)) in
    (read_digits-reverse hex_value 16 loop ∙ value, rw (length-reverse loop) (omega (arith, short)))
