-- ===== src/LogStream.antt =====
-- src/Loggers/LogStream.h, src/Loggers/LogStream.cpp: numbers as text, and the buffer that a line is put
-- together in. A character is its code.
pub mod Digits
pub mod Numbers
pub mod Stream
pub mod Tests
use learning_network.Prelude.{
  ℕ, zero, suc, ◌+◌, ◌-◌, ◌/◌, ◌%◌, ◌==◌, Bool, true, false, if◌then◌else◌, leb, List, [], ◌∷◌,
  ◌++◌, reverse, length, get_elem?, Option, none, some, ◌^◌, take, Outcome, ok, fault, bad_access,
  ◌>>=◌,
}

-- An integer of a signed or an unsigned type.
pub data ℤ : Type 0 where
  pos : ℕ → ℤ
  negsuc : ℕ → ℤ

-- `i / 10`, which rounds towards 0, and `zero[i % 10]`, whose index has the sign of `i`.
unfoldable pub quotient : ℤ → ℤ
quotient (pos n) = pos (n / 10)
quotient (negsuc n) = if suc n / 10 == 0 then pos 0 else negsuc (suc n / 10 - 1)

abbrev pub digits : List ℕ
digits =
    57 ∷ 56 ∷ 55 ∷ 54 ∷ 53 ∷ 52 ∷ 51 ∷ 50 ∷ 49 ∷ 48 ∷ 49 ∷ 50 ∷ 51 ∷ 52 ∷ 53 ∷ 54 ∷ 55 ∷ 56 ∷ 57
    ∷ []

abbrev pub char_at : List ℕ → ℕ → ℕ
char_at table i = elim (get_elem? table i) [ none ↦ 0 | some c ↦ c ]

unfoldable pub digit_of : ℤ → ℕ
digit_of (pos n) = char_at digits (9 + n % 10)
digit_of (negsuc n) = char_at digits (9 - suc n % 10)

unfoldable pub is_zero : ℤ → Bool
is_zero (pos n) = n == 0
is_zero (negsuc n) = false

-- The characters that the loop of `convert` writes, in its order.
unfoldable pub convert_loop : ℕ → ℤ → List ℕ
convert_loop zero i = []
convert_loop (suc fuel) i =
    let rest = convert_loop fuel (quotient i) in
    digit_of i ∷ (if is_zero (quotient i) then [] else rest)

unfoldable pub sign_of : ℤ → List ℕ
sign_of (pos n) = []
sign_of (negsuc n) = 45 ∷ []

-- 20 digits are enough for 64 bits.
unfoldable pub convert : ℤ → List ℕ
convert value = reverse (convert_loop 20 value ++ sign_of value)

abbrev pub digits_hex : List ℕ
digits_hex = 48 ∷ 49 ∷ 50 ∷ 51 ∷ 52 ∷ 53 ∷ 54 ∷ 55 ∷ 56 ∷ 57 ∷ 65 ∷ 66 ∷ 67 ∷ 68 ∷ 69 ∷ 70 ∷ []

unfoldable pub convert_hex_loop : ℕ → ℕ → List ℕ
convert_hex_loop zero i = []
convert_hex_loop (suc fuel) i =
    let rest = convert_hex_loop fuel (i / 16) in
    char_at digits_hex (i % 16) ∷ (if i / 16 == 0 then [] else rest)

-- 16 digits are enough for 64 bits.
unfoldable pub convert_hex : ℕ → List ℕ
convert_hex value = reverse (convert_hex_loop 16 value)

-- `FixedBuffer<4096>`, by what it holds.
abbrev pub stream_size : ℕ
stream_size = 4096

abbrev pub max_numeric_size : ℕ
max_numeric_size = 48

abbrev pub room : List ℕ → ℕ
room b = stream_size - length b

-- `FixedBuffer::append`, whose `int len` is the length of the text narrowed to 32 bits; a negative
-- one passes the test and lets `memcpy` overrun the buffer.
unfoldable pub append_text : List ℕ → List ℕ → Outcome (List ℕ)
append_text b str =
    let len = length str % 2 ^ 32 in
    if leb (2 ^ 31) len
    then fault bad_access
    else ok (if leb len (room b) then b ++ take len str else b)

-- What `<<` takes: a string is a pointer that may be null, and a floating-point number what `snprintf`
-- made of it.
pub data Item : Type 0 where
  bool_item : Bool → Item
  int_item : ℤ → Item
  double_item : List ℕ → Item
  pointer_item : ℕ → Item
  string_item : Option (List ℕ) → Item
  char_item : ℕ → Item

-- `operator<<`
unfoldable pub put_item : List ℕ → Item → Outcome (List ℕ)
put_item b (bool_item is) = append_text b (if is then 49 ∷ [] else 48 ∷ [])
put_item b (int_item v) = ok (if leb max_numeric_size (room b) then b ++ convert v else b)
put_item b (double_item str) = ok (if leb max_numeric_size (room b) then b ++ str else b)
put_item b (pointer_item v) =
    ok (if leb max_numeric_size (room b) then b ++ (48 ∷ 120 ∷ convert_hex v) else b)
put_item b (string_item (some str)) = append_text b str
put_item b (string_item none) = append_text b (40 ∷ 110 ∷ 117 ∷ 108 ∷ 108 ∷ 41 ∷ [])
put_item b (char_item c) = append_text b (c ∷ [])

unfoldable pub put_each : List ℕ → List Item → Outcome (List ℕ)
put_each b [] = ok b
put_each b (it ∷ more) = put_item b it >>= λ b'. put_each b' more
