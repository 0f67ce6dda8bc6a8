-- ===== src/LogStream/Tests.antt =====
-- Concrete texts of src/Loggers/LogStream.h, and its properties at concrete inputs.
use learning_network.Prelude.{
  ◌+◌, ◌≤◌, ◌<◌, ◌^◌, ◌≡◌, refl, arith, true, List, [], ◌∷◌, ◌++◌, length, none, some, ok, ℕ,
}
use learning_network.LogStream.{
  negsuc, convert, convert_loop, convert_hex, convert_hex_loop, quotient, digit_of, is_zero,
  sign_of, stream_size, max_numeric_size, Item, bool_item, int_item, string_item, put_each,
}
use learning_network.LogStream.Digits.{magnitude}
use learning_network.LogStream.Numbers.{read_signed, read_signed-convert}
use learning_network.LogStream.Stream.{texts, put_each-texts}

-- "-120"
minus_120 : convert (negsuc 119) ≡ 45 ∷ 49 ∷ 50 ∷ 48 ∷ []
unfolding convert convert_loop quotient digit_of is_zero sign_of
minus_120 = refl

-- "BEEF"
beef : convert_hex 48879 ≡ 66 ∷ 69 ∷ 69 ∷ 70 ∷ []
unfolding convert_hex convert_hex_loop
beef = refl

small : magnitude (negsuc 119) < 2 ^ 64
unfolding magnitude
small = omega arith

read_signed-convert_example :
    (read_signed (convert (negsuc 119)) ≡ negsuc 119) × (length (convert (negsuc 119)) ≤ 21)
read_signed-convert_example = read_signed-convert (negsuc 119) small

abbrev items : List Item
items =
    string_item (some (97 ∷ 61 ∷ []))
    ∷ int_item (negsuc 119)
    ∷ string_item none
    ∷ bool_item true
    ∷ []

put_each-texts_example :
    (b' : List ℕ) × (put_each (90 ∷ []) items ≡ ok b')
    × (length b' ≤ stream_size)
    × (1 + length (texts items) + max_numeric_size ≤ stream_size → b' ≡ (90 ∷ []) ++ texts items)
put_each-texts_example =
    put_each-texts (90 ∷ []) items (omega arith) (omega arith, (small, (tt, (tt, tt))))
