-- ===== src/LogStream/Stream.antt =====
-- src/Loggers/LogStream.h: what is in the buffer of a line.
use learning_network.Prelude.{
  ℕ, ◌+◌, ◌^◌, ◌≤◌, ◌<◌, ◌≡◌, refl, sym, ◌∙◌, ap, arith, true, false, if◌then◌else◌, if_intro, leb,
  leb→le, List, [], ◌∷◌, ◌++◌, append_assoc, append-nil, All, length, length-append, none, some,
  ◌%◌, take_all, Outcome, ok,
}
use learning_network.LogStream.{
  stream_size, max_numeric_size, room, append_text, Item, bool_item, int_item, double_item,
  pointer_item, string_item, char_item, put_item, put_each, convert, convert_hex,
}
use learning_network.LogStream.Digits.{magnitude}
use learning_network.LogStream.Numbers.{read_signed-convert, read_hex-convert_hex}

-- The text of an item.
abbrev text_of : Item → List ℕ
text_of (bool_item true) = 49 ∷ []
text_of (bool_item false) = 48 ∷ []
text_of (int_item v) = convert v
text_of (double_item str) = str
text_of (pointer_item v) = 48 ∷ 120 ∷ convert_hex v
text_of (string_item (some str)) = str
text_of (string_item none) = 40 ∷ 110 ∷ 117 ∷ 108 ∷ 108 ∷ 41 ∷ []
text_of (char_item c) = c ∷ []

unfoldable pub texts : List Item → List ℕ
texts [] = []
texts (it ∷ more) = text_of it ++ texts more

-- The integers have at most 64 bits, `snprintf` with "%.12g" writes fewer than 48 characters, and the
-- length of a string fits an `int`.
abbrev IsPrinted : Item → Type 0
IsPrinted (int_item v) = magnitude v < 2 ^ 64
IsPrinted (double_item str) = length str < max_numeric_size
IsPrinted (pointer_item v) = v < 2 ^ 64
IsPrinted (string_item (some str)) = length str < 2 ^ 31
IsPrinted it = Unit

-- A text goes in whole or not at all; it stays inside, and it goes in when there is room for it and
-- for 48 characters more.
abbrev Fitted : List ℕ → List ℕ → List ℕ → Type 0
Fitted b str b' =
    (length b' ≤ stream_size)
    × (length b + length str + max_numeric_size ≤ stream_size → b' ≡ b ++ str)

Puts : List ℕ → List ℕ → Outcome (List ℕ) → Type 0
Puts b str r = (b' : List ℕ) × (r ≡ ok b') × Fitted b str b'

append_text-Fitted :
    (b str : List ℕ) → length b ≤ stream_size → length str < 2 ^ 31 → Puts b str (append_text b str)
unfolding append_text Puts
append_text-Fitted b str h s =
    let len : length str % 2 ^ 32 ≡ length str = omega (arith, s) in
    let plus : leb (2 ^ 31) (length str) ≡ false = ground (arith, s) in
    (
      (if leb (length str) (room b) then b ++ str else b),
      rw (len, plus, take_all (length str) str (omega arith)) refl,
      if_intro (Fitted b str) (leb (length str) (room b))
          (λ e. (
            rw (length-append b str) (omega (arith, h, leb→le (length str) (room b) e)),
            λ _. refl,
          ))
          (λ e. (h, λ k. absurd (ground (arith, e, k, h)))),
    )

number-Fitted :
    (b str : List ℕ)
    → length b ≤ stream_size
    → length str < max_numeric_size
    → Fitted b str (if leb max_numeric_size (room b) then b ++ str else b)
number-Fitted b str h s =
    if_intro (Fitted b str) (leb max_numeric_size (room b))
      (λ e. (
        rw (length-append b str) (omega (arith, h, s, leb→le max_numeric_size (room b) e)),
        λ _. refl,
      ))
      (λ e. (h, λ k. absurd (ground (arith, e, k, h))))

put_item-Fitted :
    (b : List ℕ) (it : Item)
    → length b ≤ stream_size
    → IsPrinted it
    → Puts b (text_of it) (put_item b it)
unfolding put_item Puts
put_item-Fitted b (bool_item true) h p = append_text-Fitted b (49 ∷ []) h (omega arith)
put_item-Fitted b (bool_item false) h p = append_text-Fitted b (48 ∷ []) h (omega arith)
put_item-Fitted b (int_item v) h p =
    (_, refl, number-Fitted b (convert v) h (omega (arith, (read_signed-convert v p).1)))
put_item-Fitted b (double_item str) h p = (_, refl, number-Fitted b str h p)
put_item-Fitted b (pointer_item v) h p = (
  _,
  refl,
  number-Fitted b (48 ∷ 120 ∷ convert_hex v) h (omega (arith, (read_hex-convert_hex v p).1)),
)
put_item-Fitted b (string_item (some str)) h p = append_text-Fitted b str h p
put_item-Fitted b (string_item none) h p =
    append_text-Fitted b (40 ∷ 110 ∷ 117 ∷ 108 ∷ 108 ∷ 41 ∷ []) h (omega arith)
put_item-Fitted b (char_item c) h p = append_text-Fitted b (c ∷ []) h (omega arith)

-- When integers have at most 64 bits and strings fewer than 2^31 characters: whatever is streamed into a
-- line, no call overruns it and it stays within the 4096 characters of its buffer; and when the texts
-- leave 48 of them free at the end, the line is what was there before and all the texts in order.
pub put_each-texts :
    (b : List ℕ) (items : List Item)
    → length b ≤ stream_size
    → All IsPrinted items
    → (b' : List ℕ) × (put_each b items ≡ ok b')
      × (length b' ≤ stream_size)
      × (length b + length (texts items) + max_numeric_size ≤ stream_size → b' ≡ b ++ texts items)
unfolding put_each texts Puts
put_each-texts b [] h p = (b, refl, h, λ _. sym (append-nil b))
put_each-texts b (it ∷ more) h (p, ps) =
    let (b1, e, fits) = put_item-Fitted b it h p in
    let (inside, whole) = fits in
    let (b', e', inside', whole') = put_each-texts b1 more inside ps in
    (
      b',
      rw e e',
      inside',
      λ k.
          let total = length-append (text_of it) (texts more) in
          let now : b1 ≡ b ++ text_of it = whole (omega (arith, k, total)) in
          whole' (rw (now, length-append b (text_of it)) (omega (arith, k, total)))
          ∙ ap (λ xs. xs ++ texts more) now
          ∙ append_assoc b (text_of it) (texts more),
    )
