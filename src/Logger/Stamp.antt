-- ===== src/Logger/Stamp.antt =====
-- The time of a line of src/Loggers/Logger.cpp as text, read back.
use learning_network.Prelude.{
  subst, ℕ, zero, suc, ◌+◌, ◌-◌, ◌/◌, ◌^◌, ◌≤◌, ◌<◌, ◌≡◌, refl, sym, ap, ◌∙◌, arith, List, [], ◌∷◌,
  ◌++◌, length, length-append, length-replicate, length-reverse, replicate, take, drop, take_all,
  drop-drop, take-append_eq, drop-append_eq, append-nil, reverse,
}
use native.Mathlib.Nat.{pow-suc}
use learning_network.LogStream.{ℤ, pos, convert, convert_loop, quotient, is_zero, sign_of}
use learning_network.LogStream.Digits.{
  read_digits, read_digits-reverse, decimal_value, convert_loop_lem, magnitude,
}
use learning_network.Logger.Split.{joined_time, split_time-joined}
use learning_network.Logger.{
  million, split_time, Tm, padded, stamp_text, formated_time, microseconds_to_string,
}

-- The value of a decimal text.
abbrev read_decimal : List ℕ → ℕ
read_decimal cs = read_digits decimal_value 10 0 cs

short_loop : (fuel k n : ℕ) → n < 10 ^ suc k → length (convert_loop fuel (pos n)) ≤ suc k
unfolding convert_loop quotient is_zero
short_loop zero k n h = omega arith
short_loop (suc fuel) zero n h = ground arith
short_loop (suc fuel) (suc k) n h =
    let rest = short_loop fuel k (n / 10) (omega (arith, h, pow-suc 10 (suc k))) in
    ground (arith, rest)

convert_value : (n : ℕ) → n < 10 ^ 20 → read_decimal (convert (pos n)) ≡ n
unfolding convert sign_of magnitude
convert_value n h =
    ap (λ cs. read_decimal (reverse cs)) (append-nil (convert_loop 20 (pos n)))
    ∙ read_digits-reverse decimal_value 10 (convert_loop 20 (pos n))
    ∙ (convert_loop_lem 20 (pos n) h).0

pub convert_short : (k n : ℕ) → n < 10 ^ suc k → length (convert (pos n)) ≤ suc k
unfolding convert sign_of
convert_short k n h = omega (
  arith,
  length-reverse (convert_loop 20 (pos n) ++ []),
  length-append (convert_loop 20 (pos n)) [],
  short_loop 20 k n h,
)

read_zeros : (m : ℕ) (cs : List ℕ) → read_decimal (replicate m 48 ++ cs) ≡ read_decimal cs
unfolding read_digits
read_zeros zero cs = refl
read_zeros (suc m) cs = read_zeros m cs

-- A number that fits is printed with exactly as many characters as asked for.
padded_lem :
    (k n : ℕ)
    → n < 10 ^ suc k
    → n < 10 ^ 20
    → (length (padded (suc k) n) ≡ suc k) × (read_decimal (padded (suc k) n) ≡ n)
unfolding padded
padded_lem k n h h' = (
  omega (
    arith,
    length-append (replicate (suc k - length (convert (pos n))) 48) (convert (pos n)),
    length-replicate {A = ℕ} (suc k - length (convert (pos n))) 48,
    convert_short k n h,
  ),
  read_zeros (suc k - length (convert (pos n))) (convert (pos n)) ∙ convert_value n h',
)

-- What stands behind a separator.
field_at :
    (k a b d c : ℕ) (xs m rest : List ℕ)
    → drop a xs ≡ (c ∷ m) ++ rest
    → length m ≡ k
    → a + 1 ≡ b
    → b + k ≡ d
    → (take k (drop b xs) ≡ m) × (drop d xs ≡ rest)
field_at k a b d c xs m rest e l p q =
    let here : drop b xs ≡ m ++ rest = sym (drop-drop a 1 b xs p) ∙ ap (drop 1) e in
    (
      ap (take k) here ∙ take-append_eq k m rest l,
      sym (drop-drop b k d xs q) ∙ ap (drop k) here ∙ drop-append_eq k m rest l,
    )

-- What `gmtime_r` documents of its fields, for the years that have at most four digits.
pub record IsCalendar (tm : Tm) : Type 0 where
  pub year : tm.year < 10000
  pub mon : tm.mon < 100
  pub mday : tm.mday < 100
  pub hour : tm.hour < 100
  pub min : tm.min < 100
  pub sec : tm.sec < 100

-- A text of 26 characters that gives the fields back.
abbrev pub Reads : Tm → ℕ → List ℕ → Type 0
Reads tm us str =
    (length str ≡ 26)
    × (read_decimal (take 4 str) ≡ tm.year)
    × (read_decimal (take 2 (drop 5 str)) ≡ tm.mon)
    × (read_decimal (take 2 (drop 8 str)) ≡ tm.mday)
    × (read_decimal (take 2 (drop 11 str)) ≡ tm.hour)
    × (read_decimal (take 2 (drop 14 str)) ≡ tm.min)
    × (read_decimal (take 2 (drop 17 str)) ≡ tm.sec)
    × (read_decimal (drop 20 str) ≡ us)

two : (n : ℕ) → n < 100 → (length (padded 2 n) ≡ 2) × (read_decimal (padded 2 n) ≡ n)
two n h = padded_lem 1 n (omega arith) (omega arith)

stamp_text-Reads :
    (tm : Tm) (us : ℕ) → IsCalendar tm → us < million → Reads tm us (stamp_text tm us)
unfolding stamp_text
stamp_text-Reads tm us v h =
    let (ly, ry) = padded_lem 3 tm.year (omega (arith, v.year)) (omega (arith, v.year)) in
    let (lo, ro) = two tm.mon v.mon in
    let (ld, rd) = two tm.mday v.mday in
    let (lh, rh) = two tm.hour v.hour in
    let (lm, rm) = two tm.min v.min in
    let (ls, rs) = two tm.sec v.sec in
    let (lu, ru) = padded_lem 5 us (omega (arith, h)) (omega (arith, h)) in
    let y = padded 4 tm.year in
    let o = padded 2 tm.mon in
    let d = padded 2 tm.mday in
    let h' = padded 2 tm.hour in
    let m = padded 2 tm.min in
    let s = padded 2 tm.sec in
    let u = padded 6 us in
    let r5 = (58 ∷ s) ++ (46 ∷ u) in
    let r4 = (58 ∷ m) ++ r5 in
    let r3 = (32 ∷ h') ++ r4 in
    let r2 = (45 ∷ d) ++ r3 in
    let r1 = (45 ∷ o) ++ r2 in
    let xs = y ++ r1 in
    let (fo, e2) = field_at 2 4 5 7 45 xs o r2 (drop-append_eq 4 y r1 ly) lo refl refl in
    let (fd, e3) = field_at 2 7 8 10 45 xs d r3 e2 ld refl refl in
    let (fh, e4) = field_at 2 10 11 13 32 xs h' r4 e3 lh refl refl in
    let (fm, e5) = field_at 2 13 14 16 58 xs m r5 e4 lm refl refl in
    let (fs, e6) = field_at 2 16 17 19 58 xs s (46 ∷ u) e5 ls refl refl in
    let eu : drop 20 xs ≡ u = sym (drop-drop 19 1 20 xs refl) ∙ ap (drop 1) e6 in
    (
      omega (
        arith,
        length-append y r1,
        length-append o r2,
        length-append d r3,
        length-append h' r4,
        length-append m r5,
        length-append s (46 ∷ u),
        ly,
        lo,
        ld,
        lh,
        lm,
        ls,
        lu,
      ),
      ap read_decimal (take-append_eq 4 y r1 ly) ∙ ry,
      ap read_decimal fo ∙ ro,
      ap read_decimal fd ∙ rd,
      ap read_decimal fh ∙ rh,
      ap read_decimal fm ∙ rm,
      ap read_decimal fs ∙ rs,
      ap read_decimal eu ∙ ru,
    )

-- The time of every line, and of every time before or after the epoch as text: with a calendar whose
-- fields are in range for it and a year of at most four digits, the text has 26 characters, the
-- fields can be read from their places, and the seconds and microseconds give the time back.
-- `formatedTime` makes the same text.
pub microseconds_to_string-Reads :
    (calendar : ℤ → Tm) (t : ℤ) (n : ℕ)
    → IsCalendar (calendar (split_time t).0)
    → Reads (calendar (split_time t).0) (split_time t).1 (microseconds_to_string calendar t)
      × (joined_time (split_time t).0 (split_time t).1 ≡ t)
      × (t ≡ pos n → formated_time calendar n ≡ microseconds_to_string calendar t)
unfolding microseconds_to_string formated_time
microseconds_to_string-Reads calendar t n v =
    let (below, back) = split_time-joined t in
    let str = stamp_text (calendar (split_time t).0) (split_time t).1 in
    let r = stamp_text-Reads (calendar (split_time t).0) (split_time t).1 v below in
    let whole : take 31 str ≡ str = take_all 31 str (omega (arith, r.0)) in
    (
      subst (Reads (calendar (split_time t).0) (split_time t).1) (sym whole) r,
      back,
      λ e.
          ap (λ t'. take 26 (take 31 (stamp_text (calendar (split_time t').0) (split_time t').1)))
            (sym e)
          ∙ take_all 26 (take 31 str) (omega (arith, r.0, ap length whole)),
    )
