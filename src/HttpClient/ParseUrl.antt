-- ===== src/HttpClient/ParseUrl.antt =====
-- `parse_url_https` of src/https/https_client.cpp and src/https/http_util.cpp.
use learning_network.Prelude.{
  All-append, ℕ, zero, suc, ◌+◌, ◌-◌, ◌/◌, ◌%◌, ◌^◌, ◌≤◌, ◌<◌, ◌≡◌, ◌≢◌, refl, ap, ◌∙◌, arith, true,
  false, List, [], ◌∷◌, ◌++◌, length, All, some, ok, Bool-cases, inl, inr, ltb, ◌==◌, leb,
}
use learning_network.HttpClient.{
  c_str, https_prefix, strip, before_char, from_char, is_digit, is_space, digits_value, stoi,
  stoi_sign, stoi_digits, to_u16, Url, split_port, path_of, parse_rest, parse_stripped,
  parse_url_https, decimal_digits, decimal,
}

c_str_lem : (xs : List ℕ) → All (λ x. x ≢ 0) xs → c_str xs ≡ xs
unfolding c_str
c_str_lem [] h = refl
c_str_lem (x ∷ xs) h = ground (arith, c_str_lem xs h.1)

-- The split at a character that does not occur in front.
before_char_lem :
    (c : ℕ) (xs ys : List ℕ) → All (λ x. x ≢ c) xs → before_char c (xs ++ (c ∷ ys)) ≡ xs
unfolding before_char
before_char_lem c [] ys h = ground arith
before_char_lem c (x ∷ xs) ys h = ground (arith, before_char_lem c xs ys h.1)

from_char_lem :
    (c : ℕ) (xs ys : List ℕ) → All (λ x. x ≢ c) xs → from_char c (xs ++ (c ∷ ys)) ≡ c ∷ ys
unfolding from_char
from_char_lem c [] ys h = ground arith
from_char_lem c (x ∷ xs) ys h = ground (arith, from_char_lem c xs ys h.1)

before_char_none : (c : ℕ) (xs : List ℕ) → All (λ x. x ≢ c) xs → before_char c xs ≡ xs
unfolding before_char
before_char_none c [] h = refl
before_char_none c (x ∷ xs) h = ground (arith, before_char_none c xs h.1)

from_char_none : (c : ℕ) (xs : List ℕ) → All (λ x. x ≢ c) xs → from_char c xs ≡ []
unfolding from_char
from_char_none c [] h = refl
from_char_none c (x ∷ xs) h = ground (arith, from_char_none c xs h.1)

-- A digit character, and a name without the characters that end it.
abbrev IsDigit : ℕ → Type 0
IsDigit x = (48 ≤ x) × (x ≤ 57)

abbrev InHost : ℕ → Type 0
InHost x = (x ≢ 0) × (x ≢ 47) × (x ≢ 58)

All-map : {P Q : ℕ → Type 0} (xs : List ℕ) → ((x : ℕ) → P x → Q x) → All P xs → All Q xs
All-map [] f h = tt
All-map (x ∷ xs) f h = (f x h.0, All-map xs f h.1)

digit_step :
    (n : ℕ) (acc : List ℕ) → digits_value ((48 + n % 10) ∷ acc) (n / 10) ≡ digits_value acc n
unfolding digits_value
digit_step n acc =
    let digit : is_digit (48 + n % 10) ≡ true = ground arith in
    rw digit (ap (digits_value acc) (omega arith))

digits_lem :
    (fuel n : ℕ) (acc : List ℕ)
    → n < fuel
    → All IsDigit acc
    → All IsDigit (decimal_digits fuel n acc)
      × (digits_value (decimal_digits fuel n acc) 0 ≡ digits_value acc n)
      × (1 ≤ length (decimal_digits fuel n acc))
unfolding decimal_digits digits_value
digits_lem zero n acc h a = absurd (omega arith)
digits_lem (suc fuel) n acc h a = elim (Bool-cases (ltb n 10)) [
  | inl t ↦ rw t ((ground arith, a), ground arith, omega arith)
  | inr f ↦
      let (d, v, l) =
        digits_lem fuel (n / 10) ((48 + n % 10) ∷ acc) (ground arith) (omega arith, a) in
      rw f (d, v ∙ digit_step n acc, l)
]

digit_tests :
    (x : ℕ)
    → IsDigit x
    → (is_space x ≡ false) × ((x == 45) ≡ false) × ((x == 43) ≡ false) × (is_digit x ≡ true)
digit_tests x h = (ground arith, ground arith, ground arith, ground arith)

stoi_lem :
    (ds : List ℕ) (v : ℕ)
    → All IsDigit ds
    → 1 ≤ length ds
    → digits_value ds 0 ≡ v
    → v < 2 ^ 31
    → stoi ds ≡ ok (false, v)
unfolding stoi stoi_sign stoi_digits
stoi_lem [] v a l e h = absurd (omega arith)
stoi_lem (x ∷ xs) v a l e h =
    let (t1, t2, t3, t4) = digit_tests x a.0 in
    let small : leb v (2 ^ 31 - 1) ≡ true = ground arith in rw (t1, t2, t3, t4, e, small) refl

-- The parts of a URL that is written out.
rest_without_port :
    (host p : List ℕ)
    → All InHost host
    → parse_rest (host ++ (47 ∷ p)) ≡ ok (record { host = host; port = 443; path = 47 ∷ p })
unfolding parse_rest split_port path_of
rest_without_port host p h =
    rw
      (
        before_char_lem 47 host p (All-map host (λ x k. k.1) h),
        from_char_lem 47 host p (All-map host (λ x k. k.1) h),
        before_char_none 58 host (All-map host (λ x k. k.2) h),
        from_char_none 58 host (All-map host (λ x k. k.2) h),
      )
      refl

port_digits :
    (host : List ℕ) (n : ℕ)
    → All InHost host
    → All (λ x. x ≢ 47) (host ++ (58 ∷ decimal n)) × All (λ x. x ≢ 0) (host ++ (58 ∷ decimal n))
port_digits host n h =
    let d = (digits_lem (suc n) n [] (omega arith) tt).0 in
    (
      All-append (λ x. x ≢ 47) host (58 ∷ decimal n) (All-map host (λ x k. k.1) h)
          (omega arith, All-map (decimal n) (λ x k. omega arith) d),
      All-append (λ x. x ≢ 0) host (58 ∷ decimal n) (All-map host (λ x k. k.0) h)
          (omega arith, All-map (decimal n) (λ x k. omega arith) d),
    )

rest_with_port :
    (host p : List ℕ) (n : ℕ)
    → All InHost host
    → n < 2 ^ 16
    → parse_rest ((host ++ (58 ∷ decimal n)) ++ (47 ∷ p))
      ≡ ok (record { host = host; port = n; path = 47 ∷ p })
unfolding parse_rest split_port path_of to_u16 digits_value
rest_with_port host p n h l =
    let (d, v, k) = digits_lem (suc n) n [] (omega arith) tt in
    let free = (port_digits host n h).0 in
    rw
      (
        before_char_lem 47 (host ++ (58 ∷ decimal n)) p free,
        from_char_lem 47 (host ++ (58 ∷ decimal n)) p free,
        before_char_lem 58 host (decimal n) (All-map host (λ x k. k.2) h),
        from_char_lem 58 host (decimal n) (All-map host (λ x k. k.2) h),
      )
      (rw (stoi_lem (decimal n) n d k v (omega arith))
        (ap (λ q. ok (record { host = host; port = q; path = 47 ∷ p })) (omega arith)))

strip_lem : (s : List ℕ) → strip https_prefix (https_prefix ++ s) ≡ some s
unfolding strip
strip_lem s = refl

whole_lem :
    (s : List ℕ) (u : Url)
    → All (λ x. x ≢ 0) s
    → parse_rest s ≡ ok u
    → parse_url_https (https_prefix ++ s) ≡ ok (some u)
unfolding parse_url_https parse_stripped
whole_lem s u h e =
    ap (λ x. parse_stripped (strip https_prefix x))
      (c_str_lem (https_prefix ++ s) (
        All-append (λ x. x ≢ 0) https_prefix s
          (
            omega arith,
            (
              omega arith,
              (
                omega arith,
                (omega arith, (omega arith, (omega arith, (omega arith, (omega arith, tt))))),
              ),
            ),
          )
          h))
    ∙ ap parse_stripped (strip_lem s)
    ∙ rw e refl

-- A URL that is written out from a host without NUL, `/` and `:`, and a path without NUL, is parsed
-- into them, with port 443; and with a port below 2^16, which is printed in decimal, into that.
pub parse_url_https_lem :
    (host p : List ℕ) (n : ℕ)
    → All InHost host
    → All (λ x. x ≢ 0) p
    → n < 2 ^ 16
    → (parse_url_https (https_prefix ++ (host ++ (47 ∷ p)))
        ≡ ok (some (record { host = host; port = 443; path = 47 ∷ p })))
      × (parse_url_https (https_prefix ++ ((host ++ (58 ∷ decimal n)) ++ (47 ∷ p)))
          ≡ ok (some (record { host = host; port = n; path = 47 ∷ p })))
parse_url_https_lem host p n h k l = (
  whole_lem _ _
      (All-append (λ x. x ≢ 0) host (47 ∷ p) (All-map host (λ x j. j.0) h) (omega arith, k))
      (rest_without_port host p h),
  whole_lem _ _
      (All-append (λ x. x ≢ 0) (host ++ (58 ∷ decimal n)) (47 ∷ p) (port_digits host n h).1
        (omega arith, k))
      (rest_with_port host p n h l),
)
