-- ===== src/HttpClient.antt =====
-- src/https/https_client.cpp and src/https/http_util.cpp: the URL, the request and the callbacks of
-- the parser llhttp. A character is its byte.
pub mod ParseUrl
pub mod Request
pub mod Response
pub mod Clients
pub mod Tests
use learning_network.Prelude.{
  ℕ, zero, suc, ◌+◌, ◌-◌, ◌*◌, ◌/◌, ◌%◌, ◌^◌, ◌==◌, Bool, true, false, ◌&&◌, ◌||◌, not, List, [],
  ◌∷◌, ◌++◌, if◌then◌else◌, ltb, leb, length, Option, none, some, Outcome, ok, fault, ◌>>=◌,
  invalid_argument, out_of_range,
}
use learning_network.Buffer.{Buffer, init, initial_size, append}

-- `c_str()`, as the C functions read it.
unfoldable pub c_str : List ℕ → List ℕ
c_str [] = []
c_str (x ∷ xs) = if x == 0 then [] else x ∷ c_str xs

-- "https://"
abbrev pub https_prefix : List ℕ
https_prefix = 104 ∷ 116 ∷ 116 ∷ 112 ∷ 115 ∷ 58 ∷ 47 ∷ 47 ∷ []

-- `strncmp(s, prefix, prefix length) == 0`, with what follows the prefix.
unfoldable pub strip : List ℕ → List ℕ → Option (List ℕ)
strip [] s = some s
strip (p ∷ ps) [] = none
strip (p ∷ ps) (x ∷ xs) = if p == x then strip ps xs else none

-- `strchr` and `find`: what is before the first such character, and the rest from there on.
unfoldable pub before_char : ℕ → List ℕ → List ℕ
before_char c [] = []
before_char c (x ∷ xs) = if x == c then [] else x ∷ before_char c xs

unfoldable pub from_char : ℕ → List ℕ → List ℕ
from_char c [] = []
from_char c (x ∷ xs) = if x == c then x ∷ xs else from_char c xs

abbrev pub is_digit : ℕ → Bool
is_digit x = leb 48 x && leb x 57

abbrev pub is_space : ℕ → Bool
is_space x = (x == 32) || (leb 9 x && leb x 13)

-- `std::stoi`: spaces, a sign, and at least one digit; the value must fit an `int`.
unfoldable pub digits_value : List ℕ → ℕ → ℕ
digits_value [] acc = acc
digits_value (x ∷ xs) acc = if is_digit x then digits_value xs (acc * 10 + (x - 48)) else acc

pub stoi_digits : Bool → List ℕ → Outcome (Bool × ℕ)
stoi_digits negative [] = fault invalid_argument
stoi_digits negative (x ∷ xs) =
    let v = digits_value (x ∷ xs) 0 in
    let limit = if negative then 2 ^ 31 else 2 ^ 31 - 1 in
    if is_digit x
    then (if leb v limit then ok (negative, v) else fault out_of_range)
    else fault invalid_argument

pub stoi_sign : List ℕ → Outcome (Bool × ℕ)
stoi_sign [] = fault invalid_argument
stoi_sign (x ∷ xs) =
    if x == 45
    then stoi_digits true xs
    else if x == 43
    then stoi_digits false xs
    else stoi_digits false (x ∷ xs)

pub stoi : List ℕ → Outcome (Bool × ℕ)
stoi [] = fault invalid_argument
stoi (x ∷ xs) = let rest = stoi xs in if is_space x then rest else stoi_sign (x ∷ xs)

-- `static_cast<uint16_t>`
pub to_u16 : Bool × ℕ → ℕ
to_u16 (false, v) = v % 2 ^ 16
to_u16 (true, v) = (2 ^ 16 - v % 2 ^ 16) % 2 ^ 16

-- The host, the port and the path.
pub record Url : Type 0 where
  pub host : List ℕ
  pub port : ℕ
  pub path : List ℕ

-- The split of `hostPort` at its colon.
pub split_port : List ℕ → List ℕ → List ℕ → Outcome Url
split_port host [] path = ok (record { host = host; port = 443; path = path })
split_port host (colon ∷ digits) path =
    stoi digits >>= λ p. ok (record { host = host; port = to_u16 p; path = path })

pub path_of : List ℕ → List ℕ
path_of [] = 47 ∷ []
path_of (x ∷ xs) = x ∷ xs

pub parse_rest : List ℕ → Outcome Url
parse_rest s =
    let host_port = before_char 47 s in
    split_port (before_char 58 host_port) (from_char 58 host_port) (path_of (from_char 47 s))

-- `parse_url_https`; `none` is its `false`.
pub parse_stripped : Option (List ℕ) → Outcome (Option Url)
parse_stripped none = ok none
parse_stripped (some s) = parse_rest s >>= λ u. ok (some u)

pub parse_url_https : List ℕ → Outcome (Option Url)
parse_url_https url = parse_stripped (strip https_prefix (c_str url))

-- `std::to_string` of a number: the digits before the ones that are already there.
unfoldable pub decimal_digits : ℕ → ℕ → List ℕ → List ℕ
decimal_digits zero n acc = acc
decimal_digits (suc fuel) n acc =
    let rest = decimal_digits fuel (n / 10) ((48 + n % 10) ∷ acc) in
    if ltb n 10 then (48 + n) ∷ acc else rest

abbrev pub decimal : ℕ → List ℕ
decimal n = decimal_digits (suc n) n []
