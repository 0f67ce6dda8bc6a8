-- ===== src/HttpClient/Request.antt =====
-- The requests that `get` and `post` of src/https/https_client.cpp build.
use learning_network.Prelude.{
  ℕ, ◌+◌, ◌≤◌, ◌≡◌, refl, sym, ap, ◌∙◌, arith, Bool, true, false, if◌then◌else◌, List, [], ◌∷◌,
  ◌++◌, length, Outcome, ok, ◌>>=◌, append_assoc, append-nil, length-append,
}
use learning_network.Buffer.{Buffer, init, initial_size, append, max_size}
use learning_network.Buffer.Invariant.{IsValid, content, init-IsValid, init-content, init-length}
use learning_network.Buffer.Append.{content-append, append_grows}
use learning_network.HttpClient.{decimal}

-- "\r\n" and ": "
abbrev pub crlf : List ℕ
crlf = 13 ∷ 10 ∷ []

abbrev pub colon : List ℕ
colon = 58 ∷ 32 ∷ []

-- "GET ", "POST " and " HTTP/1.1\r\n"
abbrev get_word : List ℕ
get_word = 71 ∷ 69 ∷ 84 ∷ 32 ∷ []

abbrev post_word : List ℕ
post_word = 80 ∷ 79 ∷ 83 ∷ 84 ∷ 32 ∷ []

abbrev http_version : List ℕ
http_version = 32 ∷ 72 ∷ 84 ∷ 84 ∷ 80 ∷ 47 ∷ 49 ∷ 46 ∷ 49 ∷ 13 ∷ 10 ∷ []

-- "Host: ", "Connection: ", "keep-alive\r\n", "close\r\n" and "Content-Length: "
abbrev host_word : List ℕ
host_word = 72 ∷ 111 ∷ 115 ∷ 116 ∷ 58 ∷ 32 ∷ []

abbrev connection_word : List ℕ
connection_word = 67 ∷ 111 ∷ 110 ∷ 110 ∷ 101 ∷ 99 ∷ 116 ∷ 105 ∷ 111 ∷ 110 ∷ 58 ∷ 32 ∷ []

abbrev keep_alive_word : List ℕ
keep_alive_word = 107 ∷ 101 ∷ 101 ∷ 112 ∷ 45 ∷ 97 ∷ 108 ∷ 105 ∷ 118 ∷ 101 ∷ 13 ∷ 10 ∷ []

abbrev close_word : List ℕ
close_word = 99 ∷ 108 ∷ 111 ∷ 115 ∷ 101 ∷ 13 ∷ 10 ∷ []

abbrev content_length_word : List ℕ
content_length_word =
    67 ∷ 111 ∷ 110 ∷ 116 ∷ 101 ∷ 110 ∷ 116 ∷ 45 ∷ 76 ∷ 101 ∷ 110 ∷ 103 ∷ 116 ∷ 104 ∷ 58 ∷ 32 ∷ []

abbrev alive_words : Bool → List ℕ
alive_words keep_alive = if keep_alive then keep_alive_word else close_word

-- One `append` after another.
append_all : List (List ℕ) → Buffer → Outcome Buffer
append_all [] b = ok b
append_all (s ∷ ss) b = append b s >>= λ b'. append_all ss b'

-- The user's headers, in the order in which the map yields them.
append_headers : List (List ℕ × List ℕ) → Buffer → Outcome Buffer
append_headers [] b = ok b
append_headers (h ∷ hs) b =
    append_all (h.0 ∷ colon ∷ h.1 ∷ crlf ∷ []) b >>= λ b'. append_headers hs b'

pub get_request : List ℕ → List ℕ → List (List ℕ × List ℕ) → Bool → Outcome Buffer
get_request path host headers keep_alive =
    append_all
      (get_word
        ∷ path
        ∷ http_version
        ∷ host_word
        ∷ host
        ∷ crlf
        ∷ connection_word
        ∷ alive_words keep_alive
        ∷ [])
      (init initial_size)
    >>= (λ b. append_headers headers b)
    >>= λ b. append_all (crlf ∷ []) b

pub post_request : List ℕ → List ℕ → List (List ℕ × List ℕ) → List ℕ → Bool → Outcome Buffer
post_request path host headers body keep_alive =
    append_all
      (post_word
        ∷ path
        ∷ http_version
        ∷ host_word
        ∷ host
        ∷ crlf
        ∷ connection_word
        ∷ alive_words keep_alive
        ∷ content_length_word
        ∷ decimal (length body)
        ∷ crlf
        ∷ [])
      (init initial_size)
    >>= (λ b. append_headers headers b)
    >>= λ b. append_all (crlf ∷ body ∷ []) b

-- The text of the pieces and of the headers.
abbrev pub joined : List (List ℕ) → List ℕ
joined [] = []
joined (s ∷ ss) = s ++ joined ss

abbrev header_lines : List (List ℕ × List ℕ) → List ℕ
header_lines [] = []
header_lines (h ∷ hs) = (h.0 ++ (colon ++ (h.1 ++ crlf))) ++ header_lines hs

-- A buffer that extends another one by a text.
abbrev Extends : Buffer → List ℕ → Outcome Buffer → Type 0
Extends b s r =
    (b' : Buffer) × (r ≡ ok b')
    × IsValid b'
    × (content b' ≡ content b ++ s)
    × (length b'.buf ≤ length b.buf + length s)

append_all_lem :
    (ss : List (List ℕ)) (b : Buffer)
    → IsValid b
    → length b.buf + length (joined ss) ≤ max_size
    → Extends b (joined ss) (append_all ss b)
unfolding append_all
append_all_lem [] b v h = (b, refl, v, sym (append-nil (content b)), omega arith)
append_all_lem (s ∷ ss) b v h =
    let size = length-append s (joined ss) in
    let (b1, e1, v1, c1) = content-append b s v (omega (arith, size)) in
    let g1 = append_grows b s b1 v (omega (arith, size)) e1 in
    let (b', e, v', c, g) = append_all_lem ss b1 v1 (omega (arith, size)) in
    (
      b',
      rw (e1, e) refl,
      v',
      c ∙ ap (λ xs. xs ++ joined ss) c1 ∙ append_assoc (content b) s (joined ss),
      omega (arith, size),
    )

append_headers_lem :
    (hs : List (List ℕ × List ℕ)) (b : Buffer)
    → IsValid b
    → length b.buf + length (header_lines hs) ≤ max_size
    → Extends b (header_lines hs) (append_headers hs b)
unfolding append_headers
append_headers_lem [] b v h = (b, refl, v, sym (append-nil (content b)), omega arith)
append_headers_lem (k ∷ hs) b v h =
    let line = k.0 ++ (colon ++ (k.1 ++ crlf)) in
    let size = length-append line (header_lines hs) in
    let (b1, e1, v1, c1, g1) =
      append_all_lem (k.0 ∷ colon ∷ k.1 ∷ crlf ∷ []) b v (omega (arith, size)) in
    let (b', e, v', c, g) = append_headers_lem hs b1 v1 (omega (arith, size)) in
    (
      b',
      rw (e1, e) refl,
      v',
      c ∙ ap (λ xs. xs ++ header_lines hs) c1 ∙ append_assoc (content b) line (header_lines hs),
      omega (arith, size),
    )

-- The front, the headers and the end of a request in a new buffer.
request_lem :
    (front back : List (List ℕ)) (hs : List (List ℕ × List ℕ))
    → initial_size + (length (joined front) + (length (header_lines hs) + length (joined back)))
      ≤ max_size
    → (b : Buffer) × ((append_all front (init initial_size) >>= (λ b. append_headers hs b) >>= λ b.
          append_all back b)
        ≡ ok b)
      × IsValid b
      × (content b ≡ joined front ++ (header_lines hs ++ joined back))
request_lem front back hs h =
    let start = init-IsValid initial_size (omega arith) in
    let (b1, e1, v1, c1, g1) =
      append_all_lem front (init initial_size) start
        (omega (arith, init-length {n = initial_size})) in
    let (b2, e2, v2, c2, g2) =
      append_headers_lem hs b1 v1 (omega (arith, init-length {n = initial_size})) in
    let (b3, e3, v3, c3, g3) =
      append_all_lem back b2 v2 (omega (arith, init-length {n = initial_size})) in
    (
      b3,
      rw (e1, e2, e3) refl,
      v3,
      c3
          ∙ ap (λ xs. xs ++ joined back)
              (c2
                ∙ ap (λ xs. xs ++ header_lines hs)
                    (c1 ∙ ap (λ xs. xs ++ joined front) (init-content initial_size)))
          ∙ append_assoc (joined front) (header_lines hs) (joined back),
    )

alive_size :
    (keep_alive : Bool) (xs : List ℕ) → length (alive_words keep_alive ++ xs) ≤ 12 + length xs
alive_size true xs = omega arith
alive_size false xs = omega arith

-- `get` builds the request line, the host, the wish for the connection, the user's headers in their
-- order and an empty line, when the text is short enough for a vector.
pub get_request_lem :
    (path host : List ℕ) (headers : List (List ℕ × List ℕ)) (keep_alive : Bool)
    → length path + length host + length (header_lines headers) + 2000 ≤ max_size
    → (b : Buffer) × (get_request path host headers keep_alive ≡ ok b)
      × IsValid b
      × (content b
          ≡ joined (
              get_word
              ∷ path
              ∷ http_version
              ∷ host_word
              ∷ host
              ∷ crlf
              ∷ connection_word
              ∷ alive_words keep_alive
              ∷ [])
            ++ (header_lines headers ++ crlf))
unfolding get_request
get_request_lem path host headers keep_alive h = request_lem _ (crlf ∷ []) headers (
    omega (
      arith,
      length-append path (
          http_version
          ++ (host_word
              ++ (host ++ (crlf ++ (connection_word ++ (alive_words keep_alive ++ [])))))),
      length-append host (crlf ++ (connection_word ++ (alive_words keep_alive ++ []))),
      alive_size keep_alive [],
    ))

-- `post` also tells the number of the body's bytes in decimal, and ends with the body.
post_request_lem :
    (path host : List ℕ) (headers : List (List ℕ × List ℕ)) (body : List ℕ) (keep_alive : Bool)
    → length path
        + length host
        + length (header_lines headers)
        + length (decimal (length body))
        + length body
        + 2000
      ≤ max_size
    → (b : Buffer) × (post_request path host headers body keep_alive ≡ ok b)
      × IsValid b
      × (content b
          ≡ joined (
              post_word
              ∷ path
              ∷ http_version
              ∷ host_word
              ∷ host
              ∷ crlf
              ∷ connection_word
              ∷ alive_words keep_alive
              ∷ content_length_word
              ∷ decimal (length body)
              ∷ crlf
              ∷ [])
            ++ (header_lines headers ++ (crlf ++ body)))
unfolding post_request
post_request_lem path host headers body keep_alive h =
    let number = decimal (length body) in
    let tail = alive_words keep_alive ++ (content_length_word ++ (number ++ crlf)) in
    let (b, e, v, c) = request_lem _ (crlf ∷ body ∷ []) headers (
      omega (
        arith,
        length-append path
            (http_version ++ (host_word ++ (host ++ (crlf ++ (connection_word ++ tail))))),
        length-append host (crlf ++ (connection_word ++ tail)),
        alive_size keep_alive (content_length_word ++ (number ++ crlf)),
        length-append number crlf,
        length-append body [],
      )) in
    (
      b,
      e,
      v,
      c
          ∙ ap
              (λ xs.
                joined (
                  post_word
                  ∷ path
                  ∷ http_version
                  ∷ host_word
                  ∷ host
                  ∷ crlf
                  ∷ connection_word
                  ∷ alive_words keep_alive
                  ∷ content_length_word
                  ∷ number
                  ∷ crlf
                  ∷ [])
                ++ (header_lines headers ++ (crlf ++ xs)))
              (append-nil body),
    )
