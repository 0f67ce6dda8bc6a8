-- ===== src/HttpClient/Clients.antt =====
-- `get`, `post` and `on_connection` of src/https/https_client.cpp: the requests that wait, and the
-- clients by their URLs.
use learning_network.Prelude.{
  ℕ, ◌≡◌, refl, sym, ◌∙◌, ap, Bool, true, false, ◌&&◌, ◌==◌, ==_refl, if◌then◌else◌, if_intro, List,
  [], ◌∷◌, ◌++◌, map, reverse, append_assoc, Option, none, some, Outcome, ok, ◌>>=◌, inl, inr, Any,
  All, append-nil,
}
use mathlib.Core.List.{reverse-cons}
use learning_network.Buffer.{Buffer}
use learning_network.Buffer.Invariant.{content}
use learning_network.HttpClient.{Url, parse_url_https}
use learning_network.HttpClient.Request.{get_request, post_request}

-- The arguments of a call of `get` or of `post`; the callbacks are left out.
pub record Request : Type 0 where
  pub url : List ℕ
  pub headers : List (List ℕ × List ℕ)
  pub body : Option (List ℕ)
  pub keep_alive : Bool

-- `request_bufs`, and the keys of `clients`, each with what `get_connect` returns.
pub record Clients : Type 0 where
  pub request_bufs : List Buffer
  pub clients : List (List ℕ × Bool)

same_url : List ℕ → List ℕ → Bool
same_url [] [] = true
same_url [] (y ∷ ys) = false
same_url (x ∷ xs) [] = false
same_url (x ∷ xs) (y ∷ ys) = (x == y) && same_url xs ys

-- The client of the URL is made if there is none, and told to connect if it is not.
connect_client : List ℕ → List (List ℕ × Bool) → List (List ℕ × Bool)
unfolding same_url
connect_client url [] = (url, true) ∷ []
connect_client url (c ∷ cs) =
    if same_url url c.0 then (c.0, true) ∷ cs else c ∷ connect_client url cs

unfoldable pub build : Request → Url → Outcome Buffer
build r u = elim r.body [
  | none ↦ get_request u.path u.host r.headers r.keep_alive
  | some body ↦ post_request u.path u.host r.headers body r.keep_alive
]

-- The buffer of a request; `none` when the URL is not one of https, which `errCb` is told.
unfoldable pub request_buffer : Request → Outcome (Option Buffer)
unfolding build
request_buffer r = parse_url_https r.url >>= λ o. elim o [
  | none ↦ ok none
  | some u ↦ build r u >>= λ b. ok (some b)
]

-- `get` and `post`
pub request : Request → Clients → Outcome Clients
unfolding request_buffer connect_client
request r s = request_buffer r >>= λ o. elim o [
  | none ↦ ok s
  | some b ↦
      ok (record s { request_bufs = b ∷ s.request_bufs; clients = connect_client r.url s.clients })
]

pub request_each : List Request → Clients → Outcome Clients
unfolding request
request_each [] s = ok s
request_each (r ∷ rs) s = request r s >>= λ s'. request_each rs s'

-- `on_connection`, for a connection that is up or down: what is sent on it. It does not ask whose
-- connection it is.
pub on_connection : Bool → Clients → List (List ℕ) × Clients
on_connection true s = (map content s.request_bufs, record s { request_bufs = [] })
on_connection false s = ([], s)

-- Each request is built into the buffer beside it.
unfoldable pub AllBuilt : List Request → List Buffer → Type 0
AllBuilt [] [] = Unit
AllBuilt [] (b ∷ bs) = ⊥
AllBuilt (r ∷ rs) [] = ⊥
AllBuilt (r ∷ rs) (b ∷ bs) = (request_buffer r ≡ ok (some b)) × AllBuilt rs bs

-- A client that was told to connect.
abbrev Connects : List ℕ → List ℕ × Bool → Type 0
Connects url c = (same_url url c.0 ≡ true) × (c.1 ≡ true)

pub IsConnecting : List ℕ → List (List ℕ × Bool) → Type 0
IsConnecting url cs = Any (Connects url) cs

same_url_refl : (xs : List ℕ) → same_url xs xs ≡ true
unfolding same_url
same_url_refl [] = refl
same_url_refl (x ∷ xs) = rw (==_refl x) (same_url_refl xs)

connect_client-IsConnecting :
    (url : List ℕ) (cs : List (List ℕ × Bool)) → IsConnecting url (connect_client url cs)
unfolding connect_client IsConnecting
connect_client-IsConnecting url [] = inl (same_url_refl url, refl)
connect_client-IsConnecting url (c ∷ cs) =
    if_intro (Any (Connects url)) (same_url url c.0) {x = (c.0, true) ∷ cs}
      {y = c ∷ connect_client url cs} (λ e. inl (e, refl))
      (λ _. inr (connect_client-IsConnecting url cs))

IsConnecting-connect_client :
    (url url' : List ℕ) (cs : List (List ℕ × Bool))
    → IsConnecting url cs
    → IsConnecting url (connect_client url' cs)
unfolding connect_client IsConnecting
IsConnecting-connect_client url url' [] a = absurd a
IsConnecting-connect_client url url' (c ∷ cs) (inl (e, f)) =
    if_intro (Any (Connects url)) (same_url url' c.0) {x = (c.0, true) ∷ cs}
      {y = c ∷ connect_client url' cs} (λ _. inl (e, refl)) (λ _. inl (e, f))
IsConnecting-connect_client url url' (c ∷ cs) (inr a) =
    if_intro (Any (Connects url)) (same_url url' c.0) {x = (c.0, true) ∷ cs}
      {y = c ∷ connect_client url' cs} (λ _. inr a)
      (λ _. inr (IsConnecting-connect_client url url' cs a))

-- What a run of requests that are built comes to.
request_each_lem :
    (rs : List Request) (bs : List Buffer) (s : Clients)
    → AllBuilt rs bs
    → (s' : Clients) × (request_each rs s ≡ ok s')
      × (s'.request_bufs ≡ reverse bs ++ s.request_bufs)
      × ((url : List ℕ) → IsConnecting url s.clients → IsConnecting url s'.clients)
      × All (λ r. IsConnecting r.url s'.clients) rs
unfolding AllBuilt request_each request
request_each_lem [] [] s a = (s, refl, refl, λ url c. c, tt)
request_each_lem [] (b ∷ bs) s a = absurd a
request_each_lem (r ∷ rs) [] s a = absurd a
request_each_lem (r ∷ rs) (b ∷ bs) s (e, a) =
    let s1 : Clients = record {
      request_bufs = b ∷ s.request_bufs;
      clients = connect_client r.url s.clients;
    } in
    let (s', e', q, keep, all) = request_each_lem rs bs s1 a in
    (
      s',
      rw (e, request) e',
      q
          ∙ sym (append_assoc (reverse bs) (b ∷ []) s.request_bufs)
          ∙ ap (λ xs. xs ++ s.request_bufs) (sym (reverse-cons b bs)),
      λ url c. keep url (IsConnecting-connect_client url r.url s.clients c),
      (keep r.url (connect_client-IsConnecting r.url s.clients), all),
    )

abbrev pub no_clients : Clients
no_clients = record { request_bufs = []; clients = [] }

-- Requests for any URLs, each of which could be built: afterwards the client of every one of the
-- URLs was told to connect, and the connection that comes up first, whichever it is, gets all the
-- requests, those for other hosts as well, the last one first; the next connection gets nothing.
pub on_connection-takes :
    (rs : List Request) (bs : List Buffer)
    → AllBuilt rs bs
    → (s : Clients) × (request_each rs no_clients ≡ ok s)
      × All (λ r. IsConnecting r.url s.clients) rs
      × ((on_connection true s).0 ≡ map content (reverse bs))
      × ((on_connection true (on_connection true s).1).0 ≡ [])
unfolding on_connection
on_connection-takes rs bs a =
    let (s, e, q, _, all) = request_each_lem rs bs no_clients a in
    (s, e, all, ap (map content) (q ∙ append-nil (reverse bs)), refl)
