-- ===== src/HttpClient/Response.antt =====
-- The parser's callbacks and `on_message` of src/https/https_client.cpp. What llhttp makes of the bytes
-- that came, the callbacks that it calls in their order and its result, is an argument.
use mathlib.Core.Path.{ap₂}
use learning_network.Prelude.{
  ℕ, suc, ◌≡◌, refl, sym, ap, subst, ◌∙◌, Bool, true, false, ◌&&◌, not, if◌then◌else◌, List, [],
  ◌∷◌, ◌++◌, append_assoc, append-nil,
}

pub record Response : Type 0 where
  pub status_code : ℕ
  pub headers : List (List ℕ × List ℕ)
  pub body : List ℕ

-- The fields of `http_client` that the callbacks touch, the responses handed to the user, and the
-- number of shutdowns.
pub record Client : Type 0 where
  pub response : Response
  pub cur_header_field : List ℕ
  pub cur_header_val : List ℕ
  pub headers_complete : Bool
  pub msg_complete : Bool
  pub delivered : List Response
  pub shutdowns : ℕ

pub data Callback : Type 0 where
  on_status : ℕ → Callback
  on_header_field : List ℕ → Callback
  on_header_val : List ℕ → Callback
  on_body : List ℕ → Callback
  on_header_complete : Callback
  on_msg_complete : Callback

pub is_nil : List ℕ → Bool
is_nil [] = true
is_nil (x ∷ xs) = false

-- `response.headers[f] = v`, with the newest header in front.
add_header : Client → Client
add_header c = record c {
  response = record c.response {
    headers = (c.cur_header_field, c.cur_header_val) ∷ c.response.headers;
  };
}

-- The callbacks. `on_header_field` appends the name to a local copy of `cur_header_field`, which is
-- lost.
pub callback : Callback → Client → Client
callback (on_status s) c = record c { response = record c.response { status_code = s } }
callback (on_header_field at) c =
    if not (is_nil c.cur_header_field) && not (is_nil c.cur_header_val) then add_header c else c
callback (on_header_val at) c = record c { cur_header_val = c.cur_header_val ++ at }
callback (on_body at) c = record c { response = record c.response { body = c.response.body ++ at } }
callback on_header_complete c =
    record (if not (is_nil c.cur_header_field) then add_header c else c) { headers_complete = true }
callback on_msg_complete c = record c { msg_complete = true }

pub callbacks : List Callback → Client → Client
callbacks [] c = c
callbacks (k ∷ ks) c = callbacks ks (callback k c)

abbrev pub empty_response : Response
empty_response = record { status_code = 0; headers = []; body = [] }

-- `resetParser`. Its `memset` over `response`, which holds a string and a map, is undefined: what is
-- there afterwards is an argument.
pub reset_parser : Response → Client → Client
reset_parser wiped c = record c {
  response = wiped;
  cur_header_field = [];
  cur_header_val = [];
  headers_complete = false;
  msg_complete = false;
}

pub data ParseResult : Type 0 where
  parse_ok : ParseResult
  parse_paused : ParseResult
  parse_error : ParseResult

after_parse : Response → ParseResult → Client → Client
unfolding reset_parser
after_parse wiped parse_ok c =
    if c.msg_complete
    then reset_parser wiped (record c { delivered = c.delivered ++ (c.response ∷ []) })
    else c
after_parse wiped parse_paused c = c
after_parse wiped parse_error c = record c { shutdowns = suc c.shutdowns }

pub on_message : Response → List Callback → ParseResult → Client → Client
on_message wiped ks r c = after_parse wiped r (callbacks ks c)

-- What the callbacks say: the bytes of the body, the last status, and whether the message ended.
abbrev body_of : List Callback → List ℕ
body_of [] = []
body_of (on_body at ∷ ks) = at ++ body_of ks
body_of (on_status s ∷ ks) = body_of ks
body_of (on_header_field at ∷ ks) = body_of ks
body_of (on_header_val at ∷ ks) = body_of ks
body_of (on_header_complete ∷ ks) = body_of ks
body_of (on_msg_complete ∷ ks) = body_of ks

abbrev status_of : List Callback → ℕ → ℕ
status_of [] s = s
status_of (on_status s ∷ ks) s' = status_of ks s
status_of (on_body at ∷ ks) s = status_of ks s
status_of (on_header_field at ∷ ks) s = status_of ks s
status_of (on_header_val at ∷ ks) s = status_of ks s
status_of (on_header_complete ∷ ks) s = status_of ks s
status_of (on_msg_complete ∷ ks) s = status_of ks s

abbrev pub ended : List Callback → Bool → Bool
ended [] m = m
ended (on_msg_complete ∷ ks) m = ended ks true
ended (on_status s ∷ ks) m = ended ks m
ended (on_body at ∷ ks) m = ended ks m
ended (on_header_field at ∷ ks) m = ended ks m
ended (on_header_val at ∷ ks) m = ended ks m
ended (on_header_complete ∷ ks) m = ended ks m

-- What callbacks leave of a client that has stored no header name.
abbrev After : List Callback → Client → Client → Type 0
After ks c c' =
    (c'.response ≡ record {
      status_code = status_of ks c.response.status_code;
      headers = c.response.headers;
      body = c.response.body ++ body_of ks;
    })
    × (c'.cur_header_field ≡ [])
    × (c'.msg_complete ≡ ended ks c.msg_complete)
    × (c'.delivered ≡ c.delivered)
    × (c'.shutdowns ≡ c.shutdowns)

is_nil_lem : (xs : List ℕ) → xs ≡ [] → is_nil xs ≡ true
unfolding is_nil
is_nil_lem xs h = simp (h)

field_lem :
    (at : List ℕ) (c : Client)
    → is_nil c.cur_header_field ≡ true
    → callback (on_header_field at) c ≡ c
unfolding callback
field_lem at c h = rw h refl

complete_lem :
    (c : Client)
    → is_nil c.cur_header_field ≡ true
    → callback on_header_complete c ≡ record c { headers_complete = true }
unfolding callback
complete_lem c h = rw h refl

callbacks_lem :
    (ks : List Callback) (c : Client) → c.cur_header_field ≡ [] → After ks c (callbacks ks c)
unfolding callbacks callback
callbacks_lem [] c h = (
  ap (λ b. record { status_code = c.response.status_code; headers = c.response.headers; body = b })
      (sym (append-nil c.response.body)),
  h,
  refl,
  refl,
  refl,
)
callbacks_lem (on_status s ∷ ks) c h = callbacks_lem ks (callback (on_status s) c) h
callbacks_lem (on_header_val at ∷ ks) c h = callbacks_lem ks (callback (on_header_val at) c) h
callbacks_lem (on_msg_complete ∷ ks) c h = callbacks_lem ks (callback on_msg_complete c) h
callbacks_lem (on_header_field at ∷ ks) c h =
    subst (After (on_header_field at ∷ ks) c)
      (ap (callbacks ks) (sym (field_lem at c (is_nil_lem _ h)))) (callbacks_lem ks c h)
callbacks_lem (on_header_complete ∷ ks) c h =
    subst (After (on_header_complete ∷ ks) c)
      (ap (callbacks ks) (sym (complete_lem c (is_nil_lem _ h))))
      (callbacks_lem ks (record c { headers_complete = true }) h)
callbacks_lem (on_body at ∷ ks) c h =
    let (r, f, m, d, s) = callbacks_lem ks (callback (on_body at) c) h in
    (
      r
          ∙ ap
              (λ b. record {
                status_code = status_of ks c.response.status_code;
                headers = c.response.headers;
                body = b;
              })
              (append_assoc c.response.body at (body_of ks)),
      f,
      m,
      d,
      s,
    )

delivers :
    (wiped : Response) (e : Client)
    → e.msg_complete ≡ true
    → after_parse wiped parse_ok e
      ≡ reset_parser wiped (record e { delivered = e.delivered ++ (e.response ∷ []) })
unfolding after_parse reset_parser
delivers wiped e h = rw h refl

-- A whole response that llhttp reads in one piece after a reset, whatever the reset leaves of
-- the response before it: whatever header names and values llhttp reports, the user gets, once, the
-- status, the headers that were there after the reset and no others, and what was there of the body
-- followed by all of the body in order; and the client is reset again.
pub on_message_lem :
    (wiped wiped' : Response) (ks : List Callback) (c : Client)
    → ended ks false ≡ true
    → (d : Client) × (on_message wiped' ks parse_ok (reset_parser wiped c) ≡ reset_parser wiped' d)
      × (d.delivered
          ≡ c.delivered
            ++ (record {
              status_code = status_of ks wiped.status_code;
              headers = wiped.headers;
              body = wiped.body ++ body_of ks;
            }
                ∷ []))
unfolding on_message after_parse reset_parser
on_message_lem wiped wiped' ks c h =
    let (r, f, m, d, s) = callbacks_lem ks (reset_parser wiped c) refl in
    let e = callbacks ks (reset_parser wiped c) in
    let done : e.msg_complete ≡ true = m ∙ h in
    (
      record e { delivered = e.delivered ++ (e.response ∷ []) },
      delivers wiped' e done,
      ap₂ (λ ds x. ds ++ (x ∷ [])) d r,
    )
