-- ===== src/HttpClient/Tests.antt =====
-- Concrete runs of the HTTPS client of src/https/https_client.cpp.
use learning_network.Prelude.{
  ℕ, ◌≡◌, refl, arith, true, false, [], ◌∷◌, ◌++◌, ok, none, some, length, map, reverse, All,
}
use learning_network.Buffer.{Buffer}
use learning_network.Buffer.Invariant.{content}
use learning_network.HttpClient.{https_prefix, decimal, decimal_digits, parse_url_https}
use learning_network.HttpClient.Request.{get_request, get_request_lem}
use learning_network.HttpClient.Clients.{
  Request, Clients, build, request_buffer, request_each, no_clients, AllBuilt, IsConnecting,
  on_connection, on_connection-takes,
}
use learning_network.HttpClient.ParseUrl.{parse_url_https_lem}
use learning_network.HttpClient.Response.{
  Client, empty_response, on_status, on_header_field, on_header_val, on_header_complete, on_body,
  on_msg_complete, parse_ok, on_message, reset_parser, on_message_lem,
}

parse_url_https_lem_example :
    (parse_url_https (https_prefix ++ ((97 ∷ 46 ∷ 98 ∷ []) ++ (47 ∷ (120 ∷ []))))
      ≡ ok (some (record { host = 97 ∷ 46 ∷ 98 ∷ []; port = 443; path = 47 ∷ 120 ∷ [] })))
    × (parse_url_https
          (https_prefix ++ (((97 ∷ 46 ∷ 98 ∷ []) ++ (58 ∷ decimal 8443)) ++ (47 ∷ (120 ∷ []))))
        ≡ ok (some (record { host = 97 ∷ 46 ∷ 98 ∷ []; port = 8443; path = 47 ∷ 120 ∷ [] })))
parse_url_https_lem_example =
    parse_url_https_lem (97 ∷ 46 ∷ 98 ∷ []) (120 ∷ []) 8443
      (
        (omega arith, omega arith, omega arith),
        ((omega arith, omega arith, omega arith), ((omega arith, omega arith, omega arith), tt)),
      )
      (omega arith, tt) (omega arith)

one_digit : length (decimal 2) ≡ 1
unfolding decimal_digits
one_digit = refl

abbrev new_client : Client
new_client = record {
  response = empty_response;
  cur_header_field = [];
  cur_header_val = [];
  headers_complete = false;
  msg_complete = false;
  delivered = [];
  shutdowns = 0;
}

on_message_lem_example :
    (d : Client) × (on_message empty_response
        (on_status 200
          ∷ on_header_field (65 ∷ [])
          ∷ on_header_val (66 ∷ [])
          ∷ on_header_complete
          ∷ on_body (1 ∷ [])
          ∷ on_body (2 ∷ [])
          ∷ on_msg_complete
          ∷ [])
        parse_ok
        (reset_parser empty_response new_client)
      ≡ reset_parser empty_response d)
    × (d.delivered ≡ record { status_code = 200; headers = []; body = 1 ∷ 2 ∷ [] } ∷ [])
on_message_lem_example =
    on_message_lem empty_response empty_response
      (on_status 200
        ∷ on_header_field (65 ∷ [])
        ∷ on_header_val (66 ∷ [])
        ∷ on_header_complete
        ∷ on_body (1 ∷ [])
        ∷ on_body (2 ∷ [])
        ∷ on_msg_complete
        ∷ [])
      new_client refl

abbrev site : ℕ → Request
site c = record {
  url = https_prefix ++ ((c ∷ []) ++ (47 ∷ (120 ∷ [])));
  headers = [];
  body = none;
  keep_alive = false;
}

built : (c : ℕ) → (b : Buffer) × (get_request (47 ∷ 120 ∷ []) (c ∷ []) [] false ≡ ok b)
built c =
    let (b, e, _, _) = get_request_lem (47 ∷ 120 ∷ []) (c ∷ []) [] false (omega arith) in (b, e)

site_a : request_buffer (site 97) ≡ ok (some (built 97).0)
unfolding request_buffer build
site_a =
    let e =
      (parse_url_https_lem (97 ∷ []) (120 ∷ []) 443 ((omega arith, omega arith, omega arith), tt)
        (omega arith, tt) (omega arith)).0 in
    rw (e, (built 97).1) refl

site_b : request_buffer (site 98) ≡ ok (some (built 98).0)
unfolding request_buffer build
site_b =
    let e =
      (parse_url_https_lem (98 ∷ []) (120 ∷ []) 443 ((omega arith, omega arith, omega arith), tt)
        (omega arith, tt) (omega arith)).0 in
    rw (e, (built 98).1) refl

sites-AllBuilt : AllBuilt (site 97 ∷ site 98 ∷ []) ((built 97).0 ∷ (built 98).0 ∷ [])
unfolding AllBuilt
sites-AllBuilt = (site_a, (site_b, tt))

on_connection-takes_example :
    (s : Clients) × (request_each (site 97 ∷ site 98 ∷ []) no_clients ≡ ok s)
    × All (λ r. IsConnecting r.url s.clients) (site 97 ∷ site 98 ∷ [])
    × ((on_connection true s).0 ≡ map content (reverse ((built 97).0 ∷ (built 98).0 ∷ [])))
    × ((on_connection true (on_connection true s).1).0 ≡ [])
on_connection-takes_example =
    on_connection-takes (site 97 ∷ site 98 ∷ []) ((built 97).0 ∷ (built 98).0 ∷ []) sites-AllBuilt
