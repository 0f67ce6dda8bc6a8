-- ===== src/TcpServer/Accepting.antt =====
-- src/basics/Acceptor.cpp, src/TcpServer.cpp: what one event on the listening socket does.
use native.Mathlib.Nat.{mod-add-mod}
use learning_network.Prelude.{
  ℕ, zero, suc, ◌+◌, ◌*◌, ◌%◌, ◌<◌, ◌≡◌, refl, ◌∙◌, ap, arith, inl, inr, Bool-cases, ◌==◌, ne→==,
  ==_refl, if◌then◌else◌, List, [], ◌∷◌, length, map, get_elem?, Option, none, some, assign,
  assign_self, lookup, lookup-insert,
}
use learning_network.TcpServer.{
  Server, Answer, accepted, get_next_loop, new_connection, accept_loop, handle_read,
}

module _ {ℓ} {Addr : Type ℓ} where
  -- The loop that the `j`th of the next connections goes to.
  abbrev pub loop_at : Server Addr → ℕ → Option ℕ
  loop_at s j = if s.loop_count == 0 then none else some ((s.next + suc j) % s.loop_count)

  abbrev pub answer_of : ℕ × Addr → Answer Addr
  answer_of c = accepted c.0 c.1

  abbrev from_some : (ℕ × Addr) → Option (ℕ × Addr) → ℕ × Addr
  from_some d none = d
  from_some d (some c) = c

  -- The address that was accepted last.
  abbrev pub last_addr : Addr → List (ℕ × Addr) → Addr
  last_addr a [] = a
  last_addr a (c ∷ cs) = last_addr c.1 cs

  first_loop : (s : Server Addr) → (get_next_loop s).0 ≡ loop_at s 0
  unfolding get_next_loop
  first_loop s = elim (Bool-cases (s.loop_count == 0)) [
    | inl e ↦ rw e refl
    | inr e ↦ rw e (ap (λ x. some (x % s.loop_count)) (omega arith))
  ]

  -- What is left of the server after a connection.
  new_connection-lookup :
      (fd peer k : ℕ) (s : Server Addr)
      → lookup k (new_connection fd peer s).connections ≡ (
          if s.next_conn_id == k
          then some (record { fd = fd; loop = loop_at s 0; peer = peer })
          else lookup k s.connections)
  unfolding new_connection get_next_loop
  new_connection-lookup fd peer k s =
      lookup-insert s.next_conn_id k _ s.connections
      ∙ ap
          (λ l.
            if s.next_conn_id == k
            then some (record { fd = fd; loop = l; peer = peer })
            else lookup k s.connections)
          (first_loop s)

  next_loops :
      (fd peer j : ℕ) (s : Server Addr) → loop_at (new_connection fd peer s) j ≡ loop_at s (suc j)
  unfolding new_connection get_next_loop
  next_loops fd peer j s = elim (Bool-cases (s.loop_count == 0)) [
    | inl e ↦ rw e refl
    | inr e ↦ rw e (
        ap some (
          mod-add-mod (suc s.next) s.loop_count (suc j)
          ∙ ap (λ x. x % s.loop_count) {x = suc s.next + suc j} {y = s.next + suc (suc j)}
              (omega arith)))
  ]

  -- The server after one answer of `accept`.
  abbrev next_server : ℕ × Addr → ℕ → Server Addr → Server Addr
  next_server c peer s =
      new_connection c.0 peer
        (record s { peers = assign peer c.1 s.peers; accepts = suc s.accepts })

  next_id :
      (c : ℕ × Addr) (peer : ℕ) (s : Server Addr)
      → (next_server c peer s).next_conn_id ≡ suc s.next_conn_id
  unfolding new_connection
  next_id c peer s = refl

  accept_loop-accepts :
      (cs : List (ℕ × Addr)) (budget peer : ℕ) (s : Server Addr)
      → (accept_loop (map answer_of cs) budget peer s).accepts ≡ s.accepts + 2 * length cs + budget
  unfolding accept_loop new_connection
  accept_loop-accepts [] budget peer s = omega arith
  accept_loop-accepts (c ∷ cs) budget peer s =
      omega (arith, accept_loop-accepts cs (suc budget) peer (next_server c peer s))

  accept_loop-peers :
      (cs : List (ℕ × Addr)) (budget peer : ℕ) (s : Server Addr)
      → (accept_loop (map answer_of cs) budget peer s).peers peer ≡ last_addr (s.peers peer) cs
  unfolding accept_loop new_connection
  accept_loop-peers [] budget peer s = refl
  accept_loop-peers (c ∷ cs) budget peer s =
      accept_loop-peers cs (suc budget) peer (next_server c peer s)
      ∙ ap (λ a. last_addr a cs) (assign_self peer c.1 s.peers)

  accept_loop-older :
      (cs : List (ℕ × Addr)) (budget peer k : ℕ) (s : Server Addr)
      → k < s.next_conn_id
      → lookup k (accept_loop (map answer_of cs) budget peer s).connections ≡ lookup k s.connections
  unfolding accept_loop
  accept_loop-older [] budget peer k s h = refl
  accept_loop-older (c ∷ cs) budget peer k s h =
      accept_loop-older cs (suc budget) peer k (next_server c peer s)
        (omega (arith, h, next_id c peer s))
      ∙ new_connection-lookup c.0 peer k _
      ∙ rw (ne→== s.next_conn_id k (λ e. omega (arith, e, h))) refl

  accept_loop-lookup :
      (cs : List (ℕ × Addr)) (budget peer j : ℕ) (s : Server Addr) (c : ℕ × Addr)
      → get_elem? cs j ≡ some c
      → lookup (s.next_conn_id + j) (accept_loop (map answer_of cs) budget peer s).connections
        ≡ some (record { fd = c.0; loop = loop_at s j; peer = peer })
  unfolding accept_loop
  accept_loop-lookup [] budget peer j s c e = absurd (cc)
  accept_loop-lookup (d ∷ cs) budget peer zero s c e =
      let s' = next_server d peer s in
      let same : d ≡ c = ap (λ o. from_some d o) e in
      ap (λ k. lookup k (accept_loop (map answer_of cs) (suc budget) peer s').connections)
        {x = s.next_conn_id + 0} {y = s.next_conn_id} (omega arith)
      ∙ accept_loop-older cs (suc budget) peer s.next_conn_id s' (omega (arith, next_id d peer s))
      ∙ new_connection-lookup d.0 peer s.next_conn_id _
      ∙ rw (==_refl s.next_conn_id)
          (ap (λ x. some (record { fd = x.0; loop = loop_at s 0; peer = peer })) same)
  accept_loop-lookup (d ∷ cs) budget peer (suc j) s c e =
      let s' = next_server d peer s in
      ap (λ k. lookup k (accept_loop (map answer_of cs) (suc budget) peer s').connections)
        {x = s.next_conn_id + suc j} {y = s'.next_conn_id + j} (omega (arith, next_id d peer s))
      ∙ accept_loop-lookup cs (suc budget) peer j s' c e
      ∙ ap (λ l. some (record { fd = c.0; loop = l; peer = peer })) (next_loops d.0 peer j _)

  -- One event on the listening socket, with new connections and then only errors from `accept`: each
  -- connection gets the next name and the next loop of the pool in turn; all of them share one address
  -- object, which in the end holds the address of the last; and `accept` is called twice for each of
  -- them and 32 times more.
  pub handle_read_batch :
      (cs : List (ℕ × Addr)) (s : Server Addr)
      → let s' = handle_read (map answer_of cs) s in
        ((j : ℕ) (c : ℕ × Addr)
          → get_elem? cs j ≡ some c
          → lookup (s.next_conn_id + j) s'.connections
            ≡ some (record { fd = c.0; loop = loop_at s j; peer = s.next_peer }))
        × (s'.peers s.next_peer ≡ last_addr (s.peers s.next_peer) cs)
        × (s'.accepts ≡ s.accepts + 2 * length cs + 32)
  unfolding handle_read
  handle_read_batch cs s =
      let t = record s { next_peer = suc s.next_peer } in
      (
        λ j c e. accept_loop-lookup cs 32 s.next_peer j t c e,
        accept_loop-peers cs 32 s.next_peer t,
        accept_loop-accepts cs 32 s.next_peer t,
      )
