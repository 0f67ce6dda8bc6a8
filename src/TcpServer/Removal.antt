-- ===== src/TcpServer/Removal.antt =====
-- src/TcpServer.cpp: the end of a connection.
use learning_network.Prelude.{
  ℕ, suc, ◌≡◌, ◌≢◌, refl, sym, ◌∙◌, ap, arith, inl, inr, Bool-cases, ◌==◌, ==_refl, ne→==, List, [],
  ◌∷◌, length, none, some, ok, fault, failed_assert, erase, lookup, Ascending, lookup-erase,
  erase-Ascending,
}
use learning_network.TcpServer.{ServedConnection, Server, remove_connection_in_loop}

module _ {V : Type 0} where
  length-erase-some :
      (k : ℕ) (v : V) (m : List (ℕ × V)) → lookup k m ≡ some v → suc (length (erase k m)) ≡ length m
  unfolding lookup erase
  length-erase-some k v [] h = absurd (cc)
  length-erase-some k v ((j, w) ∷ m) h = elim (Bool-cases (j == k)) [
    | inl e ↦ rw e refl
    | inr e ↦ rw e (ap suc (length-erase-some k v m (rw e at h)))
  ]

  length-erase-none : (k : ℕ) (m : List (ℕ × V)) → lookup k m ≡ none → length (erase k m) ≡ length m
  unfolding lookup erase
  length-erase-none k [] h = refl
  length-erase-none k ((j, w) ∷ m) h = elim (Bool-cases (j == k)) [
    | inl e ↦ absurd (some_none w (rw e at h))
    | inr e ↦ rw e (ap suc (length-erase-none k m (rw e at h)))
  ]
    where
      some_none : (v : V) → some v ≡ none → ⊥
      some_none v e = absurd (cc)

module _ {ℓ} {Addr : Type ℓ} where
  remove_missing :
      (name : ℕ) (s : Server Addr)
      → lookup name s.connections ≡ none
      → remove_connection_in_loop name s ≡ fault failed_assert
  unfolding remove_connection_in_loop
  remove_missing name s h =
      rw
        (ne→== (suc (length (erase name s.connections))) (length s.connections)
          (λ e. absurd (omega (arith, e, length-erase-none name s.connections h))))
        refl

  -- A connection that the server has is forgotten, and every other one stays; when the same connection
  -- is removed once more, as after `handle_sig_int` has erased it and then its close callback comes, the
  -- assertion fails. The names ascend, as in every map.
  pub remove_once :
      (name : ℕ) (c : ServedConnection) (s : Server Addr)
      → Ascending 0 s.connections
      → lookup name s.connections ≡ some c
      → (s' : Server Addr) × (remove_connection_in_loop name s ≡ ok s')
        × ((k : ℕ) → k ≢ name → lookup k s'.connections ≡ lookup k s.connections)
        × Ascending 0 s'.connections
        × (remove_connection_in_loop name s' ≡ fault failed_assert)
  unfolding remove_connection_in_loop
  remove_once name c s a h =
      let s' = record s { connections = erase name s.connections } in
      (
        s',
        rw (length-erase-some name c s.connections h, ==_refl (length s.connections)) refl,
        (λ k ne.
            lookup-erase name k 0 s.connections a
            ∙ rw (ne→== name k (λ e. absurd (ne (sym e)))) refl),
        erase-Ascending name 0 s.connections a,
        remove_missing name s' (lookup-erase name name 0 s.connections a ∙ rw (==_refl name) refl),
      )
