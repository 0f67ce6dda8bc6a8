-- ===== src/Connection/Input.antt =====
-- `handle_ep_in`, `handle_ep_pri` and `handle_ep_hup` of src/TcpConnection.cpp.
use learning_network.Prelude.{
  ℕ, ◌≤◌, ◌≡◌, refl, arith, List, [], ◌∷◌, ◌++◌, length, true, false, ◌==◌, if◌then◌else◌,
}
use learning_network.Buffer.{Buffer, ReadvResult, got, failed, extra_size}
use learning_network.Connection.{
  Connection, close, message, message_if, ReadEnd, drained, would_block, broken, eof, eintr,
  read_error, hang_up, handle_ep_err, called,
}

-- What the answers say: the bytes before the first one that ends the reading, and how they end it.
abbrev pub received : List ReadvResult → List ℕ
received [] = []
received (failed e ∷ rs) = if e == eintr then received rs else []
received (got [] ∷ rs) = []
received (got (x ∷ xs) ∷ rs) = (x ∷ xs) ++ received rs

abbrev ending : List ReadvResult → ReadEnd
ending [] = drained
ending (failed e ∷ rs) = if e == eintr then ending rs else read_error e
ending (got [] ∷ rs) = eof
ending (got (x ∷ xs) ∷ rs) = ending rs

-- No call returns more than the second segment of `readFd` alone can hold.
abbrev IsSmall : ReadvResult → Type 0
IsSmall (got xs) = length xs ≤ extra_size
IsSmall (failed e) = Unit {0}

hang_up_again : (c : Connection) → c.disconnected ≡ true → hang_up c ≡ c
unfolding hang_up
hang_up_again c h = rw h refl

hang_up_first :
    (c : Connection)
    → c.disconnected ≡ false
    → hang_up c ≡ record c {
      reading = false;
      writing = false;
      disconnected = true;
      calls = c.calls ++ (close ∷ []);
    }
unfolding hang_up called
hang_up_first c h = rw h refl

-- `d` is `c` after `messageCallback_` was called if bytes came, and `c` if none did.
unfoldable pub Told : (Connection → Connection) → List ℕ → Connection → Connection → Type 0
Told on_message [] c d = d ≡ c
Told on_message (x ∷ xs) c d = d ≡ on_message (record c { calls = c.calls ++ (message ∷ []) })

-- `d` is `c` after a hang-up, which does nothing to a connection that is disconnected.
unfoldable pub HungUp : Connection → Connection → Type 0
HungUp c d =
    (c.disconnected ≡ true → d ≡ c)
    × (c.disconnected ≡ false
        → d ≡ record c {
          reading = false;
          writing = false;
          disconnected = true;
          calls = c.calls ++ (close ∷ []);
        })

-- What a reading that brought the bytes and ended that way makes of the connection.
unfoldable pub Reacts :
    (Connection → Connection) → List ℕ → ReadEnd → Connection → Connection → Type 0
unfolding Told HungUp
Reacts on_message w drained c d = Told on_message w c d
Reacts on_message w would_block c d = Told on_message w c d
Reacts on_message w eof c d = (m : Connection) × Told on_message w c m × HungUp m d
Reacts on_message w broken c d = HungUp c d

pub message_if-Told :
    (on_message : Connection → Connection) (w : List ℕ) (c : Connection)
    → Told on_message w c (message_if on_message (length w) c)
unfolding Told message_if called
message_if-Told on_message [] c = refl
message_if-Told on_message (x ∷ xs) c = ground arith

hang_up-disconnected : (c : Connection) → (hang_up c).disconnected ≡ true
unfolding hang_up called
hang_up-disconnected c = ground arith

err_again : (e : ℕ) (c : Connection) → hang_up c ≡ c → handle_ep_err e c ≡ c
unfolding handle_ep_err
err_again e c h = ground arith

-- A hang-up of a connection that is not disconnected stops the listening and tells the user once;
-- after that neither another hang-up nor an error of the socket changes anything.
hang_up_lem :
    (c : Connection) (err : ℕ)
    → ((c.disconnected ≡ false)
        → hang_up c ≡ record c {
          reading = false;
          writing = false;
          disconnected = true;
          calls = c.calls ++ (close ∷ []);
        })
      × (hang_up (hang_up c) ≡ hang_up c)
      × (handle_ep_err err (hang_up c) ≡ hang_up c)
hang_up_lem c err =
    let again = hang_up_again (hang_up c) (hang_up-disconnected c) in
    (hang_up_first c, again, err_again err (hang_up c) again)
