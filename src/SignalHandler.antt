-- ===== src/SignalHandler.antt =====
-- src/SignalHandler.cpp: the handlers of the signals that a program cares for, and their dispatch. A
-- handler is a number; the members `handle_sig_int` to `handle_sig_child` are one function of the
-- signal's number. What `read` gives is an argument.
pub mod Delivered
pub mod Tests
use learning_network.Prelude.{
  ℕ, zero, suc, ◌==◌, Bool, true, false, not, ◌&&◌, if◌then◌else◌, List, [], ◌∷◌, ◌++◌, Option,
  none, some, assign, Outcome, ok, fault, bad_function_call,
}

-- The signals that have a setter.
pub data Signal : Type 0 where
  sigint : Signal
  sighup : Signal
  sigterm : Signal
  sigquit : Signal
  sigabrt : Signal
  sigchld : Signal

abbrev pub signo : Signal → ℕ
signo sigint = 2
signo sighup = 1
signo sigterm = 15
signo sigquit = 3
signo sigabrt = 6
signo sigchld = 17

pub record Signals : Type 0 where
  pub handlers : ℕ → Option ℕ
  pub sig_cared : ℕ → Bool
  pub mask : List ℕ
  pub ran : List ℕ

-- An object whose memory was zero, as for a static one: nothing else initialises `sig_cared`.
abbrev pub zeroed : Signals
zeroed = record { handlers = λ n. none; sig_cared = λ n. false; mask = []; ran = [] }

-- `set_handle_int`, `set_handle_hup`, `set_handle_term`, `set_handle_quit`, `set_handle_abort`,
-- `set_handle_child`
unfoldable pub set_handle : Signal → ℕ → Signals → Signals
set_handle sig h s = record s {
  handlers = assign (signo sig) (some h) s.handlers;
  sig_cared = assign (signo sig) true s.sig_cared;
}

-- The loop of `init` with `sigaddset`, which refuses 0.
unfoldable pub mask_from : ℕ → ℕ → (ℕ → Bool) → List ℕ
mask_from zero i cared = []
mask_from (suc left) i cared =
    let rest = mask_from left (suc i) cared in if cared i && not (i == 0) then i ∷ rest else rest

-- `init`: from now on the signals of the mask come through the descriptor.
unfoldable pub init_signals : Signals → Signals
unfolding mask_from
init_signals s = record s { mask = mask_from 65 0 s.sig_cared }

-- The call of a `std::function`, which throws when it is empty.
unfoldable pub call_handler : ℕ → Signals → Outcome Signals
call_handler n s = elim (s.handlers n) [
  | none ↦ fault bad_function_call
  | some h ↦ ok (record s { ran = s.ran ++ (h ∷ []) })
]

-- The `switch` of `default_handler`.
unfoldable pub dispatch_signal : ℕ → Signals → Outcome Signals
unfolding call_handler
dispatch_signal n s =
    if n == 2
    then call_handler 2 s
    else if n == 3
    then call_handler 3 s
    else if n == 1
    then call_handler 1 s
    else if n == 15
    then call_handler 15 s
    else if n == 17
    then call_handler 17 s
    else if n == 6
    then call_handler 6 s
    else ok s

-- What `read` gave: a whole `signalfd_siginfo`, or less, where `ssi_signo` is what was in memory.
pub data SignalRead : Type 0 where
  received : ℕ → SignalRead
  short_read : ℕ → SignalRead

-- `default_handler`: the `switch` is reached after a failed read as well.
unfoldable pub default_handler : SignalRead → Signals → Outcome Signals
default_handler (received n) s = dispatch_signal n s
default_handler (short_read junk) s = dispatch_signal junk s

-- Calls of the setters, in their order.
unfoldable pub set_each : List (Signal × ℕ) → Signals → Signals
set_each [] s = s
set_each (c ∷ cs) s = set_each cs (set_handle c.0 c.1 s)
