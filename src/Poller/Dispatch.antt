-- ===== src/Poller/Dispatch.antt =====
-- `HandleEvent` of src/basics/Channel.cpp: which callbacks are called for the ready events. What a
-- callback does to the channel is an argument.
use learning_network.Prelude.{
  ◌≡◌, refl, ap, ◌∙◌, Bool, true, false, ◌&&◌, ◌||◌, not, if◌then◌else◌, List, [], ◌∷◌, ◌++◌,
  Outcome, ◌>>◌, assert, fault, failed_assert,
}

-- The callbacks that the dispatch knows.
pub data Kind : Type 0 where
  on_err : Kind
  on_hup : Kind
  on_rdhup : Kind
  on_in : Kind
  on_out : Kind

-- `ready_events`
pub record Ready : Type 0 where
  pub err : Bool
  pub hup : Bool
  pub rdhup : Bool
  pub inn : Bool
  pub out : Bool

-- The channel's fields that the dispatch reads and writes, and the callbacks that were called.
pub record Handler : Type 0 where
  pub event_handling : Bool
  pub is_io_channel : Bool
  pub tied : Bool
  pub added_to_loop : Bool
  pub is_set : Kind → Bool
  pub ran : List Kind

module _ (effect : Kind → Handler → Handler) where
  pub call : Kind → Handler → Handler
  call k h = if h.is_set k then effect k (record h { ran = h.ran ++ (k ∷ []) }) else h

  pub call_if : Bool → Kind → Handler → Handler
  unfolding call
  call_if true k h = call k h
  call_if false k h = h

  -- On a hang-up, an untied channel of a connection may still write.
  pub early_out : Ready → Handler → Handler
  unfolding call_if
  early_out r h = call_if (h.is_io_channel && (not h.tied && r.out)) on_out h

  -- `HandleEvent_tied`: the first three events return at once.
  pub tied_event : Ready → Handler → Handler
  unfolding early_out call_if call
  tied_event r h =
      let started = record h { event_handling = true } in
      if r.err
      then call on_err started
      else if r.hup
      then call on_hup (early_out r started)
      else if r.rdhup
      then call on_rdhup (early_out r started)
      else record (call_if r.out on_out (call_if r.inn on_in started)) { event_handling = false }

  -- `HandleEvent`, with whether the tied object is still there.
  pub handle_event : Bool → Ready → Handler → Handler
  handle_event alive r h = if not h.tied || alive then tied_event r h else h

-- The assertions of `~Channel`.
pub destroy : Handler → Outcome (Unit {0})
destroy h = assert (not h.event_handling) >> assert (not h.added_to_loop)

module _ (effect : Kind → Handler → Handler)
    (keeps : (k : Kind) (h : Handler) → (effect k h).event_handling ≡ h.event_handling) where
  call_keeps : (k : Kind) (h : Handler) → (call effect k h).event_handling ≡ h.event_handling
  unfolding call
  call_keeps k h = pick (h.is_set k)
    where
      pick :
          (t : Bool)
          → (if t then effect k (record h { ran = h.ran ++ (k ∷ []) }) else h).event_handling
            ≡ h.event_handling
      pick true = keeps k (record h { ran = h.ran ++ (k ∷ []) })
      pick false = refl

  call_if_keeps :
      (t : Bool) (k : Kind) (h : Handler) → (call_if effect t k h).event_handling ≡ h.event_handling
  unfolding call_if
  call_if_keeps true k h = call_keeps k h
  call_if_keeps false k h = refl

  early_keeps : (r : Ready) (h : Handler) → (early_out effect r h).event_handling ≡ h.event_handling
  unfolding early_out
  early_keeps r h = call_if_keeps (h.is_io_channel && (not h.tied && r.out)) on_out h

  tied_event-handling :
      (e u d : Bool) (r : Ready) (h : Handler)
      → r.err ≡ e
      → r.hup ≡ u
      → r.rdhup ≡ d
      → (tied_event effect r h).event_handling ≡ (e || (u || d))
  unfolding tied_event
  tied_event-handling true u d r h e1 e2 e3 =
      rw e1 (call_keeps on_err (record h { event_handling = true }))
  tied_event-handling false true d r h e1 e2 e3 =
      rw (e1, e2)
        (call_keeps on_hup (early_out effect r (record h { event_handling = true }))
          ∙ early_keeps r (record h { event_handling = true }))
  tied_event-handling false false true r h e1 e2 e3 =
      rw (e1, e2, e3)
        (call_keeps on_rdhup (early_out effect r (record h { event_handling = true }))
          ∙ early_keeps r (record h { event_handling = true }))
  tied_event-handling false false false r h e1 e2 e3 = rw (e1, e2, e3) refl

  alive_lem : (r : Ready) (h : Handler) → handle_event effect true r h ≡ tied_event effect r h
  unfolding handle_event
  alive_lem r h = alive_or h.tied
    where
      alive_or :
          (t : Bool) → (if not t || true then tied_event effect r h else h) ≡ tied_event effect r h
      alive_or true = refl
      alive_or false = refl

  destroy_lem :
      (t : Bool) (h : Handler)
      → h.event_handling ≡ t
      → destroy h ≡ (if t then fault failed_assert else assert (not h.added_to_loop))
  unfolding destroy
  destroy_lem true h e = rw e refl
  destroy_lem false h e = rw e refl

  -- After `HandleEvent` of a channel whose object is there, `eventHandling` is set exactly when the
  -- ready events had an error, a hang-up or a half-close, whatever the callbacks did, as long as
  -- they leave that flag alone; and then the destructor fails its first assertion.
  pub handle_event-handling :
      (r : Ready) (h : Handler)
      → ((handle_event effect true r h).event_handling ≡ (r.err || (r.hup || r.rdhup)))
        × (destroy (handle_event effect true r h) ≡ (
            if r.err || (r.hup || r.rdhup)
            then fault failed_assert
            else assert (not (handle_event effect true r h).added_to_loop)))
  handle_event-handling r h =
      let e =
        ap (λ x. x.event_handling) (alive_lem r h)
        ∙ tied_event-handling r.err r.hup r.rdhup r h refl refl refl in
      (e, destroy_lem (r.err || (r.hup || r.rdhup)) (handle_event effect true r h) e)
