-- ===== src/Wrtc/Stack/Connect.antt =====
-- How Connect ends, and what is left after Close.
use gotgcall.Wrtc.Stack.{
  Blocking, ConnectResult, Handshake, Stack, connect_stack, good_params, Parsed, bad_mode,
  bad_params, close_stack, local_params_error,
}
use gotgcall.Models.{connected, Error, client_closed}
use gotgcall.Base.{
  false, has_some, none, true, ◌≡◌, ◌⊎◌, Bool, Option, arith, not, some, ◌&&◌, ◌||◌,
}

abbrev pub no_error : Option Error → Bool
no_error none = true
no_error (some e) = false

abbrev pub is_good : Parsed → Bool
is_good good_params = true
is_good bad_mode = false
is_good bad_params = false

-- Every step of the handshake succeeds.
abbrev pub passes : Handshake → Bool
passes h =
    is_good h.parsed
    && no_error h.delay
    && no_error h.accept
    && no_error h.server
    && no_error h.shake
    && no_error h.keys

module _ (h : Handshake) where
  -- Nobody else acts on the stack.
  abbrev pub alone : Blocking → Stack → Stack
  alone b s = s

  -- On success the media can flow; an error leaves the tracks, the reports and the state alone.
  abbrev pub Ends : Stack → ConnectResult → Type 0
  Ends s r =
      ((r.1 ≡ none)
        × (s.stack_closed ≡ false)
        × (passes h ≡ true)
        × (r.0.attached ≡ true)
        × (r.0.draining ≡ true)
        × (r.0.net ≡ connected))
      ⊎ ((has_some r.1 ≡ true)
          × ((s.stack_closed || not (passes h)) ≡ true)
          × (r.0.attached ≡ s.attached)
          × (r.0.draining ≡ s.draining)
          × (r.0.net ≡ s.net)
          × (r.0.reports ≡ s.reports))

  -- Connect by itself returns no error just when the stack is open and every step succeeds, and the
  -- tracks are then attached, the drain runs and the stack is Connected; on an error it leaves the
  -- tracks, the state and its reports as they were.
  pub connect_stack-Ends : (s : Stack) → Ends s (connect_stack h alone s)
  unfolding connect_stack
  connect_stack-Ends s = ground arith

  close_stack-closed : (s : Stack) → (close_stack s).stack_closed ≡ true
  unfolding close_stack
  close_stack-closed s = ground arith

  closed-connect :
      (others : Blocking → Stack → Stack) (s : Stack)
      → s.stack_closed ≡ true
      → connect_stack h others s ≡ (s, some client_closed)
  unfolding connect_stack
  closed-connect others s c = ground arith

  closed-params : (s : Stack) → s.stack_closed ≡ true → local_params_error s ≡ some client_closed
  unfolding local_params_error
  closed-params s c = ground arith

  closed-close : (s : Stack) → s.stack_closed ≡ true → close_stack s ≡ s
  unfolding close_stack
  closed-close s c = ground arith

  -- A closed stack stays as it is: Connect returns ErrClosed whatever the parameters, LocalParams
  -- does so too, and closing again does nothing.
  pub close_stack-final :
      (others : Blocking → Stack → Stack) (s : Stack)
      → let s' = close_stack s in
        (connect_stack h others s' ≡ (s', some client_closed))
        × (local_params_error s' ≡ some client_closed)
        × (close_stack s' ≡ s')
  close_stack-final others s =
      let c = close_stack-closed s in
      (
        closed-connect others (close_stack s) c,
        closed-params (close_stack s) c,
        closed-close (close_stack s) c,
      )
