-- ===== src/Wrtc/Stack/History.antt =====
-- Everything that happens to a stack: the ICE agent reports, and users connect and close it, also
-- while another goroutine is inside Connect.
use gotgcall.Wrtc.Stack.Reports.{IsHeard, transition_to-IsHeard, run_callback-IsHeard, count}
use gotgcall.Wrtc.Stack.{
  Blocking, Handshake, IceState, Stack, attach, close_stack, connect_keys, connect_stack,
  ice_closed, ice_completed, ice_connected, ice_disconnected, ice_failed, ice_other, on_agent_state,
  transition_to, Parsed, bad_mode, bad_params, connect_accept, connect_delay, connect_parsed,
  connect_server, connect_shake, good_params, in_accept, in_delay, in_keys, in_server, in_shake,
  listen, new_stack, top_layer, run_callback,
}
use gotgcall.Models.{ConnState, closed, connected, disconnected, failed, Error, client_closed}
use gotgcall.Base.{
  List, [], none, some, true, ◌∷◌, Option, arith, false, if◌then◌else◌, length, length-append, refl,
  ℕ, ◌++◌, ◌≡◌, inr,
}

-- What can happen at any moment.
pub data SideEvent : Type 0 where
  agent_reports : IceState → SideEvent
  closes_stack : SideEvent
  calls_back : ℕ → SideEvent

unfoldable pub side_event : SideEvent → Stack → Stack
side_event (agent_reports i) s = on_agent_state i s
side_event closes_stack s = close_stack s
side_event (calls_back n) s = run_callback n s

unfoldable pub side_events : List SideEvent → Stack → Stack
side_events [] s = s
side_events (e ∷ es) s = side_events es (side_event e s)

-- A call of Connect comes with what happens during each of its steps.
pub data StackEvent : Type 0 where
  side : SideEvent → StackEvent
  connects : Handshake → (Blocking → List SideEvent) → StackEvent

unfoldable pub stack_event : StackEvent → Stack → Stack
stack_event (side e) s = side_event e s
stack_event (connects h during) s = (connect_stack h (λ b. side_events (during b)) s).0

unfoldable pub stack_history : List StackEvent → Stack → Stack
stack_history [] s = s
stack_history (e ∷ es) s = stack_history es (stack_event e s)

-- What every event keeps: a property kept by each change of state and by Close, which does not look
-- at the handshake's own fields.
pub record IsKept (P : Stack → Type 0) : Type 0 where
  pub moves : (next : ConnState) (s : Stack) → P s → P (transition_to next s)
  pub closes : (s : Stack) → P s → P (close_stack s)
  pub calls : (n : ℕ) (s : Stack) → P s → P (run_callback n s)
  pub gets_ice : (s : Stack) → P s → P (record s { has_ice = true })
  pub gets_dtls : (s : Stack) → P s → P (record s { has_dtls = true })
  pub attaches : (s : Stack) → P s → P (attach s)

module _ {P : Stack → Type 0} (k : IsKept P) where
  side_event-keeps : (e : SideEvent) (s : Stack) → P s → P (side_event e s)
  unfolding side_event on_agent_state
  side_event-keeps (agent_reports ice_connected) s v = v
  side_event-keeps (agent_reports ice_completed) s v = v
  side_event-keeps (agent_reports ice_disconnected) s v = k.moves disconnected s v
  side_event-keeps (agent_reports ice_failed) s v = k.moves failed s v
  side_event-keeps (agent_reports ice_closed) s v = k.moves closed s v
  side_event-keeps (agent_reports ice_other) s v = v
  side_event-keeps closes_stack s v = k.closes s v
  side_event-keeps (calls_back n) s v = k.calls n s v

  side_events-keeps : (es : List SideEvent) (s : Stack) → P s → P (side_events es s)
  unfolding side_events
  side_events-keeps [] s v = v
  side_events-keeps (e ∷ es) s v = side_events-keeps es (side_event e s) (side_event-keeps e s v)

  keys-keeps : (o : Option Error) (s : Stack) → P s → P (connect_keys o s).0
  unfolding connect_keys
  keys-keeps none s v = k.moves connected (attach s) (k.attaches s v)
  keys-keeps (some e) s v = v

  module _ (h : Handshake) (during : Blocking → List SideEvent) where
    abbrev others : Blocking → Stack → Stack
    others b = side_events (during b)

    others-keeps : (b : Blocking) (s : Stack) → P s → P (others b s)
    others-keeps b s v = side_events-keeps (during b) s v

    shake-keeps : (o : Option Error) (s : Stack) → P s → P (connect_shake h others o s).0
    unfolding connect_shake
    shake-keeps none s v = keys-keeps h.keys (others in_keys s) (others-keeps in_keys s v)
    shake-keeps (some e) s v = v

    server-keeps : (o : Option Error) (s : Stack) → P s → P (connect_server h others o s).0
    unfolding connect_server
    server-keeps none s v =
        shake-keeps h.shake (others in_shake (record s { has_dtls = true }))
          (others-keeps in_shake (record s { has_dtls = true }) (k.gets_dtls s v))
    server-keeps (some e) s v = v

    accept-keeps : (o : Option Error) (s : Stack) → P s → P (connect_accept h others o s).0
    unfolding connect_accept
    accept-keeps none s v =
        server-keeps h.server (others in_server (record s { has_ice = true }))
          (others-keeps in_server (record s { has_ice = true }) (k.gets_ice s v))
    accept-keeps (some e) s v = v

    delay-keeps : (o : Option Error) (s : Stack) → P s → P (connect_delay h others o s).0
    unfolding connect_delay
    delay-keeps none s v = accept-keeps h.accept (others in_accept s) (others-keeps in_accept s v)
    delay-keeps (some e) s v = v

    parsed-keeps : (p : Parsed) (s : Stack) → P s → P (connect_parsed h others p s).0
    unfolding connect_parsed
    parsed-keeps good_params s v =
        delay-keeps h.delay (others in_delay s) (others-keeps in_delay s v)
    parsed-keeps bad_mode s v = v
    parsed-keeps bad_params s v = v

    connect-keeps : (s : Stack) → P s → P (connect_stack h others s).0
    unfolding connect_stack
    connect-keeps s v =
        elim s.stack_closed
          as (λ b.
            P (if b then (s, some client_closed) else connect_parsed h others h.parsed s).0) [
              | true ↦ v
              | false ↦ parsed-keeps h.parsed s v
            ]

  stack_event-keeps : (e : StackEvent) (s : Stack) → P s → P (stack_event e s)
  unfolding stack_event
  stack_event-keeps (side e) s v = side_event-keeps e s v
  stack_event-keeps (connects h during) s v = connect-keeps h during s v

  pub stack_history-keeps : (es : List StackEvent) (s : Stack) → P s → P (stack_history es s)
  unfolding stack_history
  stack_history-keeps [] s v = v
  stack_history-keeps (e ∷ es) s v =
      stack_history-keeps es (stack_event e s) (stack_event-keeps e s v)

-- Close reaches the layers below once at most.
abbrev pub IsOnce : Stack → Type 0
IsOnce s = length s.layers_closed ≡ (if s.stack_closed then 1 else 0)

close-IsHeard : (s : Stack) → IsHeard s → IsHeard (close_stack s)
unfolding close_stack
close-IsHeard s v =
    elim s.stack_closed
      as (λ b. IsHeard (
        if b
        then s
        else transition_to closed (record s {
          stack_closed = true;
          layers_closed = s.layers_closed ++ top_layer s ∷ [];
        }))) [
          | true ↦ v
          | false ↦ transition_to-IsHeard closed _ (record {
            listening = v.listening;
            trace = v.trace;
            once = v.once;
            in_order = v.in_order;
          })
        ]

IsHeard-IsKept : IsKept IsHeard
unfolding attach
IsHeard-IsKept = record {
  moves = transition_to-IsHeard;
  closes = close-IsHeard;
  calls = run_callback-IsHeard;
  gets_ice = λ s v. record {
    listening = v.listening;
    trace = v.trace;
    once = v.once;
    in_order = v.in_order;
  };
  gets_dtls = λ s v. record {
    listening = v.listening;
    trace = v.trace;
    once = v.once;
    in_order = v.in_order;
  };
  attaches = λ s v. record {
    listening = v.listening;
    trace = v.trace;
    once = v.once;
    in_order = v.in_order;
  };
}

callback-IsOnce : (n : ℕ) (s : Stack) → IsOnce s → IsOnce (run_callback n s)
unfolding run_callback
callback-IsOnce n s v = ground arith

transition-IsOnce : (next : ConnState) (s : Stack) → IsOnce s → IsOnce (transition_to next s)
unfolding transition_to
transition-IsOnce next s v = ground arith

close-IsOnce : (s : Stack) → IsOnce s → IsOnce (close_stack s)
unfolding close_stack
close-IsOnce s v = ground (arith, length-append s.layers_closed (top_layer s ∷ []))

IsOnce-IsKept : IsKept IsOnce
unfolding attach
IsOnce-IsKept = record {
  moves = transition-IsOnce;
  closes = close-IsOnce;
  calls = callback-IsOnce;
  gets_ice = λ s v. v;
  gets_dtls = λ s v. v;
  attaches = λ s v. v;
}

-- Whatever the ICE agent reports and whoever connects and closes the stack, also in the middle of
-- Connect, and whenever the callback of a change is called after its Swap: for a listener that was
-- there from the start each change of state was reported once or its callback is still under way,
-- and no state follows itself among the changes, the last of which is the state. The reports are in
-- the order of the changes unless one callback overtook another. Close reaches the layers below
-- once, if it was called, and else never.
pub stack_history-IsHeard :
    (video_ssrc : ℕ) (es : List StackEvent)
    → let s = stack_history es (listen (new_stack video_ssrc)) in IsHeard s × IsOnce s
unfolding count
stack_history-IsHeard video_ssrc es = (
  stack_history-keeps IsHeard-IsKept es (listen (new_stack video_ssrc)) (
      unfold new_stack in
      record { listening = refl; trace = refl; once = λ c. refl; in_order = inr refl }),
  stack_history-keeps IsOnce-IsKept es (listen (new_stack video_ssrc)) (unfold new_stack in refl),
)
