-- ===== src/Wrtc/Stack.antt =====
-- wrtc/native/stack.go: the states of a Stack. ICE, DTLS and SRTP are libraries: what each step of
-- the handshake returns is an argument of Connect, and so is what other goroutines do meanwhile.
pub mod Reports
pub mod History
pub mod Connect
use gotgcall.Models.{
  ConnState, Error, client_closed, closed, connected, connecting, connection_failed, disconnected,
  failed, invalid_params, unsupported_call_mode,
}
use gotgcall.Base.{
  Bool, List, Option, [], false, if◌then◌else◌, none, not, some, true, ℕ, ◌++◌, ◌==◌, ◌∷◌, suc,
  zero, ◌||◌,
}

-- ice.ConnectionState, the states without a case in onAgentState left together as `ice_other`.
pub data IceState : Type 0 where
  ice_connected ice_completed ice_disconnected ice_failed ice_closed ice_other : IceState

-- The layer that Close closes: each one closes the ones below it.
pub data Layer : Type 0 where
  dtls_layer ice_layer agent_layer : Layer

-- Stack. `has_ice` says that `iceConn` and `iceOnce` are set, `attached` that both tracks have their
-- write stream, `draining` that the drain goroutine was started. `under_way` are the states of the
-- callbacks that were not called yet though their Swap is done, the oldest Swap first. The others are
-- history: `changes` the states that a Swap changed to, `reports` the calls of the callback,
-- `overtaken` whether a callback was called before one of an older Swap, `layers_closed` the layers
-- that Close closed.
pub record Stack : Type 0 where
  pub net : ConnState
  pub stack_closed : Bool
  pub has_listener : Bool
  pub has_ice : Bool
  pub has_dtls : Bool
  pub has_srtp : Bool
  pub attached : Bool
  pub draining : Bool
  pub carries_video : Bool
  pub under_way : List ConnState
  pub changes : List ConnState
  pub reports : List ConnState
  pub overtaken : Bool
  pub layers_closed : List Layer

-- NewStack where every step succeeds, with the video SSRC (0 for none).
unfoldable pub new_stack : ℕ → Stack
new_stack video_ssrc = record {
  net = connecting;
  stack_closed = false;
  has_listener = false;
  has_ice = false;
  has_dtls = false;
  has_srtp = false;
  attached = false;
  draining = false;
  carries_video = not (video_ssrc == 0);
  under_way = [];
  changes = [];
  reports = [];
  overtaken = false;
  layers_closed = [];
}

-- OnConnectionStateChange with a callback
abbrev pub listen : Stack → Stack
listen s = record s { has_listener = true }

abbrev pub state_eq : ConnState → ConnState → Bool
state_eq connecting connecting = true
state_eq connected connected = true
state_eq disconnected disconnected = true
state_eq failed failed = true
state_eq closed closed = true
state_eq _ _ = false

-- transitionTo up to the call of the callback, which no lock protects: the Swap.
unfoldable pub transition_to : ConnState → Stack → Stack
transition_to next s =
    let s1 = record s { net = next; changes = s.changes ++ next ∷ [] } in
    if state_eq s.net next
    then record s { net = next }
    else if s.has_listener
    then record s1 { under_way = s.under_way ++ next ∷ [] }
    else s1

-- The n-th, and the others.
unfoldable pub take_out : ℕ → List ConnState → Option (ConnState × List ConnState)
take_out n [] = none
take_out zero (x ∷ xs) = some (x, xs)
take_out (suc n) (x ∷ xs) = elim (take_out n xs) [ none ↦ none | some r ↦ some (r.0, x ∷ r.1) ]

-- The end of transitionTo, by the goroutine of the n-th Swap whose callback is under way.
unfoldable pub run_callback : ℕ → Stack → Stack
unfolding take_out
run_callback n s = elim (take_out n s.under_way) [
  | none ↦ s
  | some r ↦ record s {
    under_way = r.1;
    reports = s.reports ++ r.0 ∷ [];
    overtaken = s.overtaken || not (n == 0);
  }
]

-- The callbacks under way are called, in the order of their Swaps.
abbrev pub settled : Stack → Stack
settled s = record s { under_way = []; reports = s.reports ++ s.under_way }

-- onAgentState
unfoldable pub on_agent_state : IceState → Stack → Stack
unfolding transition_to
on_agent_state ice_connected s = s
on_agent_state ice_completed s = s
on_agent_state ice_disconnected s = transition_to disconnected s
on_agent_state ice_failed s = transition_to failed s
on_agent_state ice_closed s = transition_to closed s
on_agent_state ice_other s = s

-- The `switch` of Close
abbrev pub top_layer : Stack → Layer
top_layer s = if s.has_dtls then dtls_layer else (if s.has_ice then ice_layer else agent_layer)

-- Close
unfoldable pub close_stack : Stack → Stack
unfolding transition_to
close_stack s =
    if s.stack_closed
    then s
    else transition_to closed
        (record s { stack_closed = true; layers_closed = s.layers_closed ++ top_layer s ∷ [] })

-- LocalParams up to the building of the blob
unfoldable pub local_params_error : Stack → Option Error
local_params_error s = if s.stack_closed then some client_closed else none

-- What parseRemoteJSON makes of the remote parameters.
pub data Parsed : Type 0 where
  good_params bad_mode bad_params : Parsed

-- What the steps of Connect return, each `none` where it succeeds.
pub record Handshake : Type 0 where
  pub parsed : Parsed
  pub delay : Option Error
  pub accept : Option Error
  pub server : Option Error
  pub shake : Option Error
  pub keys : Option Error

-- The calls of Connect during which others act on the stack.
pub data Blocking : Type 0 where
  in_delay in_accept in_server in_shake in_keys : Blocking

abbrev pub ConnectResult : Type 0
ConnectResult = Stack × Option Error

-- The tracks get their write stream, and the drain goroutine starts.
unfoldable pub attach : Stack → Stack
attach s = record s { has_srtp = true; attached = true; draining = true }

-- From deriveSRTPContext on, with what it returned; so the others for their calls.
unfoldable pub connect_keys : Option Error → Stack → ConnectResult
unfolding attach transition_to
connect_keys none s = (transition_to connected (attach s), none)
connect_keys (some e) s = (s, some connection_failed)

module _ (h : Handshake) (others : Blocking → Stack → Stack) where
  -- From the handshake of DTLS on.
  unfoldable pub connect_shake : Option Error → Stack → ConnectResult
  unfolding connect_keys
  connect_shake none s = connect_keys h.keys (others in_keys s)
  connect_shake (some e) s = (s, some connection_failed)

  -- From the DTLS server on.
  unfoldable pub connect_server : Option Error → Stack → ConnectResult
  unfolding connect_shake
  connect_server none s = connect_shake h.shake (others in_shake (record s { has_dtls = true }))
  connect_server (some e) s = (s, some connection_failed)

  -- From Accept on.
  unfoldable pub connect_accept : Option Error → Stack → ConnectResult
  unfolding connect_server
  connect_accept none s = connect_server h.server (others in_server (record s { has_ice = true }))
  connect_accept (some e) s = (s, some connection_failed)

  -- From the delay on, which fails only with the context.
  unfoldable pub connect_delay : Option Error → Stack → ConnectResult
  unfolding connect_accept
  connect_delay none s = connect_accept h.accept (others in_accept s)
  connect_delay (some e) s = (s, some e)

  unfoldable pub connect_parsed : Parsed → Stack → ConnectResult
  unfolding connect_delay
  connect_parsed good_params s = connect_delay h.delay (others in_delay s)
  connect_parsed bad_mode s = (s, some unsupported_call_mode)
  connect_parsed bad_params s = (s, some invalid_params)

  -- Connect
  unfoldable pub connect_stack : Stack → ConnectResult
  unfolding connect_parsed
  connect_stack s = if s.stack_closed then (s, some client_closed) else connect_parsed h.parsed s
