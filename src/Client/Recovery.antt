-- ===== src/Client/Recovery.antt =====
-- SetStreamSources on a call whose connection was lost and came back: the stack below does not report
-- Connected again, so the call is still Disconnected.
use gotgcall.Client.Methods.{setup_method}
use gotgcall.Client.Interface.{call_ops}
use gotgcall.Client.Failing.{failing_alone}
use gotgcall.Wrtc.Stack.Connect.{alone, passes}
use gotgcall.Wrtc.Stack.{
  Handshake, Stack, connect_stack, ice_connected, ice_disconnected, listen, new_stack,
  on_agent_state, settled,
}
use gotgcall.Models.{ConnState, Error, connected, connection_failed, disconnected}
use gotgcall.Instances.Group.Tasks.{on_state, stop}
use gotgcall.Instances.Group.State.{GroupCall, Source, Streamer}
use gotgcall.Instances.Group.Start.{Opened, prepare_streamers, prepared}
use gotgcall.Instances.Group.Source.{gate_error, set_source, woken}
use gotgcall.Client.Registry.{Client}
use gotgcall.Client.Calls.{
  Call, SourceInputs, group_call, ask_source, run_call, run_group, call_stop,
}
use gotgcall.Base.{List, Option, [], arith, false, find, some, true, ℕ, ◌∷◌, ◌≡◌, ap, none, ◌∙◌}

-- A stack that was connected, whose ICE agent then lost the connection and got it back.
abbrev pub blipped : ℕ → Handshake → Stack
blipped video_ssrc h =
    let s = settled (connect_stack h (alone h) (listen (new_stack video_ssrc))).0 in
    settled (on_agent_state ice_connected (settled (on_agent_state ice_disconnected s)))

-- The callback of a call hears the reports of its stack.
unfoldable pub hears : List ConnState → GroupCall → GroupCall
hears [] g = g
hears (s ∷ ss) g = hears ss (on_state s g)

blipped-reports :
    (video_ssrc : ℕ) (h : Handshake)
    → passes h ≡ true
    → (blipped video_ssrc h).reports ≡ connected ∷ disconnected ∷ []
unfolding connect_stack on_agent_state new_stack
blipped-reports video_ssrc h p = ground arith

heard-blip :
    (g : GroupCall)
    → ((hears (connected ∷ disconnected ∷ []) g).net_state ≡ disconnected)
      × ((hears (connected ∷ disconnected ∷ []) g).connected_closed ≡ true)
      × ((hears (connected ∷ disconnected ∷ []) g).call_closed ≡ g.call_closed)
unfolding hears on_state
heard-blip g = ground arith

module _ (stop_error kill_error : ℕ → Option Error) where
  source-fails :
      (src : Source) (o : Opened) (g : GroupCall) {a v : Option Streamer}
      → g.call_closed ≡ false
      → g.net_state ≡ disconnected
      → prepare_streamers o g.next_id g.muted g.video_off ≡ prepared a v
      → set_source stop_error src o woken (λ x. x) g ≡ (g, some connection_failed)
  unfolding set_source gate_error
  source-fails src o g c n p = ground (arith, p)

  blip-fails :
      (video_ssrc : ℕ) (h : Handshake) (g0 g : GroupCall) (i : SourceInputs) {a v : Option Streamer}
      → passes h ≡ true
      → g ≡ hears (blipped video_ssrc h).reports g0
      → g0.call_closed ≡ false
      → prepare_streamers i.opening g.next_id g.muted g.video_off ≡ prepared a v
      → set_source stop_error i.source i.opening woken (λ x. x) g ≡ (g, some connection_failed)
  blip-fails video_ssrc h g0 g i p e z q =
      let e' = e ∙ ap (λ l. hears l g0) (blipped-reports video_ssrc h p) in
      let facts = heard-blip g0 in
      source-fails i.source i.opening g (ap (λ x. x.call_closed) e' ∙ facts.2 ∙ z)
        (ap (λ x. x.net_state) e' ∙ facts.0) q

  -- A call hears the reports of a stack that was connected, lost its ICE connection and got it back.
  -- Where nobody else acts on the call, its streamers can be prepared and the wait ends with the
  -- channel of the connection, SetStreamSources returns ErrConnectionFailed, stops the call and takes
  -- it out of the map.
  pub blip-reaps :
      (video_ssrc : ℕ) (h : Handshake) (g0 g : GroupCall) (i : SourceInputs) {a v : Option Streamer}
      (chat o : ℕ) (c : Client Call)
      → passes h ≡ true
      → g ≡ hears (blipped video_ssrc h).reports g0
      → g0.call_closed ≡ false
      → prepare_streamers i.opening g.next_id g.muted g.video_off ≡ prepared a v
      → c.shut ≡ false
      → find chat c.calls ≡ some o
      → find o c.objects ≡ some (group_call g)
      → let m = ask_source (record i { wait = woken; group_during = λ x. x }) in
        let r = setup_method (call_ops stop_error kill_error) chat m (λ x. x) c in
        (r.1 ≡ some connection_failed)
        × (find chat r.0.calls ≡ none)
        × (find o r.0.objects ≡ some (group_call (stop stop_error g)))
  unfolding run_call run_group call_stop
  blip-reaps video_ssrc h g0 g i chat o c p e z q is_open mine f =
      let fails = blip-fails video_ssrc h g0 g i p e z q in
      let m = ask_source (record i { wait = woken; group_during = λ x. x }) in
      let r =
        failing_alone (call_ops stop_error kill_error) chat o m (group_call g) connection_failed c
          is_open mine f (ap (λ x. x.1) fails) in
      (r.0, r.1, r.2 ∙ ap (λ x. some (group_call (stop stop_error x.0))) fails)
