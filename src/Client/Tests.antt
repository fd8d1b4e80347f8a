-- ===== src/Client/Tests.antt =====
-- A client at work.
use gotgcall.Wrtc.Stack.History.{
  StackEvent, agent_reports, closes_stack, connects, side, stack_history, calls_back, side_event,
  side_events, stack_event,
}
use gotgcall.Client.Heard.{hears-stack_history, lets_go}
use gotgcall.Client.Options.{configure, default_config, settings, with_cert_pool}
use gotgcall.Wrtc.Stack.{
  Handshake, good_params, ice_connected, ice_disconnected, listen, new_stack, close_stack,
  connect_stack, on_agent_state, run_callback,
}
use gotgcall.Instances.Group.Start.{opened, playable, prepare_streamers}
use gotgcall.Instances.Group.Source.{woken}
use gotgcall.Client.Recovery.{blip-reaps, blipped, hears}
use gotgcall.Instances.Group.Tasks.{stop, on_state}
use gotgcall.Instances.Group.Ends.{stop_streamers}
use gotgcall.Client.NoLeak.{client_history-no_leak}
use gotgcall.Models.{Error, client_closed, connection_failed, closed, connected}
use gotgcall.Instances.Rtmp.{new_rtmp_call}
use gotgcall.Instances.Group.State.{Wiring, new_group_call, GroupCall}
use gotgcall.Client.Tidy.{Holds}
use gotgcall.Client.Registry.{
  CallOps, Client, new_client, register, call_is_live, stop_object, reap,
}
use gotgcall.Client.Races.{create_call-after_close, stop_chat-loses, IsStray}
use gotgcall.Client.Methods.{
  close_client, create_call, made, setup_method, stop_chat, lookup_call, plain_method, run_object,
  made_rtmp, from_factory,
}
use gotgcall.Client.Interface.{call_ops}
use gotgcall.Client.Events.{
  ClientEvent, acts, client_history, creates, does, sets_up_amid, stops, uses_call, all_of,
  client_act, client_event, client_step,
}
use gotgcall.Client.Calls.{
  Call, CallMethod, ask_connect, ask_mute, call_stopped, group_call, rtmp_call, call_stop,
  connect_group, run_call, run_group, SourceInputs, ask_source, call_net,
}
use gotgcall.Base.{
  List, Option, [], find, none, refl, some, true, ℕ, ◌∷◌, ◌≡◌, ◌⊎◌, store, erase, pos, false,
}

abbrev quiet_end : ℕ → Option Error
quiet_end id = none

abbrev ops : CallOps Call CallMethod
ops = call_ops quiet_end quiet_end

abbrev wired : Wiring
wired = record { disp = true; stream_end_set = true; connection_set = true; upgrade_set = true }

abbrev chat_call : Call
chat_call = group_call (new_group_call wired)

abbrev stream_call : Call
stream_call = rtmp_call (new_rtmp_call wired)

-- A chat with a call.
abbrev one_call : Client Call
one_call = register 7 chat_call new_client

abbrev evening : List (ClientEvent Call CallMethod)
evening =
    acts (does (creates 7 (made chat_call) none))
    ∷ sets_up_amid 7 (ask_connect none)
        (does (stops 7) ∷ does (creates 7 (made chat_call) none) ∷ [])
    ∷ acts (does (uses_call 7 ask_mute))
    ∷ []

client_history-no_leak_example :
    (call_stopped stream_call ≡ true)
    ⊎ Holds ops 0 (
        client_history ops
          (acts (does (creates 8 (made_rtmp stream_call) none)) ∷ evening)
          new_client)
unfolding client_history find all_of client_event client_act client_step plain_method lookup_call
    setup_method create_call call_is_live register store run_object stop_chat stop_object run_call
    call_stop erase reap run_group connect_group call_net new_group_call stop stop_streamers
    from_factory
client_history-no_leak_example =
    client_history-no_leak ops (acts (does (creates 8 (made_rtmp stream_call) none)) ∷ evening) 0
      stream_call refl

-- Another goroutine stops the call and makes a new one.
abbrev replace : Client Call → Client Call
replace c =
    (create_call ops 7 (made_rtmp stream_call) none (λ x. x) (stop_chat ops 7 (λ x. x) c).0).0

stop_chat-loses_example :
    let r = stop_chat ops 7 replace one_call in
    (r.1 ≡ none) × (find 7 r.0.calls ≡ none) × (find 1 r.0.objects ≡ some stream_call)
unfolding register create_call stop_chat find store lookup_call stop_object call_is_live
    from_factory
stop_chat-loses_example =
    stop_chat-loses ops replace 7 0 1 one_call stream_call refl refl refl refl refl

create_call-after_close_example :
    let d = close_client ops one_call in
    let shuts : Client Call → Client Call = close_client ops in
    IsStray ops shuts 8 stream_call d
      (create_call ops 8 (made_rtmp stream_call) none shuts one_call)
    × (((d.factory_closed ≡ false)
          × IsStray ops shuts 8 stream_call d
              (create_call ops 8 (made stream_call) none shuts one_call))
        ⊎ ((d.factory_closed ≡ true)
            × (create_call ops 8 (made stream_call) none shuts one_call ≡ (d, some client_closed))))
unfolding register close_client store stop_object find
create_call-after_close_example =
    create_call-after_close ops (close_client ops) 8 one_call stream_call none refl refl refl

-- Every step of the handshake succeeds.
abbrev smooth : Handshake
smooth = record {
  parsed = good_params;
  delay = none;
  accept = none;
  server = none;
  shake = none;
  keys = none;
}

abbrev lost_and_found : GroupCall
lost_and_found = hears (blipped 2 smooth).reports (new_group_call wired)

abbrev film : SourceInputs
film = record {
  source = record { seekable = true; fps = 30 };
  opening = opened playable playable;
  wait = woken;
  group_during = λ g. g;
  pathed = true;
  spawning = none;
  now = 0;
  rtmp_during = λ r. r;
}

blip-reaps_example :
    let r =
      setup_method ops 7
        (ask_source film)
        (λ x. x)
        (register 7 (group_call lost_and_found) new_client) in
    (r.1 ≡ some connection_failed)
    × (find 7 r.0.calls ≡ none)
    × (find 0 r.0.objects ≡ some (group_call (stop quiet_end lost_and_found)))
unfolding register new_group_call prepare_streamers find store
blip-reaps_example =
    blip-reaps quiet_end quiet_end 2 smooth (new_group_call wired) lost_and_found film 7 0
      (register 7 (group_call lost_and_found) new_client) refl refl refl refl refl refl refl

-- A pool of 0 certificates is one of 8.
cert_pool_zero : (settings (configure (with_cert_pool (pos 0) ∷ []) default_config)).pool_size ≡ 8
unfolding configure settings
cert_pool_zero = refl

-- The connection comes up, is lost and found, and is closed.
abbrev day_of_stack : List StackEvent
day_of_stack =
    connects smooth (λ b. [])
    ∷ side (calls_back 0)
    ∷ side (agent_reports ice_disconnected)
    ∷ side (agent_reports ice_connected)
    ∷ side closes_stack
    ∷ side (calls_back 0)
    ∷ side (calls_back 0)
    ∷ []

hears-stack_history_example :
    let s = stack_history day_of_stack (listen (new_stack 2)) in
    let g = hears s.reports (new_group_call wired) in
    ((lets_go s.net ≡ false) ⊎ (g.connected_closed ≡ true))
    × ((s.overtaken ≡ true) ⊎ (g.net_state ≡ s.net))
unfolding stack_history new_stack stack_event side_event run_callback close_stack on_agent_state
    connect_stack side_events
hears-stack_history_example = hears-stack_history 2 day_of_stack wired refl

-- Close overtakes Connect between its Swap and its callback: the call says Connected of a closed
-- stack.
abbrev overtaken_day : List StackEvent
overtaken_day =
    connects smooth (λ b. []) ∷ side closes_stack ∷ side (calls_back 1) ∷ side (calls_back 0) ∷ []

late_connected :
    let s = stack_history overtaken_day (listen (new_stack 2)) in
    (s.under_way ≡ [])
    × (s.net ≡ closed)
    × ((hears s.reports (new_group_call wired)).net_state ≡ connected)
unfolding stack_history new_stack hears stack_event side_event run_callback close_stack
    connect_stack side_events on_state new_group_call
late_connected = (refl, refl, refl)
