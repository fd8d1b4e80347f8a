-- ===== src/Wrtc/Tests.antt =====
-- SSRCs at concrete counters.
use gotgcall.Wrtc.Stack.Reports.{IsHeard}
use gotgcall.Wrtc.Stack.History.{
  IsOnce, StackEvent, agent_reports, closes_stack, connects, side, stack_history,
  stack_history-IsHeard, calls_back,
}
use gotgcall.Wrtc.Stack.Connect.{Ends, alone, connect_stack-Ends}
use gotgcall.Wrtc.Stack.{
  Handshake, connect_stack, good_params, ice_connected, ice_disconnected, ice_other, listen,
  new_stack, on_agent_state,
}
use gotgcall.Wrtc.Monitor.Watchdog.{blip-closes, peer_polls, peer_polls-closes}
use gotgcall.Wrtc.Monitor.Keepalive.{ArePadded, poll-padded, ArePadded}
use gotgcall.Wrtc.Monitor.{FactoryMonitor, Peer, close_peer, new_peer, poll, poll_peer}
use gotgcall.Models.{closed, disconnected, internal}
use gotgcall.Wrtc.Ssrc.{allocate_within, stack_ssrcs}
use gotgcall.Base.{arith, refl, some, true, ◌%◌, ◌+◌, ◌^◌, ◌≡◌, List, [], false, none, ◌∷◌}

-- The counter wraps round past 0.
allocate_ssrc_wraps : allocate_within 2 4294967295 ≡ some 1
unfolding allocate_within
allocate_ssrc_wraps = refl

-- The SSRC after the video SSRC, which the rtx stream is announced with, wraps to the reserved 0.
rtx_ssrc_zero : ((stack_ssrcs true 4294967293).video_ssrc + 1) % 2 ^ 32 ≡ 0
unfolding stack_ssrcs
rtx_ssrc_zero = refl

-- Every step of the handshake succeeds; and one whose keys cannot be derived.
abbrev smooth : Handshake
smooth = record {
  parsed = good_params;
  delay = none;
  accept = none;
  server = none;
  shake = none;
  keys = none;
}

abbrev keyless : Handshake
keyless = record smooth { keys = some internal }

abbrev call_day : List StackEvent
call_day =
    side (agent_reports ice_other)
    ∷ connects smooth (λ b. agent_reports ice_disconnected ∷ calls_back 0 ∷ [])
    ∷ side closes_stack
    ∷ side (calls_back 1)
    ∷ side (calls_back 0)
    ∷ side closes_stack
    ∷ []

stack_history-IsHeard_example :
    let s = stack_history call_day (listen (new_stack 2)) in IsHeard s × IsOnce s
stack_history-IsHeard_example = stack_history-IsHeard 2 call_day

connect_stack-Ends_example :
    Ends keyless (new_stack 2) (connect_stack keyless (alone keyless) (new_stack 2))
connect_stack-Ends_example = connect_stack-Ends keyless (new_stack 2)

-- A connection that is up, with video.
abbrev up : Peer
up = new_peer (connect_stack smooth (alone smooth) (new_stack 2)).0

peer_polls-closes_example :
    let p = new_peer (new_stack 2) in
    let waiting =
      peer_polls ((true, 1000000000) ∷ (false, 6000000000) ∷ (true, 16000000000) ∷ []) p in
    (waiting ≡ record p { checking_ns = 1000000000 })
    × (poll_peer false 21000000000 waiting ≡ close_peer (record p { checking_ns = 1000000000 }))
unfolding new_stack
peer_polls-closes_example =
    peer_polls-closes true false 1000000000 21000000000
      ((false, 6000000000) ∷ (true, 16000000000) ∷ []) (new_peer (new_stack 2)) refl refl refl
      (omega arith) (omega arith) (omega arith)

blip-closes_example :
    let recovered = record up {
      stack = on_agent_state ice_connected (on_agent_state ice_disconnected up.stack);
    } in
    let later = peer_polls ((true, 5000000000) ∷ (false, 21000000000) ∷ []) recovered in
    (recovered.stack.net ≡ disconnected) × (later.registered ≡ false) × (later.stack.net ≡ closed)
unfolding connect_stack new_stack
blip-closes_example =
    blip-closes true false 5000000000 21000000000 up refl refl refl refl (omega arith) (omega arith)

abbrev watched : FactoryMonitor
watched = record {
  tick = 18446744073709551615;
  peers = up ∷ new_peer (new_stack 0) ∷ close_peer up ∷ [];
}

poll-padded_example : ArePadded watched.peers (poll 10 (poll 5 watched)).peers
poll-padded_example = poll-padded 5 10 watched
