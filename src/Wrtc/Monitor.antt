-- ===== src/Wrtc/Monitor.antt =====
-- wrtc/peer_connection.go and wrtc/keepalive.go: the connections of a factory and the monitor that
-- polls them. Times are what time.Now().UnixNano() gives, as natural numbers.
pub mod Watchdog
pub mod Keepalive
pub mod Running
use gotgcall.Wrtc.Stack.{Stack, close_stack, listen, state_eq}
use gotgcall.Models.{connected}
use gotgcall.Base.{
  Bool, List, [], false, if◌then◌else◌, ltb, map, true, ℕ, ◌%◌, ◌&&◌, ◌+◌, ◌-◌, ◌==◌, ◌^◌, ◌∷◌,
}

-- PeerConnection with its pcMonitorEntry: `registered` says that the monitor has the entry,
-- `paddings` counts the padding packets asked of the video track.
pub record Peer : Type 0 where
  pub stack : Stack
  pub registered : Bool
  pub checking_ns : ℕ
  pub paddings : ℕ

-- NewPeerConnection, on the stack that it takes from the factory
abbrev pub new_peer : Stack → Peer
new_peer stack = record { stack = listen stack; registered = true; checking_ns = 0; paddings = 0 }

-- PeerConnection.Close
unfoldable pub close_peer : Peer → Peer
close_peer p = record p { registered = false; stack = close_stack p.stack }

abbrev pub checking_timeout : ℕ
checking_timeout = 15000000000

-- pcMonitorEntry.tick
unfoldable pub tick_peer : Bool → ℕ → Peer → Peer
unfolding close_peer
tick_peer keepalive now p =
    if state_eq p.stack.net connected
    then record p {
      checking_ns = 0;
      paddings = if keepalive && p.stack.carries_video then p.paddings + 1 else p.paddings;
    }
    else if p.checking_ns == 0
    then record p { checking_ns = now }
    else if ltb checking_timeout (now - p.checking_ns)
    then close_peer p
    else p

-- FactoryMonitor; `peers` are all connections of the factory, those that
-- Unregister took out of the map too, which are not `registered`.
pub record FactoryMonitor : Type 0 where
  pub tick : ℕ
  pub peers : List Peer

unfoldable pub poll_peer : Bool → ℕ → Peer → Peer
unfolding tick_peer
poll_peer keepalive now p = if p.registered then tick_peer keepalive now p else p

-- One round of the loop of run.
unfoldable pub poll : ℕ → FactoryMonitor → FactoryMonitor
poll now m =
    let tick = (m.tick + 1) % 2 ^ 64 in
    record { tick = tick; peers = map (poll_peer (tick % 2 == 0) now) m.peers }

-- Rounds at several times.
unfoldable pub polls : List ℕ → FactoryMonitor → FactoryMonitor
polls [] m = m
polls (now ∷ times) m = polls times (poll now m)
