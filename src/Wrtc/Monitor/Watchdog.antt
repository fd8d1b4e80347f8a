-- ===== src/Wrtc/Monitor/Watchdog.antt =====
-- When the monitor closes a connection.
use gotgcall.Wrtc.Stack.{
  Stack, close_stack, ice_connected, ice_disconnected, on_agent_state, state_eq,
}
use gotgcall.Wrtc.Monitor.{Peer, checking_timeout, close_peer, poll_peer}
use gotgcall.Models.{closed, connected, disconnected}
use gotgcall.Base.{Bool, List, [], ap, arith, false, refl, true, ℕ, ◌+◌, ◌<◌, ◌∙◌, ◌∷◌, ◌≡◌, ◌≤◌}

-- The rounds that one connection sees.
unfoldable pub peer_polls : List (Bool × ℕ) → Peer → Peer
peer_polls [] p = p
peer_polls (r ∷ rounds) p = peer_polls rounds (poll_peer r.0 r.1 p)

abbrev pub Before : ℕ → List (Bool × ℕ) → Type 0
Before limit [] = Unit {0}
Before limit (r ∷ rounds) = (r.1 ≤ limit) × Before limit rounds

-- A round that comes in time leaves a connection that is checking as it is.
poll-waits :
    (k : Bool) (now : ℕ) (p : Peer)
    → p.registered ≡ true
    → state_eq p.stack.net connected ≡ false
    → 0 < p.checking_ns
    → now ≤ p.checking_ns + checking_timeout
    → poll_peer k now p ≡ p
unfolding poll_peer
poll-waits k now p r n c le = ground arith

peer_polls-waits :
    (rounds : List (Bool × ℕ)) (p : Peer)
    → p.registered ≡ true
    → state_eq p.stack.net connected ≡ false
    → 0 < p.checking_ns
    → Before (p.checking_ns + checking_timeout) rounds
    → peer_polls rounds p ≡ p
unfolding peer_polls
peer_polls-waits [] p r n c b = refl
peer_polls-waits (x ∷ rounds) p r n c b =
    ap (peer_polls rounds) (poll-waits x.0 x.1 p r n c b.0) ∙ peer_polls-waits rounds p r n c b.1

poll-starts :
    (k : Bool) (now : ℕ) (p : Peer)
    → p.registered ≡ true
    → state_eq p.stack.net connected ≡ false
    → p.checking_ns ≡ 0
    → poll_peer k now p ≡ record p { checking_ns = now }
unfolding poll_peer
poll-starts k now p r n c = ground arith

poll-closes :
    (k : Bool) (now : ℕ) (p : Peer)
    → p.registered ≡ true
    → state_eq p.stack.net connected ≡ false
    → 0 < p.checking_ns
    → p.checking_ns + checking_timeout < now
    → poll_peer k now p ≡ close_peer p
unfolding poll_peer
poll-closes k now p r n c lt = ground arith

-- A registered connection that stays outside Connected is left alone by every round up to 15
-- seconds after the first that saw it so, and closed by the next one.
pub peer_polls-closes :
    (k l : Bool) (first last : ℕ) (rounds : List (Bool × ℕ)) (p : Peer)
    → p.registered ≡ true
    → state_eq p.stack.net connected ≡ false
    → p.checking_ns ≡ 0
    → 0 < first
    → Before (first + checking_timeout) rounds
    → first + checking_timeout < last
    → let waiting = peer_polls ((k, first) ∷ rounds) p in
      (waiting ≡ record p { checking_ns = first })
      × (poll_peer l last waiting ≡ close_peer (record p { checking_ns = first }))
unfolding peer_polls
peer_polls-closes k l first last rounds p r n c pos before late =
    let waits =
      ap (peer_polls rounds) (poll-starts k first p r n c)
      ∙ peer_polls-waits rounds (record p { checking_ns = first }) r n pos before in
    (
      waits,
      ap (poll_peer l last) waits
          ∙ poll-closes l last (record p { checking_ns = first }) r n pos late,
    )

blip-state :
    (s : Stack)
    → s.net ≡ connected
    → (on_agent_state ice_connected (on_agent_state ice_disconnected s)).net ≡ disconnected
unfolding on_agent_state
blip-state s c = ground arith

peer-closed :
    (p : Peer)
    → p.stack.stack_closed ≡ false
    → ((close_peer p).registered ≡ false) × ((close_peer p).stack.net ≡ closed)
unfolding close_peer close_stack
peer-closed p c = (refl, ground arith)

blip-open :
    (s : Stack)
    → (on_agent_state ice_connected (on_agent_state ice_disconnected s)).stack_closed
      ≡ s.stack_closed
unfolding on_agent_state
blip-open s = ground arith

-- A Connected stack whose ICE agent loses the connection and gets it back stays Disconnected: the
-- agent's Connected is not passed on. The monitor then closes the recovered connection with the
-- first round more than 15 seconds after the first that sees it.
pub blip-closes :
    (k l : Bool) (first last : ℕ) (p : Peer)
    → p.registered ≡ true
    → p.stack.net ≡ connected
    → p.stack.stack_closed ≡ false
    → p.checking_ns ≡ 0
    → 0 < first
    → first + checking_timeout < last
    → let recovered = record p {
      stack = on_agent_state ice_connected (on_agent_state ice_disconnected p.stack);
    } in
      let later = peer_polls ((k, first) ∷ (l, last) ∷ []) recovered in
      (recovered.stack.net ≡ disconnected) × (later.registered ≡ false) × (later.stack.net ≡ closed)
unfolding peer_polls
blip-closes k l first last p r n c z pos late =
    let recovered : Peer = record p {
      stack = on_agent_state ice_connected (on_agent_state ice_disconnected p.stack);
    } in
    let state = blip-state p.stack n in
    let out = ap (λ x. state_eq x connected) state in
    let closes = (peer_polls-closes k l first last [] recovered r out z pos tt late).1 in
    let gone = peer-closed (record recovered { checking_ns = first }) (blip-open p.stack ∙ c) in
    (state, ap (λ x. x.registered) closes ∙ gone.0, ap (λ x. x.stack.net) closes ∙ gone.1)
