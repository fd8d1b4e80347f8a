-- ===== src/Wrtc/Monitor/Keepalive.antt =====
-- The padding of connected video connections.
use gotgcall.Wrtc.Stack.{close_stack, state_eq, transition_to}
use gotgcall.Wrtc.Monitor.{FactoryMonitor, Peer, poll, poll_peer, close_peer, tick_peer}
use gotgcall.Models.{connected}
use gotgcall.Base.{
  Bool, List, [], ap, arith, if◌then◌else◌, map, not, refl, true, ℕ, ◌%◌, ◌+◌, ◌==◌, ◌^◌, ◌∙◌, ◌∷◌,
  ◌≡◌, false, Bool-cases, inl, inr, subst, sym, ◌&&◌, ◌⊎◌,
}

-- The monitor has the connection, which is up and has video.
abbrev pub gets_padding : Peer → Bool
gets_padding p = p.registered && state_eq p.stack.net connected && p.stack.carries_video

abbrev pub is_up : Peer → Bool
is_up p = p.registered && state_eq p.stack.net connected

-- `q` is the connection `p` two rounds later: one padding packet was sent if it was up with video, and
-- none else; and one that was up, or that the monitor does not have, is otherwise left alone.
pub record IsPadded (p q : Peer) : Type 0 where
  pub one_packet : q.paddings ≡ p.paddings + (if gets_padding p then 1 else 0)
  pub keeps_stack : ((p.registered && not (is_up p)) ≡ true) ⊎ (q.stack ≡ p.stack)
  pub keeps_entry : ((p.registered && not (is_up p)) ≡ true) ⊎ (q.registered ≡ p.registered)

abbrev pub ArePadded : List Peer → List Peer → Type 0
ArePadded [] [] = Unit {0}
ArePadded [] (q ∷ qs) = ⊥
ArePadded (p ∷ ps) [] = ⊥
ArePadded (p ∷ ps) (q ∷ qs) = IsPadded p q × ArePadded ps qs

-- One round, of a connection that is up.
poll_peer-up :
    (k : Bool) (now : ℕ) (p : Peer)
    → is_up p ≡ true
    → poll_peer k now p ≡ record p {
      checking_ns = 0;
      paddings = if k && p.stack.carries_video then p.paddings + 1 else p.paddings;
    }
unfolding poll_peer tick_peer
poll_peer-up k now p u = ground arith

-- One round, of another connection: no packet, and it does not come up.
poll_peer-down :
    (k : Bool) (now : ℕ) (p : Peer)
    → is_up p ≡ false
    → ((poll_peer k now p).paddings ≡ p.paddings) × (is_up (poll_peer k now p) ≡ false)
unfolding poll_peer tick_peer close_peer close_stack transition_to
poll_peer-down k now p u = (ground arith, ground arith)

poll_peer-gone : (k : Bool) (now : ℕ) (p : Peer) → p.registered ≡ false → poll_peer k now p ≡ p
unfolding poll_peer
poll_peer-gone k now p r = ground arith

poll_peer-twice :
    (k : Bool) (t u : ℕ) (p : Peer) → IsPadded p (poll_peer (not k) u (poll_peer k t p))
poll_peer-twice k t u p = elim (Bool-cases (is_up p)) [
  | inl up ↦ up_twice k t u p up
  | inr down ↦ down_twice k t u p down
]
  where
    up_twice :
        (k : Bool) (t u : ℕ) (p : Peer)
        → is_up p ≡ true
        → IsPadded p (poll_peer (not k) u (poll_peer k t p))
    up_twice k t u p up =
        let q : Peer = record p {
          checking_ns = 0;
          paddings = if k && p.stack.carries_video then p.paddings + 1 else p.paddings;
        } in
        let e = ap (poll_peer (not k) u) (poll_peer-up k t p up) ∙ poll_peer-up (not k) u q up in
        subst (IsPadded p) (sym e)
          (record { one_packet = ground arith; keeps_stack = inr refl; keeps_entry = inr refl })

    down_twice :
        (k : Bool) (t u : ℕ) (p : Peer)
        → is_up p ≡ false
        → IsPadded p (poll_peer (not k) u (poll_peer k t p))
    down_twice k t u p down =
        let one = poll_peer-down k t p down in
        let two = poll_peer-down (not k) u (poll_peer k t p) one.1 in
        elim (Bool-cases p.registered) [
          | inl r ↦ record {
            one_packet = two.0 ∙ one.0 ∙ ground arith;
            keeps_stack = inl (ground arith);
            keeps_entry = inl (ground arith);
          }
          | inr r ↦
              let e =
                ap (poll_peer (not k) u) (poll_peer-gone k t p r) ∙ poll_peer-gone (not k) u p r in
              record {
                one_packet = two.0 ∙ one.0 ∙ ground arith;
                keeps_stack = inr (ap (λ x. x.stack) e);
                keeps_entry = inr (ap (λ x. x.registered) e);
              }
        ]

map-two_polls :
    (k : Bool) (t u : ℕ) (ps : List Peer)
    → ArePadded ps (map (poll_peer (not k) u) (map (poll_peer k t) ps))
map-two_polls k t u [] = tt
map-two_polls k t u (p ∷ ps) = (poll_peer-twice k t u p, map-two_polls k t u ps)

next_parity : (t : ℕ) → (((t + 1) % 2 ^ 64 + 1) % 2 ^ 64 % 2 == 0) ≡ not ((t + 1) % 2 ^ 64 % 2 == 0)
next_parity t = ground arith

-- Any two rounds in a row, also across the wrap of the counter, send one padding packet on each
-- connection of the factory that is registered, connected and has video, and none on any other; they
-- close only registered connections that are not connected.
pub poll-padded : (t u : ℕ) (m : FactoryMonitor) → ArePadded m.peers (poll u (poll t m)).peers
unfolding poll
poll-padded t u m =
    let k = (m.tick + 1) % 2 ^ 64 % 2 == 0 in
    subst (λ b. ArePadded m.peers (map (poll_peer b u) (map (poll_peer k t) m.peers)))
      (sym (next_parity m.tick)) (map-two_polls k t u m.peers)
