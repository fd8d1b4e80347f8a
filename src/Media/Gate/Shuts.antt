-- ===== src/Media/Gate/Shuts.antt =====
-- A paused gate stays shut.
use gotgcall.Media.Gate.{
  Gate, GateEvent, Place, at_check, at_drop, at_leave, at_top, at_wait, cancels_gate, gate_at,
  gate_cancel, gate_event, gate_history, gate_pause, gate_step, gate_wake, loop_moves, pauses_gate,
  returned, unpauses_gate, wakes_gate,
}
use gotgcall.Base.{Bool, List, [], arith, false, not, refl, true, ◌∷◌, ◌≡◌, ◌≢◌}

-- Nobody calls SetPaused(false).
abbrev pub keeps_paused : List GateEvent → Bool
keeps_paused [] = true
keeps_paused (unpauses_gate ∷ es) = false
keeps_paused (loop_moves pick ∷ es) = keeps_paused es
keeps_paused (pauses_gate ∷ es) = keeps_paused es
keeps_paused (wakes_gate ∷ es) = keeps_paused es
keeps_paused (cancels_gate ∷ es) = keeps_paused es

-- Not past the tests that saw `pausedGate`, unless to give up.
abbrev behind : Place → Bool
behind at_top = true
behind at_drop = true
behind at_check = true
behind at_wait = true
behind at_leave = false
behind (returned b) = not b

abbrev IsShut : Gate → Type 0
IsShut g = (g.paused ≡ true) × (behind g.place ≡ true)

at-IsShut :
    (p : Place) (pick : Bool) (g : Gate) → g.place ≡ p → IsShut g → IsShut (gate_at p pick g)
at-IsShut at_top pick g e w = ground arith
at-IsShut at_drop pick g e w = ground arith
at-IsShut at_check pick g e w = ground arith
at-IsShut at_wait pick g e w = ground arith
at-IsShut at_leave pick g e w = ground arith
at-IsShut (returned b) pick g e w = w

history-IsShut :
    (es : List GateEvent) (g : Gate)
    → keeps_paused es ≡ true
    → IsShut g
    → IsShut (gate_history es g)
unfolding gate_history gate_event
history-IsShut [] g k w = w
history-IsShut (loop_moves pick ∷ es) g k w =
    history-IsShut es (gate_step pick g) k (unfold gate_step in at-IsShut g.place pick g refl w)
history-IsShut (pauses_gate ∷ es) g k w = history-IsShut es (gate_pause g) k (refl, w.1)
history-IsShut (unpauses_gate ∷ es) g k w = cc
history-IsShut (wakes_gate ∷ es) g k w =
    history-IsShut es (gate_wake g) k (unfold gate_wake in ground arith)
history-IsShut (cancels_gate ∷ es) g k w = history-IsShut es (gate_cancel g) k w

returned-shut : (g : Gate) → behind g.place ≡ true → g.place ≢ returned true
returned-shut g b e = ground arith

-- On a paused streamer the gate does not let the loop through, as long as nobody calls
-- SetPaused(false): whatever wake-ups of before still arrive, and whatever is cancelled.
pub gate_history-shut :
    (es : List GateEvent) (g : Gate)
    → g.place ≡ at_top
    → g.paused ≡ true
    → keeps_paused es ≡ true
    → (gate_history es g).place ≢ returned true
gate_history-shut es g t p k =
    returned-shut (gate_history es g) (history-IsShut es g k (p, ground arith)).1
