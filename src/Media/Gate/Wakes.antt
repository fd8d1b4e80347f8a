-- ===== src/Media/Gate/Wakes.antt =====
-- No wake-up is lost.
use gotgcall.Media.Gate.{
  Gate, GateEvent, Place, at_check, at_drop, at_leave, at_top, at_wait, cancels_gate, gate_at,
  gate_event, gate_history, gate_step, gate_wake, loop_moves, new_gate, pauses_gate, returned,
  unpauses_gate, wakes_gate,
}
use gotgcall.Base.{
  Bool, List, [], arith, false, ltb, not, refl, suc, true, zero, ℕ, ◌||◌, ◌∙◌, ◌∷◌, ◌≡◌,
}

abbrev pub waits : Place → Bool
waits at_top = false
waits at_drop = false
waits at_check = false
waits at_wait = true
waits at_leave = false
waits (returned b) = false

-- A loop that waits at an open gate has a wake-up, or somebody is about to send one.
abbrev IsWakeful : Gate → Type 0
IsWakeful g = (not (waits g.place) || g.paused || g.token || ltb 0 g.waking) ≡ true

at-IsWakeful :
    (p : Place) (pick : Bool) (g : Gate) → g.place ≡ p → IsWakeful g → IsWakeful (gate_at p pick g)
at-IsWakeful at_top pick g e w = ground arith
at-IsWakeful at_drop pick g e w = ground arith
at-IsWakeful at_check pick g e w = ground arith
at-IsWakeful at_wait pick g e w = ground arith
at-IsWakeful at_leave pick g e w = ground arith
at-IsWakeful (returned b) pick g e w = w

event-IsWakeful : (e : GateEvent) (g : Gate) → IsWakeful g → IsWakeful (gate_event e g)
unfolding gate_event
event-IsWakeful (loop_moves pick) g w = at-IsWakeful g.place pick g refl w
event-IsWakeful pauses_gate g w = ground arith
event-IsWakeful unpauses_gate g w = ground arith
event-IsWakeful wakes_gate g w = ground arith
event-IsWakeful cancels_gate g w = w

history-IsWakeful : (es : List GateEvent) (g : Gate) → IsWakeful g → IsWakeful (gate_history es g)
unfolding gate_history
history-IsWakeful [] g w = w
history-IsWakeful (e ∷ es) g w = history-IsWakeful es (gate_event e g) (event-IsWakeful e g w)

-- The sends that are under way happen.
unfoldable pub deliver : ℕ → Gate → Gate
unfolding gate_wake
deliver zero g = g
deliver (suc n) g = deliver n (gate_wake g)

deliver_more :
    (n : ℕ) (g : Gate)
    → g.waking ≡ n
    → g.token ≡ true
    → deliver n g ≡ record g { waking = 0; token = true }
unfolding deliver
deliver_more zero g e t = ground arith
deliver_more (suc n) g e t =
    deliver_more n (gate_wake g) (unfold gate_wake in ground arith)
      (unfold gate_wake in ground arith)
    ∙ (unfold gate_wake in ground arith)

deliver_all :
    (n : ℕ) (g : Gate)
    → g.waking ≡ n
    → deliver n g ≡ record g { waking = 0; token = g.token || ltb 0 n }
unfolding deliver
deliver_all zero g e = ground arith
deliver_all (suc n) g e =
    deliver_more n (gate_wake g) (unfold gate_wake in ground arith)
      (unfold gate_wake in ground arith)
    ∙ (unfold gate_wake in ground arith)

-- Three steps of the loop.
abbrev pub three_steps : Bool → Bool → Bool → Gate → Gate
three_steps a b c g = gate_step c (gate_step b (gate_step a g))

abbrev pub is_out : Place → Bool
is_out at_top = false
is_out at_drop = false
is_out at_check = false
is_out at_wait = false
is_out at_leave = false
is_out (returned b) = true

leaves :
    (a b c : Bool) (g : Gate)
    → g.paused ≡ false
    → g.waking ≡ 0
    → IsWakeful g
    → is_out (three_steps a b c g).place ≡ true
unfolding gate_step
leaves a b c g p z w = ground arith

-- Whatever SetPaused, the cancellation and the loop did, in any interleaving: if the streamer is not
-- paused, then once the wake-ups that are under way are sent the loop is out of the gate after three
-- steps of its own at most, whichever way its select chooses.
pub gate_history-leaves :
    (paused : Bool) (es : List GateEvent) (a b c : Bool)
    → (gate_history es (new_gate paused)).paused ≡ false
    → let g = gate_history es (new_gate paused) in
      is_out (three_steps a b c (deliver g.waking g)).place ≡ true
gate_history-leaves paused es a b c p =
    let g = gate_history es (new_gate paused) in
    rw (deliver_all g.waking g refl) (
      leaves a b c (record g { waking = 0; token = g.token || ltb 0 g.waking }) p refl
        (ground (arith, history-IsWakeful es (new_gate paused) refl)))
