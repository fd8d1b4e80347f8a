-- ===== src/Media/Gate.antt =====
-- media/streamer.go: the gate of a Streamer, SetPaused and the cancellation, each access to shared
-- state a step of its own. The run loop of a streamer is the only goroutine in the gate.
pub mod Wakes
pub mod Shuts
use gotgcall.Base.{
  Bool, List, [], false, if◌then◌else◌, not, true, ℕ, ◌&&◌, ◌+◌, ◌-◌, ◌==◌, ◌||◌, ◌∷◌,
}

-- Where the run loop is: before gate, after the first load that saw `pausedGate`, before the test of
-- the loop, in its select, before the last `ctx.Err()`, and what gate returned.
pub data Place : Type 0 where
  at_top at_drop at_check at_wait at_leave : Place
  returned : Bool → Place

-- `token` says that the channel `resume`, of size 1, is full; `waking` counts the calls of
-- SetPaused(false) between their CompareAndSwap and their send.
pub record Gate : Type 0 where
  pub place : Place
  pub paused : Bool
  pub token : Bool
  pub waking : ℕ
  pub cancelled : Bool

-- A gate that the loop has reached, of a streamer that is paused or not.
abbrev pub new_gate : Bool → Gate
new_gate paused = record {
  place = at_top;
  paused = paused;
  token = false;
  waking = 0;
  cancelled = false;
}

-- The select: `pick` chooses the token where the context is done too.
abbrev pub waited : Bool → Gate → Gate
waited pick g =
    if g.token && (not g.cancelled || pick)
    then record g { token = false; place = at_check }
    else if g.cancelled
    then record g { place = returned false }
    else g

-- One step of gate.
abbrev pub gate_at : Place → Bool → Gate → Gate
gate_at at_top pick g =
    if g.paused then record g { place = at_drop } else record g { place = at_leave }
gate_at at_drop pick g = record g { token = false; place = at_check }
gate_at at_check pick g =
    if g.paused then record g { place = at_wait } else record g { place = at_leave }
gate_at at_wait pick g = waited pick g
gate_at at_leave pick g = record g { place = returned (not g.cancelled) }
gate_at (returned b) pick g = g

unfoldable pub gate_step : Bool → Gate → Gate
gate_step pick g = gate_at g.place pick g

-- SetPaused(true)
abbrev pub gate_pause : Gate → Gate
gate_pause g = record g { paused = true }

-- The CompareAndSwap of SetPaused(false)
unfoldable pub gate_unpause : Gate → Gate
gate_unpause g = if g.paused then record g { paused = false; waking = g.waking + 1 } else g

-- The send of SetPaused(false), which a full channel leaves out.
unfoldable pub gate_wake : Gate → Gate
gate_wake g = if g.waking == 0 then g else record g { token = true; waking = g.waking - 1 }

-- The context is cancelled, by Stop or by its parent.
abbrev pub gate_cancel : Gate → Gate
gate_cancel g = record g { cancelled = true }

pub data GateEvent : Type 0 where
  loop_moves : Bool → GateEvent
  pauses_gate unpauses_gate wakes_gate cancels_gate : GateEvent

unfoldable pub gate_event : GateEvent → Gate → Gate
unfolding gate_step gate_unpause gate_wake
gate_event (loop_moves pick) g = gate_step pick g
gate_event pauses_gate g = gate_pause g
gate_event unpauses_gate g = gate_unpause g
gate_event wakes_gate g = gate_wake g
gate_event cancels_gate g = gate_cancel g

unfoldable pub gate_history : List GateEvent → Gate → Gate
gate_history [] g = g
gate_history (e ∷ es) g = gate_history es (gate_event e g)
