-- ===== src/Wrtc/Monitor/Running.antt =====
-- wrtc/keepalive.go: the goroutine of the monitor, which Start makes and Stop ends.
use gotgcall.Wrtc.Stack.{Stack}
use gotgcall.Wrtc.Monitor.{FactoryMonitor, poll, new_peer}
use gotgcall.Base.{
  Bool, List, [], arith, false, if◌then◌else◌, not, refl, true, ℕ, ◌&&◌, ◌+◌, ◌-◌, ◌==◌, ◌∷◌, ◌≡◌,
  ◌≤◌, ◌++◌,
}

-- A FactoryMonitor with its flags; `loops` are the goroutines that are in the loop of run. History:
-- `spawned` counts the goroutines made, `cancels` the calls of cancel.
record Runner : Type 0 where
  monitor : FactoryMonitor
  started : Bool
  stopping : Bool
  loops : ℕ
  spawned : ℕ
  cancels : ℕ

-- NewFactoryMonitor
abbrev new_runner : Runner
new_runner = record {
  monitor = record { tick = 0; peers = [] };
  started = false;
  stopping = false;
  loops = 0;
  spawned = 0;
  cancels = 0;
}

-- Register, of a connection as NewPeerConnection makes it.
abbrev register_peer : Stack → Runner → Runner
register_peer s r = record r {
  monitor = record { tick = r.monitor.tick; peers = r.monitor.peers ++ new_peer s ∷ [] };
}

-- Start
unfoldable start_runner : Runner → Runner
start_runner r =
    if r.started
    then r
    else record r { started = true; loops = r.loops + 1; spawned = r.spawned + 1 }

-- Stop
unfoldable stop_runner : Runner → Runner
stop_runner r = if r.stopping then r else record r { stopping = true; cancels = r.cancels + 1 }

-- What a loop of run does next: with both ready, the select takes either. `ticked` says that the
-- ticker fired, at the time `now`; `choose_tick` that the select prefers it.
unfoldable loop_runner : Bool → Bool → ℕ → Runner → Runner
unfolding poll
loop_runner ticked choose_tick now r =
    if r.loops == 0
    then r
    else if r.stopping && not (ticked && choose_tick)
    then record r { loops = r.loops - 1 }
    else if ticked
    then record r { monitor = poll now r.monitor }
    else r

data RunnerEvent : Type 0 where
  registers_peer : Stack → RunnerEvent
  starts_runner : RunnerEvent
  stops_runner : RunnerEvent
  loops_runner : Bool → Bool → ℕ → RunnerEvent

unfoldable runner_event : RunnerEvent → Runner → Runner
unfolding start_runner stop_runner loop_runner
runner_event (registers_peer s) r = register_peer s r
runner_event starts_runner r = start_runner r
runner_event stops_runner r = stop_runner r
runner_event (loops_runner ticked choose_tick now) r = loop_runner ticked choose_tick now r

unfoldable runner_history : List RunnerEvent → Runner → Runner
unfolding runner_event
runner_history [] r = r
runner_history (e ∷ es) r = runner_history es (runner_event e r)

-- One goroutine at most was made, and cancel was called once where Stop was.
record OneLoop (r : Runner) : Type 0 where
  few_loops : r.loops ≤ r.spawned
  one_spawned : r.spawned ≡ (if r.started then 1 else 0)
  one_cancel : r.cancels ≡ (if r.stopping then 1 else 0)

runner_event-OneLoop : (e : RunnerEvent) (r : Runner) → OneLoop r → OneLoop (runner_event e r)
unfolding runner_event start_runner stop_runner loop_runner
runner_event-OneLoop (registers_peer s) r o = record {
  few_loops = ground arith;
  one_spawned = ground arith;
  one_cancel = ground arith;
}
runner_event-OneLoop starts_runner r o = record {
  few_loops = ground arith;
  one_spawned = ground arith;
  one_cancel = ground arith;
}
runner_event-OneLoop stops_runner r o = record {
  few_loops = ground arith;
  one_spawned = ground arith;
  one_cancel = ground arith;
}
runner_event-OneLoop (loops_runner ticked choose_tick now) r o = record {
  few_loops = ground arith;
  one_spawned = ground arith;
  one_cancel = ground arith;
}

runner_history-from :
    (es : List RunnerEvent) (r : Runner) → OneLoop r → OneLoop (runner_history es r)
unfolding runner_history
runner_history-from [] r o = o
runner_history-from (e ∷ es) r o =
    runner_history-from es (runner_event e r) (runner_event-OneLoop e r o)

-- However often Register, Start and Stop are called, in whatever order, a monitor makes one goroutine
-- at most and cancels once at most.
runner_history-OneLoop : (es : List RunnerEvent) → OneLoop (runner_history es new_runner)
runner_history-OneLoop es =
    runner_history-from es new_runner
      (record { few_loops = omega arith; one_spawned = refl; one_cancel = refl })

-- After Stop the loop is over at its next step that finds the ticker silent, and polls no more.
stopped-quiet :
    (choose_tick : Bool) (now : ℕ) (es : List RunnerEvent)
    → ((runner_history es new_runner).stopping ≡ true)
    → (loop_runner false choose_tick now (runner_history es new_runner)).loops ≡ 0
unfolding loop_runner
stopped-quiet choose_tick now es h =
    let o = runner_history-OneLoop es in ground (arith, o.few_loops, o.one_spawned)
