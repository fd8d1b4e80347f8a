-- ===== src/Instances/Group/History.antt =====
-- A history of a call: what users, the network, the run loops of the streamers and the dispatcher
-- do to it, one after another.
use gotgcall.Models.{ConnState, Error, StreamType}
use gotgcall.Instances.Group.Tasks.{on_state, run_task, stop}
use gotgcall.Instances.Group.State.{GroupCall, Source, Task}
use gotgcall.Instances.Group.Start.{Opened}
use gotgcall.Instances.Group.Source.{Wait, set_source}
use gotgcall.Instances.Group.Seek.{seek_by}
use gotgcall.Instances.Group.Ends.{leg_ends, leg_sends}
use gotgcall.Instances.Group.Control.{mute, pause, resume, unmute}
use gotgcall.Base.{List, Option, [], ℕ, ℤ, ◌∷◌}

pub data Event : Type 0 where
  pauses mutes unmutes stops : Event
  resumes : Opened → Event
  seeks : Opened → ℤ → Event
  sets_source : Source → Opened → Wait → Event
  reports : ConnState → Event
  ends : StreamType → Option Error → Event
  sends : StreamType → ℕ → Event
  runs : Task → Event

module _ (stop_error : ℕ → Option Error) where
  unfoldable pub event : Event → GroupCall → GroupCall
  event pauses g = (pause g).call
  event mutes g = (mute g).call
  event unmutes g = (unmute g).call
  event stops g = stop stop_error g
  event (resumes o) g = (resume o g).call
  event (seeks o delta) g = (seek_by stop_error o delta g).0
  event (sets_source src o wait) g = (set_source stop_error src o wait (λ c. c) g).0
  event (reports s) g = on_state s g
  event (ends t err) g = leg_ends t err g
  event (sends t ms) g = leg_sends t ms g
  event (runs t) g = (run_task stop_error t g).0

  unfoldable pub history : List Event → GroupCall → GroupCall
  history [] g = g
  history (e ∷ es) g = history es (event e g)
