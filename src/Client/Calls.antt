-- ===== src/Client/Calls.antt =====
-- instances/call.go: the interface Call and its two implementations.
use gotgcall.Models.{ConnState, Error, StreamType, client_closed, wrong_mode}
use gotgcall.Instances.Rtmp.{
  RtmpCall, pause_rtmp, process_exits, resume_rtmp, rtmp_net_state, seek_rtmp_by, set_rtmp_muted,
  set_rtmp_source, stop_rtmp,
}
use gotgcall.Instances.Group.Tasks.{on_state, run_task, stop}
use gotgcall.Instances.Group.State.{GroupCall, Source, Task}
use gotgcall.Instances.Group.Start.{Opened}
use gotgcall.Instances.Group.Source.{Wait, set_source}
use gotgcall.Instances.Group.Seek.{seek_by}
use gotgcall.Instances.Group.Ends.{leg_ends, leg_sends}
use gotgcall.Instances.Group.Control.{Toggled, mute, pause, resume, unmute}
use gotgcall.Base.{Bool, Option, false, if◌then◌else◌, none, some, true, ℕ, ℤ}

-- A value of the interface, which Mode tells apart.
pub data Call : Type 0 where
  group_call : GroupCall → Call
  rtmp_call : RtmpCall → Call

-- The inputs of SetSource: for a GroupCall the source, what opening it returns, the wait for the
-- connection and what others do until the lock; for an RTMPCall whether the source has a path, the
-- error of starting ffmpeg, the time, and what others do until the lock.
pub record SourceInputs : Type 0 where
  pub source : Source
  pub opening : Opened
  pub wait : Wait
  pub group_during : GroupCall → GroupCall
  pub pathed : Bool
  pub spawning : Option Error
  pub now : ℕ
  pub rtmp_during : RtmpCall → RtmpCall

-- The methods, with the inputs that they meet: for Connect the error of the connection's Connect, for
-- Resume and SeekBy what opening the source returns, the error of starting ffmpeg and the time. The
-- rest is what the goroutines of the call do: the callbacks of the connection, the end of a leg, the
-- sending of media, a task of the dispatcher, the exit of ffmpeg.
pub data CallMethod : Type 0 where
  ask_connect : Option Error → CallMethod
  ask_source : SourceInputs → CallMethod
  ask_pause : ℕ → CallMethod
  ask_resume : Opened → Option Error → ℕ → CallMethod
  ask_mute ask_unmute : CallMethod
  ask_seek : Opened → Option Error → ℕ → ℤ → CallMethod
  net_changes : ConnState → CallMethod
  leg_stops : StreamType → Option Error → CallMethod
  leg_plays : StreamType → ℕ → CallMethod
  task_runs : Task → CallMethod
  ffmpeg_exits : Option Error → CallMethod

-- GroupCall.Connect; `e` is what the connection returns.
unfoldable pub connect_group : Option Error → GroupCall → GroupCall × Option Error
connect_group e g =
    if g.call_closed then (g, some client_closed) else (record g { connect_called = true }, e)

-- RTMPCall.Connect
abbrev pub connect_rtmp : RtmpCall → RtmpCall × Option Error
connect_rtmp r = (r, some wrong_mode)

abbrev pub of_group : GroupCall × Option Error → Call × Option Error
of_group r = (group_call r.0, r.1)

abbrev pub of_toggled : Toggled → Call × Option Error
of_toggled t = (group_call t.call, t.error)

abbrev pub of_rtmp : RtmpCall × Option Error → Call × Option Error
of_rtmp r = (rtmp_call r.0, r.1)

abbrev pub of_rtmp_toggle : RtmpCall × Bool × Option Error → Call × Option Error
of_rtmp_toggle r = (rtmp_call r.0, r.2)

unfoldable pub call_net : Call → ConnState
unfolding rtmp_net_state
call_net (group_call g) = g.net_state
call_net (rtmp_call r) = rtmp_net_state r

abbrev pub call_stopped : Call → Bool
call_stopped (group_call g) = g.call_closed
call_stopped (rtmp_call r) = r.call_closed

-- What Stop, the run loops and the killed processes return.
module _ (stop_error kill_error : ℕ → Option Error) where
  unfoldable pub call_stop : Call → Call
  call_stop (group_call g) = group_call (stop stop_error g)
  call_stop (rtmp_call r) = rtmp_call (stop_rtmp kill_error r)

  unfoldable pub run_group : CallMethod → GroupCall → Call × Option Error
  run_group (ask_connect e) g = of_group (connect_group e g)
  run_group (ask_source i) g =
      of_group (set_source stop_error i.source i.opening i.wait i.group_during g)
  run_group (ask_pause now) g = of_toggled (pause g)
  run_group (ask_resume o fails now) g = of_toggled (resume o g)
  run_group ask_mute g = of_toggled (mute g)
  run_group ask_unmute g = of_toggled (unmute g)
  run_group (ask_seek o fails now delta) g = of_group (seek_by stop_error o delta g)
  run_group (net_changes s) g = (group_call (on_state s g), none)
  run_group (leg_stops t e) g = (group_call (leg_ends t e g), none)
  run_group (leg_plays t ms) g = (group_call (leg_sends t ms g), none)
  run_group (task_runs t) g = (group_call (run_task stop_error t g).0, none)
  run_group (ffmpeg_exits e) g = (group_call g, none)

  unfoldable pub run_rtmp : CallMethod → RtmpCall → Call × Option Error
  run_rtmp (ask_connect e) r = of_rtmp (connect_rtmp r)
  run_rtmp (ask_source i) r =
      of_rtmp (set_rtmp_source kill_error i.pathed i.spawning i.now i.rtmp_during r)
  run_rtmp (ask_pause now) r = of_rtmp_toggle (pause_rtmp kill_error now r)
  run_rtmp (ask_resume o fails now) r = of_rtmp_toggle (resume_rtmp kill_error fails now r)
  run_rtmp ask_mute r = (rtmp_call (set_rtmp_muted true r).0, none)
  run_rtmp ask_unmute r = (rtmp_call (set_rtmp_muted false r).0, none)
  run_rtmp (ask_seek o fails now delta) r = of_rtmp (seek_rtmp_by kill_error fails now delta r)
  run_rtmp (net_changes s) r = (rtmp_call r, none)
  run_rtmp (leg_stops t e) r = (rtmp_call r, none)
  run_rtmp (leg_plays t ms) r = (rtmp_call r, none)
  run_rtmp (task_runs t) r = (rtmp_call r, none)
  run_rtmp (ffmpeg_exits e) r = (rtmp_call (process_exits e r), none)

  unfoldable pub run_call : CallMethod → Call → Call × Option Error
  run_call m (group_call g) = run_group m g
  run_call m (rtmp_call r) = run_rtmp m r
