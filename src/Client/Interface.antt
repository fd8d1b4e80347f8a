-- ===== src/Client/Interface.antt =====
-- Both calls implement the interface that the Client relies on.
use gotgcall.Instances.Group.Lifecycle.{stop-fields, stopped_closed}
use gotgcall.Models.{Error}
use gotgcall.Instances.Rtmp.{
  RtmpCall, pause_rtmp, process_exits, resume_rtmp, seek_rtmp_by, set_rtmp_muted, set_rtmp_source,
  stop_rtmp,
}
use gotgcall.Instances.Group.Tasks.{on_state, run_task, stop}
use gotgcall.Instances.Group.State.{
  GroupCall, Task, connection_change, fire_upgrade_if_changed, stream_end, teardown, upgrade,
}
use gotgcall.Instances.Group.Source.{set_source}
use gotgcall.Instances.Group.Seek.{seek_by}
use gotgcall.Instances.Group.Ends.{leg_ends, leg_sends}
use gotgcall.Instances.Group.Control.{mute, pause, resume, unmute}
use gotgcall.Client.Registry.{CallOps}
use gotgcall.Client.Calls.{
  Call, CallMethod, call_net, call_stopped, connect_group, ask_connect, ffmpeg_exits, group_call,
  leg_plays, leg_stops, ask_mute, net_changes, ask_pause, ask_resume, rtmp_call, run_call,
  run_group, run_rtmp, task_runs, ask_seek, ask_source, ask_unmute, call_stop,
}
use gotgcall.Base.{Option, arith, true, ℕ, ◌≡◌, Bool-cases, inl, inr}

module _ (stop_error kill_error : ℕ → Option Error) where
  task_keeps :
      (t : Task) (g : GroupCall)
      → g.call_closed ≡ true
      → (run_task stop_error t g).0.call_closed ≡ true
  unfolding run_task fire_upgrade_if_changed
  task_keeps (stream_end t err id) g c = ground arith
  task_keeps teardown g c = ground (arith, stopped_closed stop_error g c)
  task_keeps (connection_change s) g c = c
  task_keeps (upgrade s) g c = c

  group_keeps :
      (m : CallMethod) (g : GroupCall)
      → g.call_closed ≡ true
      → call_stopped (run_group stop_error kill_error m g).0 ≡ true
  unfolding run_group connect_group set_source pause resume mute unmute seek_by on_state leg_ends
      leg_sends run_task
  group_keeps (ask_connect e) g c = ground arith
  group_keeps (ask_source i) g c = ground arith
  group_keeps (ask_pause now) g c = ground arith
  group_keeps (ask_resume o fails now) g c = ground arith
  group_keeps ask_mute g c = ground arith
  group_keeps ask_unmute g c = ground arith
  group_keeps (ask_seek o fails now delta) g c = ground arith
  group_keeps (net_changes s) g c = ground arith
  group_keeps (leg_stops t e) g c = ground arith
  group_keeps (leg_plays t ms) g c = ground arith
  group_keeps (task_runs t) g c = task_keeps t g c
  group_keeps (ffmpeg_exits e) g c = c

  rtmp_keeps :
      (m : CallMethod) (r : RtmpCall)
      → r.call_closed ≡ true
      → call_stopped (run_rtmp stop_error kill_error m r).0 ≡ true
  unfolding run_rtmp set_rtmp_source pause_rtmp resume_rtmp set_rtmp_muted seek_rtmp_by
      process_exits
  rtmp_keeps (ask_connect e) r c = c
  rtmp_keeps (ask_source i) r c = ground arith
  rtmp_keeps (ask_pause now) r c = ground arith
  rtmp_keeps (ask_resume o fails now) r c = ground arith
  rtmp_keeps ask_mute r c = ground arith
  rtmp_keeps ask_unmute r c = ground arith
  rtmp_keeps (ask_seek o fails now delta) r c = ground arith
  rtmp_keeps (net_changes s) r c = c
  rtmp_keeps (leg_stops t e) r c = c
  rtmp_keeps (leg_plays t ms) r c = c
  rtmp_keeps (task_runs t) r c = c
  rtmp_keeps (ffmpeg_exits e) r c = ground arith

  pub call_keeps :
      (m : CallMethod) (c : Call)
      → call_stopped c ≡ true
      → call_stopped (run_call stop_error kill_error m c).0 ≡ true
  unfolding run_call
  call_keeps m (group_call g) c = group_keeps m g c
  call_keeps m (rtmp_call r) c = rtmp_keeps m r c

  stopped_group : (g : GroupCall) → (stop stop_error g).call_closed ≡ true
  stopped_group g = elim (Bool-cases g.call_closed) [
    | inl was_closed ↦ unfold stop in ground (arith, was_closed)
    | inr was_open ↦ (stop-fields stop_error g was_open).0
  ]

  stopped_rtmp : (r : RtmpCall) → (stop_rtmp kill_error r).call_closed ≡ true
  unfolding stop_rtmp
  stopped_rtmp r = ground arith

  pub stop_stops : (c : Call) → call_stopped (call_stop stop_error kill_error c) ≡ true
  unfolding call_stop
  stop_stops (group_call g) = stopped_group g
  stop_stops (rtmp_call r) = stopped_rtmp r

  -- The operations of a Call and what the Client relies on.
  abbrev pub call_ops : CallOps Call CallMethod
  call_ops = record {
    run = run_call stop_error kill_error;
    stop_call = call_stop stop_error kill_error;
    net_of = call_net;
    is_stopped = call_stopped;
    run_keeps = call_keeps;
    stop_stops = stop_stops;
  }
