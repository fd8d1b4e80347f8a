-- ===== src/Instances/Group/Tasks.antt =====
-- What the dispatcher does with the tasks of a call, and the callback of the peer connection.
use gotgcall.Models.{
  ConnState, Error, StreamType, audio, camera, closed, connecting, disconnected, is_closed,
  is_connected, is_terminal, microphone, video,
}
use gotgcall.Instances.Group.State.{
  Callback, GroupCall, Streamer, Task, connection_change, current_state, fire_upgrade_if_changed,
  on_connection_change, on_stream_end, on_upgrade, stream_end, submit_task, teardown, upgrade,
}
use gotgcall.Instances.Group.Ends.{stop_streamer, stop_streamers}
use gotgcall.Base.{
  Bool, List, Option, [], false, if◌then◌else◌, none, not, some, true, ℕ, ◌&&◌, ◌++◌, ◌==◌, ◌||◌,
  ◌∷◌,
}

abbrev pub same_streamer : Option Streamer → ℕ → Bool
same_streamer none id = true
same_streamer (some s) id = s.id == id

-- isStale
abbrev pub is_stale : StreamType → ℕ → GroupCall → Bool
is_stale audio id g = not (same_streamer g.audio_str id)
is_stale video id g = not (same_streamer g.video_str id)

-- The callbacks of one end of stream: Video first.
abbrev pub end_callbacks : Bool → Bool → Option Error → List Callback
end_callbacks had_video had_audio err =
    (if had_video then on_stream_end video camera err ∷ [] else [])
    ++ (if had_audio then on_stream_end audio microphone err ∷ [] else [])

module _ (stop_error : ℕ → Option Error) where
  -- The sibling of the leg that ended is stopped outside the lock.
  unfoldable pub stop_sibling :
      StreamType → Option Streamer → Option Streamer → GroupCall → GroupCall
  stop_sibling video a v g = stop_streamer stop_error audio a g
  stop_sibling audio a v g = stop_streamer stop_error video v g

  -- The closure that handleStreamerEnd submits
  unfoldable pub run_stream_end :
      StreamType → Option Error → ℕ → GroupCall → GroupCall × List Callback
  unfolding stop_sibling
  run_stream_end t err id g =
      let g1 = record g { ended_once = true; audio_str = none; video_str = none } in
      if g.call_closed || g.switching
      then (g, [])
      else if is_stale t id g || g.ended_once
      then (g, [])
      else (
        stop_sibling t g.audio_str g.video_str g1,
        if g.wiring.stream_end_set then end_callbacks g.had_video g.had_audio err else [],
      )

  -- The closure that tears the streamers down once the connection is gone
  unfoldable pub run_teardown : GroupCall → GroupCall
  run_teardown g = fire_upgrade_if_changed (current_state g) (stop_streamers stop_error g)

  unfoldable pub run_task : Task → GroupCall → GroupCall × List Callback
  unfolding run_stream_end run_teardown
  run_task (stream_end t err id) g = run_stream_end t err id g
  run_task teardown g = (run_teardown g, [])
  run_task (connection_change s) g = (g, on_connection_change s ∷ [])
  run_task (upgrade s) g = (g, on_upgrade s ∷ [])

  -- Tasks in order, with the callbacks that they make.
  unfoldable pub run_tasks : List Task → GroupCall → GroupCall × List Callback
  run_tasks [] g = (g, [])
  run_tasks (t ∷ ts) g =
      let (g1, cs) = run_task t g in let (g2, ds) = run_tasks ts g1 in (g2, cs ++ ds)

-- The callback that NewGroupCall gives the peer connection
unfoldable pub on_state : ConnState → GroupCall → GroupCall
on_state s g =
    let g1 = record g {
      net_state = s;
      connected_closed = g.connected_closed || is_connected s || is_terminal s;
      was_connected = g.was_connected || is_connected s;
    } in
    let g2 = if is_terminal s && g.wiring.disp then submit_task g1 teardown else g1 in
    if is_disconnected s
    then g1
    else if is_connecting s && g1.was_connected
    then g1
    else if g.wiring.disp && g.wiring.connection_set
    then submit_task g2 (connection_change s)
    else g2
  where
    is_disconnected : ConnState → Bool
    is_disconnected disconnected = true
    is_disconnected _ = false

    is_connecting : ConnState → Bool
    is_connecting connecting = true
    is_connecting _ = false

-- `g.pc.Close()`: the stack below reports Closed once, when it was not closed before.
unfoldable pub close_pc : GroupCall → GroupCall
unfolding on_state
close_pc g = if is_closed g.net_state then g else on_state closed g

-- Stop; its error is the one of closing the connection, which is left out.
unfoldable pub stop : (ℕ → Option Error) → GroupCall → GroupCall
unfolding close_pc
stop stop_error g =
    let g1 = stop_streamers stop_error (record g { call_closed = true }) in
    if g.call_closed
    then g
    else close_pc (record g1 {
      src = none;
      src_fps = 0;
      resume_ms = 0;
      paused = false;
      muted = false;
      video_off = false;
    })
