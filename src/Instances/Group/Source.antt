-- ===== src/Instances/Group/Source.antt =====
-- SetSource in its three phases. The first two run without the lock: between them and the third
-- other goroutines act on the call.
use gotgcall.Models.{Error, client_closed, connection_failed, is_connected, not_connected}
use gotgcall.Instances.Group.State.{GroupCall, Source, Streamer, is_nil}
use gotgcall.Instances.Group.Start.{
  Opened, Prepared, prepare_failed, prepare_streamers, prepared, start_streamer,
}
use gotgcall.Instances.Group.Ends.{stop_streamers}
use gotgcall.Base.{Option, false, if◌then◌else◌, none, not, some, true, ℕ, ◌+◌}

-- How the wait for the connection ends: it was not needed, the `connected` channel was closed, the
-- timer ran out, or the context was done with an error.
pub data Wait : Type 0 where
  at_once woken timed_out : Wait
  cancelled : Error → Wait

-- The gate, on the state when it opens: the error, nil to go on.
unfoldable pub gate_error : Wait → GroupCall → Option Error
gate_error at_once g = none
gate_error woken g = if is_connected g.net_state then none else some connection_failed
gate_error timed_out g = some not_connected
gate_error (cancelled e) g = some e

module _ (stop_error : ℕ → Option Error) where
  -- Phase 2, under the lock.
  unfoldable pub install : Source → Option Streamer → Option Streamer → GroupCall → GroupCall
  install src a v g =
      let g1 = stop_streamers stop_error (record g { switching = true }) in
      record g1 {
        src = some src;
        resume_ms = 0;
        src_fps = src.fps;
        has_streams = true;
        audio_str = start_streamer g1.paused a;
        video_str = start_streamer g1.paused v;
        ended_once = false;
        had_audio = not (is_nil a);
        had_video = not (is_nil v);
        next_id = g1.next_id + 2;
        switching = false;
      }

  -- The rest of SetSource once its streamers are prepared, on the state `g` at the lock.
  unfoldable pub finish_source : Source → Prepared → Wait → GroupCall → GroupCall × Option Error
  finish_source src (prepare_failed e) wait g = (g, some e)
  finish_source src (prepared a v) wait g = elim (gate_error wait g) [
    | some e ↦ (g, some e)
    | none ↦ if g.call_closed then (g, some client_closed) else (install src a v g, none)
  ]

  -- SetSource: `during` is what others do to the call from the snapshot to the lock.
  unfoldable pub set_source :
      Source → Opened → Wait → (GroupCall → GroupCall) → GroupCall → GroupCall × Option Error
  unfolding finish_source
  set_source src o wait during g =
      let g1 = during g in
      if g.call_closed
      then (g, some client_closed)
      else finish_source src (prepare_streamers o g1.next_id g.muted g.video_off) wait g1
