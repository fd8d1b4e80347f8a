-- ===== src/Instances/Group/Ends.antt =====
-- How streamers end: on their own, by being stopped, and what the dispatcher does about it.
-- `stop_error` gives the error that a streamer reports when it is stopped. It is nil where its run
-- loop saw the cancelled context; the read that the stop breaks may report another.
use gotgcall.Models.{Error, StreamType, audio, video}
use gotgcall.Instances.Group.State.{GroupCall, Streamer, stream_end, submit_task}
use gotgcall.Base.{Option, false, if◌then◌else◌, none, not, some, ℕ, ◌%◌, ◌+◌, ◌^◌, ◌||◌}

-- handleStreamerEnd up to Submit
unfoldable pub handle_streamer_end : StreamType → Option Error → ℕ → GroupCall → GroupCall
handle_streamer_end t err id g =
    if g.call_closed || g.switching
    then g
    else if not g.wiring.disp
    then g
    else submit_task g (stream_end t err id)

-- The run loop of an installed streamer exits by itself: at the end of its source, or on an error.
unfoldable pub leg_ends : StreamType → Option Error → GroupCall → GroupCall
unfolding handle_streamer_end
leg_ends audio err g = elim g.audio_str [
  | none ↦ g
  | some s ↦
      if s.running
      then handle_streamer_end audio err s.id
          (record g { audio_str = some (record s { running = false }) })
      else g
]
leg_ends video err g = elim g.video_str [
  | none ↦ g
  | some s ↦
      if s.running
      then handle_streamer_end video err s.id
          (record g { video_str = some (record s { running = false }) })
      else g
]

abbrev pub add_ms : ℕ → Option Streamer → Option Streamer
add_ms ms none = none
add_ms ms (some s) = some (record s { ms_sent = (s.ms_sent + ms) % 2 ^ 64 })

-- The run loop of an installed streamer counts the milliseconds of a sample.
unfoldable pub leg_sends : StreamType → ℕ → GroupCall → GroupCall
leg_sends audio ms g = record g { audio_str = add_ms ms g.audio_str }
leg_sends video ms g = record g { video_str = add_ms ms g.video_str }

module _ (stop_error : ℕ → Option Error) where
  -- Streamer.Stop: a run loop that goes on exits and reports its end before Stop returns.
  unfoldable pub stop_streamer : StreamType → Option Streamer → GroupCall → GroupCall
  unfolding handle_streamer_end
  stop_streamer t none g = g
  stop_streamer t (some s) g =
      if s.running then handle_streamer_end t (stop_error s.id) s.id g else g

  -- stopStreamersLocked
  unfoldable pub stop_streamers : GroupCall → GroupCall
  unfolding stop_streamer
  stop_streamers g =
      let g1 = record (stop_streamer audio g.audio_str g) { audio_str = none } in
      let g2 = record (stop_streamer video g.video_str g1) { video_str = none } in
      record g2 { has_streams = false }
