-- ===== src/Instances/Group/Gates.antt =====
-- The gates of the streamers through any history of the call, and the race of SetSource.
use gotgcall.Instances.Group.Control.{mute}
use gotgcall.Models.{ConnState, Error, StreamType, audio, video, closed}
use gotgcall.Instances.Group.Tasks.{on_state, run_stream_end, run_task, stop, close_pc}
use gotgcall.Instances.Group.State.{
  GroupCall, Source, Task, Wiring, connection_change, current_state, new_group_call, stream_end,
  teardown, upgrade,
}
use gotgcall.Instances.Group.Start.{
  Opened, Leg, Prepared, opened, playable, prepare_failed, prepare_streamers, prepared,
}
use gotgcall.Instances.Group.Source.{Wait, set_source, at_once, finish_source, gate_error, install}
use gotgcall.Instances.Group.History.{
  Event, ends, event, history, mutes, pauses, reports, resumes, runs, seeks, sends, sets_source,
  stops, unmutes,
}
use gotgcall.Instances.Group.Ends.{leg_ends, leg_sends, stop_streamer, stop_streamers}
use gotgcall.Instances.Group.Coherence.{
  IsCoherent, fire-IsCoherent, mute-IsCoherent, no_streamers-IsCoherent, pause-IsCoherent,
  resume-IsCoherent, seek_by-IsCoherent, stop_streamers-IsCoherent, unmute-IsCoherent,
  install-IsCoherent, stopped_audio, stopped_video,
}
use gotgcall.Base.{List, Option, [], arith, refl, ℕ, ◌∷◌, ◌≡◌, ap₂, false, none, some, true}

leg_ends-IsCoherent :
    (t : StreamType) (err : Option Error) (g : GroupCall)
    → IsCoherent g
    → IsCoherent (leg_ends t err g)
unfolding leg_ends
leg_ends-IsCoherent audio err g v = ground arith
leg_ends-IsCoherent video err g v = ground arith

leg_sends-IsCoherent :
    (t : StreamType) (ms : ℕ) (g : GroupCall) → IsCoherent g → IsCoherent (leg_sends t ms g)
unfolding leg_sends
leg_sends-IsCoherent audio ms g v = ground arith
leg_sends-IsCoherent video ms g v = ground arith

on_state-IsCoherent : (s : ConnState) (g : GroupCall) → IsCoherent g → IsCoherent (on_state s g)
unfolding on_state
on_state-IsCoherent s g v = ground arith

close_pc-IsCoherent : (g : GroupCall) → IsCoherent g → IsCoherent (close_pc g)
unfolding close_pc
close_pc-IsCoherent g v = ground (arith, on_state-IsCoherent closed g v)

-- The fields that Stop clears.
abbrev stop_reset : GroupCall → GroupCall
stop_reset g = record g {
  src = none;
  src_fps = 0;
  resume_ms = 0;
  paused = false;
  muted = false;
  video_off = false;
}

module _ (stop_error : ℕ → Option Error) where
  stop-IsCoherent : (g : GroupCall) → IsCoherent g → IsCoherent (stop stop_error g)
  unfolding stop
  stop-IsCoherent g v = ground (
    arith,
    close_pc-IsCoherent (stop_reset stopped) (
        no_streamers-IsCoherent (stop_reset stopped)
          (stopped_audio stop_error (record g { call_closed = true }))
          (stopped_video stop_error (record g { call_closed = true }))),
  )
    where
      stopped : GroupCall
      stopped = stop_streamers stop_error (record g { call_closed = true })

  run_stream_end-IsCoherent :
      (t : StreamType) (err : Option Error) (id : ℕ) (g : GroupCall)
      → IsCoherent g
      → IsCoherent (run_stream_end stop_error t err id g).0
  unfolding run_stream_end stop_streamer
  run_stream_end-IsCoherent audio err id g v = ground arith
  run_stream_end-IsCoherent video err id g v = ground arith

  run_task-IsCoherent :
      (t : Task) (g : GroupCall) → IsCoherent g → IsCoherent (run_task stop_error t g).0
  unfolding run_task
  run_task-IsCoherent (stream_end t err id) g v = run_stream_end-IsCoherent t err id g v
  run_task-IsCoherent teardown g v =
      fire-IsCoherent (current_state g) (stop_streamers stop_error g)
        (stop_streamers-IsCoherent stop_error g)
  run_task-IsCoherent (connection_change s) g v = v
  run_task-IsCoherent (upgrade s) g v = v

  finish-IsCoherent :
      (src : Source) (p : Prepared) (o : Opened) (wait : Wait) (g : GroupCall) (id : ℕ)
      → prepare_streamers o id g.muted g.video_off ≡ p
      → IsCoherent g
      → IsCoherent (finish_source stop_error src p wait g).0
  unfolding finish_source
  finish-IsCoherent src (prepare_failed e) o wait g id p v = v
  finish-IsCoherent src (prepared a b) o wait g id p v =
      ground (arith, install-IsCoherent stop_error src o g id p)

  -- A SetSource during which nobody mutes or unmutes leaves the gates in agreement.
  set_source-IsCoherent :
      (src : Source) (o : Opened) (wait : Wait) (during : GroupCall → GroupCall) (g : GroupCall)
      → IsCoherent g
      → IsCoherent (during g)
      → (during g).muted ≡ g.muted
      → (during g).video_off ≡ g.video_off
      → IsCoherent (set_source stop_error src o wait during g).0
  unfolding set_source
  set_source-IsCoherent src o wait during g v w em ev = ground (
    arith,
    finish-IsCoherent src (prepare_streamers o (during g).next_id g.muted g.video_off) o wait
        (during g) (during g).next_id (ap₂ (prepare_streamers o (during g).next_id) em ev) w,
  )

  event-IsCoherent : (e : Event) (g : GroupCall) → IsCoherent g → IsCoherent (event stop_error e g)
  unfolding event
  event-IsCoherent pauses g v = pause-IsCoherent g v
  event-IsCoherent mutes g v = mute-IsCoherent g v
  event-IsCoherent unmutes g v = unmute-IsCoherent g v
  event-IsCoherent stops g v = stop-IsCoherent g v
  event-IsCoherent (resumes o) g v = resume-IsCoherent o g v
  event-IsCoherent (seeks o delta) g v = seek_by-IsCoherent stop_error o delta g v
  event-IsCoherent (sets_source src o wait) g v =
      set_source-IsCoherent src o wait (λ c. c) g v v refl refl
  event-IsCoherent (reports s) g v = on_state-IsCoherent s g v
  event-IsCoherent (ends t err) g v = leg_ends-IsCoherent t err g v
  event-IsCoherent (sends t ms) g v = leg_sends-IsCoherent t ms g v
  event-IsCoherent (runs t) g v = run_task-IsCoherent t g v

  history-keeps :
      (es : List Event) (g : GroupCall) → IsCoherent g → IsCoherent (history stop_error es g)
  unfolding history
  history-keeps [] g v = v
  history-keeps (e ∷ es) g v = history-keeps es (event stop_error e g) (event-IsCoherent e g v)

  -- After any history of a new call in which each call of its methods ran by itself, an installed
  -- audio streamer is muted exactly when the call is, a video streamer when `videoOff` is set, and
  -- both are gated exactly while the call is paused.
  pub history-IsCoherent :
      (w : Wiring) (es : List Event) → IsCoherent (history stop_error es (new_group_call w))
  history-IsCoherent w es =
      history-keeps es (new_group_call w)
        (unfold new_group_call in no_streamers-IsCoherent (new_group_call w) refl refl)

  -- A Mute of an open, unmuted call that comes while SetSource prepares its streamers is lost on
  -- them, if the connection is up and the source has audio: the call reports muted, and the new
  -- audio streamer runs unmuted.
  pub set_source-mute :
      (src : Source) (vl : Leg) (g : GroupCall)
      → g.call_closed ≡ false
      → g.muted ≡ false
      → let (g', err) =
          set_source stop_error src (opened playable vl) at_once (λ c. (mute c).call) g in
        (err ≡ none)
        × ((current_state g').muted ≡ true)
        × (g'.audio_str
            ≡ some (record {
              id = (mute g).call.next_id;
              muted = false;
              gated = g.paused;
              running = true;
              ms_sent = 0;
            }))
        × ¬ IsCoherent g'
  unfolding set_source mute prepare_streamers install gate_error stop_streamers current_state
  set_source-mute src vl g open_call unmuted =
      (ground arith, ground arith, ground arith, λ v. ground arith)
