-- ===== src/Instances/Group/Tests.antt =====
-- Runs of a call, and the theorems about it at concrete inputs.
use gotgcall.Models.{Error, audio, camera, connected, microphone, video}
use gotgcall.Instances.Group.Toggles.{Fires, toggles-Fires}
use gotgcall.Instances.Group.Tasks.{run_task, run_tasks, stop}
use gotgcall.Instances.Group.State.{
  GroupCall, Source, Streamer, Wiring, elapsed_ms, is_nil, new_group_call, on_stream_end,
  stream_end,
}
use gotgcall.Instances.Group.Start.{Opened, opened, playable, prepare_streamers, start_locked}
use gotgcall.Instances.Group.Source.{at_once, gate_error, install, set_source, woken}
use gotgcall.Instances.Group.Seeking.{seek_by-elapsed}
use gotgcall.Instances.Group.Seek.{seek_by, seek_to}
use gotgcall.Instances.Group.Lifecycle.{IsInstalled, IsStopped, set_source_cases, stop-IsStopped}
use gotgcall.Instances.Group.History.{
  Event, ends, history, mutes, pauses, reports, resumes, runs, seeks, sends, sets_source, stops,
}
use gotgcall.Instances.Group.Gates.{history-IsCoherent}
use gotgcall.Instances.Group.Eof.{End, EndsOnce, end_task, run_tasks-EndsOnce}
use gotgcall.Instances.Group.Ends.{stop_streamers, stop_streamer}
use gotgcall.Instances.Group.Control.{mute, pause, resume, unmute}
use gotgcall.Instances.Group.Coherence.{IsCoherent}
use gotgcall.Base.{
  List, Option, [], arith, false, map, none, refl, some, true, ℕ, ◌∷◌, ◌≡◌, ◌⊎◌, negsuc, pos,
}

-- A streamer reports no error when it is stopped.
abbrev quiet_stop : ℕ → Option Error
quiet_stop id = none

abbrev wired : Wiring
wired = record { disp = true; stream_end_set = true; connection_set = true; upgrade_set = true }

abbrev movie : Source
movie = record { seekable = true; fps = 30 }

abbrev fresh : GroupCall
fresh = new_group_call wired

-- A connected call with no source yet.
abbrev idle : GroupCall
idle = record fresh { net_state = connected; was_connected = true; connected_closed = true }

abbrev sound : Streamer
sound = record { id = 0; muted = false; gated = false; running = true; ms_sent = 5000 }

abbrev picture : Streamer
picture = record { id = 1; muted = false; gated = false; running = true; ms_sent = 4990 }

-- The call 5 seconds into the source.
abbrev playing : GroupCall
playing = record idle {
  src = some movie;
  src_fps = 30;
  has_streams = true;
  audio_str = some sound;
  video_str = some picture;
  had_audio = true;
  had_video = true;
  next_id = 2;
}

abbrev both_legs : Opened
both_legs = opened playable playable

abbrev both_ends : List End
both_ends =
    record { leg = audio; error = none; id = 0 } ∷ record { leg = video; error = none; id = 1 } ∷ []

abbrev evening : List Event
evening =
    reports connected
    ∷ mutes
    ∷ sets_source movie both_legs woken
    ∷ sends audio 20
    ∷ pauses
    ∷ seeks both_legs (pos 3000)
    ∷ resumes both_legs
    ∷ ends video none
    ∷ runs (stream_end video none 3)
    ∷ stops
    ∷ []

-- SetSource on the connected call brings the state `playing` but for the milliseconds sent.
set_source_run : (set_source quiet_stop movie both_legs at_once (λ c. c) idle).0 ≡ record playing {
  audio_str = some (record sound { ms_sent = 0 });
  video_str = some (record picture { ms_sent = 0 });
}
unfolding set_source prepare_streamers gate_error install stop_streamers new_group_call
set_source_run = refl

seek_run : elapsed_ms (seek_to quiet_stop both_legs (pos 8000) playing).0 ≡ 8000
unfolding seek_to new_group_call elapsed_ms start_locked stop_streamers
seek_run = refl

end_run :
    (run_tasks quiet_stop (map end_task both_ends) playing).1
    ≡ on_stream_end video camera none ∷ on_stream_end audio microphone none ∷ []
unfolding run_tasks run_task new_group_call stop_streamer
end_run = refl

history-IsCoherent_example : IsCoherent (history quiet_stop evening (new_group_call wired))
history-IsCoherent_example = history-IsCoherent quiet_stop wired evening

toggles-Fires_example :
    Fires playing (pause playing).call
    × Fires playing (resume both_legs playing).call
    × Fires playing (mute playing).call
    × Fires playing (unmute playing).call
toggles-Fires_example = toggles-Fires both_legs playing

run_tasks-EndsOnce_example :
    EndsOnce quiet_stop (run_tasks quiet_stop (map end_task both_ends) playing).1 playing
run_tasks-EndsOnce_example =
    run_tasks-EndsOnce quiet_stop both_ends playing (unfold new_group_call in refl)

seek_by-elapsed_example :
    (elapsed_ms (seek_by quiet_stop both_legs (negsuc 1999) playing).0 ≡ 3000)
    × ((seek_by quiet_stop both_legs (negsuc 1999) playing).0.submitted ≡ playing.submitted)
seek_by-elapsed_example =
    seek_by-elapsed quiet_stop both_legs (negsuc 1999) playing movie 3000
      (unfold new_group_call in refl) (unfold new_group_call in refl)
      (unfold new_group_call in refl) refl (unfold new_group_call elapsed_ms in (refl, omega arith))

set_source_cases_example :
    let (g', err) = set_source quiet_stop movie both_legs woken (λ c. (pause c).call) idle in
    ((g' ≡ (pause idle).call) × (is_nil err ≡ false))
    ⊎ (IsInstalled quiet_stop movie both_legs (pause idle).call g'
        × (err ≡ none)
        × ((pause idle).call.call_closed ≡ false)
        × (gate_error woken (pause idle).call ≡ none))
set_source_cases_example =
    set_source_cases quiet_stop movie both_legs woken (λ c. (pause c).call) idle
      (unfold new_group_call in refl)

stop-IsStopped_example :
    IsStopped both_legs (stop quiet_stop playing)
    × (run_tasks quiet_stop (map end_task both_ends) (stop quiet_stop playing)
        ≡ (stop quiet_stop playing, []))
stop-IsStopped_example =
    stop-IsStopped quiet_stop both_legs playing both_ends (unfold new_group_call in refl)
