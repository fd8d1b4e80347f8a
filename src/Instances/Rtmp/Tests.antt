-- ===== src/Instances/Rtmp/Tests.antt =====
-- Runs of an RTMP call, and its theorems at concrete inputs.
use gotgcall.Models.{Error}
use gotgcall.Instances.Rtmp.Quiet.{
  IsQuiet, RtmpEvent, rtmp_history, rtmp_history-IsQuiet, rtmp_pauses, rtmp_resumes, rtmp_seeks,
  rtmp_sets, rtmp_stops,
}
use gotgcall.Instances.Rtmp.{
  Process, RtmpCall, new_rtmp_call, pause_rtmp, set_rtmp_source, source_end, state_change,
  stop_ffmpeg,
}
use gotgcall.Instances.Group.State.{Wiring}
use gotgcall.Base.{List, Option, [], false, none, refl, some, true, ℕ, ◌∷◌, ◌≡◌, pos}

-- A killed process leaves no error.
abbrev quiet_kill : ℕ → Option Error
quiet_kill id = none

abbrev rtmp_wired : Wiring
rtmp_wired = record {
  disp = true;
  stream_end_set = true;
  connection_set = true;
  upgrade_set = true;
}

abbrev ffmpeg : Process
ffmpeg = record { id = 0; hooked = true; running = true }

-- A call that pushes since the time 1000.
abbrev pushing : RtmpCall
pushing = record {
  wiring = rtmp_wired;
  has_path = true;
  resume_ms = 0;
  proc = some ffmpeg;
  started_at = some (1000, 0);
  call_closed = false;
  paused = false;
  muted = false;
  next_id = 1;
  submitted = [];
}

set_rtmp_source_run :
    (set_rtmp_source quiet_kill true none 1000 (λ c. c) (new_rtmp_call rtmp_wired)).0 ≡ pushing
unfolding set_rtmp_source new_rtmp_call stop_ffmpeg
set_rtmp_source_run = refl

pause_rtmp_run :
    (pause_rtmp quiet_kill 5000 pushing).0.submitted
    ≡ source_end none
      ∷ state_change (record {
        muted = false;
        paused = true;
        video_stopped = false;
        presentation_paused = true;
      })
      ∷ []
unfolding pause_rtmp
pause_rtmp_run = refl

-- Pause before the first source: the zero time counts as 292 years.
pause_rtmp_zero : (pause_rtmp quiet_kill 5 (new_rtmp_call rtmp_wired)).0.resume_ms ≡ 9223372036854
unfolding pause_rtmp new_rtmp_call stop_ffmpeg
pause_rtmp_zero = refl

abbrev pushes : List RtmpEvent
pushes =
    rtmp_sets true none 1000
    ∷ rtmp_seeks none 2000 (pos 500)
    ∷ rtmp_pauses 3000
    ∷ rtmp_resumes none 4000
    ∷ rtmp_stops
    ∷ []

rtmp_history-IsQuiet_example : IsQuiet (rtmp_history quiet_kill pushes (new_rtmp_call rtmp_wired))
rtmp_history-IsQuiet_example = rtmp_history-IsQuiet quiet_kill rtmp_wired pushes
