-- ===== src/Instances/Rtmp/Quiet.antt =====
-- No ffmpeg runs while an RTMP call is paused or after it was stopped.
use gotgcall.Models.{Error}
use gotgcall.Instances.Rtmp.{
  RtmpCall, new_rtmp_call, on_exit, pause_rtmp, process_exits, resume_rtmp, seek_rtmp_by,
  set_rtmp_muted, set_rtmp_source, stop_ffmpeg, stop_rtmp, seek_origin, seek_rtmp_to,
}
use gotgcall.Instances.Group.State.{Wiring}
use gotgcall.Base.{
  Bool, List, Option, [], arith, none, true, ℕ, ℤ, ◌||◌, ◌∷◌, ◌≡◌, pos, negsuc, add_signed, false,
  refl,
}

-- What happens to a call, one method after another.
pub data RtmpEvent : Type 0 where
  rtmp_sets : Bool → Option Error → ℕ → RtmpEvent
  rtmp_pauses : ℕ → RtmpEvent
  rtmp_resumes : Option Error → ℕ → RtmpEvent
  rtmp_mutes : Bool → RtmpEvent
  rtmp_seeks : Option Error → ℕ → ℤ → RtmpEvent
  rtmp_stops : RtmpEvent
  rtmp_exits : Option Error → RtmpEvent

abbrev pub IsQuiet : RtmpCall → Type 0
IsQuiet r = (r.paused || r.call_closed) ≡ true → r.proc ≡ none

module _ (kill_error : ℕ → Option Error) where
  unfoldable pub rtmp_event : RtmpEvent → RtmpCall → RtmpCall
  rtmp_event (rtmp_sets pathed fails now) r =
      (set_rtmp_source kill_error pathed fails now (λ c. c) r).0
  rtmp_event (rtmp_pauses now) r = (pause_rtmp kill_error now r).0
  rtmp_event (rtmp_resumes fails now) r = (resume_rtmp kill_error fails now r).0
  rtmp_event (rtmp_mutes target) r = (set_rtmp_muted target r).0
  rtmp_event (rtmp_seeks fails now delta) r = (seek_rtmp_by kill_error fails now delta r).0
  rtmp_event rtmp_stops r = stop_rtmp kill_error r
  rtmp_event (rtmp_exits err) r = process_exits err r

  unfoldable pub rtmp_history : List RtmpEvent → RtmpCall → RtmpCall
  rtmp_history [] r = r
  rtmp_history (e ∷ es) r = rtmp_history es (rtmp_event e r)

  stop_ffmpeg-proc : (r : RtmpCall) → (stop_ffmpeg kill_error r).proc ≡ none
  unfolding stop_ffmpeg on_exit
  stop_ffmpeg-proc r = ground arith

  seek_to-IsQuiet :
      (fails : Option Error) (now : ℕ) (target : ℤ) (r : RtmpCall)
      → r.call_closed ≡ false
      → IsQuiet r
      → IsQuiet (seek_rtmp_to kill_error fails now target r).0
  unfolding seek_rtmp_to
  seek_to-IsQuiet fails now (pos ms) r c q = λ h. ground arith
  seek_to-IsQuiet fails now (negsuc n) r c q = λ h. ground arith

  seek-IsQuiet :
      (fails : Option Error) (now : ℕ) (delta : ℤ) (r : RtmpCall)
      → IsQuiet r
      → IsQuiet (seek_rtmp_by kill_error fails now delta r).0
  unfolding seek_rtmp_by
  seek-IsQuiet fails now delta r q =
      ground (arith, seek_to-IsQuiet fails now (add_signed (seek_origin kill_error now r) delta) r)

  event-IsQuiet : (e : RtmpEvent) (r : RtmpCall) → IsQuiet r → IsQuiet (rtmp_event e r)
  unfolding rtmp_event
  event-IsQuiet (rtmp_sets pathed fails now) r q =
      unfold set_rtmp_source stop_ffmpeg in λ h. ground arith
  event-IsQuiet (rtmp_pauses now) r q = unfold pause_rtmp in λ h. ground arith
  event-IsQuiet (rtmp_resumes fails now) r q = unfold resume_rtmp in λ h. ground arith
  event-IsQuiet (rtmp_mutes target) r q = unfold set_rtmp_muted in λ h. ground arith
  event-IsQuiet (rtmp_seeks fails now delta) r q = seek-IsQuiet fails now delta r q
  event-IsQuiet rtmp_stops r q = unfold stop_rtmp in λ h. ground arith
  event-IsQuiet (rtmp_exits err) r q = unfold process_exits in λ h. ground arith

  history-IsQuiet : (es : List RtmpEvent) (r : RtmpCall) → IsQuiet r → IsQuiet (rtmp_history es r)
  unfolding rtmp_history
  history-IsQuiet [] r q = q
  history-IsQuiet (e ∷ es) r q = history-IsQuiet es (rtmp_event e r) (event-IsQuiet e r q)

  -- Through any history of a new RTMP call whose methods run one at a time no ffmpeg is held while
  -- the call is paused, nor after Stop.
  pub rtmp_history-IsQuiet :
      (w : Wiring) (es : List RtmpEvent) → IsQuiet (rtmp_history es (new_rtmp_call w))
  rtmp_history-IsQuiet w es =
      history-IsQuiet es (new_rtmp_call w) (unfold new_rtmp_call in λ h. refl)
