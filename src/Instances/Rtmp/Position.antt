-- ===== src/Instances/Rtmp/Position.antt =====
-- Where an RTMP call stands after SeekBy, and after Pause and Resume.
use gotgcall.Models.{Error}
use gotgcall.Instances.Rtmp.{
  Process, RtmpCall, pause_rtmp, resume_rtmp, rtmp_elapsed_ms, seek_origin, seek_rtmp_by,
  seek_rtmp_to, stop_ffmpeg, unhook,
}
use gotgcall.Instances.Group.Seeking.{IsSum, add_signed-IsSum}
use gotgcall.Base.{
  Option, arith, false, if◌then◌else◌, none, some, true, ℕ, ℤ, ◌+◌, ◌-◌, ◌≡◌, ◌≤◌, pos, Bool-cases,
  ap, inl, inr, refl, ◌∙◌,
}

module _ (kill_error : ℕ → Option Error) where
  unhooked_stop-submitted :
      (r : RtmpCall)
      → (stop_ffmpeg kill_error (record r { proc = unhook r.proc })).submitted ≡ r.submitted
  unfolding stop_ffmpeg
  unhooked_stop-submitted r = ground arith

  seek_rtmp_to-playing :
      (now later ms : ℕ) (r : RtmpCall)
      → r.has_path ≡ true
      → r.paused ≡ false
      → now ≤ later
      → (rtmp_elapsed_ms later (seek_rtmp_to kill_error none now (pos ms) r).0 ≡ ms + (later - now))
        × ((seek_rtmp_to kill_error none now (pos ms) r).0.submitted ≡ r.submitted)
  unfolding seek_rtmp_to rtmp_elapsed_ms
  seek_rtmp_to-playing now later ms r h p le = (ground arith, ground arith)

  seek_rtmp_to-paused :
      (fails : Option Error) (now later ms : ℕ) (r : RtmpCall)
      → r.paused ≡ true
      → (rtmp_elapsed_ms later (seek_rtmp_to kill_error fails now (pos ms) r).0 ≡ ms)
        × ((seek_rtmp_to kill_error fails now (pos ms) r).0.submitted ≡ r.submitted)
  unfolding seek_rtmp_to rtmp_elapsed_ms
  seek_rtmp_to-paused fails now later ms r p = (ground arith, ground arith)

  seek_rtmp_by-eq-seek_rtmp_to :
      (now ms : ℕ) (delta : ℤ) (r : RtmpCall)
      → r.call_closed ≡ false
      → r.has_path ≡ true
      → IsSum (seek_origin kill_error now r) delta ms
      → seek_rtmp_by kill_error none now delta r ≡ seek_rtmp_to kill_error none now (pos ms) r
  unfolding seek_rtmp_by
  seek_rtmp_by-eq-seek_rtmp_to now ms delta r c h sum =
      ground (arith, add_signed-IsSum (seek_origin kill_error now r) delta ms sum)

  -- SeekBy of an open RTMP call with a source moves the position by the offset, if the sum is not
  -- negative and fits an int64: playback goes on from there with the clock if ffmpeg starts again,
  -- or waits there while the call is paused. The process that it replaces reports no end.
  pub seek_rtmp_by-elapsed :
      (now later ms : ℕ) (delta : ℤ) (r : RtmpCall)
      → r.call_closed ≡ false
      → r.has_path ≡ true
      → now ≤ later
      → IsSum (seek_origin kill_error now r) delta ms
      → let (r', err) = seek_rtmp_by kill_error none now delta r in
        (rtmp_elapsed_ms later r' ≡ (if r.paused then ms else ms + (later - now)))
        × (r'.submitted ≡ r.submitted)
  seek_rtmp_by-elapsed now later ms delta r c h le sum =
      let lands = seek_rtmp_by-eq-seek_rtmp_to now ms delta r c h sum in
      elim (Bool-cases r.paused) [
        | inl p ↦
            let t = seek_rtmp_to-paused none now later ms r p in
            (
              ap (λ x. rtmp_elapsed_ms later x.0) lands ∙ t.0 ∙ rw p refl,
              ap (λ x. x.0.submitted) lands ∙ t.1,
            )
        | inr p ↦
            let t = seek_rtmp_to-playing now later ms r h p le in
            (
              ap (λ x. rtmp_elapsed_ms later x.0) lands ∙ t.0 ∙ rw p refl,
              ap (λ x. x.0.submitted) lands ∙ t.1,
            )
      ]

  -- On an open RTMP call that pushes, Pause keeps the position and Resume, if ffmpeg starts, goes
  -- on from it: what passes between them does not count.
  pub resume_rtmp-pause_rtmp :
      (t₁ t₂ t₃ : ℕ) (r : RtmpCall) (p : Process)
      → r.call_closed ≡ false
      → r.has_path ≡ true
      → r.paused ≡ false
      → r.proc ≡ some p
      → t₂ ≤ t₃
      → let paused_call = (pause_rtmp kill_error t₁ r).0 in
        (rtmp_elapsed_ms t₂ paused_call ≡ rtmp_elapsed_ms t₁ r)
        × (rtmp_elapsed_ms t₃ (resume_rtmp kill_error none t₂ paused_call).0
            ≡ rtmp_elapsed_ms t₁ r + (t₃ - t₂))
  unfolding pause_rtmp resume_rtmp rtmp_elapsed_ms
  resume_rtmp-pause_rtmp t₁ t₂ t₃ r p c h u e le = (ground arith, ground arith)
