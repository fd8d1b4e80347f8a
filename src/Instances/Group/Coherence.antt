-- ===== src/Instances/Group/Coherence.antt =====
-- The gates of the installed streamers agree with the flags of the call.
use gotgcall.Instances.Group.Source.{install}
use gotgcall.Models.{Error, MediaState}
use gotgcall.Instances.Group.Start.{
  Opened, open_failed, opened, start_locked, start_opened, prepare_streamers, prepared,
}
use gotgcall.Instances.Group.Seek.{seek_to, seek_by, seek_target}
use gotgcall.Instances.Group.Ends.{stop_streamers}
use gotgcall.Instances.Group.State.{GroupCall, Streamer, fire_upgrade_if_changed, Source}
use gotgcall.Instances.Group.Control.{pause, mute, resume, unmute}
use gotgcall.Base.{Option, arith, none, some, ◌≡◌, false, refl, ℕ, ℤ, negsuc, pos, Bool, true}

abbrev pub Holds : (Streamer → Type 0) → Option Streamer → Type 0
Holds P none = Unit {0}
Holds P (some s) = P s

-- An installed streamer is silent exactly when the call says so: the audio leg follows `muted`, the
-- video leg `video_off`, and both are gated while the call is paused.
pub record IsCoherent (g : GroupCall) : Type 0 where
  pub audio_muted : Holds (λ s. s.muted ≡ g.muted) g.audio_str
  pub video_muted : Holds (λ s. s.muted ≡ g.video_off) g.video_str
  pub audio_gated : Holds (λ s. s.gated ≡ g.paused) g.audio_str
  pub video_gated : Holds (λ s. s.gated ≡ g.paused) g.video_str

pub pause-IsCoherent : (g : GroupCall) → IsCoherent g → IsCoherent (pause g).call
unfolding pause
pause-IsCoherent g v = ground arith

pub mute-IsCoherent : (g : GroupCall) → IsCoherent g → IsCoherent (mute g).call
unfolding mute
mute-IsCoherent g v = ground arith

pub unmute-IsCoherent : (g : GroupCall) → IsCoherent g → IsCoherent (unmute g).call
unfolding unmute
unmute-IsCoherent g v = ground arith

start_opened-IsCoherent :
    (o : Opened) (g : GroupCall) → IsCoherent g → IsCoherent (start_opened o g).0
unfolding start_opened
start_opened-IsCoherent (open_failed e) g v = v
start_opened-IsCoherent (opened al vl) g v = ground arith

start_locked-IsCoherent :
    (o : Opened) (g : GroupCall) → IsCoherent g → IsCoherent (start_locked o g).0
unfolding start_locked
start_locked-IsCoherent o g v = ground (arith, start_opened-IsCoherent o g v)

-- With no streamer there is nothing to agree with.
pub no_streamers-IsCoherent :
    (g : GroupCall) → g.audio_str ≡ none → g.video_str ≡ none → IsCoherent g
no_streamers-IsCoherent g a v = ground arith

pub fire-IsCoherent :
    (prev : MediaState) (g : GroupCall) → IsCoherent g → IsCoherent (fire_upgrade_if_changed prev g)
unfolding fire_upgrade_if_changed
fire-IsCoherent prev g v = ground arith

resume_start-IsCoherent :
    (o : Opened) (g : GroupCall)
    → g.audio_str ≡ none
    → g.video_str ≡ none
    → IsCoherent (start_locked o (record g { paused = false })).0
resume_start-IsCoherent o g a v =
    start_locked-IsCoherent o (record g { paused = false })
      (no_streamers-IsCoherent (record g { paused = false }) a v)

pub resume-IsCoherent : (o : Opened) (g : GroupCall) → IsCoherent g → IsCoherent (resume o g).call
unfolding resume
resume-IsCoherent o g v = ground (arith, resume_start-IsCoherent o g)

pub stopped_audio :
    (stop_error : ℕ → Option Error) (g : GroupCall) → (stop_streamers stop_error g).audio_str ≡ none
unfolding stop_streamers
stopped_audio stop_error g = ground arith

pub stopped_video :
    (stop_error : ℕ → Option Error) (g : GroupCall) → (stop_streamers stop_error g).video_str ≡ none
unfolding stop_streamers
stopped_video stop_error g = refl

-- The flag `switching` and the offset do not bear on it.
recast :
    (g : GroupCall) (switching : Bool) (ms : ℕ)
    → IsCoherent g
    → IsCoherent (record g { switching = switching; resume_ms = ms })
recast g switching ms v = record {
  audio_muted = v.audio_muted;
  video_muted = v.video_muted;
  audio_gated = v.audio_gated;
  video_gated = v.video_gated;
}

module _ (stop_error : ℕ → Option Error) where
  pub stop_streamers-IsCoherent : (g : GroupCall) → IsCoherent (stop_streamers stop_error g)
  stop_streamers-IsCoherent g =
      no_streamers-IsCoherent _ (stopped_audio stop_error g) (stopped_video stop_error g)

  seek_to-IsCoherent :
      (o : Opened) (target : ℤ) (g : GroupCall) → IsCoherent (seek_to stop_error o target g).0
  unfolding seek_to
  seek_to-IsCoherent o (negsuc n) g = stop_streamers-IsCoherent g
  seek_to-IsCoherent o (pos ms) g =
      recast (start_locked o (record stopped { resume_ms = ms })).0 false
        (start_locked o (record stopped { resume_ms = ms })).0.resume_ms
        (start_locked-IsCoherent o (record stopped { resume_ms = ms })
          (recast stopped stopped.switching ms
            (stop_streamers-IsCoherent (record g { switching = true }))))
    where
      stopped : GroupCall
      stopped = stop_streamers stop_error (record g { switching = true })

  pub seek_by-IsCoherent :
      (o : Opened) (delta : ℤ) (g : GroupCall)
      → IsCoherent g
      → IsCoherent (seek_by stop_error o delta g).0
  unfolding seek_by
  seek_by-IsCoherent o delta g v = ground (arith, seek_to-IsCoherent o (seek_target g delta) g)

  pub install-IsCoherent :
      (src : Source) (o : Opened) (g : GroupCall) (id : ℕ) {a v : Option Streamer}
      → prepare_streamers o id g.muted g.video_off ≡ prepared a v
      → IsCoherent (install stop_error src a v g)
  unfolding install prepare_streamers stop_streamers
  install-IsCoherent src (open_failed e) g id p = cc
  install-IsCoherent src (opened al vl) g id p = ground arith
