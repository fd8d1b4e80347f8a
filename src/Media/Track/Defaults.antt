-- ===== src/Media/Track/Defaults.antt =====
-- The defaults of the encoder's options.
use gotgcall.Media.Track.{EncodeOptions, audio_too, has_audio, has_video, or_default, with_defaults}
use gotgcall.Base.{arith, sym, true, ℕ, ◌<◌, ◌∙◌, ◌≡◌, ap}

audio_too-has : (t : ℕ) → has_video t ≡ true → has_audio (audio_too t) ≡ true
audio_too-has t h = ground arith

audio_too-video : (t : ℕ) → has_video (audio_too t) ≡ has_video t
audio_too-video t = ground arith

audio_too_idem : (t : ℕ) → audio_too (audio_too t) ≡ audio_too t
audio_too_idem t = ground arith

or_default-audio_too :
    (t d : ℕ) → 0 < d → or_default (audio_too (or_default t d)) d ≡ audio_too (or_default t d)
or_default-audio_too t d h = ground arith

or_default_idem : (n d : ℕ) → or_default (or_default n d) d ≡ or_default n d
or_default_idem n d = ground arith

tracks_idem :
    (t : ℕ) → audio_too (or_default (audio_too (or_default t 1)) 1) ≡ audio_too (or_default t 1)
tracks_idem t =
    ap audio_too (or_default-audio_too t 1 (omega arith)) ∙ audio_too_idem (or_default t 1)

-- withDefaults leaves options that it has completed as they are, and completed options name a track,
-- and audio where they name video.
pub with_defaults-with_defaults :
    (o : EncodeOptions)
    → (with_defaults (with_defaults o) ≡ with_defaults o)
      × (0 < (with_defaults o).tracks)
      × (has_video (with_defaults o).tracks ≡ true → has_audio (with_defaults o).tracks ≡ true)
unfolding with_defaults
with_defaults-with_defaults o = (
  cc (
    or_default_idem o.video_bitrate_kbps 800,
    or_default_idem o.video_width 1280,
    or_default_idem o.video_height 720,
    or_default_idem o.video_fps 30,
    or_default_idem o.audio_bitrate_kbps 128,
    or_default_idem o.audio_channels 2,
    tracks_idem o.tracks,
  ),
  ground arith,
  (λ h. audio_too-has (or_default o.tracks 1) (sym (audio_too-video (or_default o.tracks 1)) ∙ h)),
)
