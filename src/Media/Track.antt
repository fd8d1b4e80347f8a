-- ===== src/Media/Track.antt =====
-- media/source.go: the bit set Track, and the options of the encoder with their defaults. The
-- numbers of the source are ints; a negative one, which no caller has a use for, is left out.
pub mod Defaults
use gotgcall.Base.{Bool, if◌then◌else◌, ℕ, ◌%◌, ◌+◌, ◌/◌, ◌==◌}

abbrev pub track_audio : ℕ
track_audio = 1

abbrev pub track_video : ℕ
track_video = 2

-- `t.Has(TrackAudio)` and `t.Has(TrackVideo)`
abbrev pub has_audio : ℕ → Bool
has_audio t = t % 2 == 1

abbrev pub has_video : ℕ → Bool
has_video t = (t / 2) % 2 == 1

pub record EncodeOptions : Type 0 where
  pub video_bitrate_kbps : ℕ
  pub video_width : ℕ
  pub video_height : ℕ
  pub video_fps : ℕ
  pub audio_bitrate_kbps : ℕ
  pub audio_channels : ℕ
  pub tracks : ℕ

abbrev pub or_default : ℕ → ℕ → ℕ
or_default n d = if n == 0 then d else n

-- `t |= TrackAudio` where `t` has TrackVideo
abbrev pub audio_too : ℕ → ℕ
audio_too t = if has_video t then (if has_audio t then t else t + track_audio) else t

-- withDefaults
unfoldable pub with_defaults : EncodeOptions → EncodeOptions
with_defaults o = record {
  video_bitrate_kbps = or_default o.video_bitrate_kbps 800;
  video_width = or_default o.video_width 1280;
  video_height = or_default o.video_height 720;
  video_fps = or_default o.video_fps 30;
  audio_bitrate_kbps = or_default o.audio_bitrate_kbps 128;
  audio_channels = or_default o.audio_channels 2;
  tracks = audio_too (or_default o.tracks track_audio);
}
