-- ===== src/Media/Transcode/Legs.antt =====
-- The legs of a source that transcodes.
use Prim.Native.String.{String}
use gotgcall.Models.{Error, StreamType, audio, video}
use gotgcall.Media.Transcode.{
  GoText, TranscodeSource, audio_ff_args, transcode_input, video_ff_args, from_file, opened_at,
  seek_input, transcode, transcode_at,
}
use gotgcall.Media.Track.{EncodeOptions, has_audio, has_video, with_defaults}
use gotgcall.Media.Opens.Legs.{IsOpened}
use gotgcall.Media.Opens.{LegArgs, close_all, open_leg, Opening}
use gotgcall.Base.{
  List, Option, [], arith, if◌then◌else◌, none, some, true, ◌<◌, ◌≡◌, false, text_eq, ℕ,
}

module _ (t : GoText) (ffmpeg : String)
    (spawn : StreamType → String → List String → Option Error) where
  two_legs :
      (a v : LegArgs)
      → IsOpened a v (
          open_leg spawn video v
            (open_leg spawn audio a (record { failure = none; closers = []; live = [] })))
  unfolding open_leg close_all
  two_legs none none = ground arith
  two_legs none (some v) = ground arith
  two_legs (some a) none = ground arith
  two_legs (some a) (some v) = ground arith

  -- The tracks of a source from FromFile or FromURL, the defaults filled in, are audio, or audio and
  -- video.
  tracks-audio : (o : EncodeOptions) → o.tracks < 4 → has_audio (with_defaults o).tracks ≡ true
  unfolding with_defaults
  tracks-audio o h = ground arith

  tracks-video : (o : EncodeOptions) → has_video (with_defaults o).tracks ≡ has_video o.tracks
  unfolding with_defaults
  tracks-video o = ground arith

  abbrev pub asked_video : List String → EncodeOptions → LegArgs
  asked_video input o =
      if has_video o.tracks then some (ffmpeg, video_ff_args t input (with_defaults o)) else none

  transcode_input-legs :
      (input : List String) (s : TranscodeSource)
      → s.opt.tracks < 4
      → IsOpened
          (some (ffmpeg, audio_ff_args t input (with_defaults s.opt)))
          (asked_video input s.opt)
          (transcode_input t ffmpeg spawn input s)
  unfolding transcode_input
  transcode_input-legs input s h = rw (tracks-audio s.opt h) (
      rw (tracks-video s.opt) (
        two_legs (some (ffmpeg, audio_ff_args t input (with_defaults s.opt)))
          (asked_video input s.opt)))

  abbrev pub asked_audio : List String → EncodeOptions → LegArgs
  asked_audio input o = some (ffmpeg, audio_ff_args t input (with_defaults o))

  seek_opens :
      (offset : ℕ) (s : TranscodeSource)
      → text_eq s.path "" ≡ false
      → transcode_at t ffmpeg spawn offset s
        ≡ opened_at (transcode_input t ffmpeg spawn (seek_input t offset s.path) s)
  unfolding transcode_at
  seek_opens offset s h = rw h

  -- A source of FromFile or FromURL with a path, from the start or at an offset, whatever starting
  -- ffmpeg returns: opening either fails and leaves no reader open, or opens a reader for audio, also
  -- where the options ask for video only or for no track, and one for video just where they ask for
  -- it, which options that name no track do not; closing the streams closes them.
  pub from_file-legs :
      (path : String) (o : EncodeOptions) (offset : ℕ)
      → o.tracks < 4
      → text_eq path "" ≡ false
      → let s = from_file t path o in
        let input = seek_input t offset path in
        IsOpened
          (asked_audio s.input_args o)
          (asked_video s.input_args o)
          (transcode t ffmpeg spawn s)
        × ((op : Opening) × (transcode_at t ffmpeg spawn offset s ≡ opened_at op)
            × IsOpened (asked_audio input o) (asked_video input o) op)
  unfolding transcode from_file
  from_file-legs path o offset h p =
      let s = from_file t path o in
      let input = seek_input t offset path in
      (
        transcode_input-legs s.input_args s h,
        (
          transcode_input t ffmpeg spawn input s,
          seek_opens offset s p,
          transcode_input-legs input s h,
        ),
      )
