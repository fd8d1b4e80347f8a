-- ===== src/Media/Transcode.antt =====
-- media/transcode.go: the source that transcodes a file or a URL. What Go's strconv, fmt and strings
-- make of numbers and texts is given.
pub mod Legs
use Prim.Native.String.{String}
use gotgcall.Models.{Error, StreamType, audio, video}
use gotgcall.Media.Track.{EncodeOptions, has_audio, has_video, with_defaults}
use gotgcall.Media.Opens.{LegArgs, Opening, open_leg}
use gotgcall.Base.{
  Bool, List, Option, [], if◌then◌else◌, none, some, text_eq, ℕ, ◌*◌, ◌++◌, ◌||◌, ◌∷◌,
}

-- strconv.Itoa, "%dk", "scale=%d:%d", the seconds of an offset with three places, strings.Contains
-- and strings.HasPrefix, the text that is looked for last.
pub record GoText : Type 0 where
  pub itoa : ℕ → String
  pub kilo : ℕ → String
  pub scale : ℕ → ℕ → String
  pub seconds : ℕ → String
  pub contains : String → String → Bool
  pub has_prefix : String → String → Bool

-- transcodeSource
pub record TranscodeSource : Type 0 where
  pub path : String
  pub input_args : List String
  pub opt : EncodeOptions

-- OpenAt returns ErrNotSeekable, or what opening gave.
pub data OpenedAt : Type 0 where
  not_seekable : OpenedAt
  opened_at : Opening → OpenedAt

abbrev pub common_flags : List String
common_flags = "-fflags" ∷ "+discardcorrupt+genpts" ∷ "-err_detect" ∷ "ignore_err" ∷ []

module _ (t : GoText) where
  open t use {itoa, kilo, scale, seconds, contains, has_prefix}

  -- ffmpegInputPrefix
  unfoldable pub input_prefix : String → List String
  input_prefix input =
      if contains input ".m3u8"
      then "-user_agent"
        ∷ "Mozilla/5.0 (X11; Linux x86_64) AppleWebKit/537.36 (KHTML, like Gecko) Chrome/145.0.0.0 Safari/537.36"
        ∷ "-protocol_whitelist" ∷ "file,http,https,tcp,tls" ∷ "-rw_timeout" ∷ "10000000"
        ∷ "-http_persistent" ∷ "1" ∷ "-analyzeduration" ∷ "0" ∷ "-probesize" ∷ "32k" ∷ []
      else if has_prefix input "http://" || has_prefix input "https://"
      then "-reconnect" ∷ "1" ∷ "-reconnect_at_eof" ∷ "1" ∷ "-reconnect_streamed" ∷ "1"
        ∷ "-reconnect_delay_max" ∷ "5" ∷ "-timeout" ∷ "10000000" ∷ "-analyzeduration" ∷ "0"
        ∷ "-probesize" ∷ "32k" ∷ []
      else "-analyzeduration" ∷ "0" ∷ "-probesize" ∷ "64k" ∷ []

  -- FromFile, and FromURL
  unfoldable pub from_file : String → EncodeOptions → TranscodeSource
  from_file path opt = record {
    path = path;
    input_args = input_prefix path ++ "-i" ∷ path ∷ [];
    opt = opt;
  }

  -- audioFFArgs
  unfoldable pub audio_ff_args : List String → EncodeOptions → List String
  audio_ff_args input o =
      ("-hide_banner" ∷ "-loglevel" ∷ "error" ∷ "-nostdin" ∷ common_flags)
      ++ input
      ++ ("-map"
          ∷ "0:a?"
          ∷ "-vn"
          ∷ "-sn"
          ∷ "-dn"
          ∷ "-c:a"
          ∷ "libopus"
          ∷ "-b:a"
          ∷ kilo o.audio_bitrate_kbps
          ∷ "-vbr"
          ∷ "on"
          ∷ "-compression_level"
          ∷ "10"
          ∷ "-frame_duration"
          ∷ itoa 20
          ∷ "-page_duration"
          ∷ itoa 20000
          ∷ "-application"
          ∷ "audio"
          ∷ "-mapping_family"
          ∷ "0"
          ∷ "-ar"
          ∷ itoa 48000
          ∷ "-ac"
          ∷ itoa o.audio_channels
          ∷ "-f"
          ∷ "ogg"
          ∷ "pipe:1"
          ∷ [])

  -- videoFFArgs
  unfoldable pub video_ff_args : List String → EncodeOptions → List String
  video_ff_args input o =
      let rate = kilo o.video_bitrate_kbps in
      let gop = itoa (o.video_fps * 2) in
      ("-hide_banner" ∷ "-loglevel" ∷ "error" ∷ "-nostdin" ∷ "-re" ∷ common_flags)
      ++ input
      ++ ("-map"
          ∷ "0:v?"
          ∷ "-an"
          ∷ "-sn"
          ∷ "-dn"
          ∷ "-c:v"
          ∷ "libvpx"
          ∷ "-b:v"
          ∷ rate
          ∷ "-minrate"
          ∷ rate
          ∷ "-maxrate"
          ∷ rate
          ∷ "-bufsize"
          ∷ rate
          ∷ "-deadline"
          ∷ "realtime"
          ∷ "-cpu-used"
          ∷ "4"
          ∷ "-vf"
          ∷ scale o.video_width o.video_height
          ∷ "-r"
          ∷ itoa o.video_fps
          ∷ "-g"
          ∷ gop
          ∷ "-keyint_min"
          ∷ gop
          ∷ "-auto-alt-ref"
          ∷ "0"
          ∷ "-error-resilient"
          ∷ "1"
          ∷ "-f"
          ∷ "ivf"
          ∷ "pipe:1"
          ∷ [])

  -- The input of OpenAt
  abbrev pub seek_input : ℕ → String → List String
  seek_input offset path = ("-ss" ∷ seconds offset ∷ []) ++ input_prefix path ++ ("-i" ∷ path ∷ [])

  -- The legs that the options select, with the binary of ffmpeg.
  abbrev pub leg_of_audio : String → List String → EncodeOptions → LegArgs
  leg_of_audio ffmpeg input o =
      if has_audio o.tracks then some (ffmpeg, audio_ff_args input o) else none

  abbrev pub leg_of_video : String → List String → EncodeOptions → LegArgs
  leg_of_video ffmpeg input o =
      if has_video o.tracks then some (ffmpeg, video_ff_args input o) else none

  module _ (ffmpeg : String) (spawn : StreamType → String → List String → Option Error) where
    -- open: audio first, and its reader is closed again where video fails.
    unfoldable pub transcode_input : List String → TranscodeSource → Opening
    unfolding open_leg
    transcode_input input s =
        let o = with_defaults s.opt in
        open_leg spawn video (leg_of_video ffmpeg input o) (
          open_leg spawn audio (leg_of_audio ffmpeg input o)
            (record { failure = none; closers = []; live = [] }))

    -- Open
    unfoldable pub transcode : TranscodeSource → Opening
    unfolding transcode_input
    transcode s = transcode_input s.input_args s

    -- OpenAt, with the offset in milliseconds
    unfoldable pub transcode_at : ℕ → TranscodeSource → OpenedAt
    unfolding transcode_input
    transcode_at offset s =
        if text_eq s.path ""
        then not_seekable
        else opened_at (transcode_input (seek_input offset s.path) s)
