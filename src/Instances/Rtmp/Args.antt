-- ===== src/Instances/Rtmp/Args.antt =====
-- instances/rtmp_call.go: the arguments of ffmpeg. The source is one that transcodes; what Go's
-- strconv and fmt make of numbers is given.
use Prim.Native.String.{String}
use gotgcall.Media.Transcode.{GoText, TranscodeSource}
use gotgcall.Media.Track.Defaults.{with_defaults-with_defaults}
use gotgcall.Media.Track.{EncodeOptions, with_defaults}
use gotgcall.Base.{List, [], arith, if◌then◌else◌, ltb, refl, ℕ, ◌*◌, ◌++◌, ◌<◌, ◌∷◌, ◌≡◌}

-- What buildRTMPArgs puts before the input.
abbrev rtmp_head : List String
rtmp_head = "-hide_banner" ∷ "-loglevel" ∷ "error" ∷ "-nostdin" ∷ "-re" ∷ []

module _ (t : GoText) where
  open t use {itoa, kilo, scale, seconds}

  -- The offset that buildRTMPArgs gives to ffmpeg.
  abbrev rtmp_seek : ℕ → List String
  rtmp_seek seek_ms = if ltb 0 seek_ms then "-ss" ∷ seconds seek_ms ∷ [] else []

  -- What buildRTMPArgs puts behind the input.
  abbrev rtmp_output : EncodeOptions → String → List String
  rtmp_output o url =
      "-c:v"
      ∷ "libx264"
      ∷ "-preset"
      ∷ "veryfast"
      ∷ "-tune"
      ∷ "zerolatency"
      ∷ "-b:v"
      ∷ kilo o.video_bitrate_kbps
      ∷ "-r"
      ∷ itoa o.video_fps
      ∷ "-vf"
      ∷ scale o.video_width o.video_height
      ∷ "-pix_fmt"
      ∷ "yuv420p"
      ∷ "-g"
      ∷ itoa (o.video_fps * 2)
      ∷ "-c:a"
      ∷ "aac"
      ∷ "-b:a"
      ∷ kilo o.audio_bitrate_kbps
      ∷ "-ar"
      ∷ "44100"
      ∷ "-ac"
      ∷ itoa o.audio_channels
      ∷ "-f"
      ∷ "flv"
      ∷ url
      ∷ []

  -- buildRTMPArgs
  unfoldable build_rtmp_args : TranscodeSource → ℕ → EncodeOptions → String → List String
  build_rtmp_args s seek_ms o url =
      rtmp_head ++ rtmp_seek seek_ms ++ s.input_args ++ rtmp_output o url

  -- What spawnLocked starts ffmpeg with.
  unfoldable spawn_args : TranscodeSource → ℕ → String → List String
  spawn_args s seek_ms url = build_rtmp_args s seek_ms (with_defaults (with_defaults s.opt)) url

  -- Completing the options a second time, as spawnLocked does, changes no argument, and ffmpeg gets
  -- an offset before its input just where there is one.
  spawn_args-parts :
      (s : TranscodeSource)
      → (seek_ms : ℕ) → (url : String)
      → (spawn_args s seek_ms url ≡ build_rtmp_args s seek_ms (with_defaults s.opt) url)
        × (spawn_args s 0 url ≡ rtmp_head ++ s.input_args ++ rtmp_output (with_defaults s.opt) url)
        × (0 < seek_ms
            → spawn_args s seek_ms url
              ≡ rtmp_head
                ++ ("-ss" ∷ seconds seek_ms ∷ [])
                ++ s.input_args
                ++ rtmp_output (with_defaults s.opt) url)
  unfolding spawn_args build_rtmp_args
  spawn_args-parts s seek_ms url =
      let same = (with_defaults-with_defaults s.opt).0 in
      (rw (same) refl, rw (same) refl, (λ h. ground (arith, same)))
