-- ===== src/Media/Flags.antt =====
-- media/shell_source.go, ensureFFmpegFlags: the flags that a command line of ffmpeg lacks. An
-- argument is a native text.
pub mod Has
pub mod Idempotent
use text.Mathlib.Text.{starts_with}
use Prim.Native.String.{String}
use gotgcall.Media.Track.{has_audio, has_video}
use gotgcall.Base.{
  Bool, List, Option, [], false, if◌then◌else◌, map, none, some, true, ℕ, ◌&&◌, ◌++◌, ◌==◌, ◌||◌,
  ◌∷◌, text_eq,
}

-- `has[f]` of the map of the arguments with a dash in front
unfoldable pub has : List String → String → Bool
has [] f = false
has (a ∷ args) f = (starts_with a "-" && text_eq a f) || has args f

abbrev pub any_has : List String → List String → Bool
any_has args [] = false
any_has args (f ∷ fs) = has args f || any_has args fs

-- hasPipe
unfoldable pub has_pipe : List String → Bool
has_pipe [] = false
has_pipe (a ∷ args) = (text_eq a "pipe:1" || text_eq a "-") || has_pipe args

abbrev pub before_cons :
    String → Option (List String × List String) → Option (List String × List String)
before_cons a none = none
before_cons a (some r) = some (a ∷ r.0, r.1)

-- The arguments before the first `-i`, and those from it on; none where there is no `-i`.
unfoldable pub split_input : List String → Option (List String × List String)
split_input [] = none
split_input (a ∷ args) =
    let rest = split_input args in
    if text_eq a "-i" then some ([], a ∷ args) else before_cons a rest

-- One `if` of the source: the flags that it looks for, and what it appends where none is there.
pub record Wanted : Type 0 where
  pub flags : List String
  pub injects : List String

abbrev pub want : List String → List String → Wanted
want fs xs = record { flags = fs; injects = xs }

-- The ifs before the input, and those of the audio and the video track.
abbrev pub input_flags : List Wanted
input_flags =
    want ("-analyzeduration" ∷ []) ("-analyzeduration" ∷ "0" ∷ [])
    ∷ want ("-probesize" ∷ []) ("-probesize" ∷ "64k" ∷ [])
    ∷ want ("-err_detect" ∷ []) ("-err_detect" ∷ "ignore_err" ∷ [])
    ∷ []

abbrev pub audio_flags : List Wanted
audio_flags =
    want ("-c:a" ∷ "-acodec" ∷ []) ("-c:a" ∷ "libopus" ∷ [])
    ∷ want ("-application" ∷ []) ("-application" ∷ "audio" ∷ [])
    ∷ want ("-frame_duration" ∷ []) ("-frame_duration" ∷ "20" ∷ [])
    ∷ want ("-page_duration" ∷ []) ("-page_duration" ∷ "20000" ∷ [])
    ∷ want ("-mapping_family" ∷ []) ("-mapping_family" ∷ "0" ∷ [])
    ∷ want ("-ar" ∷ []) ("-ar" ∷ "48000" ∷ [])
    ∷ want ("-ac" ∷ []) ("-ac" ∷ "2" ∷ [])
    ∷ want ("-f" ∷ []) ("-f" ∷ "ogg" ∷ [])
    ∷ []

abbrev pub video_flags : List Wanted
video_flags =
    want ("-c:v" ∷ "-vcodec" ∷ []) ("-c:v" ∷ "libvpx" ∷ "-deadline" ∷ "realtime" ∷ [])
    ∷ want ("-f" ∷ []) ("-f" ∷ "ivf" ∷ [])
    ∷ []

-- The `switch` over the track
unfoldable pub output_flags : ℕ → List Wanted
output_flags track =
    if has_audio track then audio_flags else (if has_video track then video_flags else [])

-- What a sequence of ifs appends.
unfoldable pub inject : List String → List Wanted → List String
inject args [] = []
inject args (w ∷ ws) = (if any_has args w.flags then [] else w.injects) ++ inject args ws

-- The filter that pops `pipe:1`
unfoldable pub without_pipe : List String → List String
without_pipe [] = []
without_pipe (a ∷ args) = (if text_eq a "pipe:1" then [] else a ∷ []) ++ without_pipe args

-- inputInject, given where the input starts
abbrev pub inject_at : List String → Option (List String × List String) → List String
inject_at args none = []
inject_at args (some r) = inject args input_flags

-- `out` before the filter
abbrev pub splice_at : List String → Option (List String × List String) → List String
splice_at args none = args
splice_at args (some r) = r.0 ++ (inject args input_flags ++ r.1)

unfoldable pub input_inject : List String → List String
input_inject args = inject_at args (split_input args)

unfoldable pub spliced : List String → List String
spliced args = splice_at args (split_input args)

abbrev pub is_empty : List String → Bool
is_empty [] = true
is_empty (x ∷ xs) = false

-- The arguments where something is missing.
unfoldable pub completed : List String → ℕ → List String
completed args track =
    (if has_pipe args then without_pipe (spliced args) else spliced args)
    ++ (inject args (output_flags track) ++ "pipe:1" ∷ [])

-- ensureFFmpegFlags
unfoldable pub ensure_ffmpeg_flags : List String → ℕ → List String
unfolding completed
ensure_ffmpeg_flags args track =
    if is_empty (input_inject args) && is_empty (inject args (output_flags track)) && has_pipe args
    then args
    else completed args track
