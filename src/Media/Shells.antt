-- ===== src/Media/Shells.antt =====
-- media/shell_source.go: the sources made from command lines.
pub mod Sources
use text.Mathlib.Text.{starts_with}
use Prim.Native.String.{String}
use Prim.Native.Char.{Char}
use gotgcall.Models.{Error, ffmpeg_spawn, invalid_params}
use gotgcall.Media.Track.{has_audio, has_video, track_audio, track_video}
use gotgcall.Media.Tokens.{tokenize_shell}
use gotgcall.Media.Flags.{ensure_ffmpeg_flags}
use gotgcall.Base.{
  Bool, List, Option, [], false, if◌then◌else◌, none, some, text_eq, true, ℕ, ◌&&◌, ◌+◌, ◌||◌, ◌∷◌,
  has_some,
}

abbrev pub raw_audio : List String
raw_audio = "s16le" ∷ "s16be" ∷ "s24le" ∷ "s32le" ∷ "f32le" ∷ "f64le" ∷ "u8" ∷ "alaw" ∷ "mulaw" ∷ []

abbrev pub mem_text : String → List String → Bool
mem_text s [] = false
mem_text s (t ∷ ts) = text_eq s t || mem_text s ts

abbrev pub next_arg : List String → String
next_arg [] = ""
next_arg (a ∷ args) = a

-- The `switch` over an argument with the one behind it
unfoldable pub is_refused : String → String → ℕ → Bool
is_refused a next track =
    if text_eq a "-acodec" || text_eq a "-c:a"
    then starts_with next "pcm_" && has_audio track
    else if text_eq a "-f"
    then (mem_text next raw_audio && has_audio track)
      || (text_eq next "rawvideo" && has_video track)
    else if text_eq a "-vcodec" || text_eq a "-c:v"
    then text_eq next "rawvideo" && has_video track
    else false

-- validateOutputCodec
unfoldable pub validate_output_codec : List String → ℕ → Option Error
validate_output_codec [] track = none
validate_output_codec (a ∷ rest) track =
    let later = validate_output_codec rest track in
    if is_refused a (next_arg rest) track then some invalid_params else later

-- The binary and the arguments of a command line, or the error, as FromShell and both halves of
-- FromShells make them.
pub data Command : Type 0 where
  refused : Error → Command
  accepted : String → List String → Command

unfoldable pub command_of : List String → ℕ → Command
command_of [] track = refused ffmpeg_spawn
command_of (binary ∷ args) track = elim (validate_output_codec args track) [
  | some e ↦ refused e
  | none ↦ accepted binary (ensure_ffmpeg_flags args track)
]

-- shellSource
pub record ShellSource : Type 0 where
  pub err : Option Error
  pub binary : String
  pub args : List String
  pub track : ℕ

abbrev pub shell_of : ℕ → Command → ShellSource
shell_of track (refused e) = record { err = some e; binary = ""; args = []; track = track }
shell_of track (accepted binary args) = record {
  err = none;
  binary = binary;
  args = args;
  track = track;
}

-- FromShell
unfoldable pub from_shell : List Char → ℕ → ShellSource
from_shell cmdline track = shell_of track (command_of (tokenize_shell cmdline) track)

-- MultiShellSource; `audioBin` and `audioArgs` are set together, and so for video.
pub record MultiShellSource : Type 0 where
  pub err : Option Error
  pub audio : Option (String × List String)
  pub video : Option (String × List String)
  pub parallel : Bool

abbrev pub failed_source : Error → MultiShellSource
failed_source e = record { err = some e; audio = none; video = none; parallel = false }

-- One half of FromShells; an empty command sets nothing.
pub data Half : Type 0 where
  half_error : Error → Half
  half : Option (String × List String) → Half

abbrev pub half_of : Command → Half
half_of (refused e) = half_error e
half_of (accepted binary args) = half (some (binary, args))

unfoldable pub make_half : List Char → ℕ → Half
make_half [] track = half none
make_half (c ∷ cmd) track = half_of (command_of (tokenize_shell (c ∷ cmd)) track)

abbrev pub join_halves : Half → Half → MultiShellSource
join_halves (half_error e) v = failed_source e
join_halves (half a) (half_error e) = failed_source e
join_halves (half a) (half v) = record { err = none; audio = a; video = v; parallel = false }

-- FromShells
unfoldable pub from_shells : List Char → List Char → MultiShellSource
unfolding make_half
from_shells [] [] = failed_source invalid_params
from_shells (c ∷ cs) video_cmd =
    join_halves (make_half (c ∷ cs) track_audio) (make_half video_cmd track_video)
from_shells [] (c ∷ cs) = join_halves (make_half [] track_audio) (make_half (c ∷ cs) track_video)

-- WithParallelSpawn
abbrev pub with_parallel_spawn : MultiShellSource → MultiShellSource
with_parallel_spawn s = record s { parallel = true }

-- Tracks
unfoldable pub source_tracks : MultiShellSource → ℕ
source_tracks s =
    (if has_some s.audio then track_audio else 0) + (if has_some s.video then track_video else 0)
