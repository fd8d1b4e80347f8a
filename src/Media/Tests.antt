-- ===== src/Media/Tests.antt =====
-- Runs of the sources' functions, and their theorems at concrete inputs.
use gotgcall.Media.Transcode.Legs.{asked_audio, asked_video, from_file-legs}
use gotgcall.Media.Transcode.{GoText, from_file, opened_at, seek_input, transcode, transcode_at}
use gotgcall.Media.Pace.Timing.{run_rounds-not_early}
use gotgcall.Media.Pace.Elapsed.{IsCounted, run_rounds-IsCounted}
use gotgcall.Media.Pace.{Round, new_run, run_rounds, sample_of, write_done, run_round}
use gotgcall.Media.Gate.Wakes.{deliver, gate_history-leaves, is_out, three_steps}
use gotgcall.Media.Gate.{
  GateEvent, gate_history, loop_moves, new_gate, pauses_gate, unpauses_gate, wakes_gate, gate_event,
}
use Prim.Native.String.{String}
use Prim.Native.Char.{Char}
use gotgcall.Models.{audio, video, Error, StreamType, foreign, ffmpeg_spawn}
use gotgcall.Media.Track.{EncodeOptions}
use gotgcall.Media.Tokens.Roundtrip.{separated, tokenize_shell-separated, tokens_of}
use gotgcall.Media.Tokens.{scan, tokenize_shell}
use gotgcall.Media.Shells.{MultiShellSource}
use gotgcall.Media.SeekArgs.{clean_until, inject_seek}
use gotgcall.Media.Opens.Legs.{IsOpened, open_source_at-IsOpened}
use gotgcall.Media.Opens.{open_source_at, Opening}
use gotgcall.Media.Flags.{
  completed, ensure_ffmpeg_flags, has, has_pipe, inject, input_inject, output_flags, spliced,
  split_input, without_pipe,
}
use gotgcall.Base.{
  List, Option, [], none, refl, some, true, ◌∷◌, ◌≡◌, arith, false, ℕ, ◌+◌, ◌≤◌, text_eq,
}

-- `ffmpeg` `-i` `a "b".mp3`
abbrev words : List (List Char)
words = ("f" ∷ "f" ∷ []) ∷ ("-" ∷ "i" ∷ []) ∷ ("a" ∷ " " ∷ "\"" ∷ "b" ∷ "\"" ∷ "\\" ∷ []) ∷ []

abbrev plain : List String
plain = "-i" ∷ "movie.mp4" ∷ []

abbrev sought : List String
sought = "-re" ∷ "-ss" ∷ "3.000" ∷ "-i" ∷ "movie.mp4" ∷ "-ss" ∷ "1" ∷ []

tokens_run : tokenize_shell (separated words) ≡ "ff" ∷ "-i" ∷ "a \"b\"\\" ∷ []
unfolding tokenize_shell scan
tokens_run = refl

flags_run :
    ensure_ffmpeg_flags plain 2
    ≡ "-analyzeduration" ∷ "0" ∷ "-probesize" ∷ "64k" ∷ "-err_detect" ∷ "ignore_err" ∷ "-i"
      ∷ "movie.mp4" ∷ "-c:v" ∷ "libvpx" ∷ "-deadline" ∷ "realtime" ∷ "-f" ∷ "ivf" ∷ "pipe:1" ∷ []
unfolding ensure_ffmpeg_flags completed input_inject inject has has_pipe split_input spliced
    output_flags
flags_run = refl

seek_args_run :
    inject_seek "9.500" sought ≡ "-re" ∷ "-ss" ∷ "9.500" ∷ "-i" ∷ "movie.mp4" ∷ "-ss" ∷ "1" ∷ []
unfolding inject_seek clean_until
seek_args_run = refl

-- An output called `-` stays, and `pipe:1` comes behind it as another output.
dash_run :
    ensure_ffmpeg_flags ("-i" ∷ "movie.mp4" ∷ "-" ∷ []) 2
    ≡ "-analyzeduration" ∷ "0" ∷ "-probesize" ∷ "64k" ∷ "-err_detect" ∷ "ignore_err" ∷ "-i"
      ∷ "movie.mp4" ∷ "-" ∷ "-c:v" ∷ "libvpx" ∷ "-deadline" ∷ "realtime" ∷ "-f" ∷ "ivf" ∷ "pipe:1"
      ∷ []
unfolding ensure_ffmpeg_flags completed input_inject inject has has_pipe split_input spliced
    output_flags without_pipe
dash_run = refl

abbrev two_legs : MultiShellSource
two_legs = record {
  err = none;
  audio = some ("ff", plain);
  video = some ("ff", sought);
  parallel = true;
}

-- The video leg does not start.
abbrev audio_only : StreamType → String → List String → Option Error
audio_only audio binary args = none
audio_only video binary args = some (foreign 2)

tokenize_shell-separated_example : tokenize_shell (separated words) ≡ tokens_of words
tokenize_shell-separated_example = tokenize_shell-separated words

open_source_at-IsOpened_example :
    IsOpened two_legs.audio two_legs.video (open_source_at audio_only (some "9.500") two_legs)
open_source_at-IsOpened_example = open_source_at-IsOpened audio_only (some "9.500") two_legs refl

-- Every process starts.
abbrev starts : String → List String → Option Error
starts binary args = none

-- The streamer is unpaused just when the loop has seen it paused, and the wake-up comes late.
abbrev late_wake : List GateEvent
late_wake =
    loop_moves true
    ∷ unpauses_gate
    ∷ pauses_gate
    ∷ loop_moves true
    ∷ loop_moves true
    ∷ unpauses_gate
    ∷ wakes_gate
    ∷ []

gate_history-leaves_example :
    let g = gate_history late_wake (new_gate true) in
    is_out (three_steps true false true (deliver g.waking g)).place ≡ true
unfolding gate_history gate_event
gate_history-leaves_example = gate_history-leaves true late_wake true false true refl

-- A sample of 20 ms that is read at `wake`.
abbrev opus_round : ℕ → Round
opus_round wake = record {
  top_fault = none;
  gate_fault = none;
  woken_at = wake;
  read = sample_of 20000000;
  is_muted = false;
  written = write_done;
  asked = wake + 100000;
  again = wake + 200000;
  wait_fault = none;
}

-- The second round begins 3 ms late, the third as early as it may.
abbrev some_rounds : List Round
some_rounds = opus_round 1000 ∷ opus_round 23001000 ∷ opus_round 43001000 ∷ []

run_rounds-not_early_example : 1000 + (run_rounds some_rounds (new_run 1000)).sent_ns ≤ 63001000
unfolding run_round run_rounds
run_rounds-not_early_example =
    run_rounds-not_early 1000 63001000 some_rounds (omega arith) refl (omega arith)

run_rounds-IsCounted_example : IsCounted (run_rounds some_rounds (new_run 1000))
unfolding run_rounds run_round
run_rounds-IsCounted_example = run_rounds-IsCounted 1000 some_rounds (omega arith)

-- Numbers and texts, as far as the example goes.
abbrev plain_text : GoText
plain_text = record {
  itoa = λ n. "9";
  kilo = λ n. "9k";
  scale = λ w h. "scale=9:9";
  seconds = λ n. "9.000";
  contains = λ s t. false;
  has_prefix = λ s t. text_eq s t;
}

abbrev film_options : EncodeOptions
film_options = record {
  video_bitrate_kbps = 0;
  video_width = 0;
  video_height = 0;
  video_fps = 24;
  audio_bitrate_kbps = 0;
  audio_channels = 0;
  tracks = 2;
}

-- Video does not start.
abbrev no_video : StreamType → String → List String → Option Error
no_video audio binary args = none
no_video video binary args = some ffmpeg_spawn

from_file-legs_example :
    let s = from_file plain_text "clip.mp4" film_options in
    let input = seek_input plain_text 9000 "clip.mp4" in
    IsOpened
      (asked_audio plain_text "ffmpeg" no_video s.input_args film_options)
      (asked_video plain_text "ffmpeg" no_video s.input_args film_options)
      (transcode plain_text "ffmpeg" no_video s)
    × ((op : Opening) × (transcode_at plain_text "ffmpeg" no_video 9000 s ≡ opened_at op)
        × IsOpened
            (asked_audio plain_text "ffmpeg" no_video input film_options)
            (asked_video plain_text "ffmpeg" no_video input film_options)
            op)
from_file-legs_example =
    from_file-legs plain_text "ffmpeg" no_video "clip.mp4" film_options 9000 (omega arith) refl
