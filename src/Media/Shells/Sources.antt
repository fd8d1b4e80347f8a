-- ===== src/Media/Shells/Sources.antt =====
-- What FromShell and FromShells make of their commands.
use text.Mathlib.TextBridge.{of_list}
use Prim.Native.Char.{Char}
use gotgcall.Media.Track.{has_audio, has_video, track_audio, track_video}
use gotgcall.Media.Tokens.Roundtrip.{separated, tokenize_shell-separated, tokens_of}
use gotgcall.Media.Tokens.{tokenize_shell}
use gotgcall.Media.Shells.{
  Half, accepted, command_of, from_shell, from_shells, half, half_error, half_of, join_halves,
  make_half, refused, shell_of, source_tracks, validate_output_codec,
}
use gotgcall.Media.Flags.{ensure_ffmpeg_flags}
use gotgcall.Base.{
  Bool, List, [], ap, arith, false, has_some, none, refl, some, true, ℕ, ◌||◌, ◌∙◌, ◌∷◌, ◌≡◌,
}

-- FromShell on a command line whose words stand between double quotes runs the first word with the
-- others that are not empty, completed by the flags of the track, if these arguments pass the test
-- of the output codec.
pub from_shell-separated :
    (c : Char) (cs : List Char) (ts : List (List Char)) (track : ℕ)
    → validate_output_codec (tokens_of ts) track ≡ none
    → from_shell (separated ((c ∷ cs) ∷ ts)) track ≡ record {
      err = none;
      binary = of_list (c ∷ cs);
      args = ensure_ffmpeg_flags (tokens_of ts) track;
      track = track;
    }
unfolding from_shell command_of
from_shell-separated c cs ts track v =
    ap (λ x. shell_of track (command_of x track)) (tokenize_shell-separated ((c ∷ cs) ∷ ts))
    ∙ ap
        (λ r. shell_of track (elim r [
          | some e ↦ refused e
          | none ↦ accepted (of_list (c ∷ cs)) (ensure_ffmpeg_flags (tokens_of ts) track)
        ]))
        v

abbrev pub is_given : List Char → Bool
is_given [] = false
is_given (c ∷ cs) = true

-- A half of FromShells is set exactly when its command is given.
abbrev IsHalf : Half → Bool → Type 0
IsHalf (half_error e) b = b ≡ true
IsHalf (half leg) b = has_some leg ≡ b

make_half-IsHalf : (cmd : List Char) (track : ℕ) → IsHalf (make_half cmd track) (is_given cmd)
unfolding make_half
make_half-IsHalf [] track = refl
make_half-IsHalf (c ∷ cmd) track =
    elim (command_of (tokenize_shell (c ∷ cmd)) track) as (λ x. IsHalf (half_of x) true) [
      | refused e ↦ refl
      | accepted b args ↦ refl
    ]

join-source_tracks :
    (a v : Half) (x y : Bool)
    → IsHalf a x
    → IsHalf v y
    → (join_halves a v).err ≡ none
    → (has_audio (source_tracks (join_halves a v)) ≡ x)
      × (has_video (source_tracks (join_halves a v)) ≡ y)
unfolding source_tracks
join-source_tracks (half_error e) v x y p q n = cc
join-source_tracks (half a) (half_error e) x y p q n = cc
join-source_tracks (half a) (half v) x y p q n = ground arith

-- A source that FromShells makes without an error has just the tracks whose commands are given, of
-- which there is one at least.
pub from_shells-source_tracks :
    (a v : List Char)
    → (from_shells a v).err ≡ none
    → (has_audio (source_tracks (from_shells a v)) ≡ is_given a)
      × (has_video (source_tracks (from_shells a v)) ≡ is_given v)
      × ((is_given a || is_given v) ≡ true)
unfolding from_shells
from_shells-source_tracks [] [] n = cc
from_shells-source_tracks [] (c ∷ cs) n =
    let t =
      join-source_tracks (make_half [] track_audio) (make_half (c ∷ cs) track_video) false true
        (make_half-IsHalf [] track_audio) (make_half-IsHalf (c ∷ cs) track_video) n in
    (t.0, t.1, refl)
from_shells-source_tracks (c ∷ cs) v n =
    let t =
      join-source_tracks (make_half (c ∷ cs) track_audio) (make_half v track_video) true
        (is_given v) (make_half-IsHalf (c ∷ cs) track_audio) (make_half-IsHalf v track_video) n in
    (t.0, t.1, refl)
