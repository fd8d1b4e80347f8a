-- ===== src/Media/Single.antt =====
-- media/shell_source.go: Open and OpenAt of a shellSource, the source of one command.
use Prim.Native.String.{String}
use gotgcall.Models.{Error, StreamType, audio, video}
use gotgcall.Media.Track.{has_audio, has_video, track_audio}
use gotgcall.Media.Shells.{ShellSource}
use gotgcall.Media.SeekArgs.{inject_seek}
use gotgcall.Media.Opens.{Failure, Opening, bad_source, close_all, no_track, single_failed}
use gotgcall.Base.{
  List, Option, [], arith, if◌then◌else◌, none, some, subst, sym, true, ℕ, ◌==◌, ◌||◌, ◌∷◌, ◌≡◌,
}

-- Tracks
abbrev pub shell_tracks : ShellSource → ℕ
shell_tracks s = if s.track == 0 then track_audio else s.track

abbrev pub failed_opening : Failure → List StreamType → Opening
failed_opening e live = record { failure = some e; closers = []; live = live }

abbrev pub opened_leg : StreamType → Opening
opened_leg t = record { failure = none; closers = t ∷ []; live = t ∷ [] }

-- The `switch` over the tracks once the process runs; with no track its reader is closed.
unfoldable pub select_track : ℕ → Opening
unfolding close_all
select_track track =
    if has_audio track
    then opened_leg audio
    else if has_video track
    then opened_leg video
    else failed_opening no_track (close_all (audio ∷ []) (audio ∷ []))

module _ (spawn : String → List String → Option Error) where
  -- openWith
  unfoldable pub open_shell_with : List String → ShellSource → Opening
  unfolding select_track
  open_shell_with args s = elim s.err [
    | some e ↦ failed_opening (bad_source e) []
    | none ↦ elim (spawn s.binary args) [
      | some e ↦ failed_opening (single_failed e) []
      | none ↦ select_track (shell_tracks s)
    ]
  ]

  -- OpenAt, and Open where there is no offset.
  unfoldable pub open_shell_at : Option String → ShellSource → Opening
  unfolding open_shell_with
  open_shell_at none s = open_shell_with s.args s
  open_shell_at (some offset) s = open_shell_with (inject_seek offset s.args) s

  select_track-one :
      (track : ℕ)
      → ((has_audio track || has_video track) ≡ true)
      → ((select_track track).failure ≡ none)
        × ((select_track track).live ≡ (if has_audio track then audio else video) ∷ [])
        × (close_all (select_track track).closers (select_track track).live ≡ [])
  unfolding select_track close_all
  select_track-one track h = (ground arith, ground arith, ground arith)

  open_shell_with-select_track :
      (args : List String) (s : ShellSource)
      → s.err ≡ none
      → spawn s.binary args ≡ none
      → open_shell_with args s ≡ select_track (shell_tracks s)
  unfolding open_shell_with
  open_shell_with-select_track args s e n = ground arith

  -- A single-command source whose process starts has one reader, for audio if its tracks have audio
  -- and else for video, and closing the streams closes it; a source that names no track is audio.
  pub open_shell_at-one :
      (offset : Option String) (s : ShellSource)
      → s.err ≡ none
      → ((args : List String) → spawn s.binary args ≡ none)
      → (has_audio (shell_tracks s) || has_video (shell_tracks s)) ≡ true
      → let o = open_shell_at offset s in
        (o.failure ≡ none)
        × (o.live ≡ (if has_audio (shell_tracks s) then audio else video) ∷ [])
        × (close_all o.closers o.live ≡ [])
  unfolding open_shell_at
  open_shell_at-one none s e n t =
      subst
        (λ o.
          (o.failure ≡ none)
          × (o.live ≡ (if has_audio (shell_tracks s) then audio else video) ∷ [])
          × (close_all o.closers o.live ≡ []))
        (sym (open_shell_with-select_track s.args s e (n s.args)))
        (select_track-one (shell_tracks s) t)
  open_shell_at-one (some offset) s e n t =
      subst
        (λ o.
          (o.failure ≡ none)
          × (o.live ≡ (if has_audio (shell_tracks s) then audio else video) ∷ [])
          × (close_all o.closers o.live ≡ []))
        (sym (
          open_shell_with-select_track (inject_seek offset s.args) s e
            (n (inject_seek offset s.args))))
        (select_track-one (shell_tracks s) t)
