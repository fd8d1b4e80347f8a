-- ===== src/Instances/Group/Start.antt =====
-- How streamers start. Opening a source spawns processes: what comes of it is an argument.
use gotgcall.Models.{Error, file_error}
use gotgcall.Instances.Group.State.{GroupCall, Streamer, is_nil}
use gotgcall.Base.{
  Bool, Option, false, if◌then◌else◌, ltb, none, not, some, true, ℕ, ◌&&◌, ◌+◌, ◌||◌,
}

-- A leg of the opened streams: not there, there but its frame reader refuses it, or playable.
pub data Leg : Type 0 where
  absent broken playable : Leg

-- What `Open` or `OpenAt` returns.
pub data Opened : Type 0 where
  open_failed : Error → Opened
  opened : Leg → Leg → Opened

-- media.NewStreamer followed by SetMuted: the streamer is not yet started.
abbrev pub new_streamer : ℕ → Bool → Streamer
new_streamer id muted = record {
  id = id;
  muted = muted;
  gated = false;
  running = false;
  ms_sent = 0;
}

abbrev pub prepare_leg : Leg → ℕ → Bool → Option Streamer
prepare_leg playable id muted = some (new_streamer id muted)
prepare_leg broken id muted = none
prepare_leg absent id muted = none

-- The result of prepareStreamers, the streams left out.
pub data Prepared : Type 0 where
  prepare_failed : Error → Prepared
  prepared : Option Streamer → Option Streamer → Prepared

-- Neither leg playable
abbrev pub no_leg : Option Streamer → Option Streamer → Bool
no_leg a v = is_nil a && is_nil v

-- prepareStreamers, with `id` and `id + 1` for the streamers that it makes. `muted` and `video_off`
-- are the caller's snapshot.
unfoldable pub prepare_streamers : Opened → ℕ → Bool → Bool → Prepared
prepare_streamers (open_failed e) id muted video_off = prepare_failed e
prepare_streamers (opened al vl) id muted video_off =
    let a = prepare_leg al id muted in
    let v = prepare_leg vl (id + 1) video_off in
    if no_leg a v then prepare_failed file_error else prepared a v

-- `if paused { str.SetPaused(true) }; str.Start()`
abbrev pub start_streamer : Bool → Option Streamer → Option Streamer
start_streamer paused none = none
start_streamer paused (some s) = some (record s { gated = s.gated || paused; running = true })

-- startLocked behind its test for a source. A leg that is not playable leaves the field as it was.
abbrev pub start_leg : Bool → Leg → ℕ → Bool → Option Streamer → Option Streamer
start_leg paused playable id muted old = start_streamer paused (some (new_streamer id muted))
start_leg paused broken id muted old = old
start_leg paused absent id muted old = old

abbrev pub is_playable : Leg → Bool
is_playable playable = true
is_playable broken = false
is_playable absent = false

unfoldable pub start_opened : Opened → GroupCall → GroupCall × Option Error
start_opened (open_failed e) g = (g, some e)
start_opened (opened al vl) g =
    if not (is_playable al || is_playable vl)
    then (record g { has_streams = false }, some file_error)
    else (
      record g {
        has_streams = true;
        audio_str = start_leg g.paused al g.next_id g.muted g.audio_str;
        video_str = start_leg g.paused vl (g.next_id + 1) g.video_off g.video_str;
        next_id = g.next_id + 2;
        ended_once = false;
        had_audio = is_playable al;
        had_video = is_playable vl;
      },
      none,
    )

-- startLocked: the new state, and the error that it returns. `o` is what the open returns, be it
-- `OpenAt` at `resume_ms` or `Open`.
unfoldable pub start_locked : Opened → GroupCall → GroupCall × Option Error
unfolding start_opened
start_locked o g = if is_nil g.src then (g, none) else start_opened o g

-- Which of the two startLocked calls: `OpenAt` for a seekable source with an offset.
unfoldable pub opens_at : GroupCall → Bool
opens_at g = elim g.src [ none ↦ false | some src ↦ src.seekable && ltb 0 g.resume_ms ]
