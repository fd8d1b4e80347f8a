-- ===== src/Instances/Group/State.antt =====
-- The state of a GroupCall, and what it reports. A streamer is what media/streamer.go keeps of one:
-- which one it is, its two gates, whether its run loop goes on, and the milliseconds that it sent.
use gotgcall.Models.{ConnState, Device, Error, MediaState, StreamType, connecting, media_eq}
use gotgcall.Base.{
  Bool, List, Option, [], false, if◌then◌else◌, none, not, some, true, ℕ, ◌%◌, ◌&&◌, ◌++◌, ◌+◌, ◌^◌,
  ◌||◌, ◌∷◌,
}

pub record Streamer : Type 0 where
  pub id : ℕ
  pub muted : Bool
  pub gated : Bool
  pub running : Bool
  pub ms_sent : ℕ

-- A media.Source as the call sees it: whether it implements SeekableSource, and the frame rate of
-- its EncodeOpts (0 where it does not implement SourcePath).
pub record Source : Type 0 where
  pub seekable : Bool
  pub fps : ℕ

-- What is given to the dispatcher. `stream_end` names the streamer that ended.
pub data Task : Type 0 where
  stream_end : StreamType → Option Error → ℕ → Task
  teardown : Task
  connection_change : ConnState → Task
  upgrade : MediaState → Task

-- A callback of the user that runs.
pub data Callback : Type 0 where
  on_stream_end : StreamType → Device → Option Error → Callback
  on_connection_change : ConnState → Callback
  on_upgrade : MediaState → Callback

-- Which callbacks are wired up, and whether there is a dispatcher.
pub record Wiring : Type 0 where
  pub disp : Bool
  pub stream_end_set : Bool
  pub connection_set : Bool
  pub upgrade_set : Bool

-- GroupCall. `has_streams` says that `streams` is not nil, `was_connected` is the variable of the
-- constructor's closure. `next_id` gives each new streamer its identity, and `submitted` is the
-- history of what was given to the dispatcher, in order.
pub record GroupCall : Type 0 where
  pub wiring : Wiring
  pub src : Option Source
  pub has_streams : Bool
  pub audio_str : Option Streamer
  pub video_str : Option Streamer
  pub connected_closed : Bool
  pub src_fps : ℕ
  pub resume_ms : ℕ
  pub net_state : ConnState
  pub was_connected : Bool
  pub call_closed : Bool
  pub switching : Bool
  pub connect_called : Bool
  pub paused : Bool
  pub muted : Bool
  pub video_off : Bool
  pub ended_once : Bool
  pub had_audio : Bool
  pub had_video : Bool
  pub next_id : ℕ
  pub submitted : List Task

-- The struct that NewGroupCall builds.
unfoldable pub new_group_call : Wiring → GroupCall
new_group_call wiring = record {
  wiring = wiring;
  src = none;
  has_streams = false;
  audio_str = none;
  video_str = none;
  connected_closed = false;
  src_fps = 0;
  resume_ms = 0;
  net_state = connecting;
  was_connected = false;
  call_closed = false;
  switching = false;
  connect_called = false;
  paused = false;
  muted = false;
  video_off = false;
  ended_once = false;
  had_audio = false;
  had_video = false;
  next_id = 0;
  submitted = [];
}

abbrev pub is_nil {ℓ} : {A : Type ℓ} → Option A → Bool
is_nil none = true
is_nil (some a) = false

-- Dispatcher.Submit
abbrev pub submit_task : GroupCall → Task → GroupCall
submit_task g t = record g { submitted = g.submitted ++ t ∷ [] }

-- currentStateLocked
unfoldable pub current_state : GroupCall → MediaState
current_state g =
    let silent = g.muted || g.paused in
    record {
      muted = g.muted;
      paused = silent;
      video_stopped = is_nil g.video_str;
      presentation_paused = silent;
    }

-- fireUpgradeIfChangedLocked
unfoldable pub fire_upgrade_if_changed : MediaState → GroupCall → GroupCall
unfolding current_state
fire_upgrade_if_changed prev g =
    if not (g.wiring.disp && g.wiring.upgrade_set)
    then g
    else if media_eq prev (current_state g)
    then g
    else submit_task g (upgrade (current_state g))

-- `str.ElapsedMs()` of the streamer that is there, the audio one first.
abbrev pub streamer_ms : Option Streamer → Option Streamer → ℕ
streamer_ms (some a) v = a.ms_sent
streamer_ms none (some v) = v.ms_sent
streamer_ms none none = 0

-- ElapsedMs, a uint64.
unfoldable pub elapsed_ms : GroupCall → ℕ
elapsed_ms g = (g.resume_ms + streamer_ms g.audio_str g.video_str) % 2 ^ 64
