-- ===== src/Instances/Rtmp.antt =====
-- instances/rtmp_call.go, the RTMP call of one chat, and of io/shell_reader.go what it uses: closing
-- a process waits until it is reaped, and reaping calls the hook. The field `elapsedMs`, which is
-- written and never read, is left out. Times are in milliseconds of a clock that never goes back.
-- `kill_error` is the error that a killed process leaves.
pub mod Position
pub mod Ends
pub mod Quiet
pub mod Args
mod Tests
use gotgcall.Models.{
  ConnState, Error, MediaState, bool_eq, client_closed, closed, connected, connecting, media_eq,
  no_source, wrong_mode,
}
use gotgcall.Instances.Group.State.{Wiring}
use gotgcall.Base.{
  Bool, List, Option, [], add_signed, false, if◌then◌else◌, none, not, some, true, ℕ, ℤ, ◌&&◌, ◌++◌,
  ◌+◌, ◌-◌, ◌||◌, ◌∷◌, negsuc, pos,
}

-- A ShellReader: `hooked` says that the callback of SetOnExit is there, `running` that it was not
-- reaped.
pub record Process : Type 0 where
  pub id : ℕ
  pub hooked : Bool
  pub running : Bool

-- What is given to the dispatcher.
pub data RtmpTask : Type 0 where
  source_end : Option Error → RtmpTask
  state_change : MediaState → RtmpTask

-- `startedAt` is the time of the start and the offset that is taken off it, `none` the zero Time.
-- `next_id` and `submitted` are history: the processes so far, the tasks submitted.
pub record RtmpCall : Type 0 where
  pub wiring : Wiring
  pub has_path : Bool
  pub resume_ms : ℕ
  pub proc : Option Process
  pub started_at : Option (ℕ × ℕ)
  pub call_closed : Bool
  pub paused : Bool
  pub muted : Bool
  pub next_id : ℕ
  pub submitted : List RtmpTask

-- NewRTMPCall
unfoldable pub new_rtmp_call : Wiring → RtmpCall
new_rtmp_call wiring = record {
  wiring = wiring;
  has_path = false;
  resume_ms = 0;
  proc = none;
  started_at = none;
  call_closed = false;
  paused = false;
  muted = false;
  next_id = 0;
  submitted = [];
}

-- `time.Since(startedAt) / time.Millisecond`; the zero Time saturates the Duration.
abbrev pub since : ℕ → Option (ℕ × ℕ) → ℕ
since now none = 9223372036854
since now (some t) = (now - t.0) + t.1

-- currentStateLocked
abbrev pub rtmp_state : RtmpCall → MediaState
rtmp_state r = record {
  muted = r.muted;
  paused = r.muted || r.paused;
  video_stopped = false;
  presentation_paused = r.muted || r.paused;
}

-- fireUpgradeIfChangedLocked
unfoldable pub fire_state_change : MediaState → RtmpCall → RtmpCall
fire_state_change prev r =
    if not (r.wiring.disp && r.wiring.upgrade_set) || media_eq prev (rtmp_state r)
    then r
    else record r { submitted = r.submitted ++ state_change (rtmp_state r) ∷ [] }

-- The callback of SetOnExit
unfoldable pub on_exit : Option Error → RtmpCall → RtmpCall
on_exit err r =
    if r.call_closed
    then r
    else if r.wiring.disp && r.wiring.stream_end_set
    then record r { submitted = r.submitted ++ source_end err ∷ [] }
    else r

-- The process exits by itself and is reaped.
unfoldable pub process_exits : Option Error → RtmpCall → RtmpCall
unfolding on_exit
process_exits err r = elim r.proc [
  | none ↦ r
  | some p ↦
      let r1 = record r { proc = some (record p { running = false }) } in
      if p.running && p.hooked then on_exit err r1 else (if p.running then r1 else r)
]

-- ElapsedMs
unfoldable pub rtmp_elapsed_ms : ℕ → RtmpCall → ℕ
rtmp_elapsed_ms now r =
    if r.paused then r.resume_ms else elim r.proc [ none ↦ 0 | some p ↦ since now r.started_at ]

-- NetState
unfoldable pub rtmp_net_state : RtmpCall → ConnState
rtmp_net_state r =
    if r.call_closed then closed else elim r.proc [ none ↦ connecting | some p ↦ connected ]

-- spawnLocked; `fails` is the error of starting ffmpeg.
unfoldable pub spawn_process : Option Error → ℕ → ℕ → RtmpCall → RtmpCall × Option Error
spawn_process fails now seek_ms r = if not r.has_path then (r, none) else elim fails [
  | some e ↦ (r, some e)
  | none ↦ (
    record r {
      proc = some (record { id = r.next_id; hooked = true; running = true });
      started_at = some (now, seek_ms);
      next_id = r.next_id + 1;
    },
    none,
  )
]

-- `r.cmd.SetOnExit(nil)`
abbrev pub unhook : Option Process → Option Process
unhook none = none
unhook (some p) = some (record p { hooked = false })

-- notSupportedToggle
unfoldable pub set_rtmp_muted : Bool → RtmpCall → RtmpCall × Bool
unfolding fire_state_change
set_rtmp_muted target r =
    if bool_eq r.muted target
    then (r, false)
    else (fire_state_change (rtmp_state r) (record r { muted = target }), true)

module _ (kill_error : ℕ → Option Error) where
  -- stopFFmpegLocked
  unfoldable pub stop_ffmpeg : RtmpCall → RtmpCall
  unfolding on_exit
  stop_ffmpeg r = elim r.proc [
    | none ↦ r
    | some p ↦
        let r1 = record r { proc = none } in
        if p.running && p.hooked then on_exit (kill_error p.id) r1 else r1
  ]

  -- SetSource: `pathed` says that the source is a SourcePath, `during` is what others do between the
  -- test of `closed` and the lock.
  unfoldable pub set_rtmp_source :
      Bool → Option Error → ℕ → (RtmpCall → RtmpCall) → RtmpCall → RtmpCall × Option Error
  unfolding spawn_process
  set_rtmp_source pathed fails now during r =
      let r1 = record (stop_ffmpeg (during r)) { has_path = true; resume_ms = 0 } in
      if r.call_closed
      then (r, some client_closed)
      else if not pathed
      then (during r, some wrong_mode)
      else if r1.paused
      then (r1, none)
      else spawn_process fails now 0 r1

  -- Pause
  unfoldable pub pause_rtmp : ℕ → RtmpCall → RtmpCall × Bool × Option Error
  unfolding fire_state_change stop_ffmpeg
  pause_rtmp now r =
      let r1 = record r { paused = true; resume_ms = since now r.started_at } in
      if r.call_closed
      then (r, false, some client_closed)
      else if r.paused
      then (r, false, none)
      else (fire_state_change (rtmp_state r) (stop_ffmpeg r1), true, none)

  -- Resume
  unfoldable pub resume_rtmp : Option Error → ℕ → RtmpCall → RtmpCall × Bool × Option Error
  unfolding fire_state_change spawn_process
  resume_rtmp fails now r =
      let (r1, e) = spawn_process fails now r.resume_ms (record r { paused = false }) in
      if r.call_closed
      then (r, false, some client_closed)
      else if not r.paused
      then (r, false, none)
      else (fire_state_change (rtmp_state r) r1, true, e)

  -- The position that SeekBy starts from
  abbrev pub seek_origin : ℕ → RtmpCall → ℕ
  seek_origin now r =
      if r.paused then r.resume_ms else elim r.proc [ none ↦ 0 | some p ↦ since now r.started_at ]

  unfoldable pub seek_rtmp_to : Option Error → ℕ → ℤ → RtmpCall → RtmpCall × Option Error
  unfolding stop_ffmpeg spawn_process
  seek_rtmp_to fails now (negsuc n) r = (record (stop_ffmpeg r) { resume_ms = 0 }, none)
  seek_rtmp_to fails now (pos ms) r =
      let r1 = record (stop_ffmpeg (record r { proc = unhook r.proc })) { resume_ms = ms } in
      if r.paused then (r1, none) else spawn_process fails now ms r1

  -- SeekBy
  unfoldable pub seek_rtmp_by : Option Error → ℕ → ℤ → RtmpCall → RtmpCall × Option Error
  seek_rtmp_by fails now delta r =
      if r.call_closed
      then (r, some client_closed)
      else if not r.has_path
      then (r, some no_source)
      else seek_rtmp_to fails now (add_signed (seek_origin now r) delta) r

  -- Stop
  unfoldable pub stop_rtmp : RtmpCall → RtmpCall
  unfolding stop_ffmpeg
  stop_rtmp r =
      let r1 = stop_ffmpeg (record r { call_closed = true }) in
      if r.call_closed
      then r
      else record r1 { has_path = false; resume_ms = 0; paused = false; muted = false }
