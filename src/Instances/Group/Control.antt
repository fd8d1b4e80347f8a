-- ===== src/Instances/Group/Control.antt =====
-- The methods of a GroupCall that a user calls, but for SetSource.
use gotgcall.Models.{Error, client_closed}
use gotgcall.Instances.Group.State.{
  GroupCall, Streamer, current_state, fire_upgrade_if_changed, is_nil,
}
use gotgcall.Instances.Group.Start.{Opened, no_leg, start_locked}
use gotgcall.Base.{Bool, Option, false, if◌then◌else◌, none, not, some, true}

abbrev pub set_gated : Bool → Option Streamer → Option Streamer
set_gated p none = none
set_gated p (some s) = some (record s { gated = p })

abbrev pub set_muted : Bool → Option Streamer → Option Streamer
set_muted m none = none
set_muted m (some s) = some (record s { muted = m })

-- What a toggle returns.
pub record Toggled : Type 0 where
  pub call : GroupCall
  pub changed : Bool
  pub error : Option Error

abbrev pub unchanged : GroupCall → Option Error → Toggled
unchanged g e = record { call = g; changed = false; error = e }

-- A toggle fires OnUpgrade last.
abbrev pub toggled : GroupCall → GroupCall → Option Error → Toggled
toggled before g e = record {
  call = fire_upgrade_if_changed (current_state before) g;
  changed = true;
  error = e;
}

-- Pause
unfoldable pub pause : GroupCall → Toggled
unfolding fire_upgrade_if_changed
pause g =
    if g.call_closed
    then unchanged g (some client_closed)
    else if g.paused
    then unchanged g none
    else toggled g
        (record g {
          paused = true;
          audio_str = set_gated true g.audio_str;
          video_str = set_gated true g.video_str;
        })
        none

-- Resume; `o` is what opening the source returns where the streamers have to be started.
unfoldable pub resume : Opened → GroupCall → Toggled
unfolding fire_upgrade_if_changed start_locked
resume o g =
    let g1 = record g { paused = false } in
    let (g2, e) = start_locked o g1 in
    if g.call_closed
    then unchanged g (some client_closed)
    else if not g.paused
    then unchanged g none
    else if not (no_leg g.audio_str g.video_str)
    then toggled g
        (record g1 {
          audio_str = set_gated false g.audio_str;
          video_str = set_gated false g.video_str;
        })
        none
    else if is_nil g.src
    then toggled g g1 none
    else toggled g g2 e

-- Mute
unfoldable pub mute : GroupCall → Toggled
unfolding fire_upgrade_if_changed
mute g =
    if g.call_closed
    then unchanged g (some client_closed)
    else if g.muted
    then unchanged g none
    else toggled g (record g { muted = true; audio_str = set_muted true g.audio_str }) none

-- Unmute
unfoldable pub unmute : GroupCall → Toggled
unfolding fire_upgrade_if_changed
unmute g =
    if g.call_closed
    then unchanged g (some client_closed)
    else if not g.muted
    then unchanged g none
    else toggled g (record g { muted = false; audio_str = set_muted false g.audio_str }) none
