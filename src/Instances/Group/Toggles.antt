-- ===== src/Instances/Group/Toggles.antt =====
-- OnUpgrade, and what Pause and Resume do to the streamers.
use gotgcall.Models.{MediaState, media_eq}
use gotgcall.Instances.Group.State.{GroupCall, Task, current_state, elapsed_ms, upgrade}
use gotgcall.Instances.Group.Start.{Opened, no_leg, open_failed, opened, start_locked, start_opened}
use gotgcall.Instances.Group.Control.{mute, pause, resume, unmute}
use gotgcall.Instances.Group.Coherence.{IsCoherent}
use gotgcall.Base.{List, [], append-nil, arith, false, if◌then◌else◌, not, ◌&&◌, ◌++◌, ◌∷◌, ◌≡◌}

-- The task that reports a change of the media state, if a listener is wired up and there is one.
abbrev pub upgrade_of : GroupCall → MediaState → List Task
upgrade_of g after =
    if g.wiring.disp && g.wiring.upgrade_set && not (media_eq (current_state g) after)
    then upgrade after ∷ []
    else []

abbrev pub Fires : GroupCall → GroupCall → Type 0
Fires g g' = g'.submitted ≡ g.submitted ++ upgrade_of g (current_state g')

start_locked-submitted :
    (o : Opened) (g : GroupCall)
    → ((start_locked o g).0.submitted ≡ g.submitted) × ((start_locked o g).0.wiring ≡ g.wiring)
unfolding start_locked start_opened
start_locked-submitted (open_failed e) g = ground arith
start_locked-submitted (opened al vl) g = ground arith

pause-Fires : (g : GroupCall) → Fires g (pause g).call
unfolding pause current_state
pause-Fires g = ground (arith, append-nil g.submitted)

mute-Fires : (g : GroupCall) → Fires g (mute g).call
unfolding mute current_state
mute-Fires g = ground (arith, append-nil g.submitted)

unmute-Fires : (g : GroupCall) → Fires g (unmute g).call
unfolding unmute current_state
unmute-Fires g = ground (arith, append-nil g.submitted)

resume-Fires : (o : Opened) (g : GroupCall) → Fires g (resume o g).call
unfolding resume current_state
resume-Fires o g =
    ground (arith, append-nil g.submitted, start_locked-submitted o (record g { paused = false }))

-- Pause, Resume, Mute and Unmute submit one OnUpgrade, carrying the new media state, exactly when a
-- listener is wired up and the media state has changed; otherwise they submit nothing.
pub toggles-Fires :
    (o : Opened) (g : GroupCall)
    → Fires g (pause g).call
      × Fires g (resume o g).call
      × Fires g (mute g).call
      × Fires g (unmute g).call
toggles-Fires o g = (pause-Fires g, resume-Fires o g, mute-Fires g, unmute-Fires g)

-- Resume undoes Pause on an open call that plays, is not paused and whose gates agree with its
-- flags: the streamers are the same ones, running or ended as before, their gates open again, and
-- the media state and the position are what they were.
pub resume-pause :
    (o : Opened) (g : GroupCall)
    → IsCoherent g
    → g.call_closed ≡ false
    → g.paused ≡ false
    → no_leg g.audio_str g.video_str ≡ false
    → let g' = (resume o (pause g).call).call in
      (g'.audio_str ≡ g.audio_str)
      × (g'.video_str ≡ g.video_str)
      × (current_state g' ≡ current_state g)
      × (elapsed_ms g' ≡ elapsed_ms g)
unfolding pause resume current_state elapsed_ms
resume-pause o g v open_call playing some_leg = ground arith
