-- ===== src/Instances/Group/Lifecycle.antt =====
-- SetSource and Stop as a whole.
use gotgcall.Models.{Error, client_closed, closed, StreamType}
use gotgcall.Instances.Group.Tasks.{run_tasks, stop, close_pc, on_state, run_stream_end, run_task}
use gotgcall.Instances.Group.State.{GroupCall, Source, Streamer, elapsed_ms, is_nil}
use gotgcall.Instances.Group.Start.{
  Opened, no_leg, open_failed, opened, prepare_streamers, prepared, Prepared, prepare_failed,
}
use gotgcall.Instances.Group.Source.{Wait, gate_error, install, set_source, finish_source}
use gotgcall.Instances.Group.Eof.{End, end_task}
use gotgcall.Instances.Group.Ends.{stop_streamers, stop_streamer}
use gotgcall.Instances.Group.Control.{mute, pause, resume, unchanged, unmute}
use gotgcall.Instances.Group.Coherence.{Holds, stopped_audio, stopped_video}
use gotgcall.Base.{
  Bool, List, Option, [], arith, false, map, none, not, some, ℕ, ◌+◌, ◌≡◌, ◌⊎◌, inl, refl, true,
  ◌∷◌,
}

module _ (stop_error : ℕ → Option Error) where
  -- What a successful SetSource leaves, against the state at the lock.
  pub record IsInstalled (src : Source) (o : Opened) (before after : GroupCall) : Type 0 where
    pub source : after.src ≡ some src
    pub position : elapsed_ms after ≡ 0
    pub quiet : after.submitted ≡ before.submitted
    pub armed : after.ended_once ≡ false
    pub audio_leg : after.had_audio ≡ not (is_nil after.audio_str)
    pub video_leg : after.had_video ≡ not (is_nil after.video_str)
    pub plays : no_leg after.audio_str after.video_str ≡ false
    pub fresh_audio : Holds (λ s. s.id ≡ before.next_id) after.audio_str
    pub fresh_video : Holds (λ s. s.id ≡ before.next_id + 1) after.video_str

  prepared-some :
      (o : Opened) (id : ℕ) (m voff : Bool) {a v : Option Streamer}
      → prepare_streamers o id m voff ≡ prepared a v
      → no_leg a v ≡ false
  unfolding prepare_streamers
  prepared-some (open_failed e) id m voff p = cc
  prepared-some (opened al vl) id m voff p = ground arith

  install-IsInstalled :
      (src : Source) (o : Opened) (m voff : Bool) (g : GroupCall) {a v : Option Streamer}
      → prepare_streamers o g.next_id m voff ≡ prepared a v
      → IsInstalled src o g (install stop_error src a v g)
  unfolding install prepare_streamers stop_streamers elapsed_ms
  install-IsInstalled src (open_failed e) m voff g p = cc
  install-IsInstalled src (opened al vl) m voff g p = ground arith

  finish_cases :
      (src : Source) (o : Opened) (p : Prepared) (m voff : Bool) (wait : Wait) (g : GroupCall)
      → prepare_streamers o g.next_id m voff ≡ p
      → let (g', err) = finish_source stop_error src p wait g in
        ((g' ≡ g) × (is_nil err ≡ false))
        ⊎ (IsInstalled src o g g'
            × (err ≡ none)
            × (g.call_closed ≡ false)
            × (gate_error wait g ≡ none))
  unfolding finish_source
  finish_cases src o (prepare_failed e) m voff wait g p = inl (refl, refl)
  finish_cases src o (prepared a v) m voff wait g p =
      ground (arith, install-IsInstalled src o m voff g p)

  -- SetSource on a call that is open when it begins either returns an error and leaves the call as
  -- it found it at the lock, or returns none; then the new source plays from 0 with streamers of
  -- its own, the end of stream is armed for its legs, and the streamers that it replaced have
  -- reported no end.
  pub set_source_cases :
      (src : Source) (o : Opened) (wait : Wait) (during : GroupCall → GroupCall) (g : GroupCall)
      → g.call_closed ≡ false
      → let (g', err) = set_source stop_error src o wait during g in
        ((g' ≡ during g) × (is_nil err ≡ false))
        ⊎ (IsInstalled src o (during g) g'
            × (err ≡ none)
            × ((during g).call_closed ≡ false)
            × (gate_error wait (during g) ≡ none))
  unfolding set_source
  set_source_cases src o wait during g c = ground (
    arith,
    finish_cases src o (prepare_streamers o (during g).next_id g.muted g.video_off) g.muted
        g.video_off wait (during g) refl,
  )

-- What Stop leaves: nothing plays, the connection is closed, and no method works any more.
pub record IsStopped (o : Opened) (g : GroupCall) : Type 0 where
  pub no_source : g.src ≡ none
  pub no_audio : g.audio_str ≡ none
  pub no_video : g.video_str ≡ none
  pub net : g.net_state ≡ closed
  pub position : elapsed_ms g ≡ 0
  pub pausing : pause g ≡ unchanged g (some client_closed)
  pub resuming : resume o g ≡ unchanged g (some client_closed)
  pub muting : mute g ≡ unchanged g (some client_closed)
  pub unmuting : unmute g ≡ unchanged g (some client_closed)

module _ (stop_error : ℕ → Option Error) where
  end_closed :
      (t : StreamType) (err : Option Error) (id : ℕ) (g : GroupCall)
      → g.call_closed ≡ true
      → run_stream_end stop_error t err id g ≡ (g, [])
  unfolding run_stream_end
  end_closed t err id g c = ground arith

  ends_closed :
      (es : List End) (g : GroupCall)
      → g.call_closed ≡ true
      → run_tasks stop_error (map end_task es) g ≡ (g, [])
  unfolding run_tasks run_task
  ends_closed [] g c = refl
  ends_closed (e ∷ es) g c = ground (arith, end_closed e.leg e.error e.id g c, ends_closed es g c)

  pub stopped_closed :
      (g : GroupCall) → g.call_closed ≡ true → (stop_streamers stop_error g).call_closed ≡ true
  unfolding stop_streamers stop_streamer
  stopped_closed g c = ground arith

  pub stop-fields :
      (g : GroupCall)
      → g.call_closed ≡ false
      → ((stop stop_error g).call_closed ≡ true)
        × ((stop stop_error g).src ≡ none)
        × ((stop stop_error g).audio_str ≡ none)
        × ((stop stop_error g).video_str ≡ none)
        × ((stop stop_error g).net_state ≡ closed)
        × ((stop stop_error g).resume_ms ≡ 0)
  unfolding stop close_pc on_state
  stop-fields g c = ground (
    arith,
    stopped_closed (record g { call_closed = true }) refl,
    stopped_audio stop_error (record g { call_closed = true }),
    stopped_video stop_error (record g { call_closed = true }),
  )

  closed-IsStopped :
      (o : Opened) (g : GroupCall)
      → g.call_closed ≡ true
      → g.src ≡ none
      → g.audio_str ≡ none
      → g.video_str ≡ none
      → g.net_state ≡ closed
      → g.resume_ms ≡ 0
      → IsStopped o g
  unfolding pause resume mute unmute elapsed_ms
  closed-IsStopped o g c s a v n r = ground arith

  -- Stop ends an open call: the source and the streamers are gone, the connection is closed, every
  -- toggle from then on returns ErrClosed and changes nothing, and whatever end of a leg reaches
  -- the dispatcher afterwards fires no OnStreamEnd.
  pub stop-IsStopped :
      (o : Opened) (g : GroupCall) (es : List End)
      → g.call_closed ≡ false
      → IsStopped o (stop stop_error g)
        × (run_tasks stop_error (map end_task es) (stop stop_error g) ≡ (stop stop_error g, []))
  stop-IsStopped o g es c =
      let f = stop-fields g c in
      (
        closed-IsStopped o (stop stop_error g) f.0 f.1 f.2 f.3 f.4 f.5,
        ends_closed es (stop stop_error g) f.0,
      )
