-- ===== src/Instances/Group/Eof.antt =====
-- The end of a stream: OnStreamEnd fires once for a source.
use gotgcall.Models.{Error, MediaState, StreamType, audio, video}
use gotgcall.Instances.Group.Tasks.{end_callbacks, run_stream_end, run_task, run_tasks, is_stale}
use gotgcall.Instances.Group.State.{
  GroupCall, Task, connection_change, stream_end, teardown, upgrade, Callback, Streamer,
  current_state, is_nil,
}
use gotgcall.Instances.Group.Ends.{stop_streamer}
use gotgcall.Base.{
  List, Option, [], ap, arith, map, refl, true, ℕ, ◌++◌, ◌∷◌, ◌≡◌, ◌⊎◌, append-nil, false, inl, inr,
  none, some, if◌then◌else◌, ◌∙◌,
}

-- The end of a leg, as it reaches the dispatcher.
pub record End : Type 0 where
  pub leg : StreamType
  pub error : Option Error
  pub id : ℕ

abbrev pub end_task : End → Task
end_task e = stream_end e.leg e.error e.id

-- The OnUpgrade tasks among those submitted.
abbrev pub upgrades : List Task → List MediaState
upgrades [] = []
upgrades (upgrade s ∷ ts) = s ∷ upgrades ts
upgrades (stream_end t e id ∷ ts) = upgrades ts
upgrades (teardown ∷ ts) = upgrades ts
upgrades (connection_change s ∷ ts) = upgrades ts

upgrades-append : (ts us : List Task) → upgrades (ts ++ us) ≡ upgrades ts ++ upgrades us
upgrades-append [] us = refl
upgrades-append (upgrade s ∷ ts) us = ap (λ r. s ∷ r) (upgrades-append ts us)
upgrades-append (stream_end t e id ∷ ts) us = upgrades-append ts us
upgrades-append (teardown ∷ ts) us = upgrades-append ts us
upgrades-append (connection_change s ∷ ts) us = upgrades-append ts us

module _ (stop_error : ℕ → Option Error) where
  end_fired :
      (t : StreamType) (err : Option Error) (id : ℕ) (g : GroupCall)
      → g.ended_once ≡ true
      → run_stream_end stop_error t err id g ≡ (g, [])
  unfolding run_stream_end
  end_fired audio err id g e = ground arith
  end_fired video err id g e = ground arith

  ends_fired :
      (es : List End) (g : GroupCall)
      → g.ended_once ≡ true
      → run_tasks stop_error (map end_task es) g ≡ (g, [])
  unfolding run_tasks run_task
  ends_fired [] g h = refl
  ends_fired (e ∷ es) g h = ground (arith, end_fired e.leg e.error e.id g h, ends_fired es g h)

  -- One end either changes nothing and fires nothing, or fires the source's callbacks and ends it.
  end_cases :
      (t : StreamType) (err : Option Error) (id : ℕ) (g : GroupCall)
      → g.wiring.stream_end_set ≡ true
      → (run_stream_end stop_error t err id g ≡ (g, []))
        ⊎ (((run_stream_end stop_error t err id g).0.ended_once ≡ true)
            × ((run_stream_end stop_error t err id g).1
                ≡ end_callbacks g.had_video g.had_audio err))
  unfolding run_stream_end stop_streamer
  end_cases audio err id g w = ground arith
  end_cases video err id g w = ground arith

  abbrev pub EndsOnce : List Callback → GroupCall → Type 0
  EndsOnce cs g =
      (cs ≡ []) ⊎ ((err : Option Error) × (cs ≡ end_callbacks g.had_video g.had_audio err))

  -- After an end that fires the others fire nothing.
  pub ends_first :
      (e : End) (es : List End) (g : GroupCall)
      → (run_stream_end stop_error e.leg e.error e.id g).0.ended_once ≡ true
      → (run_tasks stop_error (map end_task (e ∷ es)) g).1
        ≡ (run_stream_end stop_error e.leg e.error e.id g).1
  unfolding run_tasks run_task
  ends_first e es g fired = ground (
    arith,
    ends_fired es (run_stream_end stop_error e.leg e.error e.id g).0 fired,
    append-nil (run_stream_end stop_error e.leg e.error e.id g).1,
  )

  ends_after :
      (e : End) (es : List End) (g : GroupCall)
      → g.wiring.stream_end_set ≡ true
      → EndsOnce (run_tasks stop_error (map end_task es) g).1 g
      → EndsOnce (run_tasks stop_error (map end_task (e ∷ es)) g).1 g
  unfolding run_tasks run_task
  ends_after e es g w later = elim (end_cases e.leg e.error e.id g w) [
    | inl same ↦
        rw (ap (λ r. (run_tasks stop_error (map end_task es) r.0).1) same)
          (ground (arith, later, same))
    | inr fired ↦ inr (
      e.error,
      ground (
        arith,
        fired.1,
        ends_fired es (run_stream_end stop_error e.leg e.error e.id g).0 fired.0,
        append-nil (end_callbacks g.had_video g.had_audio e.error),
      ),
    )
  ]

  -- With a listener for OnStreamEnd wired up, however many ends of the legs of one source reach the
  -- dispatcher, and in whatever order, the user sees nothing at all, or the callbacks of one end:
  -- Video first if the source had a video leg, then Audio if it had an audio leg.
  pub run_tasks-EndsOnce :
      (es : List End) (g : GroupCall)
      → g.wiring.stream_end_set ≡ true
      → EndsOnce (run_tasks stop_error (map end_task es) g).1 g
  unfolding run_tasks
  run_tasks-EndsOnce [] g w = inl refl
  run_tasks-EndsOnce (e ∷ es) g w = ends_after e es g w (run_tasks-EndsOnce es g w)

  -- The first end of a leg that was not replaced, of an open call that is not being given another
  -- source and has a listener for OnStreamEnd, fires the callbacks of the source and takes both
  -- streamers down.
  pub run_stream_end-fires :
      (t : StreamType) (err : Option Error) (id : ℕ) (g : GroupCall)
      → g.wiring.stream_end_set ≡ true
      → g.call_closed ≡ false
      → g.switching ≡ false
      → g.ended_once ≡ false
      → is_stale t id g ≡ false
      → let (g', cs) = run_stream_end stop_error t err id g in
        (cs ≡ end_callbacks g.had_video g.had_audio err)
        × (g'.audio_str ≡ none)
        × (g'.video_str ≡ none)
        × (g'.ended_once ≡ true)
  unfolding run_stream_end stop_streamer
  run_stream_end-fires audio err id g w c s e st = ground arith
  run_stream_end-fires video err id g w c s e st = ground arith

  stop_streamer-upgrades :
      (t : StreamType) (s : Option Streamer) (g : GroupCall)
      → upgrades (stop_streamer stop_error t s g).submitted ≡ upgrades g.submitted
  unfolding stop_streamer
  stop_streamer-upgrades t none g = refl
  stop_streamer-upgrades t (some s) g = ground (
    arith,
    upgrades-append g.submitted (stream_end t (stop_error s.id) s.id ∷ []),
    append-nil (upgrades g.submitted),
  )

  -- On an open call that is not being given another source, the video leg, if it is the first to
  -- end, makes VideoStopped true, and no OnUpgrade is submitted for it.
  pub run_stream_end-no_upgrade :
      (err : Option Error) (g : GroupCall) (s : Streamer)
      → g.call_closed ≡ false
      → g.switching ≡ false
      → g.ended_once ≡ false
      → g.video_str ≡ some s
      → let (g', cs) = run_stream_end stop_error video err s.id g in
        ((current_state g).video_stopped ≡ false)
        × ((current_state g').video_stopped ≡ true)
        × (upgrades g'.submitted ≡ upgrades g.submitted)
  unfolding run_stream_end current_state
  run_stream_end-no_upgrade err g s c sw e v = (
    ground arith,
    ap (λ r. is_nil r.0.video_str) fires ∙ unfold stop_streamer in ground arith,
    ap (λ r. upgrades r.0.submitted) fires ∙ stop_streamer-upgrades audio g.audio_str ended,
  )
    where
      ended : GroupCall
      ended = record g { ended_once = true; audio_str = none; video_str = none }

      fires : run_stream_end stop_error video err s.id g ≡ (
        stop_streamer stop_error audio g.audio_str ended,
        if g.wiring.stream_end_set then end_callbacks g.had_video g.had_audio err else [],
      )
      fires = ground arith
