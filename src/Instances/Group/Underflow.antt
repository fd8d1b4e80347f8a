-- ===== src/Instances/Group/Underflow.antt =====
-- SeekBy to before the start of the source.
use mathlib.Core.List.{map-append}
use gotgcall.Models.{Error, StreamType, audio, video}
use gotgcall.Instances.Group.Tasks.{end_callbacks, run_tasks, run_stream_end}
use gotgcall.Instances.Group.State.{GroupCall, Source, Streamer, elapsed_ms}
use gotgcall.Instances.Group.Start.{Opened}
use gotgcall.Instances.Group.Seeking.{seek_by-eq-seek_to}
use gotgcall.Instances.Group.Seek.{seek_by, seek_to}
use gotgcall.Instances.Group.Eof.{End, end_task, ends_first, run_stream_end-fires}
use gotgcall.Instances.Group.Ends.{stop_streamer, stop_streamers}
use gotgcall.Base.{
  List, Option, [], add_signed-under, ap, append-nil, arith, false, if◌then◌else◌, map, none, refl,
  some, true, ℕ, ◌++◌, ◌<◌, ◌^◌, ◌∙◌, ◌∷◌, ◌≡◌, ◌≤◌, negsuc, append_assoc, sym,
}

module _ (stop_error : ℕ → Option Error) where
  -- The ends that stopping a leg reports.
  abbrev pub leg_ends_of : StreamType → Option Streamer → List End
  leg_ends_of t none = []
  leg_ends_of t (some s) =
      if s.running then record { leg = t; error = stop_error s.id; id = s.id } ∷ [] else []

  abbrev pub stopped_ends : GroupCall → List End
  stopped_ends g = leg_ends_of audio g.audio_str ++ leg_ends_of video g.video_str

  stop_streamer-ends :
      (t : StreamType) (s : Option Streamer) (g : GroupCall)
      → g.call_closed ≡ false
      → g.switching ≡ false
      → g.wiring.disp ≡ true
      → stop_streamer stop_error t s g
        ≡ record g { submitted = g.submitted ++ map end_task (leg_ends_of t s) }
  unfolding stop_streamer
  stop_streamer-ends t none g c sw d = ground (arith, append-nil g.submitted)
  stop_streamer-ends t (some s) g c sw d = ground (arith, append-nil g.submitted)

  stop_streamers-ends :
      (g : GroupCall)
      → g.call_closed ≡ false
      → g.switching ≡ false
      → g.wiring.disp ≡ true
      → stop_streamers stop_error g ≡ record g {
        has_streams = false;
        audio_str = none;
        video_str = none;
        submitted = g.submitted ++ map end_task (stopped_ends g);
      }
  unfolding stop_streamers
  stop_streamers-ends g c sw d =
      ap
        (λ h.
          close_video (stop_streamer stop_error video g.video_str (record h { audio_str = none })))
        (stop_streamer-ends audio g.audio_str g c sw d)
      ∙ ap close_video (stop_streamer-ends video g.video_str no_audio c sw d)
      ∙ ap
          (λ ts. record g {
            has_streams = false;
            audio_str = none;
            video_str = none;
            submitted = ts;
          })
          (append_assoc g.submitted (map end_task audio_ends) (map end_task video_ends)
            ∙ ap (λ ts. g.submitted ++ ts) (sym (map-append end_task audio_ends video_ends)))
    where
      audio_ends : List End
      audio_ends = leg_ends_of audio g.audio_str

      video_ends : List End
      video_ends = leg_ends_of video g.video_str

      no_audio : GroupCall
      no_audio = record g { audio_str = none; submitted = g.submitted ++ map end_task audio_ends }

      close_video : GroupCall → GroupCall
      close_video h = record h { video_str = none; has_streams = false }

  seek_by-negsuc :
      (o : Opened) (n : ℕ) (g : GroupCall) (src : Source)
      → g.call_closed ≡ false
      → g.src ≡ some src
      → src.seekable ≡ true
      → elapsed_ms g < 2 ^ 63
      → n < 2 ^ 63
      → elapsed_ms g ≤ n
      → seek_by stop_error o (negsuc n) g ≡ (stop_streamers stop_error g, none)
  seek_by-negsuc o n g src c s k lt nlt le =
      seek_by-eq-seek_to stop_error o (negsuc n) g src c s k refl
      ∙ ap (λ t. seek_to stop_error o t g) (add_signed-under (elapsed_ms g) n lt nlt (omega arith))
      ∙ unfold seek_to in refl

  -- A seek to before the start of a seekable source whose audio leg plays ends it, on an open call
  -- with a dispatcher and a listener for OnStreamEnd that is not being given another source and has
  -- fired no end yet, at positions and offsets below 2 ^ 63: SeekBy returns no error and leaves no
  -- streamer, and the tasks that it submits make the callbacks of one end of stream.
  pub seek_by-underflow :
      (o : Opened) (n : ℕ) (g : GroupCall) (src : Source) (a : Streamer)
      → g.call_closed ≡ false
      → g.switching ≡ false
      → g.ended_once ≡ false
      → g.wiring.disp ≡ true
      → g.wiring.stream_end_set ≡ true
      → g.src ≡ some src
      → src.seekable ≡ true
      → g.audio_str ≡ some a
      → a.running ≡ true
      → elapsed_ms g < 2 ^ 63
      → n < 2 ^ 63
      → elapsed_ms g ≤ n
      → let (g', err) = seek_by stop_error o (negsuc n) g in
        (ends : List End) × (g'.submitted ≡ g.submitted ++ map end_task ends)
        × ((run_tasks stop_error (map end_task ends) g').1
            ≡ end_callbacks g.had_video g.had_audio (stop_error a.id))
        × (err ≡ none)
        × (g'.audio_str ≡ none)
        × (g'.video_str ≡ none)
  seek_by-underflow o n g src a c sw e d l s k ea ra lt nlt le = (
    first ∷ rest,
    ap (λ r. r.0.submitted) lands ∙ ap (λ es. g.submitted ++ map end_task es) audio_first,
    ap (λ r. (run_tasks stop_error (map end_task (first ∷ rest)) r.0).1) lands
        ∙ ends_first stop_error first rest stopped fires.3
        ∙ fires.0,
    ap (λ r. r.1) lands,
    ap (λ r. r.0.audio_str) lands,
    ap (λ r. r.0.video_str) lands,
  )
    where
      first : End
      first = record { leg = audio; error = stop_error a.id; id = a.id }

      rest : List End
      rest = leg_ends_of video g.video_str

      audio_first : stopped_ends g ≡ first ∷ rest
      audio_first = ground arith

      stopped : GroupCall
      stopped = record g {
        has_streams = false;
        audio_str = none;
        video_str = none;
        submitted = g.submitted ++ map end_task (stopped_ends g);
      }

      lands : seek_by stop_error o (negsuc n) g ≡ (stopped, none)
      lands =
          seek_by-negsuc o n g src c s k lt nlt le
          ∙ ap (λ h. (h, none)) (stop_streamers-ends g c sw d)

      fires :
          ((run_stream_end stop_error audio (stop_error a.id) a.id stopped).1
            ≡ end_callbacks g.had_video g.had_audio (stop_error a.id))
          × ((run_stream_end stop_error audio (stop_error a.id) a.id stopped).0.audio_str ≡ none)
          × ((run_stream_end stop_error audio (stop_error a.id) a.id stopped).0.video_str ≡ none)
          × ((run_stream_end stop_error audio (stop_error a.id) a.id stopped).0.ended_once ≡ true)
      fires = run_stream_end-fires stop_error audio (stop_error a.id) a.id stopped l c sw e refl
