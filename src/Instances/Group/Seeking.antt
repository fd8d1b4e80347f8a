-- ===== src/Instances/Group/Seeking.antt =====
-- SeekBy: where it lands, and what the user hears of it.
use gotgcall.Instances.Group.Coherence.{stopped_audio, stopped_video}
use gotgcall.Models.{Error}
use gotgcall.Instances.Group.State.{GroupCall, Source, elapsed_ms}
use gotgcall.Instances.Group.Start.{Opened, open_failed, opened, start_locked}
use gotgcall.Instances.Group.Seek.{is_zero, seek_by, seek_to, seek_target}
use gotgcall.Instances.Group.Ends.{stop_streamers}
use gotgcall.Base.{
  Option, arith, false, none, some, true, ℕ, ℤ, ◌%◌, ◌<◌, ◌^◌, ◌≡◌, pos, add_signed,
  add_signed-back, add_signed-pos, ap, refl, suc, ◌+◌, ◌∙◌, negsuc,
}

switch_stop :
    (stop_error : ℕ → Option Error) (g : GroupCall)
    → g.switching ≡ true
    → (stop_streamers stop_error g).submitted ≡ g.submitted
unfolding stop_streamers
switch_stop stop_error g s = ground arith

start_locked-submitted : (o : Opened) (g : GroupCall) → (start_locked o g).0.submitted ≡ g.submitted
unfolding start_locked
start_locked-submitted (open_failed e) g = ground arith
start_locked-submitted (opened al vl) g = ground arith

start_locked-elapsed :
    (o : Opened) (g : GroupCall)
    → g.audio_str ≡ none
    → g.video_str ≡ none
    → elapsed_ms (start_locked o g).0 ≡ g.resume_ms % 2 ^ 64
unfolding start_locked elapsed_ms
start_locked-elapsed (open_failed e) g a v = ground arith
start_locked-elapsed (opened al vl) g a v = ground arith

-- `ms` is `u` moved by an offset, with no overflow on the way.
abbrev pub IsSum : ℕ → ℤ → ℕ → Type 0
IsSum u (pos n) ms = (u + n ≡ ms) × (ms < 2 ^ 63)
IsSum u (negsuc n) ms = (ms + suc n ≡ u) × (u < 2 ^ 63)

pub add_signed-IsSum : (u : ℕ) (d : ℤ) (ms : ℕ) → IsSum u d ms → add_signed u d ≡ pos ms
add_signed-IsSum u (pos n) ms h = ground (arith, add_signed-pos u n)
add_signed-IsSum u (negsuc n) ms h = ground (arith, add_signed-back u n)

IsSum-lt : (u : ℕ) (d : ℤ) (ms : ℕ) → IsSum u d ms → ms < 2 ^ 63
IsSum-lt u (pos n) ms h = h.1
IsSum-lt u (negsuc n) ms h = omega arith

module _ (stop_error : ℕ → Option Error) where
  -- The call while SeekBy reopens its source.
  abbrev reopening : ℕ → GroupCall → GroupCall
  reopening ms g = record (stop_streamers stop_error (record g { switching = true })) {
    resume_ms = ms;
  }

  seek_to-elapsed :
      (o : Opened) (ms : ℕ) (g : GroupCall)
      → ms < 2 ^ 63
      → elapsed_ms (seek_to stop_error o (pos ms) g).0 ≡ ms
  unfolding seek_to elapsed_ms
  seek_to-elapsed o ms g h =
      start_locked-elapsed o (reopening ms g)
        (stopped_audio stop_error (record g { switching = true }))
        (stopped_video stop_error (record g { switching = true }))
      ∙ omega arith

  seek_to-quiet :
      (o : Opened) (ms : ℕ) (g : GroupCall)
      → (seek_to stop_error o (pos ms) g).0.submitted ≡ g.submitted
  unfolding seek_to
  seek_to-quiet o ms g =
      start_locked-submitted o (reopening ms g)
      ∙ switch_stop stop_error (record g { switching = true }) refl

  pub seek_by-eq-seek_to :
      (o : Opened) (delta : ℤ) (g : GroupCall) (src : Source)
      → g.call_closed ≡ false
      → g.src ≡ some src
      → src.seekable ≡ true
      → is_zero delta ≡ false
      → seek_by stop_error o delta g ≡ seek_to stop_error o (seek_target g delta) g
  unfolding seek_by
  seek_by-eq-seek_to o delta g src c s k z = ground arith

  -- SeekBy on an open call with a seekable source moves the position by the offset, if that is not
  -- 0 and the sum is not negative and fits an int64, whatever comes of reopening the source, and
  -- the streamers that it stops report no end of the stream.
  pub seek_by-elapsed :
      (o : Opened) (delta : ℤ) (g : GroupCall) (src : Source) (ms : ℕ)
      → g.call_closed ≡ false
      → g.src ≡ some src
      → src.seekable ≡ true
      → is_zero delta ≡ false
      → IsSum (elapsed_ms g) delta ms
      → (elapsed_ms (seek_by stop_error o delta g).0 ≡ ms)
        × ((seek_by stop_error o delta g).0.submitted ≡ g.submitted)
  seek_by-elapsed o delta g src ms c s k z sum = (
    ap (λ r. elapsed_ms r.0) lands ∙ seek_to-elapsed o ms g (IsSum-lt (elapsed_ms g) delta ms sum),
    ap (λ r. r.0.submitted) lands ∙ seek_to-quiet o ms g,
  )
    where
      lands : seek_by stop_error o delta g ≡ seek_to stop_error o (pos ms) g
      lands =
          seek_by-eq-seek_to o delta g src c s k z
          ∙ ap (λ t. seek_to stop_error o t g) (add_signed-IsSum (elapsed_ms g) delta ms sum)
