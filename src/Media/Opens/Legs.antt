-- ===== src/Media/Opens/Legs.antt =====
-- Opening leaks no process, and both ways of it agree.
use gotgcall.Media.Shells.{MultiShellSource}
use Prim.Native.String.{String}
use gotgcall.Models.{Error, StreamType, audio, video}
use gotgcall.Media.Opens.{
  LegArgs, Opening, close_all, open_parallel, open_sequential, open_source, open_source_at,
  open_with, seek_leg,
}
use gotgcall.Base.{
  List, Option, [], arith, has_some, none, some, true, ◌++◌, ◌∷◌, ◌≡◌, ◌⊎◌, Bool, false,
}

abbrev pub reader_there : StreamType → LegArgs → List StreamType
reader_there t none = []
reader_there t (some c) = t ∷ []

-- What opening promises of the two legs: a failure leaves no reader open; without one every leg has
-- its reader, audio first, and closing the streams closes them all.
abbrev pub IsOpened : LegArgs → LegArgs → Opening → Type 0
IsOpened a v o =
    ((has_some o.failure ≡ true) × (o.live ≡ []))
    ⊎ ((o.failure ≡ none)
        × (o.live ≡ reader_there audio a ++ reader_there video v)
        × (close_all o.closers o.live ≡ []))

module _ (spawn : StreamType → String → List String → Option Error) where
  open_sequential-IsOpened : (a v : LegArgs) → IsOpened a v (open_sequential spawn a v)
  unfolding open_sequential
  open_sequential-IsOpened none none = ground arith
  open_sequential-IsOpened none (some v) = ground arith
  open_sequential-IsOpened (some a) none = ground arith
  open_sequential-IsOpened (some a) (some v) = ground arith

  open_parallel-IsOpened :
      (a v : String × List String) → IsOpened (some a) (some v) (open_parallel spawn a v)
  unfolding open_parallel
  open_parallel-IsOpened a v = ground arith

  open_with-IsOpened : (p : Bool) (a v : LegArgs) → IsOpened a v (open_with spawn p a v)
  unfolding open_with
  open_with-IsOpened true none v = open_sequential-IsOpened none v
  open_with-IsOpened true (some a) none = open_sequential-IsOpened (some a) none
  open_with-IsOpened true (some a) (some v) = open_parallel-IsOpened a v
  open_with-IsOpened false a v = open_sequential-IsOpened a v

  seek_leg-IsOpened :
      (offset : String) (a v : LegArgs) (o : Opening)
      → IsOpened (seek_leg spawn offset a) (seek_leg spawn offset v) o
      → IsOpened a v o
  seek_leg-IsOpened offset none none o h = h
  seek_leg-IsOpened offset none (some v) o h = h
  seek_leg-IsOpened offset (some a) none o h = h
  seek_leg-IsOpened offset (some a) (some v) o h = h

  open_source-IsOpened :
      (s : MultiShellSource) → s.err ≡ none → IsOpened s.audio s.video (open_source spawn s)
  unfolding open_source
  open_source-IsOpened s e = ground (arith, open_with-IsOpened s.parallel s.audio s.video)

  -- Opening a source that has no error of its own, at an offset or not, one leg after the other or
  -- both at once, and whatever starting the processes returns, either fails and leaves no reader
  -- open, or opens a reader for each leg of the source, audio first, which closing the streams
  -- closes again.
  pub open_source_at-IsOpened :
      (offset : Option String) (s : MultiShellSource)
      → s.err ≡ none
      → IsOpened s.audio s.video (open_source_at spawn offset s)
  unfolding open_source_at
  open_source_at-IsOpened none s e = open_source-IsOpened s e
  open_source_at-IsOpened (some offset) s e = seek_leg-IsOpened offset s.audio s.video _ (
      open_source-IsOpened
        (record s { audio = seek_leg spawn offset s.audio; video = seek_leg spawn offset s.video })
        e)

  -- Starting both legs at once fails with the same error as starting one after the other, which is
  -- audio's if both fail, and leaves the same readers open.
  pub open_parallel-open_sequential :
      (a v : String × List String)
      → ((open_parallel spawn a v).failure ≡ (open_sequential spawn (some a) (some v)).failure)
        × ((open_parallel spawn a v).live ≡ (open_sequential spawn (some a) (some v)).live)
  unfolding open_parallel open_sequential
  open_parallel-open_sequential a v = (ground arith, ground arith)
