-- ===== src/Media/Opens.antt =====
-- media/shell_source.go: Open and OpenAt of a MultiShellSource. What starting a process returns is
-- the argument `spawn`; `live` are the readers that are open.
pub mod Legs
use Prim.Native.String.{String}
use gotgcall.Models.{Error, StreamType, audio, video}
use gotgcall.Media.Shells.{MultiShellSource}
use gotgcall.Media.SeekArgs.{inject_seek}
use gotgcall.Base.{Bool, List, Option, [], false, if◌then◌else◌, none, some, true, ◌++◌, ◌∷◌}

-- Why opening failed: the source's own error, that of starting a leg or the one process of a
-- single-command source, or that the source selects no track.
pub data Failure : Type 0 where
  bad_source : Error → Failure
  spawn_failed : StreamType → Error → Failure
  single_failed : Error → Failure
  no_track : Failure

-- A leg's binary and arguments; `none` is a nil slice.
abbrev pub LegArgs : Type 0
LegArgs = Option (String × List String)

-- How far opening got: `closers` are those of the streams.
pub record Opening : Type 0 where
  pub failure : Option Failure
  pub closers : List StreamType
  pub live : List StreamType

abbrev pub same_leg : StreamType → StreamType → Bool
same_leg audio audio = true
same_leg audio video = false
same_leg video audio = false
same_leg video video = true

-- Close of a reader
abbrev pub close_reader : StreamType → List StreamType → List StreamType
close_reader t [] = []
close_reader t (u ∷ us) = (if same_leg t u then [] else u ∷ []) ++ close_reader t us

-- closeAll
unfoldable pub close_all : List StreamType → List StreamType → List StreamType
close_all [] live = live
close_all (t ∷ ts) live = close_all ts (close_reader t live)

abbrev pub spawned : StreamType → Option Error → List StreamType
spawned t none = t ∷ []
spawned t (some e) = []

-- openParallel once both goroutines are done, with what they got.
unfoldable pub join_legs : Option Error → Option Error → Opening
unfolding close_all
join_legs (some ae) ve = record {
  failure = some (spawn_failed audio ae);
  closers = [];
  live = close_all (spawned video ve) (spawned video ve);
}
join_legs none (some ve) = record {
  failure = some (spawn_failed video ve);
  closers = [];
  live = close_all (audio ∷ []) (audio ∷ []);
}
join_legs none none = record {
  failure = none;
  closers = audio ∷ video ∷ [];
  live = audio ∷ video ∷ [];
}

module _ (spawn : StreamType → String → List String → Option Error) where
  -- One half of openSequential, which is skipped once the other has failed.
  unfoldable pub open_leg : StreamType → LegArgs → Opening → Opening
  unfolding close_all
  open_leg t none o = o
  open_leg t (some c) o = elim o.failure [
    | some e ↦ o
    | none ↦ elim (spawn t c.0 c.1) [
      | some e ↦ record {
        failure = some (spawn_failed t e);
        closers = o.closers;
        live = close_all o.closers o.live;
      }
      | none ↦ record { failure = none; closers = o.closers ++ t ∷ []; live = o.live ++ t ∷ [] }
    ]
  ]

  -- openSequential
  unfoldable pub open_sequential : LegArgs → LegArgs → Opening
  unfolding open_leg
  open_sequential a v =
      open_leg video v (open_leg audio a (record { failure = none; closers = []; live = [] }))

  -- openParallel
  unfoldable pub open_parallel : String × List String → String × List String → Opening
  unfolding join_legs
  open_parallel a v = join_legs (spawn audio a.0 a.1) (spawn video v.0 v.1)

  -- openWith
  unfoldable pub open_with : Bool → LegArgs → LegArgs → Opening
  open_with true (some a) (some v) = open_parallel a v
  open_with true (some a) none = open_sequential (some a) none
  open_with true none v = open_sequential none v
  open_with false a v = open_sequential a v

  -- Open
  unfoldable pub open_source : MultiShellSource → Opening
  open_source s = elim s.err [
    | some e ↦ record { failure = some (bad_source e); closers = []; live = [] }
    | none ↦ open_with s.parallel s.audio s.video
  ]

  abbrev pub seek_leg : String → LegArgs → LegArgs
  seek_leg offset none = none
  seek_leg offset (some c) = some (c.0, inject_seek offset c.1)

  -- OpenAt; the offset is `none` where it is not positive, and else as it is printed.
  unfoldable pub open_source_at : Option String → MultiShellSource → Opening
  open_source_at none s = open_source s
  open_source_at (some offset) s =
      open_source (record s { audio = seek_leg offset s.audio; video = seek_leg offset s.video })
