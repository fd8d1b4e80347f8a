-- ===== src/Instances/Group/Seek.antt =====
-- SeekBy.
use gotgcall.Models.{Error, client_closed, no_source, seek_unsupported}
use gotgcall.Instances.Group.State.{GroupCall, elapsed_ms}
use gotgcall.Instances.Group.Start.{Opened, start_locked}
use gotgcall.Instances.Group.Ends.{stop_streamers}
use gotgcall.Base.{
  Bool, Option, add_signed, false, if◌then◌else◌, none, not, some, true, ℕ, ℤ, ◌==◌, negsuc, pos,
}

-- The offset that SeekBy aims at, an int64.
abbrev pub seek_target : GroupCall → ℤ → ℤ
seek_target g delta = add_signed (elapsed_ms g) delta

abbrev pub is_zero : ℤ → Bool
is_zero (pos n) = n == 0
is_zero (negsuc n) = false

module _ (stop_error : ℕ → Option Error) where
  -- SeekBy's last part: `o` is what reopening the source returns.
  unfoldable pub seek_to : Opened → ℤ → GroupCall → GroupCall × Option Error
  seek_to o (negsuc n) g = (stop_streamers stop_error g, none)
  seek_to o (pos ms) g =
      let g1 = stop_streamers stop_error (record g { switching = true }) in
      let (g2, e) = start_locked o (record g1 { resume_ms = ms }) in
      (record g2 { switching = false }, e)

  -- SeekBy, with the lock held from the test for a source on.
  unfoldable pub seek_by : Opened → ℤ → GroupCall → GroupCall × Option Error
  unfolding seek_to
  seek_by o delta g = if g.call_closed then (g, some client_closed) else elim g.src [
    | none ↦ (g, some no_source)
    | some src ↦
        if not src.seekable
        then (g, some seek_unsupported)
        else if is_zero delta
        then (g, none)
        else seek_to o (seek_target g delta) g
  ]
