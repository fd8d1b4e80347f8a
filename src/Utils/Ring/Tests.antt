-- ===== src/Utils/Ring/Tests.antt =====
-- Runs of the ring, and its theorems at a ring that has gone round.
use gotgcall.Utils.Ring.Stream.{snapshot-writes}
use gotgcall.Utils.Ring.{Ring, copy_at, new_ring_buffer, snapshot, write, writes}
use gotgcall.Base.{[], arith, last_of, refl, true, ◌++◌, ◌∷◌, ◌≡◌}

abbrev round : Ring
round = record { buf = 5 ∷ 2 ∷ 3 ∷ 4 ∷ []; head = 1; full = true }

two_writes :
    snapshot (writes (new_ring_buffer 4) ((1 ∷ 2 ∷ 3 ∷ []) ∷ (4 ∷ 5 ∷ []) ∷ []))
    ≡ 2 ∷ 3 ∷ 4 ∷ 5 ∷ []
unfolding snapshot writes write copy_at new_ring_buffer
two_writes = refl

snapshot-writes_example :
    snapshot (writes round ((6 ∷ []) ∷ (7 ∷ 8 ∷ []) ∷ []))
    ≡ last_of 4 (snapshot round ++ 6 ∷ 7 ∷ 8 ∷ [])
snapshot-writes_example = snapshot-writes round ((6 ∷ []) ∷ (7 ∷ 8 ∷ []) ∷ []) (omega arith)
