-- ===== src/Utils/Ring.antt =====
-- utils/ringbuf.go. The mutex makes each call atomic, so a call is a function on the state. Go's
-- `copy` moves as many bytes as fit; bytes are only moved, so a byte is any number.
pub mod Copy
pub mod Parts
pub mod Tail
pub mod Stream
mod Tests
use gotgcall.Base.{
  ℕ, zero, suc, ◌+◌, ◌-◌, ◌%◌, Bool, true, false, not, ◌&&◌, List, [], ◌∷◌, ◌++◌, min, arith, ltb,
  leb, ◌==◌, if◌then◌else◌, length, take, drop, replicate,
}

-- RingBuffer
pub record Ring : Type 0 where
  pub buf : List ℕ
  pub head : ℕ
  pub full : Bool

-- `copy(dst[k:], src)`: what `dst` is afterwards.
pub copy_at : ℕ → List ℕ → List ℕ → List ℕ
copy_at k [] src = []
copy_at zero (d ∷ dst) [] = d ∷ dst
copy_at zero (d ∷ dst) (s ∷ src) = s ∷ copy_at zero dst src
copy_at (suc k) (d ∷ dst) src = d ∷ copy_at k dst src

-- NewRingBuffer, with the capacity as a natural number: 0 stands for every capacity <= 0.
pub new_ring_buffer : ℕ → Ring
new_ring_buffer capacity = record {
  buf = replicate (if capacity == 0 then 4096 else capacity) 0;
  head = 0;
  full = false;
}

-- The branch of Write for fewer bytes than the capacity.
pub write_part : Ring → List ℕ → Ring
write_part r p =
    let n = length p in
    let cap = length r.buf in
    let written = min (cap - r.head) n in
    let once = copy_at r.head r.buf p in
    let head' = (r.head + n) % cap in
    record {
      buf = if ltb written n then copy_at 0 once (drop written p) else once;
      head = head';
      full = if not r.full && ltb head' n then true else r.full;
    }

-- Write. The number of bytes that it returns is `length p` on every branch, its error is nil.
pub write : Ring → List ℕ → Ring
unfolding write_part
write r p =
    let n = length p in
    let cap = length r.buf in
    if n == 0
    then r
    else if leb cap n
    then record { buf = copy_at 0 r.buf (drop (n - cap) p); head = 0; full = true }
    else write_part r p

-- Snapshot
pub snapshot : Ring → List ℕ
snapshot r =
    let cap = length r.buf in
    if not r.full
    then copy_at 0 (replicate r.head 0) (take r.head r.buf)
    else copy_at (cap - r.head) (copy_at 0 (replicate cap 0) (drop r.head r.buf))
        (take r.head r.buf)

-- A producer's writes in order.
pub writes : Ring → List (List ℕ) → Ring
writes r [] = r
writes r (p ∷ ps) = writes (write r p) ps
