-- ===== src/Utils/Ring/Stream.antt =====
-- Any number of writes to the ring of utils/ringbuf.go, as the stream of the bytes written.
-- All that a producer has written, in order.
use gotgcall.Utils.Ring.Tail.{
  contents-write, head-write, length-write, snapshot-contents, write-nothing,
}
use gotgcall.Utils.Ring.Parts.{contents}
use gotgcall.Utils.Ring.{Ring, copy_at, new_ring_buffer, snapshot, write, writes}
use gotgcall.Base.{
  List, [], ap, append_assoc, arith, if◌then◌else◌, last_of, last_of-last_of, length,
  length-replicate, refl, sym, ℕ, ◌++◌, ◌<◌, ◌==◌, ◌∙◌, ◌∷◌, ◌≡◌,
}

abbrev pub stream : List (List ℕ) → List ℕ
stream [] = []
stream (p ∷ ps) = p ++ stream ps

contents-writes :
    (r : Ring) (ps : List (List ℕ))
    → r.head < length r.buf
    → contents (writes r ps) ≡ last_of (length r.buf) (contents r ++ stream ps)
unfolding writes
contents-writes r [] h = write-nothing r [] h refl
contents-writes r (p ∷ ps) h =
    contents-writes (write r p) ps (head-write r p h)
    ∙ rw (length-write r p, contents-write r p h)
        (last_of-last_of (length r.buf) (contents r ++ p) (stream ps)
          ∙ ap (last_of (length r.buf)) (append_assoc (contents r) p (stream ps)))

head-writes :
    (r : Ring) (ps : List (List ℕ))
    → r.head < length r.buf
    → (writes r ps).head < length (writes r ps).buf
unfolding writes
head-writes r [] h = h
head-writes r (p ∷ ps) h = head-writes (write r p) ps (head-write r p h)

-- Whatever is written to a ring in whatever pieces, Snapshot returns the last bytes of what the
-- ring held and all that was written, as many as the buffer has room for.
pub snapshot-writes :
    (r : Ring) (ps : List (List ℕ))
    → r.head < length r.buf
    → snapshot (writes r ps) ≡ last_of (length r.buf) (snapshot r ++ stream ps)
snapshot-writes r ps h =
    snapshot-contents (writes r ps) (omega (arith, head-writes r ps h))
    ∙ contents-writes r ps h
    ∙ ap (λ t. last_of (length r.buf) (t ++ stream ps)) (sym (snapshot-contents r (omega arith)))

length-writes : (r : Ring) (ps : List (List ℕ)) → length (writes r ps).buf ≡ length r.buf
unfolding writes
length-writes r [] = refl
length-writes r (p ∷ ps) = length-writes (write r p) ps ∙ length-write r p

length-new_ring_buffer :
    (capacity : ℕ)
    → length (new_ring_buffer capacity).buf ≡ (if capacity == 0 then 4096 else capacity)
unfolding new_ring_buffer
length-new_ring_buffer capacity =
    length-replicate {A = ℕ} (if capacity == 0 then 4096 else capacity) 0

new_ring_buffer-head_in :
    (capacity : ℕ) → (new_ring_buffer capacity).head < length (new_ring_buffer capacity).buf
new_ring_buffer-head_in capacity =
    rw (length-new_ring_buffer capacity) (unfold new_ring_buffer in ground arith)

snapshot-new_ring_buffer : (capacity : ℕ) → snapshot (new_ring_buffer capacity) ≡ []
unfolding snapshot new_ring_buffer copy_at
snapshot-new_ring_buffer capacity = refl

-- A new ring has the capacity asked for, or 4096 bytes where that is not positive. It returns the
-- last bytes of the stream written to it, and its next write stays inside the buffer.
pub new_ring_buffer-tail :
    (capacity : ℕ) (ps : List (List ℕ))
    → let r = writes (new_ring_buffer capacity) ps in
      let cap = if capacity == 0 then 4096 else capacity in
      (snapshot r ≡ last_of cap (stream ps)) × (length r.buf ≡ cap) × (r.head < length r.buf)
new_ring_buffer-tail capacity ps = (
  snapshot-writes fresh ps (new_ring_buffer-head_in capacity)
      ∙ rw (length-new_ring_buffer capacity, snapshot-new_ring_buffer capacity),
  length-writes fresh ps ∙ length-new_ring_buffer capacity,
  head-writes fresh ps (new_ring_buffer-head_in capacity),
)
  where
    fresh : Ring
    fresh = new_ring_buffer capacity
