-- ===== src/Utils/Ring/Tail.antt =====
-- One write: the ring holds the last bytes of what it held and what is written, as many as fit.
use native.Mathlib.Nat.{mod-eq-sub-mod, mod-eq_of_lt, mod-lt, mod_self}
use gotgcall.Utils.Ring.Parts.{
  contents, copy-fresh, exact_buf, length-front, snapshot_two, straight_back, straight_front,
  tail_full_early, tail_full_late, tail_part_early, tail_part_late, wrapped_back, wrapped_front,
  wrapped_tail,
}
use gotgcall.Utils.Ring.Copy.{copy_at-clips, length-copy_at}
use gotgcall.Utils.Ring.{Ring, copy_at, snapshot, write, write_part}
use gotgcall.Base.{
  List, [], ap, append-nil, arith, dec_lt, drop, drop-append_ge, drop-length, drop_same, last_of,
  length, length-append, length-drop, length-take, min, sym, take, take-length, true, ℕ, ℕ_discrete,
  ◌%◌, ◌++◌, ◌+◌, ◌-◌, ◌<◌, ◌∙◌, ◌∷◌, ◌≡◌, ◌≢◌, ◌≤◌,
}

-- Snapshot returns what the ring holds.
pub snapshot-contents : (r : Ring) → r.head ≤ length r.buf → snapshot r ≡ contents r
unfolding snapshot
snapshot-contents r h = ground (
  arith,
  copy-fresh r.head (take r.head r.buf) (length-front r.head r.buf h),
  snapshot_two r.head r.buf h,
)

write_part-inside :
    (r : Ring) (p : List ℕ)
    → r.head + length p < length r.buf
    → contents (write_part r p) ≡ last_of (length r.buf) (contents r ++ p)
unfolding write_part
write_part-inside r p lt = ground (
  arith,
  mod-eq_of_lt lt,
  straight_front r.head r.buf p (omega arith) (omega arith) (omega arith),
  straight_back r.head r.buf p (omega arith) (omega arith) (omega arith),
  tail_part_early r.head r.buf p (omega arith) (omega arith) (omega arith),
  tail_full_early r.head r.buf p (omega arith) (omega arith) (omega arith),
)

write_part-exact :
    (r : Ring) (p : List ℕ)
    → 0 < length p
    → 0 < r.head
    → r.head + length p ≡ length r.buf
    → contents (write_part r p) ≡ last_of (length r.buf) (contents r ++ p)
unfolding write_part
write_part-exact r p pos some_head e = ground (
  arith,
  round,
  exact_buf r.head r.buf p (omega arith) (omega arith) e,
  drop-length (r.head + length p) r.buf (omega arith),
  tail_part_early r.head r.buf p (omega arith) (omega arith) (omega arith),
  tail_full_early r.head r.buf p (omega arith) (omega arith) (omega arith),
  append-nil (take r.head r.buf ++ p),
)
  where
    round : (r.head + length p) % length r.buf ≡ 0
    round = ap (λ k. k % length r.buf) e ∙ mod_self (length r.buf)

write_part-wrapped :
    (r : Ring) (p : List ℕ)
    → r.head < length r.buf
    → length p < length r.buf
    → length r.buf < r.head + length p
    → contents (write_part r p) ≡ last_of (length r.buf) (contents r ++ p)
unfolding write_part
write_part-wrapped r p in_buf short gt = ground (
  arith,
  round,
  wrapped_front r.head r.buf p in_buf short (omega arith),
  wrapped_back r.head r.buf p in_buf short (omega arith),
  tail_part_late r.head r.buf p in_buf short,
  tail_full_late r.head r.buf p in_buf short (omega arith),
  wrapped_tail r.head r.buf p in_buf short (omega arith),
)
  where
    round : (r.head + length p) % length r.buf ≡ r.head + length p - length r.buf
    round =
        mod-eq-sub-mod {n = r.head + length p} {m = length r.buf} (omega arith)
        ∙ mod-eq_of_lt (omega arith)

write_part-contents :
    (r : Ring) (p : List ℕ)
    → r.head < length r.buf
    → 0 < length p
    → length p < length r.buf
    → contents (write_part r p) ≡ last_of (length r.buf) (contents r ++ p)
write_part-contents r p in_buf pos short = elim (dec_lt (r.head + length p) (length r.buf)) [
  | yes inside ↦ write_part-inside r p inside
  | no past ↦ elim (dec_lt (length r.buf) (r.head + length p)) [
    | yes wraps ↦ write_part-wrapped r p in_buf short wraps
    | no within ↦ write_part-exact r p pos (omega arith) (omega arith)
  ]
]

length-write_part : (r : Ring) (p : List ℕ) → length (write_part r p).buf ≡ length r.buf
unfolding write_part
length-write_part r p = ground (
  arith,
  length-copy_at r.head r.buf p,
  length-copy_at 0 (copy_at r.head r.buf p) (drop (min (length r.buf - r.head) (length p)) p),
)

pub length-write : (r : Ring) (p : List ℕ) → length (write r p).buf ≡ length r.buf
unfolding write
length-write r p =
    ground (arith, length-write_part r p, length-copy_at 0 r.buf (drop (length p - length r.buf) p))

head-write_part : (r : Ring) (p : List ℕ) → 0 < length r.buf → (write_part r p).head < length r.buf
unfolding write_part
head-write_part r p pos = mod-lt (r.head + length p) pos

-- The next byte stays inside the buffer.
pub head-write :
    (r : Ring) (p : List ℕ) → r.head < length r.buf → (write r p).head < length (write r p).buf
head-write r p h =
    rw (length-write r p) (unfold write in ground (arith, head-write_part r p (omega arith)))

write-all :
    (r : Ring) (p : List ℕ)
    → length r.buf ≤ length p
    → copy_at 0 r.buf (drop (length p - length r.buf) p) ≡ last_of (length r.buf) (contents r ++ p)
write-all r p h =
    copy_at-clips 0 r.buf rest (omega (arith, length-rest))
    ∙ take-length (length r.buf - 0) rest (omega (arith, length-rest))
    ∙ sym (
        drop-append_ge (length (contents r ++ p) - length r.buf) _ (contents r) p
          (omega (arith, length-append (contents r) p)))
  where
    rest : List ℕ
    rest = drop (length p - length r.buf) p

    length-rest : length rest ≡ length r.buf
    length-rest = omega (arith, length-drop (length p - length r.buf) p)

pub length-contents-le : (r : Ring) → r.head < length r.buf → length (contents r) ≤ length r.buf
length-contents-le r h = ground (
  arith,
  length-append (drop r.head r.buf) (take r.head r.buf),
  length-drop r.head r.buf,
  length-take r.head r.buf,
)

pub write-nothing :
    (r : Ring) (p : List ℕ)
    → r.head < length r.buf
    → length p ≡ 0
    → contents r ≡ last_of (length r.buf) (contents r ++ p)
write-nothing r [] h e = sym (
    drop_same {n = 0} (contents r ++ [])
      (omega (arith, length-append (contents r) [], length-contents-le r h))
    ∙ append-nil (contents r))
write-nothing r (x ∷ p) h e = absurd (omega arith)

-- A write keeps the last bytes of what the ring held and what was written.
pub contents-write :
    (r : Ring) (p : List ℕ)
    → r.head < length r.buf
    → contents (write r p) ≡ last_of (length r.buf) (contents r ++ p)
contents-write r p h = elim (ℕ_discrete (length p) 0) [
  | yes none_left ↦ ap contents (write_none none_left) ∙ write-nothing r p h none_left
  | no some_left ↦ elim (dec_lt (length p) (length r.buf)) [
    | yes short ↦
        ap contents (write_short some_left short) ∙ write_part-contents r p h (omega arith) short
    | no long ↦
        ap contents (write_long some_left long)
        ∙ append-nil (copy_at 0 r.buf (drop (length p - length r.buf) p))
        ∙ write-all r p (omega arith)
  ]
]
  where
    write_none : length p ≡ 0 → write r p ≡ r
    write_none e = unfold write in ground arith

    write_short : length p ≢ 0 → length p < length r.buf → write r p ≡ write_part r p
    write_short e lt = unfold write in ground arith

    write_long :
        length p ≢ 0
        → ¬ (length p < length r.buf)
        → write r p ≡ record {
          buf = copy_at 0 r.buf (drop (length p - length r.buf) p);
          head = 0;
          full = true;
        }
    write_long e ge = unfold write in ground arith
