-- ===== src/Utils/Ring/Parts.antt =====
-- The slices of the buffer before and after a write, as lists of bytes.
use gotgcall.Utils.Ring.Copy.{copy_at-clips, copy_at-fits, length-copy_at}
use gotgcall.Utils.Ring.{Ring, copy_at}
use gotgcall.Base.{
  List, [], ap, append-nil, append_assoc, ap₂, arith, drop, drop-append_ge, drop-append_le,
  drop-drop, drop-length, drop_same, if◌then◌else◌, last_of, length, length-append, length-drop,
  length-replicate, length-take, replicate, sym, take, take-append-drop, take-append_eq,
  take-length, ℕ, ◌++◌, ◌+◌, ◌-◌, ◌<◌, ◌∙◌, ◌≡◌, ◌≤◌,
}

-- What the ring holds, oldest byte first.
abbrev pub contents : Ring → List ℕ
contents r = (if r.full then drop r.head r.buf else []) ++ take r.head r.buf

pub copy-fresh : (n : ℕ) (src : List ℕ) → length src ≡ n → copy_at 0 (replicate n 0) src ≡ src
copy-fresh n src e =
    copy_at-clips 0 (replicate n 0) src (omega (arith, length-replicate {A = ℕ} n 0))
    ∙ take-length (length (replicate n 0) - 0) src (omega (arith, length-replicate {A = ℕ} n 0))

module _ (h : ℕ) (buf : List ℕ) (in_buf : h ≤ length buf) where
  pub length-front : length (take h buf) ≡ h
  length-front = omega (arith, length-take {0} h buf)

  pub length-back : length (drop h buf) ≡ length buf - h
  length-back = length-drop h buf

  pub snapshot_two :
      copy_at (length buf - h) (copy_at 0 (replicate (length buf) 0) (drop h buf)) (take h buf)
      ≡ drop h buf ++ take h buf
  snapshot_two =
      copy_at-clips k once (take h buf) (omega (arith, length-front, length-once))
      ∙ ap₂ ◌++◌ (ap (take k) fits ∙ take-append_eq k (drop h buf) _ (omega (arith, length-back)))
          (take-length (length once - k) (take h buf) (omega (arith, length-front, length-once)))
    where
      k : ℕ
      k = length buf - h

      once : List ℕ
      once = copy_at 0 (replicate (length buf) 0) (drop h buf)

      length-once : length once ≡ length buf
      length-once =
          length-copy_at 0 (replicate (length buf) 0) (drop h buf)
          ∙ length-replicate {A = ℕ} (length buf) 0

      fits : once ≡ drop h buf ++ drop (0 + length (drop h buf)) (replicate (length buf) 0)
      fits =
          copy_at-fits 0 (replicate (length buf) 0) (drop h buf)
            (omega (arith, length-back, length-replicate {A = ℕ} (length buf) 0))

-- The three ways a short write can go, on the ring's parts.
module _ (h : ℕ) (buf p : List ℕ) (in_buf : h < length buf) (short : length p < length buf) where
  pub straight :
      h + length p ≤ length buf → copy_at h buf p ≡ take h buf ++ (p ++ drop (h + length p) buf)
  straight = copy_at-fits h buf p

  pub wrapped :
      length buf ≤ h + length p
      → copy_at 0 (copy_at h buf p) (drop (length buf - h) p)
        ≡ drop (length buf - h) p
          ++ drop (h + length p - length buf) (take h buf ++ take (length buf - h) p)
  wrapped le =
      copy_at-fits 0 once rest (omega (arith, length-copy_at h buf p, length-rest))
      ∙ ap (λ t. rest ++ t) (drop_same once at ∙ ap (drop (h + length p - length buf)) clipped)
    where
      once : List ℕ
      once = copy_at h buf p

      rest : List ℕ
      rest = drop (length buf - h) p

      length-rest : length rest ≡ length p - (length buf - h)
      length-rest = length-drop (length buf - h) p

      at : 0 + length rest ≡ h + length p - length buf
      at = omega (arith, length-rest)

      clipped : once ≡ take h buf ++ take (length buf - h) p
      clipped = copy_at-clips h buf p le

  pub length-joined : length (take h buf ++ p) ≡ h + length p
  length-joined = omega (arith, length-append (take h buf) p, length-front h buf (omega arith))

  -- What the stream's tail is, while the ring has not been filled.
  pub tail_part_early :
      h + length p ≤ length buf → last_of (length buf) (take h buf ++ p) ≡ take h buf ++ p
  tail_part_early le = drop_same {n = 0} (take h buf ++ p) (omega (arith, length-joined))

  pub tail_part_late :
      last_of (length buf) (take h buf ++ p) ≡ drop (h + length p - length buf) (take h buf ++ p)
  tail_part_late = drop_same (take h buf ++ p) (omega (arith, length-joined))

  pub tail_full :
      last_of (length buf) ((drop h buf ++ take h buf) ++ p)
      ≡ drop (length p) (drop h buf ++ (take h buf ++ p))
  tail_full =
      drop_same ((drop h buf ++ take h buf) ++ p) (
        omega (
          arith,
          length-append (drop h buf ++ take h buf) p,
          length-append (drop h buf) (take h buf),
          length-front h buf (omega arith),
          length-back h buf (omega arith),
        ))
      ∙ ap (drop (length p)) (append_assoc (drop h buf) (take h buf) p)

  pub tail_full_early :
      h + length p ≤ length buf
      → last_of (length buf) ((drop h buf ++ take h buf) ++ p)
        ≡ drop (h + length p) buf ++ (take h buf ++ p)
  tail_full_early le =
      tail_full
      ∙ drop-append_le (length p) (drop h buf) (take h buf ++ p)
          (omega (arith, length-back h buf (omega arith)))
      ∙ ap (λ t. t ++ (take h buf ++ p)) (drop-drop (length p) h buf)

  pub tail_full_late :
      length buf ≤ h + length p
      → last_of (length buf) ((drop h buf ++ take h buf) ++ p)
        ≡ drop (h + length p - length buf) (take h buf ++ p)
  tail_full_late le =
      tail_full
      ∙ drop-append_ge (length p) (h + length p - length buf) (drop h buf) (take h buf ++ p)
          (omega (arith, length-back h buf (omega arith)))

  -- The front that the second copy of a wrapping write leaves.
  pub wrapped_tail :
      length buf ≤ h + length p
      → drop (h + length p - length buf) (take h buf ++ p)
        ≡ drop (h + length p - length buf) (take h buf ++ take (length buf - h) p)
          ++ drop (length buf - h) p
  wrapped_tail le =
      ap (λ t. drop k (take h buf ++ t)) (sym (take-append-drop (length buf - h) p))
      ∙ ap (drop k) (sym (append_assoc (take h buf) (take (length buf - h) p) rest))
      ∙ drop-append_le k (take h buf ++ take (length buf - h) p) rest (
          omega (
            arith,
            length-append (take h buf) (take (length buf - h) p),
            length-front h buf (omega arith),
          ))
    where
      k : ℕ
      k = h + length p - length buf

      rest : List ℕ
      rest = drop (length buf - h) p

  pub straight_buf :
      h + length p ≤ length buf → copy_at h buf p ≡ (take h buf ++ p) ++ drop (h + length p) buf
  straight_buf le = straight le ∙ sym (append_assoc (take h buf) p (drop (h + length p) buf))

  pub straight_front :
      h + length p ≤ length buf → take (h + length p) (copy_at h buf p) ≡ take h buf ++ p
  straight_front le =
      ap (take (h + length p)) (straight_buf le)
      ∙ take-append_eq (h + length p) (take h buf ++ p) (drop (h + length p) buf)
          (omega (arith, length-joined))

  pub straight_back :
      h + length p ≤ length buf → drop (h + length p) (copy_at h buf p) ≡ drop (h + length p) buf
  straight_back le =
      ap (drop (h + length p)) (straight_buf le)
      ∙ drop-append_ge (h + length p) 0 (take h buf ++ p) (drop (h + length p) buf)
          (omega (arith, length-joined))

  pub exact_buf : h + length p ≡ length buf → copy_at h buf p ≡ take h buf ++ p
  exact_buf e =
      straight_buf (omega arith)
      ∙ ap (λ t. (take h buf ++ p) ++ t) (drop-length (h + length p) buf (omega arith))
      ∙ append-nil (take h buf ++ p)

  pub wrapped_front :
      length buf ≤ h + length p
      → take (h + length p - length buf) (copy_at 0 (copy_at h buf p) (drop (length buf - h) p))
        ≡ drop (length buf - h) p
  wrapped_front le =
      ap (take (h + length p - length buf)) (wrapped le)
      ∙ take-append_eq (h + length p - length buf) (drop (length buf - h) p) _
          (omega (arith, length-drop {0} (length buf - h) p))

  pub wrapped_back :
      length buf ≤ h + length p
      → drop (h + length p - length buf) (copy_at 0 (copy_at h buf p) (drop (length buf - h) p))
        ≡ drop (h + length p - length buf) (take h buf ++ take (length buf - h) p)
  wrapped_back le =
      ap (drop (h + length p - length buf)) (wrapped le)
      ∙ drop-append_ge (h + length p - length buf) 0 (drop (length buf - h) p) _
          (omega (arith, length-drop {0} (length buf - h) p))
