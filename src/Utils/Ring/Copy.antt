-- ===== src/Utils/Ring/Copy.antt =====
-- Go's `copy` in terms of slices, and the laws of slicing that the ring needs.
use gotgcall.Utils.Ring.{copy_at}
use gotgcall.Base.{
  List, [], ap, append-nil, arith, drop, drop-cons, drop-length, drop-nil, length, refl, suc, take,
  take-length, take-nil, zero, ℕ, ◌++◌, ◌+◌, ◌-◌, ◌∙◌, ◌∷◌, ◌≡◌, ◌≤◌,
}

-- A copy keeps the length of its destination.
pub length-copy_at : (k : ℕ) (dst src : List ℕ) → length (copy_at k dst src) ≡ length dst
unfolding copy_at
length-copy_at zero [] src = refl
length-copy_at (suc k) [] src = refl
length-copy_at zero (d ∷ dst) [] = refl
length-copy_at zero (d ∷ dst) (s ∷ src) = ap suc (length-copy_at zero dst src)
length-copy_at (suc k) (d ∷ dst) src = ap suc (length-copy_at k dst src)

-- A copy replaces the bytes from its offset on, as many as there are and as fit.
pub copy_at-slices :
    (k : ℕ) (dst src : List ℕ)
    → copy_at k dst src ≡ take k dst ++ (take (length dst - k) src ++ drop (k + length src) dst)
unfolding copy_at
copy_at-slices zero [] src = ground (arith, drop-nil {A = ℕ} (0 + length src))
copy_at-slices (suc k) [] src = ground (arith, drop-nil {A = ℕ} (suc k + length src))
copy_at-slices zero (d ∷ dst) [] = ground (arith, take-nil {A = ℕ} (suc (length dst) - 0))
copy_at-slices zero (d ∷ dst) (s ∷ src) = ground (arith, copy_at-slices zero dst src)
copy_at-slices (suc k) (d ∷ dst) src =
    ground (arith, copy_at-slices k dst src, drop-cons k (length src) d dst)

-- A copy that fits replaces as many bytes as it has.
pub copy_at-fits :
    (k : ℕ) (dst src : List ℕ)
    → k + length src ≤ length dst
    → copy_at k dst src ≡ take k dst ++ (src ++ drop (k + length src) dst)
copy_at-fits k dst src h =
    let e : take (length dst - k) src ≡ src = take-length (length dst - k) src (omega arith) in
    copy_at-slices k dst src ∙ ap (λ t. take k dst ++ (t ++ drop (k + length src) dst)) e

-- A copy that does not fit goes up to the end.
pub copy_at-clips :
    (k : ℕ) (dst src : List ℕ)
    → length dst ≤ k + length src
    → copy_at k dst src ≡ take k dst ++ take (length dst - k) src
copy_at-clips k dst src h =
    let e : drop (k + length src) dst ≡ [] = drop-length (k + length src) dst h in
    copy_at-slices k dst src
    ∙ ap (λ t. take k dst ++ (take (length dst - k) src ++ t)) e
    ∙ ap (λ t. take k dst ++ t) (append-nil (take (length dst - k) src))
