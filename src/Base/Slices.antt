-- ===== src/Base/Slices.antt =====
-- Laws of slicing, and the tail of a list.
use Prim.Native.Nat.{ℕ, zero, suc, ◌+◌, ◌-◌, ◌≤◌}
use mathlib.Core.Path.{◌≡◌, refl, sym, ap, ◌∙◌}
use mathlib.Core.List.{List, [], ◌∷◌, ◌++◌}
use native.Mathlib.Omega.{arith}
use gotgcall.Base.Lists.{length, take, drop, length-append, length-drop}

pub drop-length {ℓ} : {A : Type ℓ} (n : ℕ) (xs : List A) → length xs ≤ n → drop n xs ≡ []
drop-length zero [] h = refl
drop-length zero (x ∷ xs) h = absurd (omega arith)
drop-length (suc n) [] h = refl
drop-length (suc n) (x ∷ xs) h = drop-length n xs (omega arith)

pub take-length {ℓ} : {A : Type ℓ} (n : ℕ) (xs : List A) → length xs ≤ n → take n xs ≡ xs
take-length zero [] h = refl
take-length zero (x ∷ xs) h = absurd (omega arith)
take-length (suc n) [] h = refl
take-length (suc n) (x ∷ xs) h = ap (λ t. x ∷ t) (take-length n xs (omega arith))

pub drop-nil {ℓ} : {A : Type ℓ} (n : ℕ) → drop {A = A} n [] ≡ []
drop-nil zero = refl
drop-nil (suc n) = refl

pub drop-cons {ℓ} :
    {A : Type ℓ} (k n : ℕ) (x : A) (xs : List A) → drop (suc k + n) (x ∷ xs) ≡ drop (k + n) xs
drop-cons k n x xs = let e : suc k + n ≡ suc (k + n) = omega arith in ap (λ j. drop j (x ∷ xs)) e

pub drop-drop {ℓ} : {A : Type ℓ} (m n : ℕ) (xs : List A) → drop m (drop n xs) ≡ drop (n + m) xs
drop-drop m zero xs = ground arith
drop-drop {A} zero (suc n) [] = ground (arith, drop-nil {A = A} (suc n + zero))
drop-drop {A} (suc m) (suc n) [] = ground (arith, drop-nil {A = A} (suc n + suc m))
drop-drop m (suc n) (x ∷ xs) = drop-drop m n xs ∙ sym (drop-cons n m x xs)

pub take-nil {ℓ} : {A : Type ℓ} (n : ℕ) → take {A = A} n [] ≡ []
take-nil zero = refl
take-nil (suc n) = refl

pub drop-append_le {ℓ} :
    {A : Type ℓ} (n : ℕ) (xs ys : List A) → n ≤ length xs → drop n (xs ++ ys) ≡ drop n xs ++ ys
drop-append_le zero xs ys h = refl
drop-append_le (suc n) [] ys h = absurd (omega arith)
drop-append_le (suc n) (x ∷ xs) ys h = drop-append_le n xs ys (omega arith)

pub drop-append_ge {ℓ} :
    {A : Type ℓ} (n k : ℕ) (xs ys : List A) → n ≡ length xs + k → drop n (xs ++ ys) ≡ drop k ys
drop-append_ge n k [] ys h = let e : n ≡ k = omega arith in ap (λ j. drop j ys) e
drop-append_ge zero k (x ∷ xs) ys h = absurd (omega arith)
drop-append_ge (suc n) k (x ∷ xs) ys h = drop-append_ge n k xs ys (omega arith)

pub take-append_eq {ℓ} :
    {A : Type ℓ} (n : ℕ) (xs ys : List A) → n ≡ length xs → take n (xs ++ ys) ≡ xs
take-append_eq zero [] ys h = refl
take-append_eq (suc n) [] ys h = absurd (omega arith)
take-append_eq zero (x ∷ xs) ys h = absurd (omega arith)
take-append_eq (suc n) (x ∷ xs) ys h = ap (λ t. x ∷ t) (take-append_eq n xs ys (omega arith))

pub drop_same {ℓ} : {A : Type ℓ} {m n : ℕ} (xs : List A) → m ≡ n → drop m xs ≡ drop n xs
drop_same xs e = ap (λ k. drop k xs) e

-- The last `n` entries of a list, or all of a shorter one.
abbrev pub last_of {ℓ} : {A : Type ℓ} → ℕ → List A → List A
last_of n xs = drop (length xs - n) xs

-- To keep the last `n` entries early changes nothing in the end.
pub last_of-last_of {ℓ} :
    {A : Type ℓ} (n : ℕ) (xs ys : List A) → last_of n (last_of n xs ++ ys) ≡ last_of n (xs ++ ys)
last_of-last_of n xs ys =
    ap (last_of n) (sym (drop-append_le k xs ys (omega arith)))
    ∙ drop-drop (length (drop k (xs ++ ys)) - n) k (xs ++ ys)
    ∙ drop_same (xs ++ ys) (omega (arith, length-drop k (xs ++ ys), length-append xs ys))
  where
    k : ℕ
    k = length xs - n
