-- ===== src/Base/Ascii.antt =====
-- Go's strings and byte slices where the code looks into them: lists of ASCII bytes, with what the
-- packages strings and strconv do to them.
use Prim.Native.Nat.{ℕ, ◌+◌, ◌-◌, ◌*◌, ◌^◌}
use Prim.Native.Char.{code}
use Prim.Native.String.{String}
use mathlib.Core.Bool.{Bool, true, false, ◌&&◌, ◌||◌}
use mathlib.Core.Logic.{◌↔◌}
use mathlib.Core.Path.{◌≡◌}
use mathlib.Core.Option.{Option, none, some}
use mathlib.Core.List.{List, [], ◌∷◌, map}
use native.Mathlib.Omega.{arith}
use gotgcall.Base.Tests.{ltb, leb, ◌==◌, if◌then◌else◌}
use gotgcall.Base.Int64.{ℤ, pos, negsuc}

abbrev pub Bytes : Type 0
Bytes = List ℕ

-- The bytes of a literal
abbrev pub codes : String → Bytes
codes String.[] = []
codes (String.◌∷◌ c s) = code c ∷ codes s

-- `s == ""`
abbrev pub is_empty {ℓ} : {A : Type ℓ} → List A → Bool
is_empty [] = true
is_empty (x ∷ xs) = false

-- `s == t`
unfoldable pub bytes_eq : Bytes → Bytes → Bool
bytes_eq [] [] = true
bytes_eq [] (y ∷ ys) = false
bytes_eq (x ∷ xs) [] = false
bytes_eq (x ∷ xs) (y ∷ ys) = x == y && bytes_eq xs ys

pub bytes_eq_iff : (s t : Bytes) → (bytes_eq s t ≡ true) ↔ (s ≡ t)
unfolding bytes_eq
bytes_eq_iff [] [] = ground arith
bytes_eq_iff [] (y ∷ ys) = ground arith
bytes_eq_iff (x ∷ xs) [] = ground arith
bytes_eq_iff (x ∷ xs) (y ∷ ys) = ground (arith, bytes_eq_iff xs ys)

abbrev pub under_first : ℕ → Option (Bytes × Bytes) → Option (Bytes × Bytes)
under_first b none = none
under_first b (some c) = some (b ∷ c.0, c.1)

-- strings.Cut at a byte: what stands before its first occurrence, and behind it.
unfoldable pub cut : ℕ → Bytes → Option (Bytes × Bytes)
cut sep [] = none
cut sep (b ∷ bs) = let rest = under_first b (cut sep bs) in if b == sep then some ([], bs) else rest

-- What stands before the first occurrence of a byte.
unfoldable pub before : ℕ → Bytes → Bytes
before sep [] = []
before sep (b ∷ bs) = let rest = before sep bs in if b == sep then [] else b ∷ rest

abbrev pub on_head : ℕ → List Bytes → List Bytes
on_head b [] = []
on_head b (s ∷ ss) = (b ∷ s) ∷ ss

-- strings.Split at a byte
unfoldable pub split : ℕ → Bytes → List Bytes
split sep [] = [] ∷ []
split sep (b ∷ bs) = let rest = split sep bs in if b == sep then [] ∷ rest else on_head b rest

-- strings.ToUpper, strings.ToLower
unfoldable pub upper_byte : ℕ → ℕ
upper_byte b = if leb b'a' b && leb b b'z' then b - 32 else b

unfoldable pub lower_byte : ℕ → ℕ
lower_byte b = if leb b'A' b && leb b b'Z' then b + 32 else b

abbrev pub to_upper : Bytes → Bytes
to_upper = map upper_byte

abbrev pub to_lower : Bytes → Bytes
to_lower = map lower_byte

-- strings.EqualFold
abbrev pub equal_fold : Bytes → Bytes → Bool
equal_fold s t = bytes_eq (to_lower s) (to_lower t)

-- strings.TrimSpace
abbrev pub is_blank : ℕ → Bool
is_blank b = b == 32 || (leb 9 b && leb b 13)

unfoldable pub trim_left : Bytes → Bytes
trim_left [] = []
trim_left (b ∷ bs) = let rest = trim_left bs in if is_blank b then rest else b ∷ bs

abbrev pub trim_cons : ℕ → Bytes → Bytes
trim_cons b [] = if is_blank b then [] else b ∷ []
trim_cons b (c ∷ cs) = b ∷ c ∷ cs

unfoldable pub trim_right : Bytes → Bytes
trim_right [] = []
trim_right (b ∷ bs) = trim_cons b (trim_right bs)

abbrev pub trim_space : Bytes → Bytes
trim_space s = trim_right (trim_left s)

-- The decimal digits of a number, after those read already.
unfoldable pub digits_from : ℕ → Bytes → Option ℕ
digits_from n [] = some n
digits_from n (b ∷ bs) =
    let rest = digits_from (n * 10 + (b - b'0')) bs in
    if leb b'0' b && leb b b'9' then rest else none

abbrev pub in_range : ℕ → Option ℕ → Option ℕ
in_range limit none = none
in_range limit (some n) = if ltb n limit then some n else none

abbrev pub digits_of : ℕ → Bytes → Option ℕ
digits_of limit [] = none
digits_of limit (b ∷ bs) = in_range limit (digits_from 0 (b ∷ bs))

abbrev pub positive : Option ℕ → Option ℤ
positive none = none
positive (some n) = some (pos n)

abbrev pub negative_of : ℕ → ℤ
negative_of n = if n == 0 then pos 0 else negsuc (n - 1)

abbrev pub negative : Option ℕ → Option ℤ
negative none = none
negative (some n) = some (negative_of n)

-- strconv.Atoi on 64 bits; `none` is its error.
unfoldable pub atoi : Bytes → Option ℤ
unfolding digits_from
atoi [] = none
atoi (b ∷ bs) =
    if b == b'-'
    then negative (digits_of (2 ^ 63 + 1) bs)
    else if b == b'+'
    then positive (digits_of (2 ^ 63) bs)
    else positive (digits_of (2 ^ 63) (b ∷ bs))
