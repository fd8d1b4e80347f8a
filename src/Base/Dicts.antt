-- ===== src/Base/Dicts.antt =====
-- Go's maps with numbers for keys, as association lists.
use Prim.Native.Nat.{ℕ}
use mathlib.Core.Path.{◌≡◌}
use mathlib.Core.Option.{Option, none, some}
use mathlib.Core.List.{List, [], ◌∷◌}
use native.Mathlib.Omega.{arith}
use gotgcall.Base.Tests.{◌==◌, if◌then◌else◌}

abbrev pub Dict {ℓ} : Type ℓ → Type ℓ
Dict V = List (ℕ × V)

module _ {ℓ} {V : Type ℓ} where
  -- `d[k]`
  unfoldable pub find : ℕ → Dict V → Option V
  find k [] = none
  find k (e ∷ d) = let rest = find k d in if e.0 == k then some e.1 else rest

  -- `delete(d, k)`
  unfoldable pub erase : ℕ → Dict V → Dict V
  erase k [] = []
  erase k (e ∷ d) = let rest = erase k d in if e.0 == k then rest else e ∷ rest

  -- `d[k] = v`
  unfoldable pub store : ℕ → V → Dict V → Dict V
  unfolding erase
  store k v d = (k, v) ∷ erase k d

  pub find-erase : (j k : ℕ) (d : Dict V) → find j (erase k d) ≡ (if k == j then none else find j d)
  unfolding find erase
  find-erase j k [] = ground arith
  find-erase j k (e ∷ d) = ground (arith, find-erase j k d)

  pub find-store :
      (j k : ℕ) (v : V) (d : Dict V) → find j (store k v d) ≡ (if k == j then some v else find j d)
  unfolding find store
  find-store j k v d = ground (arith, find-erase j k d)
