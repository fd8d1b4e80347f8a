-- ===== src/Wrtc/Params/Exts/Merge.antt =====
-- The identifiers of the merged header extensions.
use gotgcall.Wrtc.Params.Exts.{int_eq, merge_hdr_exts, seen}
use gotgcall.Wrtc.Params.{HdrExt}
use gotgcall.Base.{
  Bool-cases, List, [], append-nil, append_assoc, arith, false, inl, inr, refl, sym, true, ℤ, ◌++◌,
  ◌||◌, ◌↔◌, ◌∙◌, ◌∷◌, ◌≡◌, negsuc, pos,
}

-- No two extensions share an identifier.
abbrev pub HasDistinctIds : List HdrExt → Type 0
HasDistinctIds [] = Unit
HasDistinctIds (e ∷ es) = (seen e.ext_id es ≡ false) × HasDistinctIds es

pub int_eq_iff : (m n : ℤ) → (int_eq m n ≡ true) ↔ (m ≡ n)
int_eq_iff (pos m) (pos n) = ground arith
int_eq_iff (pos m) (negsuc n) = ground arith
int_eq_iff (negsuc m) (pos n) = ground arith
int_eq_iff (negsuc m) (negsuc n) = ground arith

pub seen-append : (id : ℤ) (xs ys : List HdrExt) → seen id (xs ++ ys) ≡ (seen id xs || seen id ys)
unfolding seen
seen-append id [] ys = refl
seen-append id (x ∷ xs) ys = ground (arith, seen-append id xs ys)

snoc-HasDistinctIds :
    (a : List HdrExt) (e : HdrExt)
    → HasDistinctIds a
    → seen e.ext_id a ≡ false
    → HasDistinctIds (a ++ e ∷ [])
unfolding seen
snoc-HasDistinctIds [] e d h = (refl, tt)
snoc-HasDistinctIds (x ∷ a) e d h =
    let apart : int_eq x.ext_id e.ext_id ≡ false = ground arith in
    let fresh : int_eq e.ext_id x.ext_id ≡ false =
      ground (arith, int_eq_iff e.ext_id x.ext_id, int_eq_iff x.ext_id e.ext_id) in
    let later : seen e.ext_id a ≡ false = ground arith in
    (ground (arith, seen-append x.ext_id a (e ∷ [])), snoc-HasDistinctIds a e d.1 later)

-- Merging keeps the first list in front, adds no identifier twice, and loses none of either list.
pub merge_hdr_exts-Distinct :
    (a b : List HdrExt)
    → HasDistinctIds a
    → HasDistinctIds (merge_hdr_exts a b)
      × ((more : List HdrExt) × (merge_hdr_exts a b ≡ a ++ more))
      × ((id : ℤ) → seen id (merge_hdr_exts a b) ≡ (seen id a || seen id b))
unfolding merge_hdr_exts
merge_hdr_exts-Distinct a [] d = (d, ([], sym (append-nil a)), λ id. ground arith)
merge_hdr_exts-Distinct a (e ∷ b) d = elim (Bool-cases (seen e.ext_id a)) [
  | inl old ↦
      let rest = merge_hdr_exts-Distinct a b d in
      rw old (rest.0, rest.1, λ id. ground (arith, rest.2 id, int_eq_iff e.ext_id id))
  | inr new ↦
      let rest = merge_hdr_exts-Distinct (a ++ e ∷ []) b (snoc-HasDistinctIds a e d new) in
      rw new (
        rest.0,
        (e ∷ rest.1.0, rest.1.1 ∙ append_assoc a (e ∷ []) rest.1.0),
        λ id. ground (arith, rest.2 id, seen-append id a (e ∷ [])),
      )
]
