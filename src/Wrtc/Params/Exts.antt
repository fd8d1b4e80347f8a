-- ===== src/Wrtc/Params/Exts.antt =====
-- wrtc/jsonparams/encode.go: hdrExts and mergeHdrExts, the header extensions.
pub mod Merge
use gotgcall.Wrtc.Params.{Attribute, HdrExt}
use gotgcall.Base.{
  pos, negsuc, Bool, Bytes, List, Option, [], atoi, before, cut, false, if◌then◌else◌, none, some,
  text_eq, trim_space, ℕ, ℤ, ◌++◌, ◌==◌, ◌||◌, ◌∷◌,
}

-- `s[:i]` at the index of a byte, where that is above 0.
unfoldable pub clip : ℕ → Bytes → Bytes
clip sep [] = []
clip sep (b ∷ bs) = if b == sep then b ∷ bs else b ∷ before sep bs

-- The extension of an extmap line "<id>[/<dir>] <uri> [<extensionattributes>]".
unfoldable pub ext_of : Bytes → Option HdrExt
unfolding clip
ext_of v = elim (cut 32 v) [
  | none ↦ none
  | some c ↦ elim (atoi (clip b'/' c.0)) [
    | none ↦ none
    | some id ↦ some (record { ext_id = id; uri = clip 32 (trim_space c.1) })
  ]
]

-- hdrExts
unfoldable pub hdr_exts_of : List Attribute → List HdrExt
unfolding ext_of
hdr_exts_of [] = []
hdr_exts_of (a ∷ attrs) =
    let rest = hdr_exts_of attrs in
    if text_eq a.key "extmap"
    then elim (ext_of a.value) [ none ↦ rest | some e ↦ e ∷ rest ]
    else rest

abbrev pub int_eq : ℤ → ℤ → Bool
int_eq (pos m) (pos n) = m == n
int_eq (pos m) (negsuc n) = false
int_eq (negsuc m) (pos n) = false
int_eq (negsuc m) (negsuc n) = m == n

-- `seen[id]`, for the extensions that were appended so far.
unfoldable pub seen : ℤ → List HdrExt → Bool
seen id [] = false
seen id (e ∷ es) = int_eq e.ext_id id || seen id es

-- mergeHdrExts
unfoldable pub merge_hdr_exts : List HdrExt → List HdrExt → List HdrExt
unfolding seen
merge_hdr_exts a [] = a
merge_hdr_exts a (e ∷ b) = merge_hdr_exts (if seen e.ext_id a then a else a ++ e ∷ []) b
