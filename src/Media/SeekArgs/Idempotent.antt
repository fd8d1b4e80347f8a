-- ===== src/Media/SeekArgs/Idempotent.antt =====
-- A second offset takes the place of the first.
use Prim.Native.String.{String}
use gotgcall.Media.SeekArgs.{clean_until, has_next, keep_before, inject_seek, seek_before}
use gotgcall.Base.{
  Bool, List, [], arith, false, inl, inr, refl, subst, sym, text_eq, text_eq_iff, true, ◌&&◌, ◌++◌,
  ◌∙◌, ◌∷◌, ◌≡◌, ◌⊎◌, Bool-cases, ap,
}

step-drop :
    (a : String) (rest : List String)
    → text_eq a "-ss" ≡ true
    → has_next rest ≡ true
    → clean_until false (a ∷ rest) ≡ clean_until true rest
unfolding clean_until
step-drop a rest s n = ground arith

input_not_seek : (a : String) → a ≡ "-i" → text_eq a "-ss" ≡ false
input_not_seek a p = subst (λ x. text_eq x "-ss" ≡ false) (sym p) refl

step-input :
    (a : String) (rest : List String)
    → text_eq a "-i" ≡ true
    → clean_until false (a ∷ rest) ≡ ([], a ∷ rest)
unfolding clean_until
step-input a rest i = ground (arith, input_not_seek a, text_eq_iff a "-i")

step-keep :
    (a : String) (rest : List String)
    → (text_eq a "-ss" && has_next rest) ≡ false
    → text_eq a "-i" ≡ false
    → clean_until false (a ∷ rest) ≡ keep_before a (clean_until false rest)
unfolding clean_until
step-keep a rest s i = ground arith

step-skip : (a : String) (rest : List String) → clean_until true (a ∷ rest) ≡ clean_until false rest
unfolding clean_until
step-skip a rest = refl

clean-nil : (skip : Bool) → clean_until skip [] ≡ ([], [])
unfolding clean_until
clean-nil skip = refl

-- The cases of an argument while no `-i` was kept.
abbrev Cases : String → List String → Type 0
Cases a rest =
    ((text_eq a "-ss" ≡ true) × (has_next rest ≡ true))
    ⊎ (text_eq a "-i" ≡ true)
    ⊎ (((text_eq a "-ss" && has_next rest) ≡ false) × (text_eq a "-i" ≡ false))

cases : (a : String) (rest : List String) → Cases a rest
cases a rest = ground arith

-- What `clean_until` returns is left alone by another run, with an offset before the input.
abbrev IsStable : String → List String × List String → Type 0
IsStable y r =
    (has_next r.1 ≡ true → clean_until false (r.0 ++ "-ss" ∷ y ∷ r.1) ≡ r)
    × (has_next r.1 ≡ false → clean_until false r.0 ≡ r)

input-IsStable :
    (y a : String) (rest : List String) → text_eq a "-i" ≡ true → IsStable y ([], a ∷ rest)
input-IsStable y a rest i = (
  (λ h. step-drop "-ss" (y ∷ a ∷ rest) refl refl ∙ step-skip y (a ∷ rest) ∙ step-input a rest i),
  (λ h. cc),
)

found-next :
    (rest : List String) → has_next (clean_until false rest).1 ≡ true → has_next rest ≡ true
unfolding clean_until
found-next [] h = cc
found-next (a ∷ rest) h = refl

before-next :
    (rest : List String) → has_next rest ≡ false → has_next (clean_until false rest).0 ≡ false
unfolding clean_until
before-next [] h = refl
before-next (a ∷ rest) h = cc

keep-IsStable :
    (y a : String) (rest : List String) (r : List String × List String)
    → clean_until false rest ≡ r
    → (text_eq a "-ss" && has_next rest) ≡ false
    → text_eq a "-i" ≡ false
    → IsStable y r
    → IsStable y (keep_before a r)
keep-IsStable y a rest r e s i st = (
  (λ h.
      step-keep a (r.0 ++ "-ss" ∷ y ∷ r.1) (ground (arith, found-next rest, e)) i
      ∙ ap (keep_before a) (st.0 h)),
  (λ h. step-keep a r.0 (ground (arith, before-next rest, e)) i ∙ ap (keep_before a) (st.1 h)),
)

clean_until-IsStable :
    (skip : Bool) (args : List String) (y : String) → IsStable y (clean_until skip args)
clean_until-IsStable skip [] y =
    subst (IsStable y) (sym (clean-nil skip)) ((λ h. cc), (λ h. clean-nil false))
clean_until-IsStable true (a ∷ args) y =
    subst (IsStable y) (sym (step-skip a args)) (clean_until-IsStable false args y)
clean_until-IsStable false (a ∷ args) y =
    let rest = clean_until-IsStable true args y in
    let kept = clean_until-IsStable false args y in
    elim (cases a args) [
      | inl (s, n) ↦ subst (IsStable y) (sym (step-drop a args s n)) rest
      | inr (inl i) ↦ subst (IsStable y) (sym (step-input a args i)) (input-IsStable y a args i)
      | inr (inr (s, i)) ↦
          subst (IsStable y) (sym (step-keep a args s i))
            (keep-IsStable y a args (clean_until false args) refl s i kept)
    ]

inject_seek-again :
    (x y : String) (r : List String × List String)
    → IsStable y r
    → inject_seek x (seek_before y r) ≡ seek_before x r
unfolding inject_seek
inject_seek-again x y r st = elim (Bool-cases (has_next r.1)) [
  | inl n ↦ ground (arith, st.0 n)
  | inr n ↦ ground (arith, st.1 n, step-drop "-ss" (y ∷ r.0) refl refl, step-skip y r.0)
]

-- Giving a command line a second offset is as if it had not been given the first.
pub inject_seek-inject_seek :
    (x y : String) (args : List String) → inject_seek x (inject_seek y args) ≡ inject_seek x args
unfolding inject_seek clean_until
inject_seek-inject_seek x y args =
    inject_seek-again x y (clean_until false args) (clean_until-IsStable false args y)
