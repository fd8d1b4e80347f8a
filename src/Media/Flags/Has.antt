-- ===== src/Media/Flags/Has.antt =====
-- Which flags the arguments have, through the pieces that ensureFFmpegFlags is made of.
use text.Mathlib.Text.{starts_with}
use Prim.Native.String.{String}
use gotgcall.Media.Flags.{
  has, has_pipe, split_input, without_pipe, completed, inject, input_flags, input_inject,
  output_flags, spliced, inject_at, splice_at,
}
use gotgcall.Base.{
  List, [], arith, false, refl, some, subst, sym, ◌&&◌, ◌++◌, ◌||◌, ◌∷◌, ◌≡◌, Option, none, text_eq,
  true, Bool-cases, Option-cases, if◌then◌else◌, inl, inr, text_eq_iff, ℕ, ap, has_some,
}

pub has-append : (xs ys : List String) (f : String) → has (xs ++ ys) f ≡ (has xs f || has ys f)
unfolding has
has-append [] ys f = refl
has-append (x ∷ xs) ys f = ground (arith, has-append xs ys f)

pub has_pipe-append : (xs ys : List String) → has_pipe (xs ++ ys) ≡ (has_pipe xs || has_pipe ys)
unfolding has_pipe
has_pipe-append [] ys = refl
has_pipe-append (x ∷ xs) ys = ground (arith, has_pipe-append xs ys)

no_dash : (a f : String) → a ≡ "pipe:1" → (starts_with a "-" && text_eq a f) ≡ false
no_dash a f p = subst (λ x. (starts_with x "-" && text_eq x f) ≡ false) (sym p) refl

pub has-without_pipe : (args : List String) (f : String) → has (without_pipe args) f ≡ has args f
unfolding has without_pipe
has-without_pipe [] f = refl
has-without_pipe (a ∷ args) f =
    ground (arith, has-without_pipe args f, no_dash a f, text_eq_iff a "pipe:1")

pub split_input-some :
    (args : List String) (r : List String × List String)
    → split_input args ≡ some r
    → r.0 ++ r.1 ≡ args
unfolding split_input
split_input-some [] r p = cc
split_input-some (a ∷ args) r p = elim (Bool-cases (text_eq a "-i")) [
  | inl y ↦ ground arith
  | inr n ↦ elim (Option-cases (split_input args)) [
    | inl none_there ↦ ground arith
    | inr there ↦ ground (arith, split_input-some args there.0 there.1)
  ]
]

input_dash : (a : String) → a ≡ "-i" → starts_with a "-" ≡ true
input_dash a p = subst (λ x. starts_with x "-" ≡ true) (sym p) refl

pub split_input-has : (args : List String) → has args "-i" ≡ has_some (split_input args)
unfolding split_input has
split_input-has [] = refl
split_input-has (a ∷ args) = ground (arith, split_input-has args, input_dash a, text_eq_iff a "-i")

has-splice_at :
    (args : List String) (o : Option (List String × List String)) (f : String)
    → split_input args ≡ o
    → has (splice_at args o) f ≡ (has args f || has (inject_at args o) f)
has-splice_at args none f p = unfold has in ground arith
has-splice_at args (some r) f p = ground (
  arith,
  has-append r.0 (inject args input_flags ++ r.1) f,
  has-append (inject args input_flags) r.1 f,
  ap (λ x. has x f) (split_input-some args r p),
  has-append r.0 r.1 f,
)

pub has-spliced :
    (args : List String) (f : String)
    → has (spliced args) f ≡ (has args f || has (input_inject args) f)
unfolding spliced input_inject
has-spliced args f = has-splice_at args (split_input args) f refl

pub has_nothing : (f : String) → has [] f ≡ false
unfolding has
has_nothing f = refl

no_flag : (f : String) → has ("pipe:1" ∷ []) f ≡ false
unfolding has
no_flag f = refl

pipe_last : has_pipe ("pipe:1" ∷ []) ≡ true
unfolding has_pipe
pipe_last = refl

pub has-completed :
    (args : List String) (track : ℕ) (f : String)
    → has (completed args track) f
      ≡ ((has args f || has (input_inject args) f) || has (inject args (output_flags track)) f)
unfolding completed
has-completed args track f = ground (
  arith,
  has-append (if has_pipe args then without_pipe (spliced args) else spliced args)
      (inject args (output_flags track) ++ "pipe:1" ∷ []) f,
  has-append (inject args (output_flags track)) ("pipe:1" ∷ []) f,
  no_flag f,
  has-without_pipe (spliced args) f,
  has-spliced args f,
)

pub has_pipe-completed : (args : List String) (track : ℕ) → has_pipe (completed args track) ≡ true
unfolding completed
has_pipe-completed args track = ground (
  arith,
  has_pipe-append (if has_pipe args then without_pipe (spliced args) else spliced args)
      (inject args (output_flags track) ++ "pipe:1" ∷ []),
  has_pipe-append (inject args (output_flags track)) ("pipe:1" ∷ []),
  pipe_last,
)
