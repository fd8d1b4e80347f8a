-- ===== src/Media/Flags/Idempotent.antt =====
-- ensureFFmpegFlags on a command line that it has completed before.
use gotgcall.Media.Track.{has_audio, has_video}
use Prim.Native.String.{String}
use gotgcall.Media.Flags.Has.{
  has-append, has_nothing, has-completed, has_pipe-completed, split_input-has,
}
use gotgcall.Media.Flags.{
  Wanted, any_has, has, inject, input_flags, output_flags, audio_flags, completed,
  ensure_ffmpeg_flags, inject_at, input_inject, split_input, video_flags,
}
use gotgcall.Base.{
  List, [], arith, false, if◌then◌else◌, refl, true, ℕ, ◌∷◌, ◌≡◌, Bool-cases, Option, ap, inl, inr,
  none, some, sym, ◌++◌, ◌∙◌, ◌⊎◌, has_some,
}

abbrev Gains : List String → List String → Type 0
Gains xs ys = (f : String) → has xs f ≡ true → has ys f ≡ true

any_has_mono : (xs ys fs : List String) → Gains xs ys → any_has xs fs ≡ true → any_has ys fs ≡ true
any_has_mono xs ys [] g h = h
any_has_mono xs ys (f ∷ fs) g h = ground (arith, g f, any_has_mono xs ys fs g)

-- What an if appends has one of the flags that it looks for, and no `-i`.
abbrev Provides : List Wanted → Type 0
Provides [] = Unit {0}
Provides (w ∷ ws) = (any_has w.injects w.flags ≡ true) × (has w.injects "-i" ≡ false) × Provides ws

inject-Gains :
    (args : List String) (w : Wanted) (ws : List Wanted)
    → any_has args w.flags ≡ false
    → Gains w.injects (inject args (w ∷ ws))
unfolding inject
inject-Gains args w ws n f q = ground (arith, has-append w.injects (inject args ws) f)

inject-keeps :
    (args : List String) (w : Wanted) (ws : List Wanted)
    → Gains (inject args ws) (inject args (w ∷ ws))
unfolding inject
inject-keeps args w ws f q =
    ground (arith, has-append (if any_has args w.flags then [] else w.injects) (inject args ws) f)

wanted-there :
    (args out : List String) (w : Wanted) (ws : List Wanted)
    → any_has w.injects w.flags ≡ true
    → Gains args out
    → Gains (inject args (w ∷ ws)) out
    → any_has out w.flags ≡ true
wanted-there args out w ws p g h = elim (Bool-cases (any_has args w.flags)) [
  | inl y ↦ any_has_mono args out w.flags g y
  | inr n ↦ any_has_mono w.injects out w.flags (λ f q. h f (inject-Gains args w ws n f q)) p
]

-- Once a command line has everything that the ifs would have appended, they append nothing.
inject-done :
    (args out : List String) (ws : List Wanted)
    → Provides ws
    → Gains args out
    → Gains (inject args ws) out
    → inject out ws ≡ []
unfolding inject
inject-done args out [] p g h = refl
inject-done args out (w ∷ ws) p g h =
    ap (λ b. (if b then [] else w.injects) ++ inject out ws) (wanted-there args out w ws p.0 g h)
    ∙ inject-done args out ws p.2 g (λ f q. h f (inject-keeps args w ws f q))

inject-no_input :
    (args : List String) (ws : List Wanted) → Provides ws → has (inject args ws) "-i" ≡ false
unfolding inject
inject-no_input args [] p = unfold has in refl
inject-no_input args (w ∷ ws) p = ground (
  arith,
  has-append (if any_has args w.flags then [] else w.injects) (inject args ws) "-i",
  inject-no_input args ws p.2,
  has_nothing "-i",
)

input_flags-Provides : Provides input_flags
unfolding has
input_flags-Provides = (refl, refl, (refl, refl, (refl, refl, tt)))

audio_flags-Provides : Provides audio_flags
unfolding has
audio_flags-Provides = (
  refl,
  refl,
  (
    refl,
    refl,
    (refl, refl, (refl, refl, (refl, refl, (refl, refl, (refl, refl, (refl, refl, tt)))))),
  ),
)

video_flags-Provides : Provides video_flags
unfolding has
video_flags-Provides = (refl, refl, (refl, refl, tt))

output_flags-Provides : (track : ℕ) → Provides (output_flags track)
unfolding output_flags
output_flags-Provides track =
    elim (has_audio track)
      as (λ b.
        Provides (if b then audio_flags else (if has_video track then video_flags else []))) [
          | true ↦ audio_flags-Provides
          | false ↦ elim (has_video track) as (λ b. Provides (if b then video_flags else [])) [
            | true ↦ video_flags-Provides
            | false ↦ tt
          ]
        ]

completed-args : (args : List String) (track : ℕ) → Gains args (completed args track)
completed-args args track f q = ground (arith, has-completed args track f)

completed-outputs :
    (args : List String) (track : ℕ)
    → Gains (inject args (output_flags track)) (completed args track)
completed-outputs args track f q = ground (arith, has-completed args track f)

completed-inputs :
    (args : List String) (track : ℕ) → Gains (input_inject args) (completed args track)
completed-inputs args track f q = ground (arith, has-completed args track f)

input_inject-no_input : (args : List String) → has (input_inject args) "-i" ≡ false
unfolding input_inject
input_inject-no_input args = elim (split_input args) as (λ o. has (inject_at args o) "-i" ≡ false) [
  | none ↦ has_nothing "-i"
  | some r ↦ inject-no_input args input_flags input_flags-Provides
]

-- Completing keeps whether there is an input.
completed-input :
    (args : List String) (track : ℕ)
    → has_some (split_input (completed args track)) ≡ has_some (split_input args)
completed-input args track =
    sym (split_input-has (completed args track))
    ∙ ground (
      arith,
      has-completed args track "-i",
      input_inject-no_input args,
      inject-no_input args (output_flags track) (output_flags-Provides track),
    )
    ∙ split_input-has args

inject_at-done :
    (args out : List String) (o p : Option (List String × List String))
    → has_some p ≡ has_some o
    → Gains args out
    → Gains (inject_at args o) out
    → inject_at out p ≡ []
inject_at-done args out o none e g h = refl
inject_at-done args out none (some r) e g h = cc
inject_at-done args out (some q) (some r) e g h =
    inject-done args out input_flags input_flags-Provides g h

completed-inject : (args : List String) (track : ℕ) → input_inject (completed args track) ≡ []
unfolding input_inject
completed-inject args track =
    inject_at-done args (completed args track) (split_input args)
      (split_input (completed args track)) (completed-input args track) (completed-args args track)
      (unfold input_inject in completed-inputs args track)

ensure-completed :
    (args : List String) (track : ℕ)
    → ensure_ffmpeg_flags (completed args track) track ≡ completed args track
unfolding ensure_ffmpeg_flags
ensure-completed args track = ground (
  arith,
  completed-inject args track,
  inject-done args (completed args track) (output_flags track) (output_flags-Provides track)
      (completed-args args track) (completed-outputs args track),
  has_pipe-completed args track,
)

ensure-cases :
    (args : List String) (track : ℕ)
    → (ensure_ffmpeg_flags args track ≡ args)
      ⊎ (ensure_ffmpeg_flags args track ≡ completed args track)
unfolding ensure_ffmpeg_flags
ensure-cases args track = ground arith

-- ensureFFmpegFlags changes nothing on a command line that it has completed for the same track.
pub ensure_ffmpeg_flags-ensure_ffmpeg_flags :
    (args : List String) (track : ℕ)
    → ensure_ffmpeg_flags (ensure_ffmpeg_flags args track) track ≡ ensure_ffmpeg_flags args track
ensure_ffmpeg_flags-ensure_ffmpeg_flags args track = elim (ensure-cases args track) [
  | inl same ↦ ap (λ x. ensure_ffmpeg_flags x track) same
  | inr new ↦ ap (λ x. ensure_ffmpeg_flags x track) new ∙ ensure-completed args track ∙ sym new
]
