-- ===== src/Media/Frames.antt =====
-- media/frame_reader.go: the frames of an Ogg stream with Opus, and of an IVF stream with VP8. The
-- pages and the frames come from pion's readers.
use gotgcall.Base.{
  Bool, List, Option, [], arith, false, if◌then◌else◌, length, map, none, refl, some, suc, true,
  zero, ℕ, ◌*◌, ◌/◌, ◌==◌, ◌∷◌, ◌≡◌,
}

-- What a payload begins with.
pub data PageKind : Type 0 where
  opus_head opus_tags audio_page : PageKind

pub record Page : Type 0 where
  pub kind : PageKind
  pub payload : ℕ

-- opusFrameReader
pub record OpusReader : Type 0 where
  pub skipped_header : Bool
  pub skipped_tags : Bool

abbrev pub new_opus_reader : OpusReader
new_opus_reader = record { skipped_header = false; skipped_tags = false }

-- One page in Next: the reader afterwards, and whether the page is skipped.
abbrev pub opus_page : PageKind → OpusReader → OpusReader × Bool
opus_page opus_head o =
    if o.skipped_header
    then (record { skipped_header = true; skipped_tags = true }, false)
    else (record o { skipped_header = true }, true)
opus_page opus_tags o =
    if o.skipped_tags
    then (record { skipped_header = true; skipped_tags = true }, false)
    else (record o { skipped_tags = true }, true)
opus_page audio_page o = (record { skipped_header = true; skipped_tags = true }, false)

-- opusFrameReader.Next on the pages that are left: the payload, none at the end of the stream.
pub record NextFrame : Type 0 where
  pub payload : Option ℕ
  pub left : List Page
  pub reader : OpusReader

unfoldable pub next_opus : List Page → OpusReader → NextFrame
next_opus [] o = record { payload = none; left = []; reader = o }
next_opus (p ∷ ps) o =
    let (o', skip) = opus_page p.kind o in
    let rest = next_opus ps o' in
    if skip then rest else record { payload = some p.payload; left = ps; reader = o' }

abbrev pub opus_duration : ℕ
opus_duration = 20 * 1000000

-- Every sample until the end, by calls of Next.
unfoldable pub opus_payloads : ℕ → List Page → OpusReader → List ℕ
opus_payloads zero ps o = []
opus_payloads (suc fuel) ps o =
    let n = next_opus ps o in
    elim n.payload [ none ↦ [] | some b ↦ b ∷ opus_payloads fuel n.left n.reader ]

-- The duration of a frame of newVP8FrameReader; an fps of 0 or less is 30.
unfoldable pub vp8_duration : ℕ → ℕ
vp8_duration fps = 1000000000 / (if fps == 0 then 30 else fps)

past_headers :
    (ps : List Page)
    → opus_payloads (suc (length ps)) ps (record { skipped_header = true; skipped_tags = true })
      ≡ map (λ p. p.payload) ps
unfolding opus_payloads next_opus
past_headers [] = refl
past_headers (p ∷ ps) = ground (arith, past_headers ps)

-- An Opus stream with its two header pages yields one sample for each page behind them, in order,
-- also where such a page looks like a header.
pub opus_payloads-headed :
    (head tags : ℕ) (ps : List Page)
    → opus_payloads
        (suc (length ps))
        (record { kind = opus_head; payload = head }
          ∷ record { kind = opus_tags; payload = tags }
          ∷ ps)
        new_opus_reader
      ≡ map (λ p. p.payload) ps
unfolding opus_payloads next_opus
opus_payloads-headed head tags [] = refl
opus_payloads-headed head tags (p ∷ ps) = ground (arith, past_headers (p ∷ ps))
