-- ===== src/Wrtc/Params/Candidates/Words.antt =====
-- The lines of candidates by their words.
use gotgcall.Wrtc.Params.Candidates.{candidate_to_sdp, host, labelled, or_else, related}
use gotgcall.Wrtc.Params.{Candidate}
use gotgcall.Base.{
  Bool-cases, Bytes, List, Option-cases, [], ap, append-nil, append_assoc, arith, codes, cut, false,
  if◌then◌else◌, inl, inr, is_empty, none, refl, split, to_upper, ℕ, ◌++◌, ◌==◌, ◌||◌, ◌∙◌, ◌∷◌,
  ◌≡◌,
}

abbrev pub IsOneWord : Bytes → Type 0
IsOneWord s = cut 32 s ≡ none

-- Each word behind a space
abbrev pub tail_words : List Bytes → Bytes
tail_words [] = []
tail_words (w ∷ ws) = 32 ∷ (w ++ tail_words ws)

tail_words-append : (vs ws : List Bytes) → tail_words (vs ++ ws) ≡ tail_words vs ++ tail_words ws
tail_words-append [] ws = refl
tail_words-append (v ∷ vs) ws = simp (tail_words-append vs ws, append_assoc)

abbrev pub AllWords : List Bytes → Type 0
AllWords [] = Unit
AllWords (w ∷ ws) = IsOneWord w × AllWords ws

pub AllWords-append : (vs ws : List Bytes) → AllWords vs → AllWords ws → AllWords (vs ++ ws)
AllWords-append [] ws a b = b
AllWords-append (v ∷ vs) ws a b = (a.0, AllWords-append vs ws a.1 b)

pub cut-cons : (b : ℕ) (bs : Bytes) → IsOneWord (b ∷ bs) → ((b == 32) ≡ false) × IsOneWord bs
unfolding cut
cut-cons b bs h = elim (Option-cases (cut 32 bs)) [
  | inl e ↦ (ground arith, e)
  | inr (c, e) ↦ absurd (ground arith)
]

split-word : (w : Bytes) → IsOneWord w → split 32 w ≡ w ∷ []
unfolding split
split-word [] h = refl
split-word (b ∷ bs) h = let c = cut-cons b bs h in ground (arith, split-word bs c.1, c)

split-spaced : (w rest : Bytes) → IsOneWord w → split 32 (w ++ 32 ∷ rest) ≡ w ∷ split 32 rest
unfolding split
split-spaced [] rest h = refl
split-spaced (b ∷ bs) rest h =
    let c = cut-cons b bs h in ground (arith, split-spaced bs rest c.1, c)

-- Splitting gives the words back.
pub split-words :
    (w : Bytes) (ws : List Bytes)
    → IsOneWord w
    → AllWords ws
    → split 32 (w ++ tail_words ws) ≡ w ∷ ws
split-words w [] h a = ap (split 32) (append-nil w) ∙ split-word w h
split-words w (v ∷ ws) h a =
    split-spaced w (v ++ tail_words ws) h ∙ ap (λ t. w ∷ t) (split-words v ws a.0 a.1)

-- The words of the optional parts.
abbrev pub related_words : Candidate → List Bytes
related_words c =
    if is_empty c.rel_addr || is_empty c.rel_port
    then []
    else codes "raddr" ∷ c.rel_addr ∷ codes "rport" ∷ c.rel_port ∷ []

abbrev pub labelled_words : Bytes → Bytes → List Bytes
labelled_words label [] = []
labelled_words label (b ∷ bs) = label ∷ (b ∷ bs) ∷ []

abbrev pub optional_words : Candidate → List Bytes
optional_words c =
    related_words c
    ++ (labelled_words (codes "generation") c.generation
        ++ (labelled_words (codes "network-id") c.network
            ++ labelled_words (codes "tcptype") c.tcp_type))

-- The words of a line behind the first one.
abbrev pub later_words : Candidate → List Bytes
later_words c =
    c.component
    ∷ to_upper c.protocol
    ∷ c.priority
    ∷ c.ip
    ∷ c.port
    ∷ codes "typ"
    ∷ or_else c.cand_type host
    ∷ optional_words c

related-words : (c : Candidate) → related c ≡ tail_words (related_words c)
unfolding related
related-words c = elim (Bool-cases (is_empty c.rel_addr || is_empty c.rel_port)) [
  | inl e ↦ rw e
  | inr e ↦ rw (e, append-nil)
]

labelled-generation :
    (s : Bytes)
    → labelled (codes " generation ") s ≡ tail_words (labelled_words (codes "generation") s)
labelled-generation [] = refl
labelled-generation (b ∷ bs) = rw append-nil

labelled-network :
    (s : Bytes)
    → labelled (codes " network-id ") s ≡ tail_words (labelled_words (codes "network-id") s)
labelled-network [] = refl
labelled-network (b ∷ bs) = rw append-nil

labelled-tcp :
    (s : Bytes) → labelled (codes " tcptype ") s ≡ tail_words (labelled_words (codes "tcptype") s)
labelled-tcp [] = refl
labelled-tcp (b ∷ bs) = rw append-nil

optional-words :
    (c : Candidate)
    → related c
        ++ (labelled (codes " generation ") c.generation
            ++ (labelled (codes " network-id ") c.network
                ++ labelled (codes " tcptype ") c.tcp_type))
      ≡ tail_words (optional_words c)
optional-words c = simp (
  tail_words-append,
  related-words c,
  labelled-generation c.generation,
  labelled-network c.network,
  labelled-tcp c.tcp_type,
)

pub candidate_to_sdp-words :
    (c : Candidate) → candidate_to_sdp c ≡ c.foundation ++ tail_words (later_words c)
unfolding candidate_to_sdp
candidate_to_sdp-words c = rw (optional-words c)
