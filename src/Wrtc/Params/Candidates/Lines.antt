-- ===== src/Wrtc/Params/Candidates/Lines.antt =====
-- The line that buildICECandidate gives to pion against that of candidateToSDP, and what a reader
-- that splits it at spaces finds.
use gotgcall.Wrtc.Params.Candidates.Words.{
  AllWords, IsOneWord, labelled_words, later_words, related_words, AllWords-append,
  candidate_to_sdp-words, cut-cons, split-words,
}
use gotgcall.Wrtc.Params.Candidates.{
  build_ice_candidate, candidate_to_sdp, default_priority, host, ice_line, or_else, related,
  filled_in,
}
use gotgcall.Wrtc.Params.{Candidate}
use gotgcall.Base.{
  Bool-cases, Bytes, [], ap, arith, codes, cut, inl, inr, is_empty, none, refl, some, split,
  to_upper, true, upper_byte, ℕ, ◌==◌, ◌||◌, ◌↔◌, ◌∙◌, ◌∷◌, ◌≡◌,
}

-- No field of the candidate holds a space.
pub record HasPlainFields (c : Candidate) : Type 0 where
  pub plain_foundation : IsOneWord c.foundation
  pub plain_component : IsOneWord c.component
  pub plain_protocol : IsOneWord c.protocol
  pub plain_priority : IsOneWord c.priority
  pub plain_ip : IsOneWord c.ip
  pub plain_port : IsOneWord c.port
  pub plain_type : IsOneWord c.cand_type
  pub plain_addr : IsOneWord c.rel_addr
  pub plain_rel_port : IsOneWord c.rel_port
  pub plain_generation : IsOneWord c.generation
  pub plain_network : IsOneWord c.network
  pub plain_tcp : IsOneWord c.tcp_type

upper_byte-space : (b : ℕ) → (upper_byte b == 32) ≡ (b == 32)
unfolding upper_byte
upper_byte-space b = ground arith

to_upper-IsOneWord : (s : Bytes) → IsOneWord s → IsOneWord (to_upper s)
unfolding cut
to_upper-IsOneWord [] h = refl
to_upper-IsOneWord (b ∷ bs) h =
    let c = cut-cons b bs h in ground (arith, upper_byte-space b, to_upper-IsOneWord bs c.1, c)

or_else-IsOneWord : (s d : Bytes) → IsOneWord s → IsOneWord d → IsOneWord (or_else s d)
or_else-IsOneWord [] d h k = k
or_else-IsOneWord (b ∷ bs) d h k = h

labelled_words-AllWords :
    (label s : Bytes) → IsOneWord label → IsOneWord s → AllWords (labelled_words label s)
labelled_words-AllWords label [] h k = tt
labelled_words-AllWords label (b ∷ bs) h k = (h, (k, tt))

related_words-AllWords : (c : Candidate) → HasPlainFields c → AllWords (related_words c)
unfolding cut
related_words-AllWords c h = elim (Bool-cases (is_empty c.rel_addr || is_empty c.rel_port)) [
  | inl e ↦ rw e tt
  | inr e ↦ rw e (refl, (h.plain_addr, (refl, (h.plain_rel_port, tt))))
]

later_words-AllWords : (c : Candidate) → HasPlainFields c → AllWords (later_words c)
unfolding cut
later_words-AllWords c h =
    let generation =
      labelled_words-AllWords (codes "generation") c.generation refl h.plain_generation in
    let network = labelled_words-AllWords (codes "network-id") c.network refl h.plain_network in
    let tcp = labelled_words-AllWords (codes "tcptype") c.tcp_type refl h.plain_tcp in
    let optional = AllWords-append (related_words c) _ (related_words-AllWords c h) (
      AllWords-append (labelled_words (codes "generation") c.generation) _ generation
        (AllWords-append (labelled_words (codes "network-id") c.network) _ network tcp)) in
    let default = or_else-IsOneWord c.cand_type host h.plain_type refl in
    let upper = to_upper-IsOneWord c.protocol h.plain_protocol in
    (
      h.plain_component,
      (upper, (h.plain_priority, (h.plain_ip, (h.plain_port, (refl, (default, optional)))))),
    )

-- A candidate whose fields hold no space is printed by candidateToSDP so that splitting the line at
-- the spaces gives its fields back in their order, each optional one behind its label.
pub split-candidate_to_sdp :
    (c : Candidate)
    → HasPlainFields c
    → split 32 (candidate_to_sdp c) ≡ c.foundation ∷ later_words c
split-candidate_to_sdp c h =
    ap (split 32) (candidate_to_sdp-words c)
    ∙ split-words c.foundation (later_words c) h.plain_foundation (later_words-AllWords c h)

-- The candidate of which candidateToSDP prints the line of buildICECandidate.
abbrev pub as_built : Candidate → Candidate
as_built c = record (filled_in c) { network = [] }

upper-default :
    (s : Bytes) → or_else (to_upper s) (codes "UDP") ≡ to_upper (or_else s (codes "udp"))
unfolding upper_byte
upper-default [] = refl
upper-default (b ∷ bs) = refl

ice_line-eq : (c : Candidate) → ice_line c ≡ candidate_to_sdp (as_built c)
unfolding ice_line candidate_to_sdp related
ice_line-eq c = rw (upper-default c.protocol)

as_built-HasPlainFields : (c : Candidate) → HasPlainFields c → HasPlainFields (as_built c)
unfolding cut
as_built-HasPlainFields c h = record {
  plain_foundation = or_else-IsOneWord c.foundation (codes "1") h.plain_foundation refl;
  plain_component = or_else-IsOneWord c.component (codes "1") h.plain_component refl;
  plain_protocol = or_else-IsOneWord c.protocol (codes "udp") h.plain_protocol refl;
  plain_priority = or_else-IsOneWord c.priority default_priority h.plain_priority refl;
  plain_ip = h.plain_ip;
  plain_port = h.plain_port;
  plain_type = h.plain_type;
  plain_addr = h.plain_addr;
  plain_rel_port = h.plain_rel_port;
  plain_generation = h.plain_generation;
  plain_network = refl;
  plain_tcp = h.plain_tcp;
}

-- buildICECandidate fails just where the address or the port is missing. Otherwise, where no field
-- holds a space, the line that it gives to pion is the one that candidateToSDP prints of the
-- candidate with the defaults filled in and no network, and splitting it at the spaces gives the
-- fields back.
pub build_ice_candidate-line :
    (c : Candidate)
    → HasPlainFields c
    → ((build_ice_candidate c ≡ none) ↔ ((is_empty c.ip || is_empty c.port) ≡ true))
      × ((line : Bytes)
          → build_ice_candidate c ≡ some line
          → (line ≡ candidate_to_sdp (as_built c))
            × (split 32 line ≡ (as_built c).foundation ∷ later_words (as_built c)))
unfolding build_ice_candidate
build_ice_candidate-line c h = elim (Bool-cases (is_empty c.ip || is_empty c.port)) [
  | inl e ↦ (ground arith, λ line q. absurd (ground arith))
  | inr e ↦ (
    ground arith,
    λ line q.
        let same : line ≡ candidate_to_sdp (as_built c) = ground (arith, ice_line-eq c) in
        (
          same,
          ap (split 32) same ∙ split-candidate_to_sdp (as_built c) (as_built-HasPlainFields c h),
        ),
  )
]
