-- ===== src/Wrtc/Params/Candidates.antt =====
-- The two printers of a candidate: wrtc/jsonparams/decode.go, candidateToSDP, and
-- wrtc/native/remote.go, buildICECandidate up to the line that pion parses.
pub mod Words
pub mod Lines
use gotgcall.Wrtc.Params.{Candidate}
use gotgcall.Base.{
  Bytes, Option, [], codes, if◌then◌else◌, is_empty, none, some, to_upper, ◌++◌, ◌||◌, ◌∷◌,
}

abbrev pub spaced : Bytes → Bytes → Bytes
spaced s rest = s ++ 32 ∷ rest

-- `if s == "" { default } else { s }`
abbrev pub or_else : Bytes → Bytes → Bytes
or_else [] d = d
or_else (b ∷ bs) d = b ∷ bs

abbrev pub host : Bytes
host = codes "host"

-- ` raddr … rport …`, where both are there
unfoldable pub related : Candidate → Bytes
related c =
    if is_empty c.rel_addr || is_empty c.rel_port
    then []
    else codes " raddr " ++ (c.rel_addr ++ (codes " rport " ++ c.rel_port))

-- A label and a field, where the field is there
abbrev pub labelled : Bytes → Bytes → Bytes
labelled label [] = []
labelled label (b ∷ bs) = label ++ b ∷ bs

-- candidateToSDP
unfoldable pub candidate_to_sdp : Candidate → Bytes
unfolding related
candidate_to_sdp c = spaced c.foundation (
    spaced c.component (
      spaced (to_upper c.protocol) (
        spaced c.priority (
          spaced c.ip (
            c.port
            ++ (codes " typ "
                ++ (or_else c.cand_type host
                    ++ (related c
                        ++ (labelled (codes " generation ") c.generation
                            ++ (labelled (codes " network-id ") c.network
                                ++ labelled (codes " tcptype ") c.tcp_type))))))))))

abbrev pub default_priority : Bytes
default_priority = codes "2130706431"

-- The line that buildICECandidate gives to pion
unfoldable pub ice_line : Candidate → Bytes
unfolding related
ice_line c = spaced (or_else c.foundation (codes "1")) (
    spaced (or_else c.component (codes "1")) (
      spaced (or_else (to_upper c.protocol) (codes "UDP")) (
        spaced (or_else c.priority default_priority) (
          spaced c.ip (
            c.port
            ++ (codes " typ "
                ++ (or_else c.cand_type host
                    ++ (related c
                        ++ (labelled (codes " generation ") c.generation
                            ++ labelled (codes " tcptype ") c.tcp_type)))))))))

-- buildICECandidate: none is its own error; what pion makes of the line is not modelled.
unfoldable pub build_ice_candidate : Candidate → Option Bytes
unfolding ice_line
build_ice_candidate c = if is_empty c.ip || is_empty c.port then none else some (ice_line c)

-- The defaults of buildICECandidate, filled in.
abbrev pub filled_in : Candidate → Candidate
filled_in c = record c {
  foundation = or_else c.foundation (codes "1");
  component = or_else c.component (codes "1");
  protocol = or_else c.protocol (codes "udp");
  priority = or_else c.priority default_priority;
}
