-- ===== src/Wrtc/Params/Tests.antt =====
-- An offer with audio and video, and a response to it.
use gotgcall.Models.{invalid_params, unsupported_call_mode}
use gotgcall.Wrtc.Params.Exts.{hdr_exts_of, merge_hdr_exts}
use gotgcall.Wrtc.Params.Codecs.{audio_payload_types, find_rtpmap, video_payload_types}
use gotgcall.Wrtc.Stack.{Handshake, connect_stack, good_params, new_stack}
use gotgcall.Wrtc.Ssrc.{stack_ssrcs}
use gotgcall.Wrtc.Params.Remote.{
  Decoded, IsComplete, IsUnsupported, parse_remote, parse_remote-Accepts, parsed_of, remote_ok,
}
use gotgcall.Wrtc.Params.Offer.{from_offer, gather}
use gotgcall.Wrtc.Params.Mirror.Rejoin.{as_passive, from_offer-synthesize}
use gotgcall.Wrtc.Params.Mirror.{attribute, synthesize_remote_offer}
use gotgcall.Wrtc.Params.Candidates.Words.{later_words}
use gotgcall.Wrtc.Params.Candidates.Lines.{HasPlainFields, as_built, build_ice_candidate-line}
use gotgcall.Wrtc.Params.Candidates.{build_ice_candidate, candidate_to_sdp}
use gotgcall.Wrtc.Params.Blob.Announced.{
  Announces, AreDistinct, build_local_params-Announces, rtx_ssrc,
}
use gotgcall.Wrtc.Params.Blob.{build_local_params}
use gotgcall.Wrtc.Params.{Candidate, Fingerprint, RemoteParams, Section, Session}
use gotgcall.Base.{
  Bytes, [], arith, codes, cut, false, is_empty, map, none, pos, refl, some, split, true,
  upper_byte, ◌||◌, ◌↔◌, ◌∷◌, ◌≡◌, atoi, before, bytes_eq, lower_byte, ◌⊎◌,
}

abbrev fingerprint : Fingerprint
fingerprint = record { hash = codes "sha-256"; setup = codes "active"; digest = codes "AA:BB" }

abbrev candidate : Candidate
candidate = record {
  generation = codes "0";
  component = codes "1";
  protocol = codes "udp";
  port = codes "32001";
  ip = codes "91.108.9.1";
  foundation = [];
  priority = codes "2130706431";
  cand_type = codes "host";
  network = codes "1";
  rel_addr = [];
  rel_port = [];
  tcp_type = [];
}

abbrev answer : RemoteParams
answer = record {
  remote_ufrag = codes "u2";
  remote_pwd = codes "p2";
  remote_prints = fingerprint ∷ [];
  candidates = candidate ∷ [];
}

abbrev response : Decoded
response = record { probe = some ([], codes "null"); decoded = some answer }

abbrev audio_section : Section
audio_section = record {
  media = "audio";
  section_port = 9;
  protos = [];
  formats = codes "111" ∷ codes "0" ∷ [];
  connection = [];
  attributes =
      attribute "mid" (codes "0")
      ∷ attribute "ice-ufrag" (codes "u1")
      ∷ attribute "rtpmap" (codes "111 opus/48000/2")
      ∷ attribute "fmtp" (codes "111 minptime=10;useinbandfec=1")
      ∷ attribute "extmap" (codes "1 urn:level")
      ∷ attribute "rtpmap" (codes "0 PCMU/8000")
      ∷ [];
}

abbrev video_section : Section
video_section = record {
  media = "video";
  section_port = 9;
  protos = [];
  formats = codes "100" ∷ [];
  connection = [];
  attributes =
      attribute "mid" (codes "1")
      ∷ attribute "rtpmap" (codes "100 VP8/90000")
      ∷ attribute "rtcp-fb" (codes "100 nack pli")
      ∷ attribute "extmap" (codes "1 urn:level")
      ∷ attribute "extmap" (codes "4/sendonly urn:mid")
      ∷ [];
}

abbrev offer : Session
offer = record {
  username = codes "-";
  session_id = 7;
  session_version = 2;
  origin_address = [];
  session_name = codes "-";
  session_attributes = attribute "group" (codes "BUNDLE 0 1") ∷ [];
  sections = audio_section ∷ video_section ∷ [];
}

-- What FromOfferSDP finds in the offer.
offer_codecs : map (λ p. p.payload_id) (from_offer offer 5 6).payload_types ≡ pos 111 ∷ pos 100 ∷ []
unfolding from_offer gather audio_payload_types atoi find_rtpmap cut bytes_eq split lower_byte
    video_payload_types
offer_codecs = refl

offer_exts : map (λ e. e.ext_id) (from_offer offer 5 6).hdr_exts ≡ pos 1 ∷ pos 4 ∷ []
unfolding from_offer gather merge_hdr_exts hdr_exts_of cut atoi before
offer_exts = refl

from_offer-synthesize_example :
    from_offer (synthesize_remote_offer offer answer) 5 6 ≡ record (from_offer offer 5 6) {
      ufrag = codes "u2";
      pwd = codes "p2";
      fingerprints = as_passive fingerprint ∷ [];
    }
unfolding parse_remote cut bytes_eq
from_offer-synthesize_example =
    from_offer-synthesize response answer fingerprint [] offer audio_section (video_section ∷ []) 5
      6 refl refl refl refl

-- The steps of a handshake that all succeed.
abbrev untried : Handshake
untried = record {
  parsed = good_params;
  delay = none;
  accept = none;
  server = none;
  shake = none;
  keys = none;
}

parse_remote-Accepts_example :
    ((rp : RemoteParams)
      → (parse_remote response ≡ remote_ok rp)
        ↔ (¬ (IsUnsupported response) × (response.decoded ≡ some rp) × IsComplete rp))
    × (let r =
          connect_stack
            (record untried { parsed = parsed_of (parse_remote response) })
            (λ b s. s)
            (new_stack 2) in
        ((rp : RemoteParams) × (parse_remote response ≡ remote_ok rp))
        ⊎ (IsUnsupported response × (r ≡ (new_stack 2, some unsupported_call_mode)))
        ⊎ (¬ (IsUnsupported response) × (r ≡ (new_stack 2, some invalid_params))))
unfolding new_stack
parse_remote-Accepts_example = parse_remote-Accepts response untried (λ b s. s) (new_stack 2) refl

candidate-HasPlainFields : HasPlainFields candidate
unfolding cut
candidate-HasPlainFields = record {
  plain_foundation = refl;
  plain_component = refl;
  plain_protocol = refl;
  plain_priority = refl;
  plain_ip = refl;
  plain_port = refl;
  plain_type = refl;
  plain_addr = refl;
  plain_rel_port = refl;
  plain_generation = refl;
  plain_network = refl;
  plain_tcp = refl;
}

build_ice_candidate-line_example :
    ((build_ice_candidate candidate ≡ none)
      ↔ ((is_empty candidate.ip || is_empty candidate.port) ≡ true))
    × ((line : Bytes)
        → build_ice_candidate candidate ≡ some line
        → (line ≡ candidate_to_sdp (as_built candidate))
          × (split 32 line ≡ (as_built candidate).foundation ∷ later_words (as_built candidate)))
build_ice_candidate-line_example = build_ice_candidate-line candidate candidate-HasPlainFields

-- The line of the candidate without a foundation.
candidate_line :
    build_ice_candidate candidate
    ≡ some (codes "1 1 UDP 2130706431 91.108.9.1 32001 typ host generation 0")
unfolding build_ice_candidate upper_byte
candidate_line = refl

build_local_params-Announces_example :
    let s = stack_ssrcs true 41 in
    let plain = stack_ssrcs false 41 in
    Announces
      (build_local_params (codes "u") (codes "p") (codes "f") s.audio_ssrc s.video_ssrc)
      s.audio_ssrc
      (s.video_ssrc ∷ rtx_ssrc s.video_ssrc ∷ [])
    × AreDistinct (s.audio_ssrc ∷ s.video_ssrc ∷ rtx_ssrc s.video_ssrc ∷ [])
    × Announces
        (build_local_params (codes "u") (codes "p") (codes "f") plain.audio_ssrc plain.video_ssrc)
        plain.audio_ssrc
        []
build_local_params-Announces_example =
    build_local_params-Announces (codes "u") (codes "p") (codes "f") 41 (omega arith) refl
