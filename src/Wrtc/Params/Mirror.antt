-- ===== src/Wrtc/Params/Mirror.antt =====
-- wrtc/jsonparams/decode.go: SynthesizeRemoteOfferSDP, from the parsed offer to the description that
-- is marshalled, and mirrorMediaSectionAsOffer.
pub mod Kept
pub mod Read
pub mod Rejoin
use gotgcall.Wrtc.Params.Candidates.{candidate_to_sdp}
use gotgcall.Wrtc.Params.{Attribute, Candidate, Fingerprint, RemoteParams, Section, Session}
use Prim.Native.String.{String}
use gotgcall.Base.{
  Bool, Bytes, List, [], codes, false, if◌then◌else◌, map, text_eq, ◌%◌, ◌++◌, ◌+◌, ◌^◌, ◌||◌, ◌∷◌,
}

abbrev pub attribute : String → Bytes → Attribute
attribute k v = record { key = k; value = v }

-- sdp.NewPropertyAttribute
abbrev pub property : String → Attribute
property k = record { key = k; value = [] }

abbrev pub any_key : List String → String → Bool
any_key [] k = false
any_key (j ∷ js) k = text_eq k j || any_key js k

-- The attributes whose key is one of those given.
unfoldable pub keep : List String → List Attribute → List Attribute
keep ks [] = []
keep ks (a ∷ attrs) = let rest = keep ks attrs in if any_key ks a.key then a ∷ rest else rest

abbrev pub session_keys : List String
session_keys = "group" ∷ "msid-semantic" ∷ []

abbrev pub transport_keys : List String
transport_keys = "mid" ∷ "rtcp-mux" ∷ "rtcp-rsize" ∷ []

abbrev pub codec_keys : List String
codec_keys = "rtpmap" ∷ "fmtp" ∷ "rtcp-fb" ∷ "extmap" ∷ []

-- The loops over the fingerprints and the candidates.
unfoldable pub print_attributes : List Fingerprint → List Attribute
print_attributes [] = []
print_attributes (fp ∷ fps) =
    attribute "fingerprint" (fp.hash ++ 32 ∷ fp.digest) ∷ print_attributes fps

unfoldable pub candidate_attributes : List Candidate → List Attribute
candidate_attributes [] = []
candidate_attributes (c ∷ cs) = attribute "candidate" (candidate_to_sdp c) ∷ candidate_attributes cs

abbrev pub credential_attributes : RemoteParams → List Attribute
credential_attributes rp =
    attribute "rtcp" (codes "9 IN IP4 0.0.0.0")
    ∷ attribute "ice-ufrag" rp.remote_ufrag
    ∷ attribute "ice-pwd" rp.remote_pwd
    ∷ attribute "ice-options" (codes "trickle")
    ∷ []

-- The attributes of a mirrored section, in the order of the calls of `append`.
unfoldable pub mirror_attributes : List Attribute → RemoteParams → List Attribute
mirror_attributes attrs rp =
    credential_attributes rp
    ++ (print_attributes rp.remote_prints
        ++ (attribute "setup" (codes "actpass")
            ∷ (keep transport_keys attrs
                ++ (property "recvonly"
                    ∷ (keep codec_keys attrs
                        ++ (candidate_attributes rp.candidates
                            ++ property "end-of-candidates" ∷ []))))))

-- mirrorMediaSectionAsOffer
unfoldable pub mirror_section : RemoteParams → Section → Section
unfolding mirror_attributes
mirror_section rp om = record {
  media = om.media;
  section_port = 9;
  protos = om.protos;
  formats = om.formats;
  connection = codes "IN IP4 0.0.0.0";
  attributes = mirror_attributes om.attributes rp;
}

-- SynthesizeRemoteOfferSDP; the version is a uint64.
unfoldable pub synthesize_remote_offer : Session → RemoteParams → Session
unfolding mirror_section keep
synthesize_remote_offer off rp = record {
  username = codes "-";
  session_id = off.session_id;
  session_version = (off.session_version + 1) % 2 ^ 64;
  origin_address = codes "IN IP4 0.0.0.0";
  session_name = codes "-";
  session_attributes = keep session_keys off.session_attributes;
  sections = map (mirror_section rp) off.sections;
}
