-- ===== src/Wrtc/Params/Offer.antt =====
-- wrtc/jsonparams/encode.go: FromOfferSDP from the parsed offer on, to the value that is given to
-- json.Marshal.
use gotgcall.Wrtc.Params.Exts.{hdr_exts_of, merge_hdr_exts}
use gotgcall.Wrtc.Params.Codecs.{audio_payload_types, video_payload_types}
use gotgcall.Wrtc.Params.{
  Attribute, Fingerprint, HdrExt, LocalParams, PayloadType, Section, Session, SsrcGroup,
}
use Prim.Native.String.{String}
use gotgcall.Base.{
  Bool, Bytes, List, [], codes, cut, false, if◌then◌else◌, is_empty, none, some, text_eq, true, ℕ,
  ◌%◌, ◌++◌, ◌+◌, ◌==◌, ◌^◌, ◌∷◌,
}

-- sessionAttr and mediaAttr: the value of the first attribute with a key.
unfoldable pub attr : List Attribute → String → Bytes
attr [] k = []
attr (a ∷ attrs) k = let rest = attr attrs k in if text_eq a.key k then a.value else rest

abbrev pub passive : Bytes
passive = codes "passive"

-- parseFingerprint
unfoldable pub parse_fingerprint : Bytes → Bytes → Fingerprint
parse_fingerprint raw setup =
    let role = if is_empty setup then passive else setup in
    elim (cut 32 raw) [
      | none ↦ record { hash = []; setup = role; digest = raw }
      | some c ↦ record { hash = c.0; setup = role; digest = c.1 }
    ]

-- The variables of the loop over the media sections.
pub record Gather : Type 0 where
  pub got_ufrag : Bytes
  pub got_pwd : Bytes
  pub got_prints : List Fingerprint
  pub got_types : List PayloadType
  pub got_exts : List HdrExt
  pub seen_audio : Bool
  pub seen_video : Bool

-- `if new != "" { old = new }`
abbrev pub newer : Bytes → Bytes → Bytes
newer old [] = old
newer old (b ∷ bs) = b ∷ bs

abbrev pub newer_prints : List Fingerprint → Bytes → List Fingerprint
newer_prints old [] = old
newer_prints old (b ∷ bs) = parse_fingerprint (b ∷ bs) passive ∷ []

-- The credentials and the fingerprint of a section.
unfoldable pub take_credentials : Section → Gather → Gather
unfolding attr parse_fingerprint
take_credentials md g = record g {
  got_ufrag = newer g.got_ufrag (attr md.attributes "ice-ufrag");
  got_pwd = newer g.got_pwd (attr md.attributes "ice-pwd");
  got_prints = newer_prints g.got_prints (attr md.attributes "fingerprint");
}

-- The `switch` on the kind of the section.
unfoldable pub take_codecs : Section → Gather → Gather
take_codecs md g =
    if text_eq md.media "audio"
    then (if g.seen_audio then g else record g {
      seen_audio = true;
      got_types = g.got_types ++ audio_payload_types md;
      got_exts = g.got_exts ++ hdr_exts_of md.attributes;
    })
    else if text_eq md.media "video"
    then (if g.seen_video then g else record g {
      seen_video = true;
      got_types = g.got_types ++ video_payload_types md;
      got_exts = merge_hdr_exts g.got_exts (hdr_exts_of md.attributes);
    })
    else g

unfoldable pub gather : List Section → Gather → Gather
unfolding take_credentials take_codecs
gather [] g = g
gather (md ∷ mds) g = gather mds (take_codecs md (take_credentials md g))

-- What the session level gives.
unfoldable pub session_gather : Session → Gather
unfolding attr parse_fingerprint
session_gather s = record {
  got_ufrag = attr s.session_attributes "ice-ufrag";
  got_pwd = attr s.session_attributes "ice-pwd";
  got_prints = newer_prints [] (attr s.session_attributes "fingerprint");
  got_types = [];
  got_exts = [];
  seen_audio = false;
  seen_video = false;
}

-- The FID group of a uint32 SSRC, 0 for no video.
unfoldable pub fid_groups : ℕ → List SsrcGroup
fid_groups video_ssrc =
    if video_ssrc == 0
    then []
    else record { semantics = codes "FID"; ssrcs = video_ssrc ∷ ((video_ssrc + 1) % 2 ^ 32) ∷ [] }
      ∷ []

abbrev pub local_of : Gather → ℕ → ℕ → LocalParams
local_of g audio_ssrc video_ssrc = record {
  ufrag = g.got_ufrag;
  pwd = g.got_pwd;
  fingerprints = g.got_prints;
  ssrc_groups = fid_groups video_ssrc;
  payload_types = g.got_types;
  hdr_exts = g.got_exts;
  ssrc = audio_ssrc;
}

-- FromOfferSDP
unfoldable pub from_offer : Session → ℕ → ℕ → LocalParams
unfolding gather session_gather fid_groups
from_offer s audio_ssrc video_ssrc =
    local_of (gather s.sections (session_gather s)) audio_ssrc video_ssrc
