-- ===== src/Wrtc/Params/Blob.antt =====
-- wrtc/native/signaling.go: buildLocalParamsJSON up to json.Marshal, which cannot fail on it. The
-- constants of the package models are 111, 48000 and 2 for Opus, and 100 for VP8.
pub mod Announced
use gotgcall.Wrtc.Params.Offer.{fid_groups}
use gotgcall.Wrtc.Params.{HdrExt, LocalParams, PayloadType, RtcpFb}
use gotgcall.Base.{
  Bytes, List, Option, [], codes, if◌then◌else◌, is_empty, none, pos, some, ℕ, ◌==◌, ◌||◌, ◌∷◌,
}

abbrev pub ext : ℕ → Bytes → HdrExt
ext id u = record { ext_id = pos id; uri = u }

abbrev pub fb : Bytes → Bytes → RtcpFb
fb t s = record { fb_type = t; fb_subtype = s }

abbrev pub opus_type : PayloadType
opus_type = record {
  payload_id = pos 111;
  codec = codes "opus";
  clockrate = pos 48000;
  channels = pos 2;
  parameters =
      (codes "minptime", codes "10")
      ∷ (codes "useinbandfec", codes "1")
      ∷ (codes "stereo", codes "1")
      ∷ (codes "sprop-stereo", codes "1")
      ∷ (codes "maxaveragebitrate", codes "510000")
      ∷ [];
  rtcp_fbs = fb (codes "transport-cc") [] ∷ [];
}

abbrev pub vp8_type : PayloadType
vp8_type = record {
  payload_id = pos 100;
  codec = codes "VP8";
  clockrate = pos 90000;
  channels = pos 0;
  parameters = [];
  rtcp_fbs =
      fb (codes "goog-remb") []
      ∷ fb (codes "transport-cc") []
      ∷ fb (codes "ccm") (codes "fir")
      ∷ fb (codes "nack") []
      ∷ fb (codes "nack") (codes "pli")
      ∷ [];
}

abbrev pub audio_level_id : ℕ
audio_level_id = 1

abbrev pub abs_send_time_id : ℕ
abs_send_time_id = 2

abbrev pub sdes_mid_id : ℕ
sdes_mid_id = 4

abbrev pub own_exts : List HdrExt
own_exts =
    ext audio_level_id (codes "urn:ietf:params:rtp-hdrext:ssrc-audio-level")
    ∷ ext abs_send_time_id (codes "http://www.webrtc.org/experiments/rtp-hdrext/abs-send-time")
    ∷ ext 3 (codes "http://www.ietf.org/id/draft-holmer-rmcat-transport-wide-cc-extensions-01")
    ∷ ext sdes_mid_id (codes "urn:ietf:params:rtp-hdrext:sdes:mid")
    ∷ ext 5 (codes "urn:3gpp:video-orientation")
    ∷ []

-- The LocalParams that it marshals.
abbrev pub own_params : Bytes → Bytes → Bytes → ℕ → ℕ → LocalParams
own_params own_ufrag own_pwd print audio_ssrc video_ssrc = record {
  ufrag = own_ufrag;
  pwd = own_pwd;
  fingerprints = record { hash = codes "sha-256"; setup = codes "passive"; digest = print } ∷ [];
  ssrc_groups = fid_groups video_ssrc;
  payload_types = opus_type ∷ vp8_type ∷ [];
  hdr_exts = own_exts;
  ssrc = audio_ssrc;
}

-- buildLocalParamsJSON; none is its error.
unfoldable pub build_local_params : Bytes → Bytes → Bytes → ℕ → ℕ → Option LocalParams
build_local_params own_ufrag own_pwd print audio_ssrc video_ssrc =
    if is_empty own_ufrag || is_empty own_pwd || is_empty print
    then none
    else if audio_ssrc == 0
    then none
    else some (own_params own_ufrag own_pwd print audio_ssrc video_ssrc)
