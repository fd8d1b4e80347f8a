-- ===== src/Wrtc/Params/Mirror/Rejoin.antt =====
-- FromOfferSDP on the offer that SynthesizeRemoteOfferSDP makes.
use gotgcall.Wrtc.Params.Remote.{Decoded, parse_remote, parse_remote-checked, remote_ok}
use gotgcall.Wrtc.Params.Offer.{
  Gather, gather, take_codecs, take_credentials, attr, newer, newer_prints, parse_fingerprint,
  passive, from_offer, session_gather, local_of,
}
use gotgcall.Wrtc.Params.Mirror.Read.{audio_types-mirror, hdr_exts_of-mirror, video_types-mirror}
use gotgcall.Wrtc.Params.Mirror.{
  mirror_section, mirror_attributes, print_attributes, synthesize_remote_offer,
}
use gotgcall.Wrtc.Params.Exts.{hdr_exts_of}
use gotgcall.Wrtc.Params.Codecs.{audio_payload_types, video_payload_types, all_listed}
use gotgcall.Wrtc.Params.{RemoteParams, Section, Fingerprint, Session}
use gotgcall.Base.{
  List, [], arith, map, refl, ◌∷◌, ◌≡◌, Bytes, Option-cases, cut, false, inl, inr, is_empty, none,
  some, ℕ, ◌++◌, ap, ◌∙◌, subst, sym,
}

-- Two states of the loop have the same codecs and extensions.
record SameCodecs (g h : Gather) : Type 0 where
  same_types : g.got_types ≡ h.got_types
  same_exts : g.got_exts ≡ h.got_exts
  same_audio : g.seen_audio ≡ h.seen_audio
  same_video : g.seen_video ≡ h.seen_video

take_credentials-SameCodecs :
    (md md' : Section) {g h : Gather}
    → SameCodecs g h
    → SameCodecs (take_credentials md g) (take_credentials md' h)
unfolding take_credentials
take_credentials-SameCodecs md md' s = record {
  same_types = s.same_types;
  same_exts = s.same_exts;
  same_audio = s.same_audio;
  same_video = s.same_video;
}

audio_payload_types-mirror :
    (rp : RemoteParams) (md : Section)
    → audio_payload_types (mirror_section rp md) ≡ audio_payload_types md
unfolding audio_payload_types all_listed mirror_section
audio_payload_types-mirror rp md = audio_types-mirror md.attributes rp md.formats

video_payload_types-mirror :
    (rp : RemoteParams) (md : Section)
    → video_payload_types (mirror_section rp md) ≡ video_payload_types md
unfolding video_payload_types all_listed mirror_section
video_payload_types-mirror rp md = video_types-mirror md.attributes rp md.formats

section_exts-mirror :
    (rp : RemoteParams) (md : Section)
    → hdr_exts_of (mirror_section rp md).attributes ≡ hdr_exts_of md.attributes
unfolding mirror_section mirror_attributes
section_exts-mirror rp md = hdr_exts_of-mirror md.attributes rp

take_codecs-SameCodecs :
    (rp : RemoteParams) (md : Section) (g h : Gather)
    → SameCodecs g h
    → SameCodecs (take_codecs (mirror_section rp md) g) (take_codecs md h)
unfolding take_codecs mirror_section
take_codecs-SameCodecs rp md g h s = ground (
  arith,
  audio_payload_types-mirror rp md,
  video_payload_types-mirror rp md,
  section_exts-mirror rp md,
)

gather-SameCodecs :
    (rp : RemoteParams) (mds : List Section) (g h : Gather)
    → SameCodecs g h
    → SameCodecs (gather (map (mirror_section rp) mds) g) (gather mds h)
unfolding gather
gather-SameCodecs rp [] g h s = s
gather-SameCodecs rp (md ∷ mds) g h s =
    gather-SameCodecs rp mds
      (take_codecs (mirror_section rp md) (take_credentials (mirror_section rp md) g))
      (take_codecs md (take_credentials md h))
      (take_codecs-SameCodecs rp md (take_credentials (mirror_section rp md) g)
        (take_credentials md h) (take_credentials-SameCodecs (mirror_section rp md) md s))

-- The state of the loop has the credentials and the fingerprint of the response.
record HasRemote (rp : RemoteParams) (fp : Fingerprint) (g : Gather) : Type 0 where
  has_ufrag : g.got_ufrag ≡ rp.remote_ufrag
  has_pwd : g.got_pwd ≡ rp.remote_pwd
  has_print : g.got_prints ≡ fp ∷ []

newer-given : (old new : Bytes) → is_empty new ≡ false → newer old new ≡ new
newer-given old [] h = cc
newer-given old (b ∷ bs) h = refl

newer_prints-given :
    (old : List Fingerprint) (raw : Bytes)
    → is_empty raw ≡ false
    → newer_prints old raw ≡ parse_fingerprint raw passive ∷ []
newer_prints-given old [] h = cc
newer_prints-given old (b ∷ bs) h = refl

is_empty-append : (xs : Bytes) (y : ℕ) (ys : Bytes) → is_empty (xs ++ y ∷ ys) ≡ false
is_empty-append [] y ys = refl
is_empty-append (x ∷ xs) y ys = refl

-- The fingerprint as FromOfferSDP reads it.
abbrev pub as_passive : Fingerprint → Fingerprint
as_passive fp = record { hash = fp.hash; setup = passive; digest = fp.digest }

-- A text without the separator is cut off in front of it.
pub cut-append :
    (sep : ℕ) (xs ys : Bytes) → cut sep xs ≡ none → cut sep (xs ++ sep ∷ ys) ≡ some (xs, ys)
unfolding cut
cut-append sep [] ys h = ground arith
cut-append sep (x ∷ xs) ys h = elim (Option-cases (cut sep xs)) [
  | inl e ↦ ground (arith, cut-append sep xs ys e)
  | inr (c, e) ↦ ground arith
]

parse_fingerprint-printed :
    (fp : Fingerprint)
    → cut 32 fp.hash ≡ none
    → parse_fingerprint (fp.hash ++ 32 ∷ fp.digest) passive ≡ as_passive fp
unfolding parse_fingerprint
parse_fingerprint-printed fp h = ground (arith, cut-append 32 fp.hash fp.digest h)

mirrored-attr :
    (rp : RemoteParams) (fp : Fingerprint) (fps : List Fingerprint) (md : Section)
    → rp.remote_prints ≡ fp ∷ fps
    → (attr (mirror_section rp md).attributes "ice-ufrag" ≡ rp.remote_ufrag)
      × (attr (mirror_section rp md).attributes "ice-pwd" ≡ rp.remote_pwd)
      × (attr (mirror_section rp md).attributes "fingerprint" ≡ fp.hash ++ 32 ∷ fp.digest)
unfolding attr mirror_section print_attributes
mirrored-attr rp fp fps md h = (refl, refl, rw h)

take_codecs-HasRemote :
    (md : Section) (rp : RemoteParams) (fp : Fingerprint) (g : Gather)
    → HasRemote rp fp g
    → HasRemote rp fp (take_codecs md g)
unfolding take_codecs
take_codecs-HasRemote md rp fp g h = ground arith

-- What a response that ParseRemote accepts has, with its first fingerprint.
record IsGiven (rp : RemoteParams) (fp : Fingerprint) (fps : List Fingerprint) : Type 0 where
  given_ufrag : is_empty rp.remote_ufrag ≡ false
  given_pwd : is_empty rp.remote_pwd ≡ false
  given_prints : rp.remote_prints ≡ fp ∷ fps
  one_word : cut 32 fp.hash ≡ none

take_credentials-HasRemote :
    (md : Section) (rp : RemoteParams) (fp : Fingerprint) (fps : List Fingerprint) (g : Gather)
    → IsGiven rp fp fps
    → HasRemote rp (as_passive fp) (take_credentials (mirror_section rp md) g)
unfolding take_credentials attr
take_credentials-HasRemote md rp fp fps g h =
    let a = mirrored-attr rp fp fps md h.given_prints in
    record {
      has_ufrag =
          ap (newer g.got_ufrag) a.0 ∙ newer-given g.got_ufrag rp.remote_ufrag h.given_ufrag;
      has_pwd = ap (newer g.got_pwd) a.1 ∙ newer-given g.got_pwd rp.remote_pwd h.given_pwd;
      has_print =
          ap (newer_prints g.got_prints) a.2
          ∙ newer_prints-given g.got_prints (fp.hash ++ 32 ∷ fp.digest)
              (is_empty-append fp.hash 32 fp.digest)
          ∙ ap (λ f. f ∷ []) (parse_fingerprint-printed fp h.one_word);
    }

gather-HasRemote :
    (mds : List Section) (rp : RemoteParams) (fp : Fingerprint) (fps : List Fingerprint)
    (g : Gather)
    → IsGiven rp fp fps
    → HasRemote rp (as_passive fp) g
    → HasRemote rp (as_passive fp) (gather (map (mirror_section rp) mds) g)
unfolding gather
gather-HasRemote [] rp fp fps g h r = r
gather-HasRemote (md ∷ mds) rp fp fps g h r =
    let g1 = take_credentials (mirror_section rp md) g in
    gather-HasRemote mds rp fp fps (take_codecs (mirror_section rp md) g1) h (
      take_codecs-HasRemote (mirror_section rp md) rp (as_passive fp) g1
        (take_credentials-HasRemote md rp fp fps g h))

parse_remote-IsGiven :
    (d : Decoded) (rp : RemoteParams) (fp : Fingerprint) (fps : List Fingerprint)
    → parse_remote d ≡ remote_ok rp
    → rp.remote_prints ≡ fp ∷ fps
    → cut 32 fp.hash ≡ none
    → IsGiven rp fp fps
parse_remote-IsGiven d rp fp fps h hp hc =
    let checked = parse_remote-checked d rp h in
    record { given_ufrag = checked.0; given_pwd = checked.1; given_prints = hp; one_word = hc }

-- No attribute that the session level keeps is read by FromOfferSDP.
session-SameCodecs :
    (off : Session) (rp : RemoteParams)
    → SameCodecs (session_gather (synthesize_remote_offer off rp)) (session_gather off)
unfolding synthesize_remote_offer session_gather
session-SameCodecs off rp = record {
  same_types = refl;
  same_exts = refl;
  same_audio = refl;
  same_video = refl;
}

gather_first-HasRemote :
    (md : Section) (mds : List Section) (rp : RemoteParams) (fp : Fingerprint)
    (fps : List Fingerprint) (g : Gather)
    → IsGiven rp fp fps
    → HasRemote rp (as_passive fp) (gather (map (mirror_section rp) (md ∷ mds)) g)
unfolding take_codecs mirror_section take_credentials gather
gather_first-HasRemote md mds rp fp fps g h =
    let g1 = take_credentials (mirror_section rp md) g in
    gather-HasRemote mds rp fp fps (take_codecs (mirror_section rp md) g1) h (
      take_codecs-HasRemote (mirror_section rp md) rp (as_passive fp) g1
        (take_credentials-HasRemote md rp fp fps g h))

local_of-eq :
    (g h : Gather) (rp : RemoteParams) (fp : Fingerprint) (audio_ssrc video_ssrc : ℕ)
    → SameCodecs g h
    → HasRemote rp fp g
    → local_of g audio_ssrc video_ssrc ≡ record (local_of h audio_ssrc video_ssrc) {
      ufrag = rp.remote_ufrag;
      pwd = rp.remote_pwd;
      fingerprints = fp ∷ [];
    }
local_of-eq g h rp fp audio_ssrc video_ssrc s r = ground arith

-- FromOfferSDP on the offer that SynthesizeRemoteOfferSDP makes of an offer with a media section and
-- of parameters that ParseRemote accepts, where the name of the hash of the first fingerprint has no
-- space, gives what it gives on the offer itself, the codecs with their parameters and feedback and
-- the header extensions included, with the credentials and the first fingerprint of the response.
pub from_offer-synthesize :
    (d : Decoded) (rp : RemoteParams) (fp : Fingerprint) (fps : List Fingerprint) (off : Session)
    (md : Section) (mds : List Section) (audio_ssrc video_ssrc : ℕ)
    → parse_remote d ≡ remote_ok rp
    → rp.remote_prints ≡ fp ∷ fps
    → cut 32 fp.hash ≡ none
    → off.sections ≡ md ∷ mds
    → from_offer (synthesize_remote_offer off rp) audio_ssrc video_ssrc
      ≡ record (from_offer off audio_ssrc video_ssrc) {
        ufrag = rp.remote_ufrag;
        pwd = rp.remote_pwd;
        fingerprints = as_passive fp ∷ [];
      }
unfolding from_offer synthesize_remote_offer
from_offer-synthesize d rp fp fps off md mds audio_ssrc video_ssrc h hp hc hs =
    let given = parse_remote-IsGiven d rp fp fps h hp hc in
    let g = session_gather (synthesize_remote_offer off rp) in
    let same =
      gather-SameCodecs rp off.sections g (session_gather off) (session-SameCodecs off rp) in
    let first = gather_first-HasRemote md mds rp fp fps g given in
    let remote =
      subst (λ ss. HasRemote rp (as_passive fp) (gather (map (mirror_section rp) ss) g)) (sym hs)
        first in
    local_of-eq (gather (map (mirror_section rp) off.sections) g)
      (gather off.sections (session_gather off)) rp (as_passive fp) audio_ssrc video_ssrc same
      remote
