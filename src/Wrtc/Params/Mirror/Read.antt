-- ===== src/Wrtc/Params/Mirror/Read.antt =====
-- The readers of encode.go see of a section only the attributes of one key, so they read the same
-- from a section and from its mirror image.
use gotgcall.Wrtc.Params.Mirror.Kept.{IsCodecKey, keep-mirror_attributes, only}
use gotgcall.Wrtc.Params.Mirror.{keep, mirror_attributes}
use gotgcall.Wrtc.Params.Exts.{hdr_exts_of}
use gotgcall.Wrtc.Params.Codecs.{
  RtpMap, all_listed, audio_type, find_rtcp_fbs, find_rtpmap, listed, parse_fmtp, video_type,
}
use gotgcall.Wrtc.Params.{Attribute, PayloadType, RemoteParams}
use Prim.Native.String.{String}
use gotgcall.Base.{
  Bytes, List, Option-cases, [], ap, ap₂, arith, atoi, codes, inl, inr, refl, sym, ℤ, ◌++◌, ◌∙◌,
  ◌∷◌, ◌≡◌,
}

find_rtpmap-keep :
    (fmt : Bytes) (attrs : List Attribute)
    → find_rtpmap fmt (keep (only "rtpmap") attrs) ≡ find_rtpmap fmt attrs
unfolding keep find_rtpmap
find_rtpmap-keep fmt [] = refl
find_rtpmap-keep fmt (a ∷ attrs) = ground (arith, find_rtpmap-keep fmt attrs)

parse_fmtp-keep :
    (fmt : Bytes) (attrs : List Attribute)
    → parse_fmtp fmt (keep (only "fmtp") attrs) ≡ parse_fmtp fmt attrs
unfolding keep parse_fmtp
parse_fmtp-keep fmt [] = refl
parse_fmtp-keep fmt (a ∷ attrs) = ground (arith, parse_fmtp-keep fmt attrs)

find_rtcp_fbs-keep :
    (fmt : Bytes) (attrs : List Attribute)
    → find_rtcp_fbs fmt (keep (only "rtcp-fb") attrs) ≡ find_rtcp_fbs fmt attrs
unfolding keep find_rtcp_fbs
find_rtcp_fbs-keep fmt [] = refl
find_rtcp_fbs-keep fmt (a ∷ attrs) = ground (arith, find_rtcp_fbs-keep fmt attrs)

hdr_exts_of-keep :
    (attrs : List Attribute) → hdr_exts_of (keep (only "extmap") attrs) ≡ hdr_exts_of attrs
unfolding keep hdr_exts_of
hdr_exts_of-keep [] = refl
hdr_exts_of-keep (a ∷ attrs) = ground (arith, hdr_exts_of-keep attrs)

-- A reader that sees one key of a codec line reads the mirror image as the section.
read-mirror {ℓ} :
    {A : Type ℓ} (read : List Attribute → A) (k : String)
    → IsCodecKey k
    → ((attrs : List Attribute) → read (keep (only k) attrs) ≡ read attrs)
    → (attrs : List Attribute) (rp : RemoteParams) → read (mirror_attributes attrs rp) ≡ read attrs
read-mirror read k h reads attrs rp =
    sym (reads (mirror_attributes attrs rp))
    ∙ ap read (keep-mirror_attributes k attrs rp h)
    ∙ reads attrs

rtpmap-IsCodecKey : IsCodecKey "rtpmap"
unfolding keep
rtpmap-IsCodecKey = record {
  kept = refl;
  not_transport = refl;
  no_credential = λ rp. refl;
  not_print = refl;
  not_setup = refl;
  not_direction = refl;
  not_candidate = refl;
  not_end = refl;
}

fmtp-IsCodecKey : IsCodecKey "fmtp"
unfolding keep
fmtp-IsCodecKey = record {
  kept = refl;
  not_transport = refl;
  no_credential = λ rp. refl;
  not_print = refl;
  not_setup = refl;
  not_direction = refl;
  not_candidate = refl;
  not_end = refl;
}

rtcp_fb-IsCodecKey : IsCodecKey "rtcp-fb"
unfolding keep
rtcp_fb-IsCodecKey = record {
  kept = refl;
  not_transport = refl;
  no_credential = λ rp. refl;
  not_print = refl;
  not_setup = refl;
  not_direction = refl;
  not_candidate = refl;
  not_end = refl;
}

extmap-IsCodecKey : IsCodecKey "extmap"
unfolding keep
extmap-IsCodecKey = record {
  kept = refl;
  not_transport = refl;
  no_credential = λ rp. refl;
  not_print = refl;
  not_setup = refl;
  not_direction = refl;
  not_candidate = refl;
  not_end = refl;
}

module _ (attrs : List Attribute) (rp : RemoteParams) where
  pub hdr_exts_of-mirror : hdr_exts_of (mirror_attributes attrs rp) ≡ hdr_exts_of attrs
  hdr_exts_of-mirror = read-mirror hdr_exts_of "extmap" extmap-IsCodecKey hdr_exts_of-keep attrs rp

  rtpmap-mirror :
      (fmt : Bytes) → find_rtpmap fmt (mirror_attributes attrs rp) ≡ find_rtpmap fmt attrs
  rtpmap-mirror fmt =
      read-mirror (find_rtpmap fmt) "rtpmap" rtpmap-IsCodecKey (find_rtpmap-keep fmt) attrs rp

  listed-mirror :
      (wanted : Bytes) (make : ℤ → Bytes → RtpMap → List Attribute → PayloadType)
      → ((id : ℤ) (fmt : Bytes) (m : RtpMap)
          → make id fmt m (mirror_attributes attrs rp) ≡ make id fmt m attrs)
      → (fmt : Bytes)
      → listed wanted make (mirror_attributes attrs rp) fmt ≡ listed wanted make attrs fmt
  unfolding listed
  listed-mirror wanted make same fmt = elim (Option-cases (atoi fmt)) [
    | inl bad ↦ ground arith
    | inr (id, good) ↦ elim (Option-cases (find_rtpmap fmt attrs)) [
      | inl unmapped ↦ ground (arith, rtpmap-mirror fmt)
      | inr (m, there) ↦ ground (arith, rtpmap-mirror fmt, same id fmt m)
    ]
  ]

  all_listed-mirror :
      (wanted : Bytes) (make : ℤ → Bytes → RtpMap → List Attribute → PayloadType)
      → ((id : ℤ) (fmt : Bytes) (m : RtpMap)
          → make id fmt m (mirror_attributes attrs rp) ≡ make id fmt m attrs)
      → (fmts : List Bytes)
      → all_listed wanted make (mirror_attributes attrs rp) fmts ≡ all_listed wanted make attrs fmts
  unfolding mirror_attributes all_listed
  all_listed-mirror wanted make same [] = refl
  all_listed-mirror wanted make same (fmt ∷ fmts) =
      ap₂ ◌++◌ (listed-mirror wanted make same fmt) (all_listed-mirror wanted make same fmts)

  fbs-mirror :
      (fmt : Bytes) → find_rtcp_fbs fmt (mirror_attributes attrs rp) ≡ find_rtcp_fbs fmt attrs
  fbs-mirror fmt =
      read-mirror (find_rtcp_fbs fmt) "rtcp-fb" rtcp_fb-IsCodecKey (find_rtcp_fbs-keep fmt) attrs rp

  fmtp-mirror : (fmt : Bytes) → parse_fmtp fmt (mirror_attributes attrs rp) ≡ parse_fmtp fmt attrs
  fmtp-mirror fmt =
      read-mirror (parse_fmtp fmt) "fmtp" fmtp-IsCodecKey (parse_fmtp-keep fmt) attrs rp

  pub audio_types-mirror :
      (fmts : List Bytes)
      → all_listed (codes "opus") audio_type (mirror_attributes attrs rp) fmts
        ≡ all_listed (codes "opus") audio_type attrs fmts
  unfolding audio_type
  audio_types-mirror =
      all_listed-mirror (codes "opus") audio_type (λ id fmt m. cc (fmtp-mirror fmt, fbs-mirror fmt))

  pub video_types-mirror :
      (fmts : List Bytes)
      → all_listed (codes "VP8") video_type (mirror_attributes attrs rp) fmts
        ≡ all_listed (codes "VP8") video_type attrs fmts
  unfolding video_type
  video_types-mirror = all_listed-mirror (codes "VP8") video_type (λ id fmt m. cc (fbs-mirror fmt))
