-- ===== src/Wrtc/Params/Codecs.antt =====
-- wrtc/jsonparams/encode.go: findRtpmap, parseFmtp, findRtcpFbs, audioPayloadTypes and
-- videoPayloadTypes, which read the codecs of a media section.
use gotgcall.Wrtc.Params.{Attribute, PayloadType, RtcpFb, Section}
use gotgcall.Base.{
  Bool, Bytes, List, Option, [], atoi, bytes_eq, codes, cut, equal_fold, false, if◌then◌else◌,
  is_empty, none, some, split, text_eq, trim_space, ℕ, ℤ, ◌++◌, ◌==◌, ◌∷◌, pos, negsuc,
}

abbrev pub space : ℕ
space = 32

-- strings.SplitN(value, " ", 2), where the first part is `fmt`: the second part.
unfoldable pub value_of : Bytes → Bytes → Option Bytes
value_of fmt value = elim (cut space value) [
  | none ↦ none
  | some parts ↦ if bytes_eq parts.0 fmt then some parts.1 else none
]

-- rtpmapEntry
pub record RtpMap : Type 0 where
  pub name : Bytes
  pub rate : ℤ
  pub map_channels : ℤ

-- The number that a segment holds, 0 where Atoi fails.
abbrev pub number_or_zero : Option ℤ → ℤ
number_or_zero none = pos 0
number_or_zero (some n) = n

-- The entry of the segments of "opus/48000/2".
unfoldable pub entry_of : List Bytes → RtpMap
entry_of [] = record { name = []; rate = pos 0; map_channels = pos 0 }
entry_of (n ∷ []) = record { name = n; rate = pos 0; map_channels = pos 0 }
entry_of (n ∷ r ∷ []) = record { name = n; rate = number_or_zero (atoi r); map_channels = pos 0 }
entry_of (n ∷ r ∷ c ∷ more) = record {
  name = n;
  rate = number_or_zero (atoi r);
  map_channels = number_or_zero (atoi c);
}

-- findRtpmap
unfoldable pub find_rtpmap : Bytes → List Attribute → Option RtpMap
unfolding value_of entry_of
find_rtpmap fmt [] = none
find_rtpmap fmt (a ∷ attrs) =
    let rest = find_rtpmap fmt attrs in
    if text_eq a.key "rtpmap"
    then elim (value_of fmt a.value) [ none ↦ rest | some body ↦ some (entry_of (split b'/' body)) ]
    else rest

-- `out[k] = v`
unfoldable pub put_param : Bytes → Bytes → List (Bytes × Bytes) → List (Bytes × Bytes)
put_param k v [] = (k, v) ∷ []
put_param k v (e ∷ out) =
    let rest = put_param k v out in if bytes_eq e.0 k then (k, v) ∷ out else e ∷ rest

-- The body of the loop over the parameters of a fmtp line.
unfoldable pub add_param : Bytes → List (Bytes × Bytes) → List (Bytes × Bytes)
unfolding put_param
add_param kv out = if is_empty (trim_space kv) then out else elim (cut b'=' (trim_space kv)) [
  | none ↦ put_param (trim_space kv) [] out
  | some c ↦ put_param c.0 c.1 out
]

unfoldable pub add_params : List Bytes → List (Bytes × Bytes) → List (Bytes × Bytes)
unfolding add_param
add_params [] out = out
add_params (kv ∷ kvs) out = add_params kvs (add_param kv out)

-- parseFmtp; the nil map of a format without a line is the empty one.
unfoldable pub parse_fmtp : Bytes → List Attribute → List (Bytes × Bytes)
unfolding value_of add_params
parse_fmtp fmt [] = []
parse_fmtp fmt (a ∷ attrs) =
    let rest = parse_fmtp fmt attrs in
    if text_eq a.key "fmtp"
    then elim (value_of fmt a.value) [ none ↦ rest | some body ↦ add_params (split b';' body) [] ]
    else rest

-- The feedback that a line names.
unfoldable pub fb_of : Bytes → RtcpFb
fb_of body = elim (cut space body) [
  | none ↦ record { fb_type = body; fb_subtype = [] }
  | some c ↦ record { fb_type = c.0; fb_subtype = c.1 }
]

-- findRtcpFbs
unfoldable pub find_rtcp_fbs : Bytes → List Attribute → List RtcpFb
unfolding value_of fb_of
find_rtcp_fbs fmt [] = []
find_rtcp_fbs fmt (a ∷ attrs) =
    let rest = find_rtcp_fbs fmt attrs in
    if text_eq a.key "rtcp-fb"
    then elim (value_of fmt a.value) [ none ↦ rest | some body ↦ fb_of body ∷ rest ]
    else rest

abbrev pub no_channels : ℤ → Bool
no_channels (pos n) = n == 0
no_channels (negsuc n) = false

-- The PayloadType of a format of audioPayloadTypes.
unfoldable pub audio_type : ℤ → Bytes → RtpMap → List Attribute → PayloadType
audio_type id fmt m attrs = record {
  payload_id = id;
  codec = m.name;
  clockrate = m.rate;
  channels = if no_channels m.map_channels then pos 2 else m.map_channels;
  parameters = parse_fmtp fmt attrs;
  rtcp_fbs = find_rtcp_fbs fmt attrs;
}

-- The PayloadType of a format of videoPayloadTypes, which has neither channels nor parameters.
unfoldable pub video_type : ℤ → Bytes → RtpMap → List Attribute → PayloadType
video_type id fmt m attrs = record {
  payload_id = id;
  codec = m.name;
  clockrate = m.rate;
  channels = pos 0;
  parameters = [];
  rtcp_fbs = find_rtcp_fbs fmt attrs;
}

-- The body of the loop over the formats, up to `append`: the two loops differ in the name of the
-- codec and in what they make of it.
unfoldable pub listed :
    Bytes
    → (ℤ → Bytes → RtpMap → List Attribute → PayloadType)
    → List Attribute
    → Bytes
    → List PayloadType
listed wanted make attrs fmt = elim (atoi fmt) [
  | none ↦ []
  | some id ↦ elim (find_rtpmap fmt attrs) [
    | none ↦ []
    | some m ↦ if equal_fold m.name wanted then make id fmt m attrs ∷ [] else []
  ]
]

unfoldable pub all_listed :
    Bytes
    → (ℤ → Bytes → RtpMap → List Attribute → PayloadType)
    → List Attribute
    → List Bytes
    → List PayloadType
unfolding listed
all_listed wanted make attrs [] = []
all_listed wanted make attrs (fmt ∷ fmts) =
    listed wanted make attrs fmt ++ all_listed wanted make attrs fmts

-- audioPayloadTypes
unfoldable pub audio_payload_types : Section → List PayloadType
unfolding all_listed audio_type
audio_payload_types md = all_listed (codes "opus") audio_type md.attributes md.formats

-- videoPayloadTypes
unfoldable pub video_payload_types : Section → List PayloadType
unfolding all_listed video_type
video_payload_types md = all_listed (codes "VP8") video_type md.attributes md.formats
