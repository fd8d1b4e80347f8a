-- ===== src/Wrtc/Params/Mirror/Kept.antt =====
-- Which attributes of a section its mirror image has, by their key.
use gotgcall.Wrtc.Params.Mirror.{
  any_key, candidate_attributes, codec_keys, credential_attributes, keep, mirror_attributes,
  print_attributes, transport_keys,
}
use gotgcall.Wrtc.Params.{Attribute, Candidate, Fingerprint, RemoteParams}
use Prim.Native.String.{String}
use gotgcall.Base.{
  List, [], append-nil, arith, false, refl, text_eq, text_eq_iff, true, ◌++◌, ◌∷◌, ◌≡◌,
}

abbrev pub only : String → List String
only k = k ∷ []

pub keep-append :
    (ks : List String) (xs ys : List Attribute) → keep ks (xs ++ ys) ≡ keep ks xs ++ keep ks ys
unfolding keep
keep-append ks [] ys = refl
keep-append ks (a ∷ xs) ys = ground (arith, keep-append ks xs ys)

pub keep-keep :
    (k : String) (ks : List String) (attrs : List Attribute)
    → any_key ks k ≡ true
    → keep (only k) (keep ks attrs) ≡ keep (only k) attrs
unfolding keep
keep-keep k ks [] h = refl
keep-keep k ks (a ∷ attrs) h = ground (arith, keep-keep k ks attrs h, text_eq_iff a.key k)

pub keep-keep_none :
    (k : String) (ks : List String) (attrs : List Attribute)
    → any_key ks k ≡ false
    → keep (only k) (keep ks attrs) ≡ []
unfolding keep
keep-keep_none k ks [] h = refl
keep-keep_none k ks (a ∷ attrs) h = ground (arith, keep-keep_none k ks attrs h, text_eq_iff a.key k)

keep-print_attributes :
    (k : String) (fps : List Fingerprint)
    → text_eq "fingerprint" k ≡ false
    → keep (only k) (print_attributes fps) ≡ []
unfolding keep print_attributes
keep-print_attributes k [] h = refl
keep-print_attributes k (fp ∷ fps) h = rw h (keep-print_attributes k fps h)

keep-candidate_attributes :
    (k : String) (cs : List Candidate)
    → text_eq "candidate" k ≡ false
    → keep (only k) (candidate_attributes cs) ≡ []
unfolding keep candidate_attributes
keep-candidate_attributes k [] h = refl
keep-candidate_attributes k (c ∷ cs) h = rw h (keep-candidate_attributes k cs h)

-- A key of a codec line is not one that the mirror adds.
pub record IsCodecKey (k : String) : Type 0 where
  pub kept : any_key codec_keys k ≡ true
  pub not_transport : any_key transport_keys k ≡ false
  pub no_credential : (rp : RemoteParams) → keep (only k) (credential_attributes rp) ≡ []
  pub not_print : text_eq "fingerprint" k ≡ false
  pub not_setup : text_eq "setup" k ≡ false
  pub not_direction : text_eq "recvonly" k ≡ false
  pub not_candidate : text_eq "candidate" k ≡ false
  pub not_end : text_eq "end-of-candidates" k ≡ false

pub keep-mirror_attributes :
    (k : String) (attrs : List Attribute) (rp : RemoteParams)
    → IsCodecKey k
    → keep (only k) (mirror_attributes attrs rp) ≡ keep (only k) attrs
unfolding keep mirror_attributes
keep-mirror_attributes k attrs rp h = simp (
  keep-append,
  h.no_credential rp,
  keep-print_attributes k rp.remote_prints h.not_print,
  h.not_setup,
  keep-keep_none k transport_keys attrs h.not_transport,
  h.not_direction,
  keep-keep k codec_keys attrs h.kept,
  keep-candidate_attributes k rp.candidates h.not_candidate,
  h.not_end,
  append-nil,
)
