-- ===== src/Wrtc/Params/Blob/Announced.antt =====
-- What the blob of a call announces of its stack.
use gotgcall.Wrtc.Params.Offer.{fid_groups}
use gotgcall.Wrtc.Ssrc.{stack_ssrcs, allocate_ssrc, stack_ssrcs-distinct}
use gotgcall.Wrtc.Params.Blob.{build_local_params, own_params}
use gotgcall.Wrtc.Params.{LocalParams, SsrcGroup}
use gotgcall.Base.{
  Bytes, List, [], false, is_empty, some, ℕ, ◌%◌, ◌++◌, ◌+◌, ◌<◌, ◌^◌, ◌||◌, ◌∷◌, ◌≡◌, ◌≢◌, Option,
  ap, arith, refl, true, ◌∙◌,
}

-- All the SSRCs of a blob
abbrev pub group_ssrcs : List SsrcGroup → List ℕ
group_ssrcs [] = []
group_ssrcs (g ∷ gs) = g.ssrcs ++ group_ssrcs gs

abbrev pub NotIn : ℕ → List ℕ → Type 0
NotIn n [] = Unit
NotIn n (m ∷ ms) = (n ≢ m) × NotIn n ms

abbrev pub AreDistinct : List ℕ → Type 0
AreDistinct [] = Unit
AreDistinct (n ∷ ns) = NotIn n ns × AreDistinct ns

-- The SSRC that the blob names for the retransmission of video.
abbrev pub rtx_ssrc : ℕ → ℕ
rtx_ssrc video_ssrc = (video_ssrc + 1) % 2 ^ 32

group_ssrcs-video : (v : ℕ) → 0 < v → group_ssrcs (fid_groups v) ≡ v ∷ rtx_ssrc v ∷ []
unfolding fid_groups
group_ssrcs-video v h = ground arith

no_groups : group_ssrcs (fid_groups 0) ≡ []
unfolding fid_groups
no_groups = refl

audio_only-ssrcs :
    (counter : ℕ)
    → (0 < (stack_ssrcs false counter).audio_ssrc) × ((stack_ssrcs false counter).video_ssrc ≡ 0)
unfolding stack_ssrcs allocate_ssrc
audio_only-ssrcs counter = (ground arith, refl)

rtx-distinct :
    (counter : ℕ)
    → counter < 2 ^ 32
    → let s = stack_ssrcs true counter in
      (s.audio_ssrc ≢ rtx_ssrc s.video_ssrc) × (s.video_ssrc ≢ rtx_ssrc s.video_ssrc)
unfolding stack_ssrcs allocate_ssrc
rtx-distinct counter h = (ground arith, ground arith)

-- What it announces where it is built.
abbrev pub Announces : Option LocalParams → ℕ → List ℕ → Type 0
Announces o main more =
    (lp : LocalParams) × (o ≡ some lp) × (lp.ssrc ≡ main) × (group_ssrcs lp.ssrc_groups ≡ more)

build_local_params-built :
    (own_ufrag own_pwd print : Bytes) (a v : ℕ)
    → 0 < a
    → (is_empty own_ufrag || is_empty own_pwd || is_empty print) ≡ false
    → Announces (build_local_params own_ufrag own_pwd print a v) a (group_ssrcs (fid_groups v))
unfolding build_local_params
build_local_params-built own_ufrag own_pwd print a v h k =
    (own_params own_ufrag own_pwd print a v, ground arith, refl, refl)

-- The blob of a stack with video whose credentials and fingerprint are there is built. It announces
-- the SSRC of the audio track, and one group of the SSRC of the video track and the one after it,
-- and these three are distinct, the wrap of the counter included. Without video there is no group.
pub build_local_params-Announces :
    (own_ufrag own_pwd print : Bytes) (counter : ℕ)
    → counter < 2 ^ 32
    → (is_empty own_ufrag || is_empty own_pwd || is_empty print) ≡ false
    → let s = stack_ssrcs true counter in
      let plain = stack_ssrcs false counter in
      Announces
        (build_local_params own_ufrag own_pwd print s.audio_ssrc s.video_ssrc)
        s.audio_ssrc
        (s.video_ssrc ∷ rtx_ssrc s.video_ssrc ∷ [])
      × AreDistinct (s.audio_ssrc ∷ s.video_ssrc ∷ rtx_ssrc s.video_ssrc ∷ [])
      × Announces
          (build_local_params own_ufrag own_pwd print plain.audio_ssrc plain.video_ssrc)
          plain.audio_ssrc
          []
build_local_params-Announces own_ufrag own_pwd print counter h k =
    let s = stack_ssrcs true counter in
    let plain = stack_ssrcs false counter in
    let d = stack_ssrcs-distinct counter h in
    let r = rtx-distinct counter h in
    let b = build_local_params-built own_ufrag own_pwd print s.audio_ssrc s.video_ssrc d.0 k in
    let only_audio = audio_only-ssrcs counter in
    let c =
      build_local_params-built own_ufrag own_pwd print plain.audio_ssrc plain.video_ssrc
        only_audio.0 k in
    (
      (b.0, b.1, b.2, b.3 ∙ group_ssrcs-video s.video_ssrc d.1),
      ((d.2, (r.0, tt)), ((r.1, tt), (tt, tt))),
      (c.0, c.1, c.2, c.3 ∙ ap (λ v. group_ssrcs (fid_groups v)) only_audio.1 ∙ no_groups),
    )
