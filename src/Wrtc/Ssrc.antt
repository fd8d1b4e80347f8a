-- ===== src/Wrtc/Ssrc.antt =====
-- wrtc/native/factory.go: the allocation of SSRCs, with the atomic uint32 counter as state. The loop
-- of allocateSSRC runs on fuel, and 2 rounds are always enough when nobody else allocates.
use gotgcall.Base.{
  Bool, Option, arith, if◌then◌else◌, none, some, suc, true, zero, ℕ, ◌%◌, ◌+◌, ◌<◌, ◌==◌, ◌^◌, ◌≡◌,
  ◌≢◌,
}

-- allocateSSRC: the SSRC, which is the counter afterwards too.
unfoldable pub allocate_within : ℕ → ℕ → Option ℕ
allocate_within zero counter = none
allocate_within (suc fuel) counter =
    let v = (counter + 1) % 2 ^ 32 in
    let again = allocate_within fuel v in if v == 0 then again else some v

-- What `allocate_within` finds.
unfoldable pub allocate_ssrc : ℕ → ℕ
allocate_ssrc counter = if (counter + 1) % 2 ^ 32 == 0 then 1 else (counter + 1) % 2 ^ 32

-- The SSRCs of a stack, and the counter afterwards.
pub record StackSsrcs : Type 0 where
  pub audio_ssrc : ℕ
  pub video_ssrc : ℕ
  pub counter : ℕ

-- NewStack's share of the allocation; 0 stands for no video.
unfoldable pub stack_ssrcs : Bool → ℕ → StackSsrcs
unfolding allocate_ssrc
stack_ssrcs with_video counter =
    let a = allocate_ssrc counter in
    let v = allocate_ssrc a in
    if with_video
    then record { audio_ssrc = a; video_ssrc = v; counter = allocate_ssrc v }
    else record { audio_ssrc = a; video_ssrc = 0; counter = a }

-- The loop of allocateSSRC ends within 2 rounds, with an SSRC that is not 0 and fits 32 bits.
pub allocate_within-allocate_ssrc :
    (counter fuel : ℕ)
    → counter < 2 ^ 32
    → (allocate_within (2 + fuel) counter ≡ some (allocate_ssrc counter))
      × (0 < allocate_ssrc counter)
      × (allocate_ssrc counter < 2 ^ 32)
unfolding allocate_within allocate_ssrc
allocate_within-allocate_ssrc counter fuel h = (ground arith, ground arith, ground arith)

allocate_ssrc-lt : (c : ℕ) → (0 < allocate_ssrc c) × (allocate_ssrc c < 2 ^ 32)
unfolding allocate_ssrc
allocate_ssrc-lt c = (ground arith, ground arith)

-- The SSRCs of a stack with video, and the audio SSRC of the stack after it, are not 0, are all
-- different, and the next audio SSRC is not the one after the video SSRC, which its rtx stream uses.
pub stack_ssrcs-distinct :
    (counter : ℕ)
    → counter < 2 ^ 32
    → let s = stack_ssrcs true counter in
      let next = (stack_ssrcs true s.counter).audio_ssrc in
      (0 < s.audio_ssrc)
      × (0 < s.video_ssrc)
      × (s.audio_ssrc ≢ s.video_ssrc)
      × (next ≢ s.audio_ssrc)
      × (next ≢ s.video_ssrc)
      × (next ≢ (s.video_ssrc + 1) % 2 ^ 32)
unfolding stack_ssrcs
stack_ssrcs-distinct counter h =
    (ground arith, ground arith, ground arith, ground arith, ground arith, ground arith)
