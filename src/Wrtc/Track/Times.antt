-- ===== src/Wrtc/Track/Times.antt =====
-- The extension abs-send-time.
use gotgcall.Wrtc.Track.{Time, abs_send_buf}
use gotgcall.Base.{Bytes, [], arith, ℕ, ◌%◌, ◌*◌, ◌+◌, ◌/◌, ◌<◌, ◌∷◌, ◌≡◌}

-- The number that three bytes stand for, the highest first.
abbrev pub of_three : Bytes → ℕ
of_three (a ∷ b ∷ c ∷ []) = a * 65536 + b * 256 + c
of_three _ = 0

-- The three bytes of abs-send-time stand for the seconds modulo 64 in 18 bits of fraction, rounded
-- down, at every time whose nanoseconds make no whole second.
pub abs_send_buf-IsTime :
    (now : Time)
    → now.nanos < 1000000000
    → (of_three (abs_send_buf now)
        ≡ ((now.seconds * 1000000000 + now.nanos) * 262144 / 1000000000) % 16777216)
      × (of_three (abs_send_buf now) < 64 * 262144)
unfolding abs_send_buf
abs_send_buf-IsTime now k = (omega arith, omega arith)
