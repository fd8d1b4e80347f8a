-- ===== src/Wrtc/Track/Tests.antt =====
-- An audio track and its packets.
use gotgcall.Wrtc.Track.Times.{abs_send_buf-IsTime, of_three}
use gotgcall.Wrtc.Track.Marks.{AllStamped, MarksFirst, track_history-marks}
use gotgcall.Wrtc.Track.{
  Packet, Time, TrackEvent, abs_send_buf, attached_writer, kind_audio, new_track, padding, sample,
  track_history,
}
use gotgcall.Models.{Error, internal}
use gotgcall.Base.{
  List, Option, [], arith, false, if◌then◌else◌, map, none, refl, some, true, ℕ, ◌%◌, ◌*◌, ◌+◌, ◌/◌,
  ◌<◌, ◌==◌, ◌∷◌, ◌≡◌,
}

abbrev packet : ℕ → Packet
packet n = record { marker = true; sequence = n }

abbrev a_time : Time
a_time = record { seconds = 1700000001; nanos = 500000000 }

-- Padding before the writer is there, then a frame of two packets whose second write fails, and one
-- of a single packet.
abbrev some_events : List TrackEvent
some_events =
    padding a_time (packet 1 ∷ [])
    ∷ attached_writer
    ∷ sample a_time (packet 2 ∷ packet 3 ∷ [])
    ∷ sample a_time (packet 4 ∷ [])
    ∷ []

abbrev second_fails : ℕ → Option Error
second_fails n = if n == 1 then some internal else none

track_history-marks_example :
    let t = track_history second_fails some_events (new_track kind_audio 42) in
    MarksFirst t.first_audio t.written × AllStamped (new_track kind_audio 42) t.written
track_history-marks_example = track_history-marks second_fails 42 some_events

sent_markers :
    map
      (λ s. s.packet.marker)
      (track_history second_fails some_events (new_track kind_audio 42)).written
    ≡ true ∷ false ∷ false ∷ []
unfolding track_history new_track
sent_markers = refl

abs_send_buf-IsTime_example :
    (of_three (abs_send_buf a_time)
      ≡ ((a_time.seconds * 1000000000 + a_time.nanos) * 262144 / 1000000000) % 16777216)
    × (of_three (abs_send_buf a_time) < 64 * 262144)
abs_send_buf-IsTime_example = abs_send_buf-IsTime a_time (omega arith)
