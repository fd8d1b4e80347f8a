-- ===== src/Wrtc/Track.antt =====
-- wrtc/native/track.go: the tracks, which stamp RTP packets and hand them to their writer. The
-- packets that the packetizer makes of a sample, or as padding, are arguments, and so are the time
-- and what the writer returns; `written` is the history of the packets that it was given.
pub mod Marks
pub mod Times
mod Tests
use gotgcall.Wrtc.Params.Blob.{abs_send_time_id, audio_level_id, sdes_mid_id}
use gotgcall.Models.{Error}
use gotgcall.Base.{
  Bool, Bytes, List, Option, [], codes, false, if◌then◌else◌, length, none, not, some, true, ℕ, ◌%◌,
  ◌&&◌, ◌*◌, ◌++◌, ◌+◌, ◌/◌, ◌^◌, ◌∷◌,
}

-- Kind
pub data TrackKind : Type 0 where
  kind_audio kind_video : TrackKind

-- What the model looks at of an rtp.Packet: its marker bit, and its sequence number as its name.
pub record Packet : Type 0 where
  pub marker : Bool
  pub sequence : ℕ

-- A packet as it was given to the writer, with the calls of SetExtension that were made on its
-- cleared header, and the SSRC and the payload type that the packetizer was built with.
pub record Sent : Type 0 where
  pub packet : Packet
  pub stamps : List (ℕ × Bytes)
  pub sent_ssrc : ℕ
  pub sent_pt : ℕ

pub record Track : Type 0 where
  pub kind : TrackKind
  pub track_ssrc : ℕ
  pub pt : ℕ
  pub clock_rate : ℕ
  pub mid : Bytes
  pub has_writer : Bool
  pub first_audio : Bool
  pub written : List Sent

-- NewTrack
unfoldable pub new_track : TrackKind → ℕ → Track
new_track kind_audio ssrc = record {
  kind = kind_audio;
  track_ssrc = ssrc;
  pt = 111;
  clock_rate = 48000;
  mid = codes "0";
  has_writer = false;
  first_audio = true;
  written = [];
}
new_track kind_video ssrc = record {
  kind = kind_video;
  track_ssrc = ssrc;
  pt = 100;
  clock_rate = 90000;
  mid = codes "1";
  has_writer = false;
  first_audio = false;
  written = [];
}

-- AttachWriteStream
unfoldable pub attach_writer : Track → Track
attach_writer t = record t { has_writer = true }

-- A time as Unix seconds, a uint64, and the nanoseconds since.
pub record Time : Type 0 where
  pub seconds : ℕ
  pub nanos : ℕ

-- `abs`: the two operands of `|` share no bit, since there are fewer than 10^9 nanoseconds.
unfoldable pub abs_send_time : Time → ℕ
abs_send_time now = ((now.seconds * 2 ^ 18) % 2 ^ 64 + now.nanos * 2 ^ 18 / 1000000000) % 2 ^ 24

-- absSendBuf
unfoldable pub abs_send_buf : Time → Bytes
unfolding abs_send_time
abs_send_buf now =
    let abs = abs_send_time now in (abs / 2 ^ 16) % 256 ∷ (abs / 2 ^ 8) % 256 ∷ abs % 256 ∷ []

-- The voice-activity bit and the level: audioLevelConstBuf
abbrev pub audio_level : Bytes
audio_level = (128 + 20) ∷ []

abbrev pub audio_stamps : TrackKind → List (ℕ × Bytes)
audio_stamps kind_audio = (audio_level_id, audio_level) ∷ []
audio_stamps kind_video = []

-- The extensions of stampExtensions
unfoldable pub stamps_of : Track → Bytes → List (ℕ × Bytes)
stamps_of t abs = audio_stamps t.kind ++ (abs_send_time_id, abs) ∷ (sdes_mid_id, t.mid) ∷ []

-- The marker bit that stampExtensions sets, for the first packet of a frame or another one.
abbrev pub marked : TrackKind → Bool → Bool → Packet → Packet
marked kind_audio first_of_frame first p = record p { marker = first_of_frame && first }
marked kind_video first_of_frame first p = p

-- `CompareAndSwap(true, false)`, which is tried for the first packet of an audio frame.
abbrev pub first_left : TrackKind → Bool → Bool → Bool
first_left kind_audio first_of_frame first = not first_of_frame && first
first_left kind_video first_of_frame first = first

-- stampExtensions, and the packet on its way to the writer.
unfoldable pub send : Bytes → Bool → Packet → Track → Track
unfolding stamps_of
send abs first_of_frame p t = record t {
  first_audio = first_left t.kind first_of_frame t.first_audio;
  written =
      t.written
      ++ record {
        packet = marked t.kind first_of_frame t.first_audio p;
        stamps = stamps_of t abs;
        sent_ssrc = t.track_ssrc;
        sent_pt = t.pt;
      }
        ∷ [];
}

-- What happens to a track.
pub data TrackEvent : Type 0 where
  attached_writer : TrackEvent
  sample : Time → List Packet → TrackEvent
  padding : Time → List Packet → TrackEvent

module _ (fails : ℕ → Option Error) where
  -- The loop of writePackets. `fails n` is what the writer returns for its packet number n.
  unfoldable pub write_loop : Bytes → Bool → List Packet → Track → Track × Option Error
  unfolding send
  write_loop abs first_of_frame [] t = (t, none)
  write_loop abs first_of_frame (p ∷ ps) t = elim (fails (length t.written)) [
    | some e ↦ (send abs first_of_frame p t, some e)
    | none ↦ write_loop abs false ps (send abs first_of_frame p t)
  ]

  -- writePackets, which WriteSample and GeneratePadding call where there are packets.
  unfoldable pub write_packets : Time → List Packet → Track → Track × Option Error
  unfolding write_loop abs_send_buf
  write_packets now ps t =
      if t.has_writer then write_loop (abs_send_buf now) true ps t else (t, none)

  -- WriteSample and GeneratePadding
  unfoldable pub write_some : Time → List Packet → Track → Track × Option Error
  unfolding write_packets
  write_some now [] t = (t, none)
  write_some now (p ∷ ps) t = write_packets now (p ∷ ps) t

  unfoldable pub track_event : TrackEvent → Track → Track
  unfolding write_some attach_writer
  track_event attached_writer t = attach_writer t
  track_event (sample now ps) t = (write_some now ps t).0
  track_event (padding now ps) t = (write_some now ps t).0

  unfoldable pub track_history : List TrackEvent → Track → Track
  unfolding track_event
  track_history [] t = t
  track_history (e ∷ es) t = track_history es (track_event e t)
