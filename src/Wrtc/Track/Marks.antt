-- ===== src/Wrtc/Track/Marks.antt =====
-- What an audio track gives to its writer.
use gotgcall.Wrtc.Track.{
  Packet, Sent, Time, Track, TrackKind, abs_send_buf, kind_audio, new_track, send, stamps_of,
  write_loop, first_left, marked, TrackEvent, attach_writer, attached_writer, padding, sample,
  track_event, track_history, write_packets, write_some,
}
use gotgcall.Models.{Error}
use gotgcall.Base.{
  Bool, List, Option, Option-cases, [], arith, false, inl, inr, length, not, true, ℕ, ◌&&◌, ◌++◌,
  ◌∷◌, ◌≡◌, Bytes, ap, subst, sym, refl, if-either,
}

-- The packets after the first one carry no marker.
abbrev pub AllUnmarked : List Sent → Type 0
AllUnmarked [] = Unit
AllUnmarked (s ∷ ss) = (s.packet.marker ≡ false) × AllUnmarked ss

-- The first packet carries the marker, and no later one does.
abbrev pub MarksFirst : Bool → List Sent → Type 0
MarksFirst first [] = first ≡ true
MarksFirst first (s ∷ ss) = (first ≡ false) × (s.packet.marker ≡ true) × AllUnmarked ss

-- A packet has the SSRC and the payload type of the track, and the extensions that Telegram wants,
-- with an abs-send-time of three bytes.
abbrev pub IsStamped : Track → Sent → Type 0
IsStamped t s =
    (s.sent_ssrc ≡ t.track_ssrc)
    × (s.sent_pt ≡ t.pt)
    × ((now : Time) × (s.stamps ≡ stamps_of t (abs_send_buf now)))

abbrev pub AllStamped : Track → List Sent → Type 0
AllStamped t [] = Unit
AllStamped t (s ∷ ss) = IsStamped t s × AllStamped t ss

-- The constants of a track
pub record IsTrack (kind : TrackKind) (ssrc : ℕ) (t : Track) : Type 0 where
  pub same_kind : t.kind ≡ kind
  pub same_ssrc : t.track_ssrc ≡ ssrc
  pub same_pt : t.pt ≡ (new_track kind ssrc).pt
  pub same_mid : t.mid ≡ (new_track kind ssrc).mid

pub record IsMarked (ssrc : ℕ) (t : Track) : Type 0 where
  pub is_track : IsTrack kind_audio ssrc t
  pub marks : MarksFirst t.first_audio t.written
  pub stamped : AllStamped (new_track kind_audio ssrc) t.written

snoc-AllUnmarked :
    (ss : List Sent) (s : Sent)
    → AllUnmarked ss
    → s.packet.marker ≡ false
    → AllUnmarked (ss ++ s ∷ [])
snoc-AllUnmarked [] s a h = (h, tt)
snoc-AllUnmarked (x ∷ ss) s a h = (a.0, snoc-AllUnmarked ss s a.1 h)

snoc-MarksFirst :
    (first fof : Bool) (ss : List Sent) (s : Sent)
    → MarksFirst first ss
    → s.packet.marker ≡ (fof && first)
    → (first ≡ true → fof ≡ true)
    → MarksFirst (not fof && first) (ss ++ s ∷ [])
snoc-MarksFirst first fof [] s m h u = (ground (arith, u m), ground (arith, u m), tt)
snoc-MarksFirst first fof (x ∷ ss) s m h u =
    (ground arith, m.1, snoc-AllUnmarked ss s m.2 (ground arith))

snoc-AllStamped :
    (t : Track) (ss : List Sent) (s : Sent)
    → AllStamped t ss
    → IsStamped t s
    → AllStamped t (ss ++ s ∷ [])
snoc-AllStamped t [] s a h = (h, tt)
snoc-AllStamped t (x ∷ ss) s a h = (a.0, snoc-AllStamped t ss s a.1 h)

send-first :
    (abs : Bytes) (fof : Bool) (p : Packet) (t : Track)
    → t.kind ≡ kind_audio
    → (send abs fof p t).first_audio ≡ (not fof && t.first_audio)
unfolding send
send-first abs fof p t h = ap (λ k. first_left k fof t.first_audio) h

marked-marker :
    (k : TrackKind) (fof first : Bool) (p : Packet)
    → k ≡ kind_audio
    → (marked k fof first p).marker ≡ (fof && first)
marked-marker k fof first p h = ap (λ j. (marked j fof first p).marker) h

stamps_of-eq :
    (t u : Track) (abs : Bytes)
    → t.kind ≡ u.kind
    → t.mid ≡ u.mid
    → stamps_of t abs ≡ stamps_of u abs
unfolding stamps_of
stamps_of-eq t u abs h k = cc

send-IsMarked :
    (ssrc : ℕ) (now : Time) (fof : Bool) (p : Packet) (t : Track)
    → IsMarked ssrc t
    → (t.first_audio ≡ true → fof ≡ true)
    → IsMarked ssrc (send (abs_send_buf now) fof p t)
unfolding send new_track
send-IsMarked ssrc now fof p t m u =
    let fresh = new_track kind_audio ssrc in
    record {
      is_track = record {
        same_kind = m.is_track.same_kind;
        same_ssrc = m.is_track.same_ssrc;
        same_pt = m.is_track.same_pt;
        same_mid = m.is_track.same_mid;
      };
      marks =
          subst (λ b. MarksFirst b (send (abs_send_buf now) fof p t).written)
            (sym (send-first (abs_send_buf now) fof p t m.is_track.same_kind))
            (snoc-MarksFirst t.first_audio fof t.written _ m.marks
              (marked-marker t.kind fof t.first_audio p m.is_track.same_kind) u);
      stamped = snoc-AllStamped fresh t.written _ m.stamped (
        m.is_track.same_ssrc,
        m.is_track.same_pt,
        (now, stamps_of-eq t fresh (abs_send_buf now) m.is_track.same_kind m.is_track.same_mid),
      );
    }

module _ (fails : ℕ → Option Error) (ssrc : ℕ) (now : Time) where
  write_loop-IsMarked :
      (fof : Bool) (ps : List Packet) (t : Track)
      → IsMarked ssrc t
      → (t.first_audio ≡ true → fof ≡ true)
      → IsMarked ssrc (write_loop fails (abs_send_buf now) fof ps t).0
  unfolding write_loop
  write_loop-IsMarked fof [] t m u = m
  write_loop-IsMarked fof (p ∷ ps) t m u = elim (Option-cases (fails (length t.written))) [
    | inl e ↦
        let sent = send-IsMarked ssrc now fof p t m u in
        let later = write_loop-IsMarked false ps (send (abs_send_buf now) fof p t) sent (λ first.
          ground (arith, u, send-first (abs_send_buf now) fof p t m.is_track.same_kind)) in
        rw (e, write_loop) later
    | inr (x, e) ↦ rw (e, write_loop) (send-IsMarked ssrc now fof p t m u)
  ]

module _ (fails : ℕ → Option Error) (ssrc : ℕ) where
  write_some-IsMarked :
      (now : Time) (ps : List Packet) (t : Track)
      → IsMarked ssrc t
      → IsMarked ssrc (write_some fails now ps t).0
  unfolding write_some write_packets
  write_some-IsMarked now [] t m = m
  write_some-IsMarked now (p ∷ ps) t m =
      let written = write_loop-IsMarked fails ssrc now true (p ∷ ps) t m (λ _. refl) in
      if-either (λ (r : Track × Option Error). IsMarked ssrc r.0) t.has_writer written m

  attach_writer-IsMarked : (t : Track) → IsMarked ssrc t → IsMarked ssrc (attach_writer t)
  unfolding attach_writer
  attach_writer-IsMarked t m = record {
    is_track = record {
      same_kind = m.is_track.same_kind;
      same_ssrc = m.is_track.same_ssrc;
      same_pt = m.is_track.same_pt;
      same_mid = m.is_track.same_mid;
    };
    marks = m.marks;
    stamped = m.stamped;
  }

  track_event-IsMarked :
      (e : TrackEvent) (t : Track) → IsMarked ssrc t → IsMarked ssrc (track_event fails e t)
  unfolding track_event
  track_event-IsMarked attached_writer t m = attach_writer-IsMarked t m
  track_event-IsMarked (sample now ps) t m = write_some-IsMarked now ps t m
  track_event-IsMarked (padding now ps) t m = write_some-IsMarked now ps t m

  track_history-IsMarked :
      (es : List TrackEvent) (t : Track)
      → IsMarked ssrc t
      → IsMarked ssrc (track_history fails es t)
  unfolding track_history
  track_history-IsMarked [] t m = m
  track_history-IsMarked (e ∷ es) t m =
      track_history-IsMarked es (track_event fails e t) (track_event-IsMarked e t m)

new_track-IsMarked : (ssrc : ℕ) → IsMarked ssrc (new_track kind_audio ssrc)
unfolding new_track
new_track-IsMarked ssrc = record {
  is_track = record { same_kind = refl; same_ssrc = refl; same_pt = refl; same_mid = refl };
  marks = refl;
  stamped = tt;
}

-- Whatever samples and padding an audio track is given, before its writer is attached and after,
-- and whatever its writer returns: of the packets that the writer was given the first one carries
-- the marker and no later one, and each has the SSRC and the payload type of the track and the
-- extensions audio level, abs-send-time and sdes-mid.
pub track_history-marks :
    (fails : ℕ → Option Error) (ssrc : ℕ) (es : List TrackEvent)
    → let t = track_history fails es (new_track kind_audio ssrc) in
      MarksFirst t.first_audio t.written × AllStamped (new_track kind_audio ssrc) t.written
track_history-marks fails ssrc es =
    let m =
      track_history-IsMarked fails ssrc es (new_track kind_audio ssrc) (new_track-IsMarked ssrc) in
    (m.marks, m.stamped)
