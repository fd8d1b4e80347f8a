-- ===== src/Instances/Rtmp/Ends.antt =====
-- Which ends of the stream an RTMP call reports.
use gotgcall.Models.{Error, closed}
use gotgcall.Instances.Rtmp.{
  Process, RtmpCall, rtmp_net_state, seek_rtmp_by, seek_rtmp_to, set_rtmp_source, source_end,
  stop_ffmpeg, stop_rtmp,
}
use gotgcall.Base.{
  Option, [], add_signed-under, arith, false, none, some, true, ℕ, ◌++◌, ◌<◌, ◌^◌, ◌∷◌, ◌≡◌, ◌≤◌,
  negsuc, ap, refl, sym, ◌+◌, ◌∙◌,
}

module _ (kill_error : ℕ → Option Error) where
  -- SetSource on an open RTMP call whose ffmpeg runs, with a listener for OnStreamEnd, reports the
  -- end of the stream that it replaces.
  pub set_rtmp_source-source_end :
      (fails : Option Error) (now : ℕ) (r : RtmpCall) (id : ℕ)
      → r.call_closed ≡ false
      → r.wiring.disp ≡ true
      → r.wiring.stream_end_set ≡ true
      → r.proc ≡ some (record { id = id; hooked = true; running = true })
      → (set_rtmp_source kill_error true fails now (λ c. c) r).0.submitted
        ≡ r.submitted ++ source_end (kill_error id) ∷ []
  unfolding set_rtmp_source stop_ffmpeg
  set_rtmp_source-source_end fails now r id c d w p = ground arith

  stop_rtmp-fields :
      (r : RtmpCall)
      → r.call_closed ≡ false
      → ((stop_rtmp kill_error r).call_closed ≡ true)
        × ((stop_rtmp kill_error r).paused ≡ false)
        × ((stop_rtmp kill_error r).proc ≡ none)
  unfolding stop_rtmp
  stop_rtmp-fields r c = ground arith

  -- The call with a process started at `now`.
  abbrev late_call : ℕ → RtmpCall → RtmpCall
  late_call now r = record r {
    has_path = true;
    resume_ms = 0;
    proc = some (record { id = r.next_id; hooked = true; running = true });
    started_at = some (now, 0);
    next_id = r.next_id + 1;
  }

  late_spawn :
      (now : ℕ) (r s : RtmpCall)
      → r.call_closed ≡ false
      → s.paused ≡ false
      → s.proc ≡ none
      → set_rtmp_source kill_error true none now (λ c. s) r ≡ (late_call now s, none)
  unfolding set_rtmp_source stop_ffmpeg
  late_spawn now r s c p n = ground arith

  set_rtmp_source-late :
      (now : ℕ) (r : RtmpCall)
      → r.call_closed ≡ false
      → set_rtmp_source kill_error true none now (stop_rtmp kill_error) r
        ≡ (late_call now (stop_rtmp kill_error r), none)
  unfolding set_rtmp_source
  set_rtmp_source-late now r c =
      let f = stop_rtmp-fields r c in late_spawn now r (stop_rtmp kill_error r) c f.1 f.2

  closed-net : (r : RtmpCall) → r.call_closed ≡ true → rtmp_net_state r ≡ closed
  unfolding rtmp_net_state
  closed-net r c = ground arith

  closed-stop : (r : RtmpCall) → r.call_closed ≡ true → stop_rtmp kill_error r ≡ r
  unfolding stop_rtmp
  closed-stop r c = ground arith

  -- A Stop that comes while SetSource waits for the lock leaves the new ffmpeg running, if it
  -- starts: the call is closed, and another Stop changes nothing.
  pub set_rtmp_source-stop_rtmp :
      (now : ℕ) (r : RtmpCall)
      → r.call_closed ≡ false
      → let (r', err) = set_rtmp_source kill_error true none now (stop_rtmp kill_error) r in
        (err ≡ none)
        × (rtmp_net_state r' ≡ closed)
        × ((p : Process) × (r'.proc ≡ some p) × (p.running ≡ true))
        × (stop_rtmp kill_error r' ≡ r')
  set_rtmp_source-stop_rtmp now r c =
      let lands = set_rtmp_source-late now r c in
      let f = stop_rtmp-fields r c in
      (
        ap (λ x. x.1) lands,
        ap (λ x. rtmp_net_state x.0) lands
            ∙ closed-net (late_call now (stop_rtmp kill_error r)) f.0,
        (_, ap (λ x. x.0.proc) lands, refl),
        ap (λ x. stop_rtmp kill_error x.0) lands
            ∙ closed-stop (late_call now (stop_rtmp kill_error r)) f.0
            ∙ sym (ap (λ x. x.0) lands),
      )

  -- SeekBy to before the start of a paused open RTMP call with a source and without a process
  -- reports no end of stream.
  pub seek_rtmp_by-paused :
      (fails : Option Error) (now n : ℕ) (r : RtmpCall)
      → r.call_closed ≡ false
      → r.has_path ≡ true
      → r.paused ≡ true
      → r.proc ≡ none
      → r.resume_ms ≤ n
      → n < 2 ^ 63
      → let (r', err) = seek_rtmp_by kill_error fails now (negsuc n) r in
        (err ≡ none) × (r'.submitted ≡ r.submitted) × (r'.resume_ms ≡ 0)
  unfolding seek_rtmp_by seek_rtmp_to stop_ffmpeg
  seek_rtmp_by-paused fails now n r c h p e le lt = ground (arith, add_signed-under r.resume_ms n)
