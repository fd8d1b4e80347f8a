-- ===== src/Client/Info/Tests.antt =====
-- What a client with two calls reports.
use gotgcall.Models.{Error, MediaState}
use gotgcall.Instances.Rtmp.{new_rtmp_call}
use gotgcall.Instances.Group.State.{GroupCall, Source, Streamer, Wiring, new_group_call}
use gotgcall.Client.Registry.{Client, new_client, register}
use gotgcall.Client.Methods.{plain_method}
use gotgcall.Client.Interface.{call_ops}
use gotgcall.Client.Info.Reads.{plain_method-reads, reading}
use gotgcall.Client.Info.{call_state}
use gotgcall.Client.Calls.{Call, group_call, rtmp_call, ask_mute, run_call}
use gotgcall.Base.{Option, arith, false, inl, none, refl, some, true, ℕ, ◌≡◌, find, store, ◌⊎◌}

abbrev no_error : ℕ → Option Error
no_error id = none

abbrev silent : Wiring
silent = record { disp = true; stream_end_set = false; connection_set = false; upgrade_set = false }

abbrev a_source : Source
a_source = record { seekable = true; fps = 0 }

abbrev a_sound : Streamer
a_sound = record { id = 0; muted = false; gated = false; running = true; ms_sent = 5000 }

abbrev played : GroupCall
played = record (new_group_call silent) {
  src = some a_source;
  audio_str = some a_sound;
  had_audio = true;
  next_id = 1;
}

abbrev a_stream : Call
a_stream = rtmp_call (new_rtmp_call silent)

abbrev two_calls : Client Call
two_calls = register 8 a_stream (register 7 (group_call played) new_client)

-- Mute in the chat 7, with GetState of it and of the chat 8.
mute_leaves_others :
    let read : Call → MediaState ⊎ Error = λ call. inl (call_state call) in
    let c' = (plain_method (call_ops no_error no_error) 7 ask_mute two_calls).0 in
    (reading read 7 c' ≡ read (run_call no_error no_error ask_mute (group_call played)).0)
    × (reading read 8 c' ≡ reading read 8 two_calls)
unfolding register find store
mute_leaves_others =
    plain_method-reads no_error no_error (λ call. inl (call_state call)) ask_mute 7 0 8 1
      (group_call played) a_stream two_calls refl refl refl refl refl (omega arith)
