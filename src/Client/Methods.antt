-- ===== src/Client/Methods.antt =====
-- The methods of a Client. `during` is what other goroutines do to the client while the method is
-- between its first test or lookup and its work, or inside a method of the call that may block.
use gotgcall.Models.{Error, client_closed, connection_exists, connection_not_found}
use gotgcall.Client.Registry.{
  CallOps, Client, call_is_live, forget, put, reap, register, stop_object,
}
use gotgcall.Base.{Bool, Dict, Option, [], false, find, if◌then◌else◌, none, some, true, ℕ, ◌∷◌}

pub data Found : Type 0 where
  missing : Error → Found
  found : ℕ → Found

-- lookup
abbrev pub found_at : Option ℕ → Found
found_at none = missing connection_not_found
found_at (some o) = found o

unfoldable pub lookup_call : {Call : Type 0} → ℕ → Client Call → Found
lookup_call chat c = if c.shut then missing client_closed else found_at (find chat c.calls)

-- What comes of making a call. NewGroupCall may fail, and takes its stack from the factory;
-- NewRTMPCall does neither.
pub data Made (Call : Type 0) : Type 0 where
  not_made : Error → Made Call
  made : Call → Made Call
  made_rtmp : Call → Made Call

-- NewGroupCall on a factory that may be closed: newStack then returns ErrClosed.
unfoldable pub from_factory : {Call : Type 0} → Bool → Made Call → Made Call
from_factory down (not_made e) = if down then not_made client_closed else not_made e
from_factory down (made call) = if down then not_made client_closed else made call
from_factory down (made_rtmp call) = made_rtmp call

module _ {Call Method : Type 0} (ops : CallOps Call Method) where
  open ops use {run, stop_call}

  -- Once nobody has the chat: NewGroupCall and CreateLocalParams, whose errors are given.
  abbrev pub create_made : ℕ → Made Call → Option Error → Client Call → Client Call × Option Error
  create_made chat (not_made e) params c = (c, some e)
  create_made chat (made call) none c = (register chat call c, none)
  create_made chat (made call) (some e) c = (reap ops chat (register chat call c), some e)
  create_made chat (made_rtmp call) params c = (register chat call c, none)

  abbrev pub create_unless :
      ℕ → Made Call → Option Error → Client Call × Bool → Client Call × Option Error
  create_unless chat m params (c, true) = (c, some connection_exists)
  create_unless chat m params (c, false) =
      create_made chat (from_factory c.factory_closed m) params c

  -- CreateCall, and StartRTMP, for which `m` is `made_rtmp`. `during` is what happens
  -- from the test of `closed` to having the mutex of the chat.
  unfoldable pub create_call :
      ℕ
      → Made Call
      → Option Error
      → (Client Call → Client Call)
      → Client Call
      → Client Call × Option Error
  create_call chat m params during c =
      if c.shut
      then (c, some client_closed)
      else create_unless chat m params (call_is_live ops chat (during c))

  -- A method of the object: the call afterwards, and the error.
  abbrev pub ran : ℕ → Call × Option Error → Client Call → Client Call × Option Error
  ran o r c = (put o r.0 c, r.1)

  abbrev pub run_found : ℕ → Method → Option Call → Client Call → Client Call × Option Error
  run_found o m none c = (c, none)
  run_found o m (some call) c = ran o (run m call) c

  unfoldable pub run_object : ℕ → Method → Client Call → Client Call × Option Error
  run_object o m c = run_found o m (find o c.objects) c

  -- Pause, Resume, Mute, Unmute and SeekBy
  abbrev pub plain_at : Found → Method → Client Call → Client Call × Option Error
  plain_at (missing e) m c = (c, some e)
  plain_at (found o) m c = run_object o m c

  unfoldable pub plain_method : ℕ → Method → Client Call → Client Call × Option Error
  plain_method chat m c = plain_at (lookup_call chat c) m c

  -- `if err … { c.reap(chatID) }`
  abbrev pub reap_if : ℕ → Client Call × Option Error → Client Call × Option Error
  reap_if chat (c, none) = (c, none)
  reap_if chat (c, some e) = (reap ops chat c, some e)

  -- Connect and SetStreamSources: the method of the call may block, and its error reaps.
  abbrev pub setup_at :
      ℕ → Found → Method → (Client Call → Client Call) → Client Call → Client Call × Option Error
  setup_at chat (missing e) m during c = (c, some e)
  setup_at chat (found o) m during c = reap_if chat (run_object o m (during c))

  unfoldable pub setup_method :
      ℕ → Method → (Client Call → Client Call) → Client Call → Client Call × Option Error
  setup_method chat m during c = setup_at chat (lookup_call chat c) m during c

  -- Stop, where `during` is what happens from the lookup to the deletion; the error of the call's Stop
  -- is left out.
  abbrev pub stop_at :
      ℕ → Found → (Client Call → Client Call) → Client Call → Client Call × Option Error
  stop_at chat (missing e) during c = (c, some e)
  stop_at chat (found o) during c = (stop_object ops o (forget chat (during c)), none)

  unfoldable pub stop_chat :
      ℕ → (Client Call → Client Call) → Client Call → Client Call × Option Error
  stop_chat chat during c = stop_at chat (lookup_call chat c) during c

  -- The Range of Close
  unfoldable pub stop_all : Dict ℕ → Client Call → Client Call
  stop_all [] c = c
  stop_all (e ∷ es) c = stop_all es (stop_object ops e.1 c)

  -- Close
  unfoldable pub close_client : Client Call → Client Call
  unfolding stop_all
  close_client c = if c.shut then c else record (stop_all c.calls (record c { shut = true })) {
    factory_closed = true;
    disp_closed = true;
  }
