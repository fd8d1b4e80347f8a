-- ===== src/Client/Registry.antt =====
-- The calls of a Client. A call is a shared object: the map holds its number, and so do the methods
-- that are under way, which go on with it after it has left the map.
use gotgcall.Models.{ConnState, Error, is_terminal}
use gotgcall.Base.{
  Bool, Dict, Option, [], erase, false, find, if◌then◌else◌, none, some, store, true, ℕ, ◌+◌, ◌≡◌,
}

-- instances.Call, as the Client uses it: `run` is any of its methods but Stop, with the inputs that
-- it meets, or what a goroutine of its own does, and returns its error; `is_stopped` says that Stop was called. The laws are what the
-- Client relies on: Stop stops for good.
pub record CallOps (Call Method : Type 0) : Type 0 where
  pub run : Method → Call → Call × Option Error
  pub stop_call : Call → Call
  pub net_of : Call → ConnState
  pub is_stopped : Call → Bool
  pub run_keeps : (m : Method) (c : Call) → is_stopped c ≡ true → is_stopped (run m c).0 ≡ true
  pub stop_stops : (c : Call) → is_stopped (stop_call c) ≡ true

-- Client. `calls` is its map, by chat; `objects` are all calls ever made, by number, and `next` the
-- number of the next one. The mutexes of `createMu` only order the calls of CreateCall and StartRTMP.
pub record Client (Call : Type 0) : Type 0 where
  pub shut : Bool
  pub calls : Dict ℕ
  pub objects : Dict Call
  pub next : ℕ
  pub factory_closed : Bool
  pub disp_closed : Bool

abbrev pub new_client : {Call : Type 0} → Client Call
new_client = record {
  shut = false;
  calls = [];
  objects = [];
  next = 0;
  factory_closed = false;
  disp_closed = false;
}

abbrev pub put : {Call : Type 0} → ℕ → Call → Client Call → Client Call
put o call c = record c { objects = store o call c.objects }

abbrev pub forget : {Call : Type 0} → ℕ → Client Call → Client Call
forget chat c = record c { calls = erase chat c.calls }

-- `c.calls.Store(chatID, …)` of a call that was just made
unfoldable pub register : {Call : Type 0} → ℕ → Call → Client Call → Client Call
register chat call c = record c {
  calls = store chat c.next c.calls;
  objects = store c.next call c.objects;
  next = c.next + 1;
}

module _ {Call Method : Type 0} (ops : CallOps Call Method) where
  open ops use {run, stop_call, net_of, is_stopped}

  -- `call.Stop()` on an object
  abbrev pub stop_found : ℕ → Option Call → Client Call → Client Call
  stop_found o none c = c
  stop_found o (some call) c = put o (stop_call call) c

  unfoldable pub stop_object : ℕ → Client Call → Client Call
  stop_object o c = stop_found o (find o c.objects) c

  -- reap: what LoadAndDelete finds is stopped.
  abbrev pub reap_found : ℕ → Option ℕ → Client Call → Client Call
  reap_found chat none c = c
  reap_found chat (some o) c = stop_object o (forget chat c)

  unfoldable pub reap : ℕ → Client Call → Client Call
  reap chat c = reap_found chat (find chat c.calls) c

  -- The state of the call that the map has for the chat.
  abbrev pub net_found : Option Call → Option ConnState
  net_found none = none
  net_found (some call) = some (net_of call)

  abbrev pub net_entry : Option ℕ → Client Call → Option ConnState
  net_entry none c = none
  net_entry (some o) c = net_found (find o c.objects)

  abbrev pub net_at : ℕ → Client Call → Option ConnState
  net_at chat c = net_entry (find chat c.calls) c

  -- callIsLive: the client afterwards, and the answer. It reaps an entry in a terminal state.
  abbrev pub live_with : ℕ → Option ConnState → Client Call → Client Call × Bool
  live_with chat none c = (c, false)
  live_with chat (some net) c = if is_terminal net then (reap chat c, false) else (c, true)

  unfoldable pub call_is_live : ℕ → Client Call → Client Call × Bool
  call_is_live chat c = live_with chat (net_at chat c) c
