-- ===== src/Client/Info/Callbacks.antt =====
-- gotgcall.go: OnStreamEnd, OnConnectionChange, OnUpgrade and eventsFor. A function of the user is a
-- number; `deliver_callback` is what a callback that the dispatcher runs does.
use gotgcall.Models.{ConnState, MediaState}
use gotgcall.Instances.Group.State.{Callback, on_connection_change, on_stream_end, on_upgrade}
use gotgcall.Base.{List, Option, [], none, refl, some, ℕ, ◌++◌, ◌∷◌, ◌≡◌, ap, ◌∙◌}

-- The fields of Client that hold the functions.
pub record Hooks : Type 0 where
  pub end_hook : Option ℕ
  pub connection_hook : Option ℕ
  pub upgrade_hook : Option ℕ

-- The registrations, each with the function or nil.
pub data Registration : Type 0 where
  set_end : Option ℕ → Registration
  set_connection : Option ℕ → Registration
  set_upgrade : Option ℕ → Registration

unfoldable pub set_hook : Registration → Hooks → Hooks
set_hook (set_end f) h = record h { end_hook = f }
set_hook (set_connection f) h = record h { connection_hook = f }
set_hook (set_upgrade f) h = record h { upgrade_hook = f }

-- A call of a function of the user: the function, the chat, the arguments.
pub record UserCall : Type 0 where
  pub hook : ℕ
  pub for_chat : ℕ
  pub event : Callback

abbrev pub hook_of : Callback → Hooks → Option ℕ
hook_of (on_stream_end t d e) h = h.end_hook
hook_of (on_connection_change s) h = h.connection_hook
hook_of (on_upgrade s) h = h.upgrade_hook

abbrev pub call_hook : Option ℕ → ℕ → Callback → List UserCall
call_hook none chat cb = []
call_hook (some f) chat cb = record { hook = f; for_chat = chat; event = cb } ∷ []

-- The functions of eventsFor
unfoldable pub deliver_callback : ℕ → Callback → Hooks → List UserCall
deliver_callback chat cb h = call_hook (hook_of cb h) chat cb

-- What happens in turn: a registration, or a callback of a chat that the dispatcher runs.
pub data HookEvent : Type 0 where
  registers : Registration → HookEvent
  runs : ℕ → Callback → HookEvent

-- The calls of the functions of the user
unfoldable pub deliveries : List HookEvent → Hooks → List UserCall
unfolding set_hook deliver_callback
deliveries [] h = []
deliveries (registers r ∷ es) h = deliveries es (set_hook r h)
deliveries (runs chat cb ∷ es) h = deliver_callback chat cb h ++ deliveries es h

-- Registers no function for the end of a stream.
abbrev pub KeepsEnd : List HookEvent → Type 0
KeepsEnd [] = Unit
KeepsEnd (registers (set_end f) ∷ es) = ⊥
KeepsEnd (registers (set_connection f) ∷ es) = KeepsEnd es
KeepsEnd (registers (set_upgrade f) ∷ es) = KeepsEnd es
KeepsEnd (runs chat cb ∷ es) = KeepsEnd es

-- The ends of streams among the callbacks that are run, by chat, and among the calls.
abbrev pub ends_run : List HookEvent → List (ℕ × Callback)
ends_run [] = []
ends_run (registers r ∷ es) = ends_run es
ends_run (runs chat (on_stream_end t d e) ∷ es) = (chat, on_stream_end t d e) ∷ ends_run es
ends_run (runs chat (on_connection_change s) ∷ es) = ends_run es
ends_run (runs chat (on_upgrade s) ∷ es) = ends_run es

abbrev pub ends_heard : List UserCall → List UserCall
ends_heard [] = []
ends_heard (u ∷ us) = elim u.event [
  | on_stream_end t d e ↦ u ∷ ends_heard us
  | on_connection_change s ↦ ends_heard us
  | on_upgrade s ↦ ends_heard us
]

abbrev pub heard_by : ℕ → List (ℕ × Callback) → List UserCall
heard_by f [] = []
heard_by f (p ∷ ps) = record { hook = f; for_chat = p.0; event = p.1 } ∷ heard_by f ps

ends_heard-connection :
    (o : Option ℕ) (chat : ℕ) (s : ConnState) (us : List UserCall)
    → ends_heard (call_hook o chat (on_connection_change s) ++ us) ≡ ends_heard us
ends_heard-connection none chat s us = refl
ends_heard-connection (some f) chat s us = refl

ends_heard-upgrade :
    (o : Option ℕ) (chat : ℕ) (s : MediaState) (us : List UserCall)
    → ends_heard (call_hook o chat (on_upgrade s) ++ us) ≡ ends_heard us
ends_heard-upgrade none chat s us = refl
ends_heard-upgrade (some f) chat s us = refl

deliveries-ends :
    (es : List HookEvent) (h : Hooks) (f : ℕ)
    → h.end_hook ≡ some f
    → KeepsEnd es
    → ends_heard (deliveries es h) ≡ heard_by f (ends_run es)
unfolding deliveries set_hook deliver_callback
deliveries-ends [] h f e k = refl
deliveries-ends (registers (set_end g) ∷ es) h f e k = absurd k
deliveries-ends (registers (set_connection g) ∷ es) h f e k =
    deliveries-ends es (set_hook (set_connection g) h) f e k
deliveries-ends (registers (set_upgrade g) ∷ es) h f e k =
    deliveries-ends es (set_hook (set_upgrade g) h) f e k
deliveries-ends (runs chat (on_stream_end t d x) ∷ es) h f e k =
    let cb = on_stream_end t d x in
    ap (λ o. ends_heard (call_hook o chat cb ++ deliveries es h)) e
    ∙ ap (λ us. record { hook = f; for_chat = chat; event = cb } ∷ us) (deliveries-ends es h f e k)
deliveries-ends (runs chat (on_connection_change s) ∷ es) h f e k =
    ends_heard-connection h.connection_hook chat s (deliveries es h) ∙ deliveries-ends es h f e k
deliveries-ends (runs chat (on_upgrade s) ∷ es) h f e k =
    ends_heard-upgrade h.upgrade_hook chat s (deliveries es h) ∙ deliveries-ends es h f e k

-- From the registration of a function for the ends of streams to the next one, that function is
-- called once for each end of a stream that the dispatcher runs, in their order and each with the
-- chat of its call, those included that were queued before the registration.
pub deliveries-registered :
    (es : List HookEvent) (h : Hooks) (f : ℕ)
    → KeepsEnd es
    → ends_heard (deliveries (registers (set_end (some f)) ∷ es) h) ≡ heard_by f (ends_run es)
unfolding set_hook deliveries
deliveries-registered es h f k = deliveries-ends es (set_hook (set_end (some f)) h) f refl k
