-- ===== src/Client/Info.antt =====
-- gotgcall.go: the methods of a Client that read, and the callbacks that it gives to its calls.
pub mod Reads
pub mod Callbacks
mod Tests
use gotgcall.Models.{Error, MediaState, connection_not_found, wrong_mode}
use gotgcall.Instances.Rtmp.{rtmp_elapsed_ms, rtmp_state}
use gotgcall.Instances.Group.State.{GroupCall, current_state, elapsed_ms}
use gotgcall.Client.Registry.{Client}
use gotgcall.Client.Methods.{Found, found, lookup_call, missing}
use gotgcall.Client.Calls.{Call, group_call, rtmp_call}
use gotgcall.Base.{Dict, List, Option, [], find, inl, inr, none, some, ℕ, ◌∷◌, ◌⊎◌}

-- What a reading method returns.
abbrev pub Answer : Type 0 → Type 0
Answer A = A ⊎ Error

-- ElapsedMs and State of the interface, at a time.
unfoldable pub call_elapsed : ℕ → Call → ℕ
call_elapsed now (group_call g) = elapsed_ms g
call_elapsed now (rtmp_call r) = rtmp_elapsed_ms now r

unfoldable pub call_state : Call → MediaState
call_state (group_call g) = current_state g
call_state (rtmp_call r) = rtmp_state r

-- A lookup, then a read of the call.
abbrev pub read_object {ℓ} : {A : Type ℓ} → (Call → A ⊎ Error) → Option Call → A ⊎ Error
read_object read none = inr connection_not_found
read_object read (some call) = read call

abbrev pub read_found {ℓ} : {A : Type ℓ} → (Call → A ⊎ Error) → Found → Client Call → A ⊎ Error
read_found read (missing e) c = inr e
read_found read (found o) c = read_object read (find o c.objects)

-- Time
unfoldable pub time_of : ℕ → ℕ → Client Call → Answer ℕ
unfolding call_elapsed
time_of now chat c = read_found (λ call. inl (call_elapsed now call)) (lookup_call chat c) c

-- GetState
unfoldable pub get_state : ℕ → Client Call → Answer MediaState
unfolding call_state
get_state chat c = read_found (λ call. inl (call_state call)) (lookup_call chat c) c

-- `gc, ok := call.(*instances.GroupCall)`; `ssrc_of` is the SSRC of the connection of a GroupCall.
abbrev pub ssrc_answer : (GroupCall → ℕ) → Call → Answer ℕ
ssrc_answer ssrc_of (group_call g) = inl (ssrc_of g)
ssrc_answer ssrc_of (rtmp_call r) = inr wrong_mode

-- AudioSSRC
unfoldable pub audio_ssrc_of : (GroupCall → ℕ) → ℕ → Client Call → Answer ℕ
audio_ssrc_of ssrc_of chat c = read_found (ssrc_answer ssrc_of) (lookup_call chat c) c

-- Calls, as the list of what Range meets: it does not look at `closed`.
unfoldable pub list_calls : ℕ → Dict ℕ → Client Call → List (ℕ × ℕ)
unfolding call_elapsed
list_calls now [] c = []
list_calls now (e ∷ entries) c =
    let rest = list_calls now entries c in
    elim (find e.1 c.objects) [ none ↦ rest | some call ↦ (e.0, call_elapsed now call) ∷ rest ]
