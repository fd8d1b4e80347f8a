-- ===== src/Wrtc/Setup.antt =====
-- wrtc/native/stack.go: NewStack, with what pion's ICE agent returns, the writer of the tracks, and
-- the connection that closes once.
use gotgcall.Wrtc.Stack.{Stack, new_stack}
use gotgcall.Models.{Error, foreign}
use gotgcall.Base.{
  Bool, List, Option, [], false, has_some, if◌then◌else◌, none, not, refl, some, suc, true, ℕ, ◌&&◌,
  ◌+◌, ◌<◌, ◌==◌, ◌||◌, ◌∷◌, ◌≡◌, arith, subst, sym,
}

-- The steps of NewStack on the agent, each none where it succeeds.
pub record AgentSteps : Type 0 where
  pub new_agent : Option Error
  pub credentials : Option Error
  pub hook_state : Option Error
  pub hook_candidate : Option Error
  pub gathering : Option Error

-- What NewStack leaves; `agents_made` and `agents_closed` count the agents.
pub record Setup : Type 0 where
  pub made_stack : Option Stack
  pub setup_error : Option Error
  pub agents_made : ℕ
  pub agents_closed : ℕ

abbrev pub turned_down : Error → Setup
turned_down e = record {
  made_stack = none;
  setup_error = some e;
  agents_made = 0;
  agents_closed = 0;
}

-- `_ = agent.Close()` and the error
abbrev pub abandoned : Error → Setup
abandoned e = record { made_stack = none; setup_error = some e; agents_made = 1; agents_closed = 1 }

-- From a step on: the error abandons the agent.
abbrev pub or_abandon : Option Error → Setup → Setup
or_abandon none next = next
or_abandon (some e) next = abandoned e

abbrev pub set_up : ℕ → Setup
set_up video_ssrc = record {
  made_stack = some (new_stack video_ssrc);
  setup_error = none;
  agents_made = 1;
  agents_closed = 0;
}

abbrev pub with_agent : Option Error → Setup → Setup
with_agent none next = next
with_agent (some e) next = turned_down e

-- NewStack: whether there is a certificate, the SSRCs, and the steps on the agent.
unfoldable pub try_new_stack : Bool → ℕ → ℕ → AgentSteps → Setup
try_new_stack has_cert audio_ssrc video_ssrc a =
    if not has_cert || audio_ssrc == 0
    then turned_down (foreign 4)
    else with_agent a.new_agent (
        or_abandon a.credentials (
          or_abandon a.hook_state
            (or_abandon a.hook_candidate (or_abandon a.gathering (set_up video_ssrc)))))

-- The first error of the steps
abbrev pub first_of : Option Error → Option Error → Option Error
first_of none e = e
first_of (some e) f = some e

abbrev pub steps_error : AgentSteps → Option Error
steps_error a =
    first_of a.new_agent
      (first_of a.credentials (first_of a.hook_state (first_of a.hook_candidate a.gathering)))

-- The error, the stack and the agents that are open after NewStack.
abbrev pub IsClean : Setup → Option Error → ℕ → Type 0
IsClean s first video_ssrc =
    (s.setup_error ≡ first)
    × (s.made_stack ≡ (if has_some s.setup_error then none else some (new_stack video_ssrc)))
    × (s.agents_made ≡ s.agents_closed + (if has_some s.setup_error then 0 else 1))

agent_steps-Clean :
    (n c h k g : Option Error) (v : ℕ)
    → IsClean
        (with_agent n (or_abandon c (or_abandon h (or_abandon k (or_abandon g (set_up v))))))
        (first_of n (first_of c (first_of h (first_of k g))))
        v
agent_steps-Clean (some e) c h k g v = (refl, refl, refl)
agent_steps-Clean none (some e) h k g v = (refl, refl, refl)
agent_steps-Clean none none (some e) k g v = (refl, refl, refl)
agent_steps-Clean none none none (some e) g v = (refl, refl, refl)
agent_steps-Clean none none none none (some e) v = (refl, refl, refl)
agent_steps-Clean none none none none none v = (refl, refl, refl)

-- With a certificate and an audio SSRC, NewStack fails exactly with the error of the first step that
-- fails. Where one fails it makes no stack and every agent that it made is closed again; where none
-- does it makes a stack that is Connecting, whose agent stays open.
pub try_new_stack-Clean :
    (audio_ssrc video_ssrc : ℕ) (a : AgentSteps)
    → 0 < audio_ssrc
    → IsClean (try_new_stack true audio_ssrc video_ssrc a) (steps_error a) video_ssrc
unfolding try_new_stack
try_new_stack-Clean audio_ssrc video_ssrc a h =
    let set : (audio_ssrc == 0) ≡ false = ground arith in
    let steps = with_agent a.new_agent (
      or_abandon a.credentials (
        or_abandon a.hook_state
          (or_abandon a.hook_candidate (or_abandon a.gathering (set_up video_ssrc))))) in
    subst (λ b. IsClean (if b then turned_down (foreign 4) else steps) (steps_error a) video_ssrc)
      (sym set)
      (agent_steps-Clean a.new_agent a.credentials a.hook_state a.hook_candidate a.gathering
        video_ssrc)

-- srtpWriter.WriteRTP: what marshalling, encrypting and writing return. The flag says that the
-- connection was written to.
unfoldable pub write_rtp : Option Error → Option Error → Option Error → Stack → Bool × Option Error
write_rtp marshalled encrypted wrote s =
    if not (s.has_ice && s.has_srtp) then (false, some (foreign 5)) else elim marshalled [
      | some e ↦ (false, some e)
      | none ↦ elim encrypted [ some e ↦ (false, some e) | none ↦ (true, wrote) ]
    ]

-- onceCloseConn, over a connection whose n-th Close returns `closing n`.
pub record OnceConn : Type 0 where
  pub once_done : Bool
  pub once_error : Option Error
  pub closes_below : ℕ

unfoldable pub close_once : (ℕ → Option Error) → OnceConn → OnceConn × Option Error
close_once closing c = if c.once_done then (c, c.once_error) else (
  record c {
    once_done = true;
    once_error = closing c.closes_below;
    closes_below = c.closes_below + 1;
  },
  closing c.closes_below,
)

-- A read of drainInbound: a packet, a timeout, anything else.
pub data DrainRead : Type 0 where
  read_packet read_timeout read_fails : DrainRead

-- drainInbound over the reads that it makes, with whether its context was cancelled before each: how
-- many it makes.
unfoldable pub drain_inbound : List (Bool × DrainRead) → ℕ
drain_inbound [] = 0
drain_inbound ((cancelled_before, r) ∷ rs) =
    let rest = drain_inbound rs in
    if cancelled_before
    then 0
    else elim r [ read_packet ↦ suc rest | read_timeout ↦ suc rest | read_fails ↦ 1 ]
