-- ===== src/Client/Heard.antt =====
-- A call and the stack below it.
use gotgcall.Wrtc.Stack.History.{StackEvent, stack_history, stack_history-IsHeard}
use gotgcall.Wrtc.Stack.{listen, new_stack, state_eq}
use gotgcall.Wrtc.Stack.Reports.{state_eq-path, IsTrace, count}
use gotgcall.Models.{ConnState, is_connected, is_terminal, connecting}
use gotgcall.Instances.Group.Tasks.{on_state}
use gotgcall.Instances.Group.State.{GroupCall, Wiring, new_group_call}
use gotgcall.Client.Recovery.{hears}
use gotgcall.Base.{
  Bool, List, [], arith, subst, sym, ◌||◌, ◌∷◌, ◌≡◌, refl, true, ℕ, Bool-cases, ap, append-nil,
  false, inl, inr, ◌++◌, ◌<◌, ◌∙◌, ◌⊎◌,
}

-- `now` is the state after the reports, and the channel `connected` is closed from the first report
-- that lets SetSource go on.
abbrev pub lets_go : ConnState → Bool
lets_go s = is_connected s || is_terminal s

on_state-heard :
    (s : ConnState) (g : GroupCall)
    → ((on_state s g).net_state ≡ s)
      × ((on_state s g).connected_closed ≡ (g.connected_closed || lets_go s))
unfolding on_state
on_state-heard s g = ground arith

hears-net_state :
    (ss : List ConnState) (g : GroupCall) (now : ConnState)
    → IsTrace g.net_state ss now
    → (hears ss g).net_state ≡ now
unfolding hears
hears-net_state [] g now t = t
hears-net_state (s ∷ ss) g now t =
    let e = (on_state-heard s g).0 in
    hears-net_state ss (on_state s g) now (subst (λ x. IsTrace x ss now) (sym e) t.1)

stays_closed :
    (ss : List ConnState) (g : GroupCall)
    → g.connected_closed ≡ true
    → (hears ss g).connected_closed ≡ true
unfolding hears
stays_closed [] g h = h
stays_closed (s ∷ ss) g h = stays_closed ss (on_state s g) (ground (arith, on_state-heard s g))

-- The state that is reported at some point closes the channel if it is one that lets SetSource go on.
closed-reported :
    (c : ConnState) (ss : List ConnState) (g : GroupCall)
    → lets_go c ≡ true
    → 0 < count c ss
    → (hears ss g).connected_closed ≡ true
unfolding hears count
closed-reported c [] g l h = absurd (omega arith)
closed-reported c (s ∷ ss) g l h = elim (Bool-cases (state_eq c s)) [
  | inl e ↦ stays_closed ss (on_state s g) (
      (on_state-heard s g).1
      ∙ ap (λ x. g.connected_closed || lets_go x) (sym (state_eq-path c s e))
      ∙ ground (arith, l))
  | inr n ↦ closed-reported c ss (on_state s g) l (ground arith)
]

state_eq_refl : (s : ConnState) → state_eq s s ≡ true
state_eq_refl s = ground arith

-- The last state of a trace occurs in it, if it is not the first one.
count-last :
    (from now : ConnState) (ss : List ConnState)
    → IsTrace from ss now
    → (from ≡ now) ⊎ (0 < count now ss)
unfolding count
count-last from now [] t = inl t
count-last from now (s ∷ ss) t = elim (count-last s now ss t.1) [
  | inl e ↦
      inr (subst (λ x. 0 < count x (s ∷ ss)) e (unfold count in ground (arith, state_eq_refl s)))
  | inr h ↦ inr (ground arith)
]

new_call-net_state : (w : Wiring) → (new_group_call w).net_state ≡ connecting
unfolding new_group_call
new_call-net_state w = refl

goes_on :
    (video_ssrc : ℕ) (es : List StackEvent) (w : Wiring)
    → (stack_history es (listen (new_stack video_ssrc))).under_way ≡ []
    → let s = stack_history es (listen (new_stack video_ssrc)) in
      (lets_go s.net ≡ false) ⊎ ((hears s.reports (new_group_call w)).connected_closed ≡ true)
unfolding count
goes_on video_ssrc es w quiet =
    let s = stack_history es (listen (new_stack video_ssrc)) in
    let heard = (stack_history-IsHeard video_ssrc es).0 in
    elim (Bool-cases (lets_go s.net)) [
      | inr n ↦ inl n
      | inl l ↦ inr (
          closed-reported s.net s.reports (new_group_call w) l
            (elim (count-last connecting s.net s.changes heard.trace) [
              | inl e ↦ absurd (ground (arith, ap lets_go e, l))
              | inr h ↦
                  let all = heard.once s.net in
                  let none_left = ap (count s.net) quiet in omega arith
            ]))
    ]

follows :
    (video_ssrc : ℕ) (es : List StackEvent) (w : Wiring)
    → (stack_history es (listen (new_stack video_ssrc))).under_way ≡ []
    → let s = stack_history es (listen (new_stack video_ssrc)) in
      (s.overtaken ≡ true) ⊎ ((hears s.reports (new_group_call w)).net_state ≡ s.net)
follows video_ssrc es w quiet =
    let s = stack_history es (listen (new_stack video_ssrc)) in
    let heard = (stack_history-IsHeard video_ssrc es).0 in
    elim heard.in_order [
      | inl o ↦ inl o
      | inr e ↦
          let all = sym (append-nil s.reports) ∙ ap (λ l. s.reports ++ l) (sym quiet) ∙ e in
          inr (
            hears-net_state s.reports (new_group_call w) s.net (
              subst (λ x. IsTrace x s.reports s.net) (sym (new_call-net_state w))
                (subst (λ l. IsTrace connecting l s.net) (sym all) heard.trace)))
    ]

-- Whatever happens to a stack, once no callback is under way any more, the call that hears its
-- reports has closed the channel on which SetSource waits if the stack is Connected, Failed or
-- Closed, in whatever order the callbacks were called; and it has the state of the stack for its
-- NetState, unless one callback overtook another.
pub hears-stack_history :
    (video_ssrc : ℕ) (es : List StackEvent) (w : Wiring)
    → (stack_history es (listen (new_stack video_ssrc))).under_way ≡ []
    → let s = stack_history es (listen (new_stack video_ssrc)) in
      let g = hears s.reports (new_group_call w) in
      ((lets_go s.net ≡ false) ⊎ (g.connected_closed ≡ true))
      × ((s.overtaken ≡ true) ⊎ (g.net_state ≡ s.net))
hears-stack_history video_ssrc es w quiet =
    (goes_on video_ssrc es w quiet, follows video_ssrc es w quiet)
