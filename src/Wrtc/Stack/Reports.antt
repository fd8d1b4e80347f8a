-- ===== src/Wrtc/Stack/Reports.antt =====
-- The states that a stack reports.
use gotgcall.Wrtc.Stack.{Stack, state_eq, transition_to, run_callback, take_out}
use gotgcall.Models.{ConnState, connecting}
use gotgcall.Base.{
  Bool-cases, List, [], arith, false, inl, inr, true, ◌++◌, ◌∷◌, ◌≡◌, Option-cases, ap,
  append_assoc, if◌then◌else◌, none, not, refl, some, subst, suc, sym, zero, ℕ, ◌+◌, ◌==◌, ◌||◌,
  ◌∙◌, ◌⊎◌,
}

-- No state follows itself, and the last one is `now`.
abbrev pub IsTrace : ConnState → List ConnState → ConnState → Type 0
IsTrace from [] now = from ≡ now
IsTrace from (s ∷ ss) now = (state_eq from s ≡ false) × IsTrace s ss now

IsTrace-snoc :
    (from now next : ConnState) (ss : List ConnState)
    → IsTrace from ss now
    → state_eq now next ≡ false
    → IsTrace from (ss ++ next ∷ []) next
IsTrace-snoc from now next [] t n = ground arith
IsTrace-snoc from now next (s ∷ ss) t n = (t.0, IsTrace-snoc s now next ss t.1 n)

pub state_eq-path : (s t : ConnState) → state_eq s t ≡ true → s ≡ t
state_eq-path s t h = ground arith

-- How often a state occurs.
unfoldable pub count : ConnState → List ConnState → ℕ
count c [] = 0
count c (s ∷ ss) = let rest = count c ss in if state_eq c s then rest + 1 else rest

pub count-append :
    (c : ConnState) (ss ts : List ConnState) → count c (ss ++ ts) ≡ count c ss + count c ts
unfolding count
count-append c [] ts = omega arith
count-append c (s ∷ ss) ts = ground (arith, count-append c ss ts)

count-take_out :
    (c : ConnState) (n : ℕ) (ss : List ConnState) (r : ConnState × List ConnState)
    → take_out n ss ≡ some r
    → count c ss ≡ count c (r.0 ∷ []) + count c r.1
unfolding take_out count
count-take_out c n [] r h = cc
count-take_out c zero (s ∷ ss) r h = ground arith
count-take_out c (suc n) (s ∷ ss) r h = elim (Option-cases (take_out n ss)) [
  | inl e ↦ ground (arith, e)
  | inr (q, e) ↦ ground (arith, e, count-take_out c n ss q e)
]

take_out-first :
    (n : ℕ) (ss : List ConnState) (r : ConnState × List ConnState)
    → take_out n ss ≡ some r
    → (n == 0) ≡ true
    → r.0 ∷ r.1 ≡ ss
unfolding take_out
take_out-first n [] r h z = cc
take_out-first zero (s ∷ ss) r h z = ground arith
take_out-first (suc n) (s ∷ ss) r h z = absurd (ground arith)

-- What a listener from the start on hears. `changes` leads from Connecting to the state of now; each
-- change was reported once, or its callback is under way; the reports come in the order of the
-- changes, unless a callback was overtaken.
pub record IsHeard (s : Stack) : Type 0 where
  pub listening : s.has_listener ≡ true
  pub trace : IsTrace connecting s.changes s.net
  pub once : (c : ConnState) → count c s.reports + count c s.under_way ≡ count c s.changes
  pub in_order : (s.overtaken ≡ true) ⊎ (s.reports ++ s.under_way ≡ s.changes)

transition_to-same :
    (next : ConnState) (s : Stack)
    → state_eq s.net next ≡ true
    → transition_to next s ≡ record s { net = next }
unfolding transition_to
transition_to-same next s y = rw (y, transition_to) refl

transition_to-change :
    (next : ConnState) (s : Stack)
    → s.has_listener ≡ true
    → state_eq s.net next ≡ false
    → transition_to next s ≡ record s {
      net = next;
      changes = s.changes ++ next ∷ [];
      under_way = s.under_way ++ next ∷ [];
    }
unfolding transition_to
transition_to-change next s l n = ground arith

pub transition_to-IsHeard :
    (next : ConnState) (s : Stack) → IsHeard s → IsHeard (transition_to next s)
transition_to-IsHeard next s v = elim (Bool-cases (state_eq s.net next)) [
  | inl y ↦ subst IsHeard (sym (transition_to-same next s y)) (record {
    listening = v.listening;
    trace = subst (λ x. IsTrace connecting s.changes x) (state_eq-path s.net next y) v.trace;
    once = v.once;
    in_order = v.in_order;
  })
  | inr n ↦ subst IsHeard (sym (transition_to-change next s v.listening n)) (record {
    listening = v.listening;
    trace = IsTrace-snoc connecting s.net next s.changes v.trace n;
    once = λ c. omega (
      arith,
      v.once c,
      count-append c s.under_way (next ∷ []),
      count-append c s.changes (next ∷ []),
    );
    in_order = elim v.in_order [
      | inl o ↦ inl o
      | inr e ↦
          inr (sym (append_assoc s.reports s.under_way (next ∷ [])) ∙ ap (λ l. l ++ next ∷ []) e)
    ];
  })
]

run_callback-none : (n : ℕ) (s : Stack) → take_out n s.under_way ≡ none → run_callback n s ≡ s
unfolding run_callback
run_callback-none n s e = rw (e, run_callback) refl

run_callback-some :
    (n : ℕ) (s : Stack) (r : ConnState × List ConnState)
    → take_out n s.under_way ≡ some r
    → run_callback n s ≡ record s {
      under_way = r.1;
      reports = s.reports ++ r.0 ∷ [];
      overtaken = s.overtaken || not (n == 0);
    }
unfolding run_callback
run_callback-some n s r e = rw (e, run_callback) refl

still_in_order :
    (n : ℕ) (s : Stack) (r : ConnState × List ConnState)
    → take_out n s.under_way ≡ some r
    → (s.overtaken ≡ true) ⊎ (s.reports ++ s.under_way ≡ s.changes)
    → ((s.overtaken || not (n == 0)) ≡ true) ⊎ ((s.reports ++ r.0 ∷ []) ++ r.1 ≡ s.changes)
still_in_order n s r e (inl o) = inl (ground arith)
still_in_order n s r e (inr h) = elim (Bool-cases (n == 0)) [
  | inl z ↦ inr (
      append_assoc s.reports (r.0 ∷ []) r.1
      ∙ ap (λ l. s.reports ++ l) (take_out-first n s.under_way r e z)
      ∙ h)
  | inr z ↦ inl (ground arith)
]

pub run_callback-IsHeard : (n : ℕ) (s : Stack) → IsHeard s → IsHeard (run_callback n s)
run_callback-IsHeard n s v = elim (Option-cases (take_out n s.under_way)) [
  | inl e ↦ subst IsHeard (sym (run_callback-none n s e)) v
  | inr (r, e) ↦ subst IsHeard (sym (run_callback-some n s r e)) (record {
    listening = v.listening;
    trace = v.trace;
    once = λ c.
        omega (
          arith,
          v.once c,
          count-append c s.reports (r.0 ∷ []),
          count-take_out c n s.under_way r e,
        );
    in_order = still_in_order n s r e v.in_order;
  })
]
